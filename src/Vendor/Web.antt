-- ===== src/Vendor/Web.antt =====
-- reqwest's requests and responses, and chrono's dates.
use swiyu_rs.Prelude.{ℕ, Bool, ◌&&◌, Option, none, List, [], Result, ok, err, leb, ltb}
use swiyu_rs.Prelude.Text.{Text}

-- A request, with its query and form, its bearer token, and its body with the type of it.
pub record Request : Type 0 where
  pub verb : Text
  pub url : Text
  pub query : List (Text × Text)
  pub form : List (Text × Text)
  pub token : Option Text
  pub content_type : Option Text
  pub body : Option Text

abbrev pub request : Text → Text → Request
request verb url = record {
  verb = verb;
  url = url;
  query = [];
  form = [];
  token = none;
  content_type = none;
  body = none;
}

-- `all` is the whole body as text; `head` is what a read of so many bytes at most gives.
pub record Response : Type 0 where
  pub status : ℕ
  pub all : Result Text Text
  pub head : ℕ → Result Text (List ℕ)

-- What the network answers to a request while a command runs, or the text of the failure.
pub record Web : Type 0 where
  pub send : Request → Result Text Response
  pub from_utf8 : List ℕ → Option Text

-- `DateTime::from_timestamp(secs as i64, 0)`, as a date with seconds and `Z`.
pub record Dates : Type 0 where
  pub from_timestamp : ℕ → Option Text

-- `StatusCode::is_success`, and `is_client_error`
abbrev pub is_success : ℕ → Bool
is_success status = leb 200 status && ltb status 300

abbrev pub is_client_error : ℕ → Bool
is_client_error status = leb 400 status && ltb status 500

-- `unwrap_or_default` of a text
abbrev pub text_or_empty : Result Text Text → Text
text_or_empty (ok s) = s
text_or_empty (err e) = []
