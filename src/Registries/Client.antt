-- ===== src/Registries/Client.antt =====
-- swiyu-registries/src/common: the errors and the token; what all requests of the clients share.
use swiyu_rs.Prelude.{
  ℕ, Bool, true, false, ◌||◌, ◌&&◌, [], ◌∷◌, ◌++◌, Result, ok, err, ◌>>=◌, ok_or, map_err, leb, ltb,
  ◌==◌, if◌then◌else◌,
}
use swiyu_rs.Prelude.Text.{Text, text, is_empty}
use swiyu_rs.Vendor.Web.{Request, Response, Web, is_success, text_or_empty}
use swiyu_rs.Json.Interface.{Json}
use swiyu_rs.Json.Access.{member, as_str}
use swiyu_rs.Vendor.Crypto.{JsonText}

pub data RegistryError : Type 0 where
  transport decode : Text → RegistryError
  http_status : (status : ℕ) → (body : Text) → RegistryError

unfoldable pub is_retryable : RegistryError → Bool
is_retryable (transport e) = true
is_retryable (http_status status body) = (status == 429) || (leb 500 status && ltb status 600)
is_retryable (decode e) = false

-- `trim_end_matches('/')`
unfoldable pub trim_slashes : Text → Text
trim_slashes [] = []
trim_slashes (c ∷ s) =
    let rest = trim_slashes s in if is_empty rest && (c == b'/') then [] else c ∷ rest

abbrev answered : Response → Result RegistryError Response
answered response =
    if is_success response.status
    then ok response
    else err (http_status response.status (text_or_empty response.all))

module _ ⦃w : Web⦄ where
  -- A request whose answer is a success, or the error of its status with its body
  unfoldable pub send_checked : Request → Result RegistryError Response
  send_checked request = do response ← map_err transport (w.send request); answered response

module _ ⦃j : Json⦄ where
  open j use {Value}

  -- `read_string`, that the clients share
  unfoldable pub read_string : Value → Text → Result RegistryError Text
  read_string body field = do
    value ← ok_or (member body field) (decode (text "missing " ++ field))
    ok_or (as_str value) (decode (field ++ text " is not a string"))

module _ ⦃j : Json⦄ ⦃t : JsonText j⦄ where
  open j use {Value}

  -- `response.json()`
  unfoldable pub json_body : Response → Result RegistryError Value
  json_body response =
      map_err (λ e. decode (text "response is not valid JSON: " ++ e)) (response.all >>= t.from_str)
