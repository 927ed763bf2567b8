-- ===== src/Tool/Http.antt =====
-- swiyu-didtool/src/cmd/http.rs, and `iso8601` of cmd/mod.rs.
use swiyu_rs.Prelude.{
  ℕ, ◌+◌, ◌*◌, none, some, Result, ok, err, ◌>>=◌, guard, ok_or, map_err, length, take, leb, ◌==◌,
  if◌then◌else◌,
}
use swiyu_rs.Prelude.Text.{Text, text}
use swiyu_rs.Prelude.Decimal.{decimal}
use swiyu_rs.Vendor.Web.{Response, Web, Dates, request, is_success, text_or_empty}

pub data FetchOutcome : Type 0 where
  found : Text → FetchOutcome
  not_found : FetchOutcome

pub data FetchError : Type 0 where
  http io : (url source : Text) → FetchError
  http_status : (url : Text) → (status : ℕ) → (body : Text) → FetchError
  too_large : (url : Text) → (max_bytes : ℕ) → FetchError
  non_utf8 : (url : Text) → FetchError

unfoldable pub max_bytes : ℕ
max_bytes = 1024 * 1024

abbrev fetch_body_snippet : ℕ
fetch_body_snippet = 200

module _ ⦃w : Web⦄ where
  -- The body of a success, of which one byte more than the limit is read.
  unfoldable pub read_body : Text → Response → Result FetchError FetchOutcome
  unfolding max_bytes
  read_body url response = do
    buf ← map_err (io url) (response.head (max_bytes + 1))
    _ ← guard (leb (length buf) max_bytes) (too_large url max_bytes)
    s ← ok_or (w.from_utf8 buf) (non_utf8 url)
    ok (found s)

  abbrev answer : Text → Response → Result FetchError FetchOutcome
  answer url response =
      if response.status == 404
      then ok not_found
      else if is_success response.status
      then read_body url response
      else err
          (http_status url response.status (take fetch_body_snippet (text_or_empty response.all)))

  unfoldable pub fetch_text : Text → Result FetchError FetchOutcome
  unfolding read_body
  fetch_text url = do
    response ← map_err (http url) (w.send (request (text "GET") url))
    answer url response

module _ ⦃d : Dates⦄ where
  unfoldable pub iso8601 : ℕ → Text
  iso8601 unix_secs = elim (d.from_timestamp unix_secs) [
    | some date ↦ date
    | none ↦ decimal unix_secs
  ]
