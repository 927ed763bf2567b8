-- ===== src/Registries/Trust.antt =====
-- swiyu-registries/src/trust: the statements that the registry has of a DID.
use swiyu_rs.Prelude.{
  Option, List, [], ◌++◌, Result, ok, err, ◌>>=◌, ok_or, map_err, ◌==◌, if◌then◌else◌,
}
use swiyu_rs.Prelude.Text.{Text, text}
use swiyu_rs.Vendor.Web.{Response, Web, request, is_success, text_or_empty}
use swiyu_rs.Did.Identifier.{Did}
use swiyu_rs.Did.Url.{url_path_segment}
use swiyu_rs.Registries.Client.{RegistryError, transport, decode, http_status, trim_slashes}

unfoldable pub statements_url : Text → Did → Text
unfolding trim_slashes url_path_segment
statements_url base_url did =
    trim_slashes base_url ++ text "/api/v1/truststatements/identity/" ++ url_path_segment did

module _ (parse_texts : Text → Option (List Text)) where
  abbrev listed : Response → Result RegistryError (List Text)
  listed response = do
    body ← map_err transport response.all
    ok_or (parse_texts body)
        (decode (text "trust registry response is not a JSON array of JWT strings"))

  abbrev statements_of : Response → Result RegistryError (List Text)
  statements_of response =
      if response.status == 404
      then ok []
      else if is_success response.status
      then listed response
      else err (http_status response.status (text_or_empty response.all))

  -- `parse_texts` is `serde_json::from_str::<Vec<String>>`.
  unfoldable pub fetch_trust_statements : ⦃w : Web⦄ → Text → Did → Result RegistryError (List Text)
  unfolding statements_url
  fetch_trust_statements ⦃w⦄ base_url did = do
    response ← map_err transport (w.send (request (text "GET") (statements_url base_url did)))
    statements_of response
