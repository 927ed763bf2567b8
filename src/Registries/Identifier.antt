-- ===== src/Registries/Identifier.antt =====
-- swiyu-registries/src/identifier: allocation, publication and reading of a DID log.
use swiyu_rs.Prelude.{Option, none, some, List, [], ◌∷◌, ◌++◌, Result, ok, ◌>>=◌, ok_or, map_err}
use swiyu_rs.Prelude.{if◌then◌else◌}
use swiyu_rs.Prelude.Text.{Text, text, text_eq, split, is_empty}
use swiyu_rs.Json.Interface.{Json}
use swiyu_rs.Vendor.Crypto.{JsonText}
use swiyu_rs.Vendor.Web.{Web, request}
use swiyu_rs.Did.Identifier.{Did}
use swiyu_rs.Did.Url.{log_url}
use swiyu_rs.Registries.Client.{
  RegistryError, transport, decode, trim_slashes, send_checked, read_string, json_body,
}

pub record Allocation : Type 0 where
  pub url : Text
  pub identifier : Text

-- `strip_suffix`, else the text itself
unfoldable pub without_suffix : Text → Text → Text
without_suffix suffix [] = []
without_suffix suffix (c ∷ s) =
    let rest = without_suffix suffix s in if text_eq (c ∷ s) suffix then [] else c ∷ rest

-- `rsplit('/').next()`: the part behind the last slash
unfoldable pub last_part : List Text → Text
last_part [] = []
last_part (p ∷ []) = p
last_part (p ∷ q ∷ ps) = last_part (q ∷ ps)

unfoldable pub extract_identifier : Text → Option Text
unfolding without_suffix trim_slashes last_part
extract_identifier url =
    let trimmed = trim_slashes (without_suffix (text "/did.jsonl") url) in
    let last = last_part (split b'/' trimmed) in if is_empty last then none else some last

abbrev pub entries_url : Text → Text → Text
entries_url base_url partner_id =
    trim_slashes base_url
    ++ text "/api/v1/identifier/business-entities/"
    ++ partner_id
    ++ text "/identifier-entries"

module _ ⦃w : Web⦄ where
  unfoldable pub fetch_log : Did → Result RegistryError Text
  unfolding send_checked
  fetch_log did = do
    response ← send_checked (request (text "GET") (log_url did))
    map_err transport response.all

  unfoldable pub publish_log_entry :
      (base_url token partner_id identifier entry : Text) → Result RegistryError (Unit {0})
  unfolding send_checked trim_slashes
  publish_log_entry base_url token partner_id identifier entry = do
    _ ←
        send_checked
          (record (request (text "PUT")
            (entries_url base_url partner_id ++ text "/" ++ identifier)) {
              token = some token;
              content_type = some (text "application/jsonl+json");
              body = some entry;
            })
    ok tt

module _ ⦃w : Web⦄ ⦃j : Json⦄ ⦃t : JsonText j⦄ where
  unfoldable pub allocate_did : (base_url token partner_id : Text) → Result RegistryError Allocation
  unfolding send_checked json_body read_string extract_identifier
  allocate_did base_url token partner_id = do
    response ←
        send_checked
          (record (request (text "POST") (entries_url base_url partner_id)) { token = some token })
    body ← json_body response
    registry_url ← read_string body (text "identifierRegistryUrl")
    identifier ← ok_or (extract_identifier registry_url) (
        decode (
          text "cannot extract identifier from identifierRegistryUrl '"
          ++ registry_url
          ++ text "'"))
    ok (record { url = registry_url; identifier = identifier })
