-- ===== src/Trust/StatusLists.antt =====
-- `parse_and_verify_status_list` and `load_status_list` of swiyu-didtool/src/cmd/trust/verify.rs.
use swiyu_rs.Prelude.{
  ℕ, Option, none, some, List, [], ◌∷◌, ◌++◌, Result, ok, err, ◌>>=◌, guard, ok_or, map_err,
  and_then, length,
}
use swiyu_rs.Prelude.Text.{Text, text, text_eq, split, split_once}
use swiyu_rs.Prelude.Trim.{trim}
use swiyu_rs.Prelude.Decimal.{decimal}
use swiyu_rs.Json.Interface.{Json}
use swiyu_rs.Json.Access.{member, as_str}
use swiyu_rs.Vendor.Encoding.{Base64, Zlib}
use swiyu_rs.Vendor.Crypto.{Bs58, Ed25519, P256, JsonText}
use swiyu_rs.Vendor.Web.{Web}
use swiyu_rs.DidDoc.Document.{DidDoc}
use swiyu_rs.KeyStore.Dir.{Dir, find, put}
use swiyu_rs.Jws.Verify.{key_verify}
use swiyu_rs.StatusList.Bitstring.{StatusList}
use swiyu_rs.StatusList.Wire.{list_try_from}
use swiyu_rs.SdJwt.Statement.{unwrap_text}
use swiyu_rs.Tool.Http.{FetchOutcome, found, not_found, fetch_text}
use swiyu_rs.Trust.Error.{
  TrustError, status_list_malformed, status_list_signature_invalid, status_list, fetch,
  VerifyContext,
}
use swiyu_rs.Trust.Issuer.{load_issuer_doc, find_verifying_key}

abbrev pub three_segs : Text → List Text → Result TrustError (Text × Text × Text)
three_segs url (h ∷ p ∷ s ∷ []) = ok (h, p, s)
three_segs url segs = err (
    status_list_malformed url
      (text "expected 3 dot-separated parts, got " ++ decimal (length segs)))

abbrev pub list_text : Text → FetchOutcome → Result TrustError Text
list_text url (found s) = ok s
list_text url not_found = err (status_list_malformed url (text "registry returned 404"))

-- The DID of a kid
abbrev pub kid_did_of : Text → Option Text
kid_did_of kid = elim (split_once b'#' kid) [ some (d, f) ↦ some d | none ↦ none ]

module _ ⦃j : Json⦄ where
  -- `unwrap_or("(missing)")`
  abbrev pub header_alg : j.Value → Text
  header_alg header = unwrap_text (and_then (member header (text "alg")) as_str) (text "(missing)")

module _ ⦃j : Json⦄ ⦃e : Base64⦄ (from_slice : List ℕ → Result Text j.Value) where
  open j use {Value}

  -- One segment as JSON
  unfoldable pub segment_json : (url segment part : Text) → Result TrustError Value
  segment_json url segment part = do
    bytes ←
        map_err (λ e. status_list_malformed url (segment ++ text " not base64url: " ++ e))
          (e.decode part)
    map_err (λ e. status_list_malformed url (segment ++ text " not JSON: " ++ e)) (from_slice bytes)

module _ ⦃j : Json⦄ ⦃t : JsonText j⦄ ⦃e : Base64⦄ ⦃b : Bs58⦄ ⦃c : Ed25519⦄ ⦃p : P256⦄ ⦃z : Zlib⦄
    ⦃w : Web⦄ (from_slice : List ℕ → Result Text j.Value) where
  open j use {Value}

  -- The list, with the documents that are cached now
  unfoldable pub parse_and_verify_status_list :
      (url jwt : Text) → VerifyContext Value → Result TrustError (StatusList × Dir (DidDoc Value))
  unfolding segment_json
  parse_and_verify_status_list url jwt ctx = do
    (h, p, s) ← three_segs url (split b'.' jwt)
    header ← segment_json from_slice url (text "header") h
    payload ← segment_json from_slice url (text "payload") p
    signature ←
        map_err (λ e. status_list_malformed url (text "signature not base64url: " ++ e))
          (e.decode s)
    let alg = header_alg header
    _ ←
        guard (text_eq alg (text "ES256"))
          (status_list_malformed url (text "unsupported alg '" ++ alg ++ text "' (expected ES256)"))
    kid ←
        ok_or (and_then (member header (text "kid")) as_str)
          (status_list_malformed url (text "missing 'kid' in header"))
    kid_did ←
        ok_or (kid_did_of kid)
          (status_list_malformed url (text "kid '" ++ kid ++ text "' has no fragment"))
    _ ← guard (text_eq kid_did ctx.expected_issuer) (
        status_list_malformed url (
          text "kid's DID '"
          ++ kid_did
          ++ text "' does not match expected issuer '"
          ++ ctx.expected_issuer
          ++ text "'"))
    (doc, docs) ← load_issuer_doc kid_did ctx.issuer_docs
    vk ←
        map_err (λ reason. status_list_malformed url (text "issuer key resolution: " ++ reason))
          (find_verifying_key doc kid)
    _ ← map_err (λ _. status_list_signature_invalid) (key_verify vk (h ++ b'.' ∷ p) signature)
    inner ←
        ok_or (member payload (text "status_list"))
          (status_list_malformed url (text "payload is missing the `status_list` member"))
    list ← map_err status_list (list_try_from inner)
    ok (list, docs)

  abbrev pub cached_list :
      Text
      → VerifyContext Value
      → Option StatusList
      → Result TrustError (StatusList × VerifyContext Value)
  cached_list url ctx (some list) = ok (list, ctx)
  cached_list url ctx none = do
    outcome ← map_err fetch (fetch_text url)
    body ← list_text url outcome
    (list, docs) ← parse_and_verify_status_list url (trim body) ctx
    ok (list, record ctx { issuer_docs = docs; status_lists = put ctx.status_lists url list })

  unfoldable pub load_status_list :
      Text → VerifyContext Value → Result TrustError (StatusList × VerifyContext Value)
  load_status_list url ctx = cached_list url ctx (find ctx.status_lists url)
