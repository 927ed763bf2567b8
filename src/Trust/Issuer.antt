-- ===== src/Trust/Issuer.antt =====
-- `load_issuer_doc` and `find_verifying_key` of swiyu-didtool/src/cmd/trust/verify.rs.
use swiyu_rs.Prelude.{Option, none, some, ◌++◌, Result, ok, err, ◌>>=◌, guard, ok_or, map_err}
use swiyu_rs.Prelude.Text.{Text, text, text_eq}
use swiyu_rs.Json.Interface.{Json}
use swiyu_rs.Vendor.Encoding.{Base64}
use swiyu_rs.Vendor.Crypto.{Bs58, Ed25519, P256, JsonText}
use swiyu_rs.Vendor.Web.{Web}
use swiyu_rs.Did.Identifier.{did_error_text}
use swiyu_rs.Did.Parse.{from_text}
use swiyu_rs.Did.Url.{log_url}
use swiyu_rs.DidDoc.Document.{PublicKey, jwk, multibase, DidDoc}
use swiyu_rs.DidDoc.Doc.{doc_try_from}
use swiyu_rs.DidLog.Error.{log_error_text}
use swiyu_rs.DidLog.Entry.{DidDocState, full, patch}
use swiyu_rs.DidLog.Jsonl.{try_from_jsonl}
use swiyu_rs.KeyStore.Dir.{Dir, find, put}
use swiyu_rs.Jws.Verify.{VerifyingKey, alg_of, key_try_from, jws_error_text}
use swiyu_rs.Tool.Http.{FetchOutcome, found, not_found, fetch_text}
use swiyu_rs.Tool.Update.{last}
use swiyu_rs.Tool.PopVerify.{method_named}
use swiyu_rs.Trust.Error.{TrustError, issuer_resolution, fetch, did_doc}

abbrev pub log_text : (iss url : Text) → FetchOutcome → Result TrustError Text
log_text iss url (found s) = ok s
log_text iss url not_found = err (issuer_resolution iss (text "'" ++ url ++ text "' returned 404"))

abbrev pub full_state : {V : Type 0} → Text → DidDocState V → Result TrustError V
full_state iss (full v) = ok v
full_state iss (patch p) = err (issuer_resolution iss (text "latest entry's state is a JSON Patch"))

module _ ⦃j : Json⦄ ⦃t : JsonText j⦄ ⦃b : Bs58⦄ ⦃w : Web⦄ where
  open j use {Value}

  -- The last document of the log that is served for a DID
  unfoldable pub fetch_issuer_doc : Text → Result TrustError (DidDoc Value)
  unfolding did_error_text log_error_text
  fetch_issuer_doc iss_did = do
    did ← map_err (λ e. issuer_resolution iss_did (did_error_text e)) (from_text iss_did)
    outcome ← map_err fetch (fetch_text (log_url did))
    body ← log_text iss_did (log_url did) outcome
    log ←
        map_err (λ e. issuer_resolution iss_did (text "log parse: " ++ log_error_text e))
          (try_from_jsonl body)
    entry ← ok_or (last log) (issuer_resolution iss_did (text "log is empty"))
    doc_value ← full_state iss_did entry.did_doc_state
    map_err did_doc (doc_try_from doc_value)

  abbrev pub cached_doc :
      Text
      → Dir (DidDoc Value)
      → Option (DidDoc Value)
      → Result TrustError (DidDoc Value × Dir (DidDoc Value))
  cached_doc iss_did cache (some doc) = ok (doc, cache)
  cached_doc iss_did cache none = do doc ← fetch_issuer_doc iss_did; ok (doc, put cache iss_did doc)

  -- The document, with the cache that holds it now
  unfoldable pub load_issuer_doc :
      Text → Dir (DidDoc Value) → Result TrustError (DidDoc Value × Dir (DidDoc Value))
  load_issuer_doc iss_did cache = cached_doc iss_did cache (find cache iss_did)

module _ ⦃e : Base64⦄ ⦃c : Ed25519⦄ ⦃p : P256⦄ where
  abbrev pub es256_key : PublicKey → Result Text VerifyingKey
  es256_key (multibase m) = err (text "verification method publicKey is not a JWK")
  es256_key (jwk k) = do
    key ← map_err jws_error_text (key_try_from k)
    _ ← guard (text_eq (alg_of key) (text "ES256")) (text "expected ES256 key, got " ++ alg_of key)
    ok key

  unfoldable pub find_verifying_key : {V : Type 0} → DidDoc V → Text → Result Text VerifyingKey
  unfolding method_named alg_of
  find_verifying_key doc kid = do
    vm ←
        ok_or (method_named kid doc.verification_method)
          (text "no verification method with id '" ++ kid ++ text "'")
    es256_key vm.public_key
