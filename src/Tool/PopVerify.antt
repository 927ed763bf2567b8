-- ===== src/Tool/PopVerify.antt =====
-- swiyu-didtool/src/cmd/pop/verify.rs: the verification of a proof of possession.
use swiyu_rs.Prelude.{
  ℕ, ◌/◌, ◌%◌, ◌&&◌, Option, none, some, List, [], ◌∷◌, ◌++◌, Result, ok, err, ◌>>=◌, guard, ok_or,
  or_else, map_err, length, ltb, ◌==◌, if◌then◌else◌,
}
use swiyu_rs.Prelude.Text.{Text, text, text_eq, split_once, strip_prefix}
use swiyu_rs.Prelude.Decimal.{decimal}
use swiyu_rs.Json.Interface.{Json}
use swiyu_rs.Vendor.Encoding.{Base64}
use swiyu_rs.Vendor.Crypto.{Bs58, Ed25519, P256}
use swiyu_rs.DidDoc.Error.{DidDocError, error_text}
use swiyu_rs.DidDoc.Multibase.{multibase_from_text}
use swiyu_rs.DidDoc.Document.{PublicKey, jwk, multibase, VerificationMethod}
use swiyu_rs.DidDoc.Doc.{doc_try_from}
use swiyu_rs.DidLog.Entry.{DidDocState, full, patch, DidLogEntry}
use swiyu_rs.DidLog.Proof.{contains_key}
use swiyu_rs.KeyStore.Entry.{KeyRole, authentication, assertion}
use swiyu_rs.Jws.Verify.{
  JwsVerifyError, unsupported_alg, alg_key_mismatch, malformed_jwk, invalid_signature_length,
  signature_mismatch, VerifyingKey, ed25519, ecdsa_p256, key_try_from,
}
use swiyu_rs.Tool.Log.{current_did}
use swiyu_rs.Tool.Update.{last}

pub data PopError : Type 0 where
  jwt_malformed kid_malformed multikey not_supported_alg : Text → PopError
  key_mismatch : (alg key_type : Text) → PopError
  signature_invalid empty_log previous_state_is_patch unsupported_key_material : PopError
  iss_mismatch : (expected iss : Text) → PopError
  multikey_not_in_update_keys : (source_did : Text) → PopError
  expired not_yet_issued : (delta : Text) → PopError
  nonce_mismatch : (expected actual : Text) → PopError
  verification_method_missing : Text → PopError
  did_mismatch : (kid_did source_did : Text) → PopError
  did_doc : DidDocError → PopError
  -- The errors of the log and of the key store
  log_error key_store_error : Text → PopError

-- `From<JwsVerifyError> for VerifyPopError`
unfoldable pub pop_error_of : JwsVerifyError → PopError
pop_error_of (unsupported_alg alg) = not_supported_alg alg
pop_error_of (alg_key_mismatch alg jwk_alg) = key_mismatch alg jwk_alg
pop_error_of (malformed_jwk msg) = jwt_malformed msg
pop_error_of (invalid_signature_length expected actual) = signature_invalid
pop_error_of signature_mismatch = signature_invalid

unfoldable pub human_duration : ℕ → Text
human_duration secs =
    let h = secs / 3600 in
    let m = secs % 3600 / 60 in
    let s = secs % 60 in
    if ltb 0 h
    then decimal h ++ text "h " ++ decimal m ++ text "m"
    else if ltb 0 m
    then decimal m ++ text "m " ++ decimal s ++ text "s"
    else decimal s ++ text "s"

pub data KidShape : Type 0 where
  did_key : (mk : Text) → KidShape
  fragment : (kid_did : Text) → KidShape

abbrev kid_of_key : Text → Option (Text × Text) → Result PopError KidShape
kid_of_key kid none = err (kid_malformed kid)
kid_of_key kid (some (mk, frag)) =
    if text_eq mk frag then ok (did_key mk) else err (kid_malformed kid)

abbrev kid_of_did : Text → Option (Text × Text) → Result PopError KidShape
kid_of_did kid none = err (kid_malformed kid)
kid_of_did kid (some (kid_did, frag)) = ok (fragment kid_did)

unfoldable pub parse_kid : Text → Result PopError KidShape
parse_kid kid = elim (strip_prefix (text "did:key:") kid) [
  | some rest ↦ kid_of_key kid (split_once b'#' rest)
  | none ↦ kid_of_did kid (split_once b'#' kid)
]

-- The key list of the last entry that has one
unfoldable pub latest_update_keys : {V : Type 0} → List (DidLogEntry V) → Option (List Text)
latest_update_keys [] = none
latest_update_keys (e ∷ es) = or_else (latest_update_keys es) e.parameters.update_keys

abbrev pub unwrap_keys : Option (List Text) → List Text
unwrap_keys none = []
unwrap_keys (some keys) = keys

unfoldable pub method_named : Text → List VerificationMethod → Option VerificationMethod
method_named kid [] = none
method_named kid (vm ∷ vms) = if text_eq vm.id kid then some vm else method_named kid vms

-- The role that a fragment names
unfoldable pub role_of_fragment : Text → Option KeyRole
role_of_fragment frag =
    if text_eq frag (text "authentication-key-01")
    then some authentication
    else if text_eq frag (text "assertion-key-01")
    then some assertion
    else none

abbrev fragment_of : Text → Text
fragment_of kid = elim (split_once b'#' kid) [ some (d, f) ↦ f | none ↦ [] ]

module _ ⦃b : Base64⦄ ⦃c : Ed25519⦄ ⦃p : P256⦄ where
  pub record Context : Type 0 where
    pub key : VerifyingKey
    pub iss_constraint : Option Text

module _ ⦃e : Base64⦄ ⦃b : Bs58⦄ ⦃c : Ed25519⦄ ⦃p : P256⦄ where
  -- `multicodec` is `{:#04x}{:02x}` of the two bytes.
  unfoldable pub multikey_bytes_of : (multicodec : ℕ → ℕ → Text) → List ℕ → Result PopError (List ℕ)
  multikey_bytes_of multicodec [] = err (multikey (text "payload too short"))
  multikey_bytes_of multicodec (b0 ∷ []) = err (multikey (text "payload too short"))
  multikey_bytes_of multicodec (b0 ∷ b1 ∷ key) =
      if (b0 == 0xed) && (b1 == 0x01)
      then (if length (b0 ∷ b1 ∷ key) == 34
          then ok key
          else err (
              multikey (
                text "Ed25519 multikey must be 34 bytes, got "
                ++ decimal (length (b0 ∷ b1 ∷ key)))))
      else err (not_supported_alg (text "did:key multicodec " ++ multicodec b0 b1))

  unfoldable pub decode_multikey : (ℕ → ℕ → Text) → Text → Result PopError VerifyingKey
  unfolding multikey_bytes_of
  decode_multikey multicodec s = do
    mb ← map_err (λ e. multikey (error_text e)) (multibase_from_text s)
    key ← multikey_bytes_of multicodec mb.key
    vk ← map_err (λ e. multikey (text "invalid Ed25519 key: " ++ e)) (c.from_bytes key)
    ok (ed25519 vk)

module _ ⦃j : Json⦄ ⦃e : Base64⦄ ⦃b : Bs58⦄ ⦃c : Ed25519⦄ ⦃p : P256⦄ where
  open j use {Value}

  abbrev pub jwk_key : PublicKey → Result PopError VerifyingKey
  jwk_key (jwk k) = map_err pop_error_of (key_try_from k)
  jwk_key (multibase k) = err unsupported_key_material

  abbrev pub document_of : DidDocState Value → Result PopError Value
  document_of (full v) = ok v
  document_of (patch d) = err previous_state_is_patch

  unfoldable pub find_vm_key_in_log : List (DidLogEntry Value) → Text → Result PopError VerifyingKey
  unfolding method_named pop_error_of
  find_vm_key_in_log log kid = do
    last_entry ← ok_or (last log) empty_log
    doc_value ← document_of last_entry.did_doc_state
    doc ← map_err did_doc (doc_try_from doc_value)
    vm ← ok_or (method_named kid doc.verification_method) (verification_method_missing kid)
    jwk_key vm.public_key

  -- `load` answers the log of `--did` or `--input` where one is given; `stored` looks a DID up in the
  -- key store and answers the public key of its latest key of a role.
  unfoldable pub resolve_context :
      (multicodec : ℕ → ℕ → Text)
      → (load : Option (Result PopError (List (DidLogEntry Value))))
      → (stored : Text → Result PopError (KeyRole → Result PopError p.VerifyingKey)) → Text
      → KidShape
      → Result PopError Context
  unfolding decode_multikey find_vm_key_in_log latest_update_keys role_of_fragment
  resolve_context multicodec (some load) stored kid (did_key mk) = do
    key ← decode_multikey multicodec mk
    log ← load
    log_did ← ok_or (current_did log) empty_log
    _ ←
        guard (contains_key (unwrap_keys (latest_update_keys log)) mk)
          (multikey_not_in_update_keys log_did)
    ok (record { key = key; iss_constraint = some log_did })
  resolve_context multicodec none stored kid (did_key mk) = do
    key ← decode_multikey multicodec mk
    ok (record { key = key; iss_constraint = none })
  resolve_context multicodec (some load) stored kid (fragment kid_did) = do
    log ← load
    log_did ← ok_or (current_did log) empty_log
    _ ← guard (text_eq log_did kid_did) (did_mismatch kid_did log_did)
    key ← find_vm_key_in_log log kid
    ok (record { key = key; iss_constraint = some kid_did })
  resolve_context multicodec none stored kid (fragment kid_did) = do
    load_key ← stored kid_did
    role ← ok_or (role_of_fragment (fragment_of kid)) (verification_method_missing kid)
    key ← load_key role
    ok (record { key = ecdsa_p256 key; iss_constraint = some kid_did })
