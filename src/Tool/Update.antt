-- ===== src/Tool/Update.antt =====
-- swiyu-didtool/src/cmd/did: the entries that `deactivate` and `rotate` add to a log.
use swiyu_rs.Prelude.{ℕ, ◌+◌, ◌%◌, ◌^◌, true, not, Option, none, some, List, [], ◌∷◌, ◌++◌}
use swiyu_rs.Prelude.{
  Bool, Result, ok, err, ◌>>=◌, ◌>>◌, ok_or, map_err, length, guard, if◌then◌else◌,
}
use swiyu_rs.Prelude.Text.{Text, text, text_eq}
use swiyu_rs.Prelude.Decimal.{decimal}
use swiyu_rs.Json.Interface.{Json}
use swiyu_rs.Json.Access.{string, boolean, array, json_object}
use swiyu_rs.Vendor.Encoding.{Base64}
use swiyu_rs.Vendor.Crypto.{Bs58, Sha256, JsonText}
use swiyu_rs.Did.Identifier.{Did, DidError}
use swiyu_rs.Did.Parse.{from_text}
use swiyu_rs.DidDoc.Multibase.{ed25519_verifying_key_to_multikey}
use swiyu_rs.DidDoc.Document.{P256PublicKey, new_genesis}
use swiyu_rs.DidDoc.Doc.{doc_to_value}
use swiyu_rs.DidLog.Parameters.{LogEntryFormat, tdw03, web_vh10}
use swiyu_rs.DidLog.Entry.{DidDocState, full, patch, DidLogEntry}
use swiyu_rs.DidLog.Hash.{derive_entry_hash}
use swiyu_rs.DataIntegrity.Config.{eddsa_jcs_2022, authentication, ProofConfig}
use swiyu_rs.DataIntegrity.Proof.{sign, proof_to_value}
use swiyu_rs.Tool.Log.{current_did}

-- An Ed25519 key pair of the key store: the bytes of the public key, and the signing function.
pub record SigningKey : Type 0 where
  pub public_bytes : List ℕ
  pub signer : List ℕ → List ℕ

-- The errors of both commands before anything is written.
pub data UpdateError : Type 0 where
  empty_log unsupported_format already_deactivated previous_state_is_patch did_not_in_log :
      UpdateError
  invalid_did : Text → DidError → UpdateError
  key_store_miss key_store : Text → UpdateError

-- `entries().last()`
unfoldable pub last {ℓ} : {A : Type ℓ} → List A → Option A
last [] = none
last (x ∷ []) = some x
last (x ∷ y ∷ xs) = last (y ∷ xs)

abbrev pub check_tdw : LogEntryFormat → Result UpdateError (Unit {0})
check_tdw tdw03 = ok tt
check_tdw web_vh10 = err unsupported_format

abbrev pub check_active : Option Bool → Result UpdateError (Unit {0})
check_active (some deactivated) = guard (not deactivated) already_deactivated
check_active none = ok tt

abbrev pub full_document : {V : Type 0} → DidDocState V → Result UpdateError V
full_document (full v) = ok v
full_document (patch p) = err previous_state_is_patch

-- `len() as u32 + 1`
abbrev pub next_sequence : ℕ → ℕ
next_sequence n = (n % 2 ^ 32 + 1) % 2 ^ 32

module _ ⦃j : Json⦄ where
  open j use {Value}

  -- `json!({ "deactivated": true, "updateKeys": [] })`
  abbrev pub deactivation_parameters : Value
  deactivation_parameters =
      json_object ((text "deactivated", boolean true) ∷ (text "updateKeys", array []) ∷ [])

  -- The DID of the log, parsed.
  abbrev pub log_did : List (DidLogEntry Value) → Result UpdateError Did
  log_did log = do
    did_str ← ok_or (current_did log) did_not_in_log
    map_err (invalid_did did_str) (from_text did_str)

  -- `params`: the key list, where the authorized key is another one.
  abbrev pub rotation_parameters : (prev_multikey new_multikey : Text) → Value
  rotation_parameters prev_multikey new_multikey =
      if text_eq prev_multikey new_multikey
      then json_object []
      else json_object ((text "updateKeys", array (string new_multikey ∷ [])) ∷ [])

module _ ⦃b : Bs58⦄ where
  abbrev pub multikey_of : SigningKey → Text
  multikey_of key = ed25519_verifying_key_to_multikey key.public_bytes

module _ ⦃j : Json⦄ ⦃t : JsonText j⦄ ⦃b : Bs58⦄ ⦃s : Sha256⦄ where
  open j use {Value}

  -- The entry of four elements, that is hashed.
  abbrev pub entry_value : Text → Text → Value → Value → Value
  entry_value first new_version_time parameters document = array (
      string first
      ∷ string new_version_time
      ∷ parameters
      ∷ json_object ((text "value", document) ∷ [])
      ∷ [])

  abbrev pub proof_options : Text → Text → Text → ProofConfig
  proof_options multikey new_version_id new_version_time = record {
    cryptosuite = eddsa_jcs_2022;
    verification_method = text "did:key:" ++ multikey ++ b'#' ∷ multikey;
    proof_purpose = authentication;
    challenge = new_version_id;
    created = new_version_time;
  }

  -- The hash of the entry behind the previous version id is in its own; the proof signs the document.
  unfoldable pub signed_entry : SigningKey → ℕ → Text → Text → Value → Value → Value
  signed_entry key entries prev_version_id new_version_time parameters document =
      let entry_hash =
        derive_entry_hash (entry_value prev_version_id new_version_time parameters document) in
      let new_version_id = decimal (next_sequence entries) ++ b'-' ∷ entry_hash in
      let proof = proof_to_value (
        sign key.signer document
          (proof_options (multikey_of key) new_version_id new_version_time)) in
      array (
        string new_version_id
        ∷ string new_version_time
        ∷ parameters
        ∷ json_object ((text "value", document) ∷ [])
        ∷ array (proof ∷ [])
        ∷ [])

  -- `cmd_deactivate`, from the loaded log to the new line; `prev_authorized` is the key store's latest
  -- authorized key of a DID.
  unfoldable pub deactivate :
      (prev_authorized : Did → Result UpdateError SigningKey)
      → List (DidLogEntry Value)
      → Text
      → Result UpdateError Value
  deactivate prev_authorized log new_version_time = do
    last_entry ← ok_or (last log) empty_log
    check_tdw last_entry.format
    check_active last_entry.parameters.deactivated
    prev_doc ← full_document last_entry.did_doc_state
    did ← log_did log
    key ← prev_authorized did
    ok (
        signed_entry key (length log) last_entry.version_id new_version_time deactivation_parameters
          prev_doc)

-- The public keys of `StagedKeys`
pub record StagedPublic : Type 0 where
  pub authorized : List ℕ
  pub authentication : P256PublicKey
  pub assertion : P256PublicKey

module _ ⦃j : Json⦄ ⦃t : JsonText j⦄ ⦃b : Bs58⦄ ⦃s : Sha256⦄ ⦃e : Base64⦄ where
  open j use {Value}

  -- `cmd_rotate`, from the loaded log to the new line; `stage_keys` is of the key store and the plan.
  unfoldable pub rotate :
      (prev_authorized : Did → Result UpdateError SigningKey)
      → (stage_keys : Did → Result UpdateError StagedPublic) → List (DidLogEntry Value)
      → Text
      → Result UpdateError Value
  rotate prev_authorized stage_keys log new_version_time = do
    last_entry ← ok_or (last log) empty_log
    check_tdw last_entry.format
    did_str ← ok_or (current_did log) did_not_in_log
    did ← map_err (invalid_did did_str) (from_text did_str)
    key ← prev_authorized did
    staged ← stage_keys did
    let new_doc = new_genesis did_str staged.authentication staged.assertion
    let parameters =
        rotation_parameters (multikey_of key) (ed25519_verifying_key_to_multikey staged.authorized)
    ok (
        signed_entry key (length log) last_entry.version_id new_version_time parameters
          (doc_to_value new_doc))
