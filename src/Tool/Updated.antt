-- ===== src/Tool/Updated.antt =====
-- What a log is with an entry of the tool behind it.
use swiyu_rs.Prelude.{
  ℕ, suc, ◌<◌, ◌^◌, ◌≡◌, refl, true, none, some, List, [], ◌∷◌, ◌++◌, ok, length, get_elem?, All,
  arith,
}
use swiyu_rs.Prelude.{and_then, Ensures-ok}
use swiyu_rs.Prelude.Text.{Text, text, Lacks}
use swiyu_rs.Prelude.Bytes.{IsByte}
use swiyu_rs.Prelude.Decimal.{decimal}
use swiyu_rs.Json.Interface.{Json}
use swiyu_rs.Json.Access.{as_str, member, object, json_object, json_laws}
use swiyu_rs.Vendor.Crypto.{Bs58, Sha256, Ed25519, JsonText}
use swiyu_rs.Did.Identifier.{Did, to_text}
use swiyu_rs.DidLog.Parameters.{tdw03, LogParameters, parameters_try_from, parameters_to_value}
use swiyu_rs.DidLog.Entry.{
  full, DidLogEntry, entry_try_from, entry_try_from_array, state_to_value, state_try_from,
  state_try_from-to_value,
}
use swiyu_rs.DidLog.Hash.{derive_entry_hash, hash_log_entry}
use swiyu_rs.DidLog.Signed.{Signed, verify_proof_sound}
use swiyu_rs.DidLog.Chain.{LogVerified, previous, authorized_keys}
use swiyu_rs.DidLog.Append.{LogVerified-append}
use swiyu_rs.DataIntegrity.Proof.{sign, proof_to_value}
use swiyu_rs.DataIntegrity.Verifies.{verify_proof-sign}
use swiyu_rs.Tool.Update.{
  SigningKey, multikey_of, next_sequence, entry_value, proof_options, signed_entry,
}

-- An Ed25519 key pair: its public key is a key, and verifies what it signs.
pub record Works ⦃c : Ed25519⦄ (key : SigningKey) : Type 0 where
  pub verifying_key : c.VerifyingKey
  pub public-IsByte : All IsByte key.public_bytes
  pub length-public : length key.public_bytes ≡ 32
  pub from_bytes-public : c.from_bytes key.public_bytes ≡ ok verifying_key
  pub signer-IsByte : (m : List ℕ) → All IsByte (key.signer m)
  pub length-signer : (m : List ℕ) → length (key.signer m) ≡ 64
  pub verify-signer : (m : List ℕ) → c.verify verifying_key m (key.signer m) ≡ true

module _ ⦃j : Json⦄ ⦃t : JsonText j⦄ ⦃b : Bs58⦄ ⦃s : Sha256⦄ where
  open j use {Value}

  abbrev pub new_version_id : ℕ → Text → Text → Value → Value → Text
  new_version_id entries prev time parameters document =
      decimal (next_sequence entries)
      ++ b'-' ∷ derive_entry_hash (entry_value prev time parameters document)

  -- The entry that the new line is, of parameters `p`.
  abbrev pub updated :
      SigningKey → ℕ → Text → Text → LogParameters Value → Value → Value → DidLogEntry Value
  updated key entries prev time p parameters document = record {
    format = tdw03;
    version_id = new_version_id entries prev time parameters document;
    version_time = time;
    parameters = p;
    did_doc_state = full document;
    data_integrity_proofs =
        proof_to_value (
          sign key.signer document (
            proof_options (multikey_of key) (new_version_id entries prev time parameters document)
              time))
        ∷ [];
  }

  state_of_value :
      (document : Value)
      → state_try_from (json_object ((text "value", document) ∷ [])) ≡ ok (full document)
  unfolding state_to_value
  state_of_value document = state_try_from-to_value (full document)

  pub entry_try_from-signed_entry :
      (key : SigningKey) (entries : ℕ) (prev time : Text) (p : LogParameters Value)
      (parameters document : Value)
      → parameters_try_from parameters tdw03 ≡ ok p
      → entry_try_from (signed_entry key entries prev time parameters document)
        ≡ ok (updated key entries prev time p parameters document)
  unfolding entry_try_from entry_try_from_array signed_entry
  entry_try_from-signed_entry key entries prev time p parameters document parsed =
      simp (json_laws, parsed, state_of_value document)

module _ ⦃j : Json⦄ ⦃t : JsonText j⦄ ⦃b : Bs58⦄ ⦃s : Sha256⦄ ⦃c : Ed25519⦄ (key : SigningKey)
    (works : Works key)
    (jcs-remove : (m : j.Map) (k : Text) (v : j.Value)
      → j.get m k ≡ none
      → t.jcs (object (j.remove (j.insert m k v) k)) ≡ t.jcs (object m)) where
  open j use {Value}

  pub updated-Signed :
      (entries : ℕ) (prev time : Text) (p : LogParameters Value) (parameters document : Value)
      (keys : List Text) (i : ℕ)
      → Lacks b'#' (multikey_of key)
      → get_elem? keys i ≡ some (multikey_of key)
      → Signed keys document
          (updated key entries prev time p parameters document).data_integrity_proofs
  updated-Signed entries prev time p parameters document keys i plain authorized =
      Ensures-ok (verify_proof_sound 0 _ document keys) (
        verify_proof-sign key.public_bytes works.verifying_key key.signer works.public-IsByte
          works.length-public works.from_bytes-public works.signer-IsByte works.length-signer
          works.verify-signer jcs-remove 0 [] document
          (proof_options (multikey_of key) (new_version_id entries prev time parameters document)
            time)
          keys i refl plain authorized)

  next_sequence_lem : (n : ℕ) → suc n < 2 ^ 32 → next_sequence n ≡ suc n
  next_sequence_lem n h = omega arith

  pub LogVerified-updated :
      (e : DidLogEntry Value) (log : List (DidLogEntry Value)) (did : Did) (prev time : Text)
      (p : LogParameters Value) (document : Value) (i : ℕ)
      → LogVerified (e ∷ log) did
      → suc (length (e ∷ log)) < 2 ^ 32
      → previous none (e ∷ log) (length (e ∷ log)) ≡ some prev
      → and_then (member document (text "id")) as_str ≡ some (to_text did)
      → Lacks b'#' (multikey_of key)
      → get_elem? (authorized_keys (e ∷ log) (length (e ∷ log))) i ≡ some (multikey_of key)
      → LogVerified
          (e ∷ log
            ++ updated key (length (e ∷ log)) prev time p (parameters_to_value p) document ∷ [])
          did
  unfolding derive_entry_hash hash_log_entry state_to_value
  LogVerified-updated e log did prev time p document i verified fits behind named plain authorized =
      let number = next_sequence_lem (length (e ∷ log)) fits in
      LogVerified-append e log _ did verified refl (record {
        document = document;
        state_eq = refl;
        id_eq = named;
        version_id_eq = rw (behind, number) refl;
        signed =
            updated-Signed (length (e ∷ log)) prev time p (parameters_to_value p) document
              (authorized_keys (e ∷ log) (length (e ∷ log))) i plain authorized;
      })
