-- ===== src/DidLog/VerifyError.antt =====
-- `DIDLogVerifyError` of swiyu-core/src/didlog/verify.rs, with its `Display`.
use swiyu_rs.Prelude.{ℕ, ◌++◌}
use swiyu_rs.Prelude.Text.{Text, text}
use swiyu_rs.Prelude.Decimal.{decimal}

-- An entry is named by its index. The texts are in the order of the source's fields.
pub data VerifyError : Type 0 where
  empty_log missing_genesis_update_keys : VerifyError
  did_without_scid : Text → VerifyError
  unsupported_format patch_state missing_proof signature_invalid : ℕ → VerifyError
  scid_mismatch : (derived claimed : Text) → VerifyError
  did_identifier_mismatch : (entry : ℕ) (expected actual : Text) → VerifyError
  version_id_sequence_mismatch : (entry expected_seq : ℕ) (actual : Text) → VerifyError
  entry_hash_mismatch : (entry : ℕ) (claimed derived : Text) → VerifyError
  malformed_proof malformed_entry : (entry : ℕ) (message : Text) → VerifyError
  proof_key_not_authorized : (entry : ℕ) (verification_method multikey : Text) → VerifyError

-- `write!(f, "entry {i}: …")`
abbrev at_entry : ℕ → Text → Text
at_entry i message = text "entry " ++ decimal i ++ text ": " ++ message

unfoldable pub verify_error_text : VerifyError → Text
verify_error_text empty_log = text "DID log is empty"
verify_error_text missing_genesis_update_keys =
    text "genesis entry must announce parameters.updateKeys"
verify_error_text (did_without_scid did) =
    text "DID '" ++ did ++ text "' has no SCID — cannot verify a did:tdw log against it"
verify_error_text (unsupported_format i) =
    at_entry i (text "only did:tdw 0.3 verification is implemented")
verify_error_text (patch_state i) =
    at_entry i (text "state is a Patch — only Value states are supported for verification")
verify_error_text (missing_proof i) = at_entry i (text "no data integrity proof")
verify_error_text (signature_invalid i) = at_entry i (text "proof signature is invalid")
verify_error_text (scid_mismatch derived claimed) =
    text "genesis SCID mismatch: derived '"
    ++ derived
    ++ text "', DID claims '"
    ++ claimed
    ++ text "'"
verify_error_text (did_identifier_mismatch i expected actual) =
    at_entry i
      (text "state.value.id is '" ++ actual ++ text "', expected '" ++ expected ++ text "'")
verify_error_text (version_id_sequence_mismatch i expected_seq actual) = at_entry i (
    text "versionId '"
    ++ actual
    ++ text "' does not have the expected '"
    ++ decimal expected_seq
    ++ text "-' sequence prefix")
verify_error_text (entry_hash_mismatch i claimed derived) = at_entry i (
    text "entryHash mismatch — versionId claims '"
    ++ claimed
    ++ text "', recomputed '"
    ++ derived
    ++ text "'")
verify_error_text (malformed_proof i message) = at_entry i (text "malformed proof: " ++ message)
verify_error_text (malformed_entry i message) = at_entry i (text "malformed: " ++ message)
verify_error_text (proof_key_not_authorized i verification_method multikey) = at_entry i (
    text "proof verificationMethod '"
    ++ verification_method
    ++ text "' references key '"
    ++ multikey
    ++ text "', which is not in the authorized updateKeys")
