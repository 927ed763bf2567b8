-- ===== src/DidLog/Verify.antt =====
-- swiyu-core/src/didlog/verify.rs: the verification of a log against its DID.
use swiyu_rs.Prelude.{ℕ, zero, suc, ◌+◌, ◌%◌, ◌^◌, Option, none, some, List, [], ◌∷◌, ◌++◌}
use swiyu_rs.Prelude.{
  Result, ok, err, ◌>>=◌, ◌>>◌, guard, ok_or, map_err, and_then, leb, length, take,
}
use swiyu_rs.Prelude.Text.{Text, text, text_eq, strip_prefix, replace}
use swiyu_rs.Prelude.Decimal.{decimal}
use swiyu_rs.Json.Interface.{Json}
use swiyu_rs.Json.Access.{as_str, as_array, string, array, member}
use swiyu_rs.Vendor.Crypto.{Bs58, Sha256, Ed25519, JsonText}
use swiyu_rs.Did.Identifier.{Did}
use swiyu_rs.Did.Identifier.{to_text}
use swiyu_rs.DidLog.Parameters.{LogEntryFormat, tdw03, web_vh10}
use swiyu_rs.DidLog.Entry.{DidDocState, full, patch, DidLogEntry, entry_to_value}
use swiyu_rs.DidLog.Edits.{set_first}
use swiyu_rs.DidLog.Hash.{derive_scid, derive_entry_hash}
use swiyu_rs.DidLog.VerifyError.{
  VerifyError, empty_log, did_without_scid, unsupported_format, patch_state, scid_mismatch,
  did_identifier_mismatch, version_id_sequence_mismatch, entry_hash_mismatch,
  missing_genesis_update_keys, malformed_entry,
}
use swiyu_rs.DidLog.Proof.{verify_proof}

-- `(i as u32) + 1`
abbrev pub sequence_number : ℕ → ℕ
sequence_number i = (i % 2 ^ 32 + 1) % 2 ^ 32

abbrev pub value_state : {V : Type 0} → ℕ → DidDocState V → Result VerifyError V
value_state i (full v) = ok v
value_state i (patch p) = err (patch_state i)

-- `Some(p) => p, None => claimed_scid`
abbrev pub link_of : Text → Option Text → Text
link_of claimed_scid (some p) = p
link_of claimed_scid none = claimed_scid

-- `if let Some(uks) = entry.parameters().update_keys() { … }`
abbrev pub announced : List Text → Option (List Text) → List Text
announced effective none = effective
announced effective (some uks) = uks

abbrev pub auth_keys_of : ℕ → Option (List Text) → List Text → Result VerifyError (List Text)
auth_keys_of zero own effective = ok_or own missing_genesis_update_keys
auth_keys_of (suc i) own effective = ok effective

abbrev pub check_format : ℕ → LogEntryFormat → Result VerifyError (Unit {0})
check_format i tdw03 = ok tt
check_format i web_vh10 = err (unsupported_format i)

module _ ⦃j : Json⦄ ⦃t : JsonText j⦄ ⦃b : Bs58⦄ ⦃s : Sha256⦄ where
  open j use {Value}

  -- `if i == 0 { … }`
  unfoldable pub check_genesis : ℕ → Value → Text → Result VerifyError (Unit {0})
  check_genesis (suc i) hashing_entry claimed_scid = ok tt
  check_genesis zero hashing_entry claimed_scid = do
    s ←
        map_err (λ e. malformed_entry 0 (text "serialize for SCID re-derivation: " ++ e))
          (t.to_string hashing_entry)
    prelim ←
        map_err (λ e. malformed_entry 0 (text "re-parse preliminary form: " ++ e))
          (t.from_str (replace s claimed_scid (text "{SCID}")))
    let derived_scid = derive_scid prelim
    guard (text_eq derived_scid claimed_scid) (scid_mismatch derived_scid claimed_scid)

module _ ⦃j : Json⦄ ⦃t : JsonText j⦄ ⦃b : Bs58⦄ ⦃s : Sha256⦄ ⦃c : Ed25519⦄ where
  open j use {Value}

  unfoldable pub verify_entry :
      ℕ
      → ℕ
      → DidLogEntry Value
      → Text
      → Text
      → Option Text
      → List Text
      → Result VerifyError (Unit {0})
  verify_entry i n entry claimed_scid expected_did prev_version_id auth_keys = do
    doc_value ← value_state i entry.did_doc_state
    actual_did ←
        ok_or (and_then (member doc_value (text "id")) as_str)
          (malformed_entry i (text "state.value.id is missing or not a string"))
    _ ← guard (text_eq actual_did expected_did) (did_identifier_mismatch i expected_did actual_did)
    actual_hash ←
        ok_or (strip_prefix (decimal n ++ text "-") entry.version_id)
          (version_id_sequence_mismatch i n entry.version_id)
    arr ←
        ok_or (as_array (entry_to_value entry))
          (malformed_entry i (text "entry is not a JSON array"))
    _ ←
        guard (leb 4 (length arr))
          (malformed_entry i (text "expected at least 4 elements, got " ++ decimal (length arr)))
    let hashing_entry =
        array (set_first (take 4 arr) (string (link_of claimed_scid prev_version_id)))
    let derived_hash = derive_entry_hash hashing_entry
    _ ← guard (text_eq derived_hash actual_hash) (entry_hash_mismatch i actual_hash derived_hash)
    _ ← check_genesis i hashing_entry claimed_scid
    verify_proof i entry.data_integrity_proofs doc_value auth_keys

  -- The loop, from the entry of index `i` on.
  unfoldable pub verify_entries :
      Text
      → Text
      → ℕ
      → List Text
      → Option Text
      → List (DidLogEntry Value)
      → Result VerifyError (Unit {0})
  verify_entries claimed_scid did i effective prev [] = ok tt
  verify_entries claimed_scid did i effective prev (entry ∷ rest) = do
    auth_keys ← auth_keys_of i entry.parameters.update_keys effective
    _ ← verify_entry i (sequence_number i) entry claimed_scid did prev auth_keys
    verify_entries claimed_scid did (suc i) (announced effective entry.parameters.update_keys)
        (some entry.version_id) rest

  unfoldable pub check_formats : ℕ → List (DidLogEntry Value) → Result VerifyError (Unit {0})
  check_formats i [] = ok tt
  check_formats i (entry ∷ rest) = check_format i entry.format >> check_formats (suc i) rest

  abbrev not_empty : List (DidLogEntry Value) → Result VerifyError (Unit {0})
  not_empty [] = err empty_log
  not_empty (e ∷ es) = ok tt

  unfoldable pub verify_log : List (DidLogEntry Value) → Did → Result VerifyError (Unit {0})
  unfolding verify_entries check_formats
  verify_log entries did = do
    _ ← not_empty entries
    claimed_scid ← ok_or did.scid (did_without_scid (to_text did))
    _ ← check_formats 0 entries
    verify_entries claimed_scid (to_text did) 0 [] none entries
