-- ===== src/DidLog/Runs.antt =====
-- Concrete runs, and the theorems at concrete inputs.
use swiyu_rs.Prelude.{◌≡◌, refl, none, [], ◌∷◌, ok, err, arith, length}
use swiyu_rs.Prelude.Text.{text, strip_prefix, split_once, replace, replace_from}
use swiyu_rs.Prelude.Decimal.{decimal}
use swiyu_rs.Json.Access.{as_str, as_array, as_object}
use swiyu_rs.Json.Plain.{Tree, plain_json}
use swiyu_rs.Vendor.Samples.{sample_base58, sample_sha256, sample_ed25519, sample_json_text}
use swiyu_rs.Vendor.Samples.{leaves, item_leaves, member_leaves}
use swiyu_rs.Did.Identifier.{to_text}
use swiyu_rs.DidDoc.Multibase.{multibase_from_text}
use swiyu_rs.DidLog.Parameters.{tdw03, parameters_to_value}
use swiyu_rs.DidLog.Parameters.{as_written, web_vh10, only_keys}
use swiyu_rs.DidLog.Entry.{
  DidLogEntry, state_to_value, entry_to_value, fields_to_value, entry_try_from,
}
use swiyu_rs.DidLog.Hash.{hash_log_entry, derive_entry_hash, derive_scid, eddsa_jcs_2022_hash}
use swiyu_rs.DidLog.Verify.{verify_log, verify_entry, check_genesis}
use swiyu_rs.DidLog.VerifyError.{empty_log, version_id_sequence_mismatch}
use swiyu_rs.DidLog.Proof.{
  verify_proof, parse_did_key_vm, contains_key, decode_ed25519_multikey, decode_multibase_z,
}
use swiyu_rs.DidLog.Edits.{set_first, append_proof, strip_proof_slot}
use swiyu_rs.DidLog.Edited.{WithoutProof, replace_proof-entry}
use swiyu_rs.DidLog.RoundTrip.{entry_try_from-to_value}
use swiyu_rs.DidDoc.Document.{new}
use swiyu_rs.DidLog.Final.{verify_log-new_deactivation}
use swiyu_rs.DidLog.Chain.{LogVerified, verify_log_sound}
use swiyu_rs.Json.Access.{insert_some}
use swiyu_rs.DidLog.Samples.{
  issuer, proof, genesis, second, accepted, deactivation, deactivated, deactivation-parameters,
}
use swiyu_rs.DidLog.Accepts.{verify_log_complete}

refused :
    (verify_log [] issuer ≡ err empty_log)
    × (verify_log (genesis ∷ genesis ∷ []) issuer
        ≡ err (version_id_sequence_mismatch 1 2 (text "1-Qe")))
unfolding verify_log verify_entry check_genesis verify_proof as_str as_array as_object
    entry_to_value fields_to_value parameters_to_value state_to_value insert_some hash_log_entry
    derive_entry_hash derive_scid eddsa_jcs_2022_hash leaves item_leaves member_leaves replace
    replace_from strip_prefix split_once decimal to_text set_first parse_did_key_vm contains_key
    decode_ed25519_multikey decode_multibase_z multibase_from_text
refused = (refl, refl)

verify_log_sound_example : LogVerified (genesis ∷ second ∷ []) issuer
verify_log_sound_example = verify_log_sound (genesis ∷ second ∷ []) issuer (omega arith) accepted

entry_try_from-to_value_example :
    entry_try_from (entry_to_value genesis)
    ≡ ok (record genesis { parameters = as_written genesis.parameters })
entry_try_from-to_value_example = entry_try_from-to_value genesis refl tt

-- The entry as one of did:webvh
abbrev web : DidLogEntry Tree
web = record genesis { format = web_vh10; parameters = only_keys web_vh10 [] none }

replace_proof-entry_example :
    WithoutProof web_vh10 web (strip_proof_slot (entry_to_value web) web_vh10)
    × (entry_try_from
          (append_proof (strip_proof_slot (entry_to_value web) web_vh10) (proof []) web_vh10)
        ≡ ok (record web {
          parameters = as_written web.parameters;
          data_integrity_proofs = proof [] ∷ [];
        }))
replace_proof-entry_example = replace_proof-entry web (proof []) refl tt

verify_log-new_deactivation_example : length (genesis ∷ deactivation ∷ []) ≡ 2
verify_log-new_deactivation_example =
    verify_log-new_deactivation (genesis ∷ deactivation ∷ []) issuer 1 deactivation tdw03
      (text "1-Qe") (new (text "did:tdw:Qi:e.org")) (text "t") (omega arith) deactivated refl
      deactivation-parameters

verify_log_complete_example : verify_log (genesis ∷ second ∷ []) issuer ≡ ok tt
verify_log_complete_example =
    verify_log_complete (genesis ∷ second ∷ []) issuer (omega arith)
      (verify_log_sound (genesis ∷ second ∷ []) issuer (omega arith) accepted)
