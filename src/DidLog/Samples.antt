-- ===== src/DidLog/Samples.antt =====
-- Concrete logs, at which tests and examples run.
use swiyu_rs.Prelude.{ℕ, ◌≡◌, refl, true, Option, none, some, List, [], ◌∷◌, ◌++◌, ok, replicate}
use swiyu_rs.Prelude.Text.{Text, text, strip_prefix, split_once, replace, replace_from}
use swiyu_rs.Prelude.Decimal.{decimal}
use swiyu_rs.Json.Access.{string, json_object, as_str, as_array, as_object}
use swiyu_rs.Json.Plain.{Tree, plain_json}
use swiyu_rs.Vendor.Samples.{sample_base58, sample_sha256, sample_ed25519, sample_json_text}
use swiyu_rs.Vendor.Samples.{leaves, item_leaves, member_leaves}
use swiyu_rs.Did.Identifier.{Did, tdw, to_text}
use swiyu_rs.DidDoc.Multibase.{multibase_from_text}
use swiyu_rs.DidLog.Parameters.{tdw03, parameters_to_value}
use swiyu_rs.DidLog.Parameters.{only_keys}
use swiyu_rs.DidLog.Entry.{full, DidLogEntry, state_to_value, entry_to_value, fields_to_value}
use swiyu_rs.DidLog.Hash.{hash_log_entry, derive_entry_hash, derive_scid, eddsa_jcs_2022_hash}
use swiyu_rs.DidLog.Verify.{verify_log, verify_entry, check_genesis}
use swiyu_rs.DidLog.Proof.{
  verify_proof, parse_did_key_vm, contains_key, decode_ed25519_multikey, decode_multibase_z,
}
use swiyu_rs.DidLog.Edits.{set_first}
use swiyu_rs.DidDoc.Document.{new}
use swiyu_rs.DidLog.Final.{new_deactivation}
use swiyu_rs.Json.Access.{insert_some}

-- A DID whose SCID is the hash of its genesis entry.
abbrev pub scid : Text
scid = text "Qi"

abbrev pub issuer : Did
issuer = record { method = tdw; scid = some scid; domain = text "e.org"; path = none }

abbrev pub multikey : Text
multikey = b'z' ∷ 0xed ∷ 0x01 ∷ replicate 32 b'k'

abbrev pub document : Tree
document = json_object ((text "id", string (text "did:tdw:Qi:e.org")) ∷ [])

abbrev pub proof : Text → Tree
proof signature = json_object (
    (text "verificationMethod", string (text "did:key:" ++ multikey ++ b'#' ∷ multikey))
    ∷ (text "proofValue", string (b'z' ∷ signature))
    ∷ [])

-- The signature of the document under the options of `proof`.
abbrev pub signature : List ℕ
signature = replicate 64 160

abbrev pub entry : Text → Option (List Text) → DidLogEntry Tree
entry version_id keys = record {
  format = tdw03;
  version_id = version_id;
  version_time = text "t";
  parameters = record (only_keys tdw03 [] none) { update_keys = keys };
  did_doc_state = full document;
  data_integrity_proofs = proof signature ∷ [];
}

abbrev pub genesis : DidLogEntry Tree
genesis = entry (text "1-Qe") (some (multikey ∷ []))

-- An entry that leaves the keys as they are.
abbrev pub second : DidLogEntry Tree
second = entry (text "2-Qn") none

pub accepted : verify_log (genesis ∷ second ∷ []) issuer ≡ ok tt
unfolding verify_log verify_entry check_genesis verify_proof as_str as_array as_object
    entry_to_value fields_to_value parameters_to_value state_to_value insert_some hash_log_entry
    derive_entry_hash derive_scid eddsa_jcs_2022_hash leaves item_leaves member_leaves replace
    replace_from strip_prefix split_once decimal to_text set_first parse_did_key_vm contains_key
    decode_ed25519_multikey decode_multibase_z multibase_from_text
accepted = refl

-- The genesis entry, and the deactivation behind it.
abbrev pub deactivation : DidLogEntry Tree
deactivation = record genesis {
  version_id = text "2-Qi";
  parameters = only_keys tdw03 [] (some true);
}

pub deactivated : verify_log (genesis ∷ deactivation ∷ []) issuer ≡ ok tt
unfolding verify_log verify_entry check_genesis verify_proof as_str as_array as_object
    entry_to_value fields_to_value parameters_to_value state_to_value insert_some hash_log_entry
    derive_entry_hash derive_scid eddsa_jcs_2022_hash leaves item_leaves member_leaves replace
    replace_from strip_prefix split_once decimal to_text set_first parse_did_key_vm contains_key
    decode_ed25519_multikey decode_multibase_z multibase_from_text
deactivated = refl

pub deactivation-parameters :
    deactivation.parameters
    ≡ (new_deactivation tdw03 (text "1-Qe") (new (text "did:tdw:Qi:e.org")) (text "t")).parameters
unfolding new_deactivation
deactivation-parameters = refl
