-- ===== src/Tool/LoadRuns.antt =====
-- The loading and the writing of logs at concrete files and answers.
use swiyu_rs.Prelude.{◌≡◌, refl, none, some, [], ◌∷◌, ok, if◌then◌else◌, arith}
use swiyu_rs.Prelude.Text.{Text, text, text_eq}
use swiyu_rs.Json.Plain.{Tree, plain_json}
use swiyu_rs.Vendor.Crypto.{JsonText}
use swiyu_rs.Vendor.Samples.{sample_base58, sample_sha256, sample_ed25519, leaves}
use swiyu_rs.Vendor.Web.{Web}
use swiyu_rs.DidLog.Entry.{entry_to_value}
use swiyu_rs.DidLog.Samples.{issuer, genesis}
use swiyu_rs.DidLog.RoundTrip.{entry_try_from-to_value}
use swiyu_rs.DidLog.Jsonl.{read_line, read_lines, try_from_jsonl}
use swiyu_rs.Prelude.Trim.{lines, trim, trim_start, trim_end}
use swiyu_rs.Prelude.Text.{strip_prefix, split_once, splitn, split, replace, replace_from}
use swiyu_rs.Prelude.Decimal.{decimal}
use swiyu_rs.Json.Access.{as_str, as_array, as_object, insert_some}
use swiyu_rs.DidDoc.Multibase.{multibase_from_text}
use swiyu_rs.DidLog.Parameters.{parameters_to_value}
use swiyu_rs.DidLog.Entry.{state_to_value, fields_to_value}
use swiyu_rs.DidLog.Hash.{hash_log_entry, derive_entry_hash, derive_scid, eddsa_jcs_2022_hash}
use swiyu_rs.DidLog.Verify.{verify_log, verify_entry, verify_entries, check_formats, check_genesis}
use swiyu_rs.DidLog.Proof.{
  verify_proof, parse_did_key_vm, contains_key, decode_ed25519_multikey, decode_multibase_z,
}
use swiyu_rs.DidLog.Edits.{set_first}
use swiyu_rs.Did.Identifier.{to_text, prefix, is_valid_domain, is_valid_path}
use swiyu_rs.Did.Parse.{from_text, from_parts, split_method}
use swiyu_rs.Did.Url.{log_url}
use swiyu_rs.Tool.Resolve.{resolve_did, is_hash}
use swiyu_rs.Tool.Http.{fetch_text, read_body, max_bytes}
use swiyu_rs.Tool.Load.{fetch_log, read_log}
use swiyu_rs.Tool.Log.{verify_loaded_log}
use swiyu_rs.Tool.Written.{collect_raw_lines, not_blank}
use swiyu_rs.KeyStore.Dir.{Dir}
use swiyu_rs.Tool.Load.{LoadedLog, load_log}
use swiyu_rs.Tool.LoadVerified.{LoadedFor, load_log_sound}
use swiyu_rs.Tool.Files.{write_pending_log}
use swiyu_rs.Tool.Pending.{TakesFirst, write_pending_log-first}

-- One line stands for the genesis entry.
instance abbrev line_text : JsonText plain_json
line_text = record {
  to_string = λ v. ok (leaves v);
  from_str = λ s. if text_eq s (text "1") then ok (entry_to_value genesis) else ok (Tree.str s);
  jcs = leaves;
}

instance abbrev line_web : Web
line_web = record {
  send = λ r. ok (record { status = 200; all = ok (text "1"); head = λ n. ok (text "1") });
  from_utf8 = some;
}

abbrev loaded_log : LoadedLog Tree
loaded_log = record { raw_lines = text "1" ∷ []; log = genesis ∷ []; source_path = none }

read : read_log [] [] (some (text "did:tdw:Qi:e.org")) none ≡ ok (text "1", none, some issuer)
unfolding read_log resolve_did is_hash from_text from_parts split_method prefix strip_prefix
    split_once splitn is_valid_domain is_valid_path split log_url replace fetch_log fetch_text
    read_body max_bytes
read = refl

parsed : try_from_jsonl (text "1") ≡ ok (genesis ∷ [])
unfolding try_from_jsonl read_lines read_line lines trim trim_start trim_end
parsed = rw (entry_try_from-to_value genesis refl tt) refl

verified : verify_loaded_log (genesis ∷ []) (some issuer) ≡ ok tt
unfolding verify_loaded_log verify_log verify_entries check_formats verify_entry check_genesis
    verify_proof as_str as_array as_object entry_to_value fields_to_value parameters_to_value
    state_to_value insert_some hash_log_entry derive_entry_hash derive_scid eddsa_jcs_2022_hash
    leaves replace replace_from strip_prefix split_once decimal to_text set_first parse_did_key_vm
    contains_key decode_ed25519_multikey decode_multibase_z multibase_from_text
verified = refl

load_log-issuer : load_log [] [] (some (text "did:tdw:Qi:e.org")) none ≡ ok loaded_log
unfolding load_log collect_raw_lines not_blank lines trim trim_start trim_end
load_log-issuer = rw (read, parsed, verified) refl

load_log_sound_example : LoadedFor [] (text "did:tdw:Qi:e.org") loaded_log
load_log_sound_example =
    load_log_sound [] [] (text "did:tdw:Qi:e.org") loaded_log load_log-issuer (omega arith)

abbrev files : Dir Text
files = (text "did-pending-1.jsonl", text "a") ∷ []

write_pending_log-first_example :
    TakesFirst files (text "b") 1 10000 (write_pending_log files (text "b"))
write_pending_log-first_example = write_pending_log-first files (text "b")
