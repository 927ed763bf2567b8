-- ===== src/Tool/WrittenRuns.antt =====
-- A log file with a line behind it, at a concrete text.
use swiyu_rs.Prelude.{◌≡◌, refl, [], ◌∷◌, ok, arith, if◌then◌else◌}
use swiyu_rs.Prelude.Text.{Text, text, text_eq}
use swiyu_rs.Prelude.Trim.{trim, trim_start, trim_end, lines}
use swiyu_rs.Json.Plain.{Tree, plain_json}
use swiyu_rs.Vendor.Crypto.{JsonText}
use swiyu_rs.Vendor.Samples.{leaves}
use swiyu_rs.DidLog.Entry.{DidLogEntry, entry_to_value}
use swiyu_rs.DidLog.RoundTrip.{entry_try_from-to_value}
use swiyu_rs.DidLog.Parameters.{as_written}
use swiyu_rs.DidLog.Jsonl.{read_line, read_lines, try_from_jsonl}
use swiyu_rs.DidLog.Samples.{genesis, second}
use swiyu_rs.Tool.Written.{not_blank, collect_raw_lines, ends_with_newline, build_updated_log}
use swiyu_rs.Tool.WrittenBack.{try_from_jsonl-build_updated_log}

-- Two JSON texts
abbrev two_texts : JsonText plain_json
two_texts = record {
  to_string = λ v. ok (leaves v);
  from_str =
      λ s. ok (if text_eq s (text "a") then entry_to_value genesis else entry_to_value second);
  jcs = leaves;
}

abbrev read_back : DidLogEntry Tree → DidLogEntry Tree
read_back e = record e { parameters = as_written e.parameters }

-- The text `a`, with blank lines around it
abbrev file : Text
file = 32 ∷ 10 ∷ b'a' ∷ 13 ∷ 10 ∷ 10 ∷ []

updated_file : build_updated_log (collect_raw_lines file) (text "b") ≡ b'a' ∷ 10 ∷ b'b' ∷ 10 ∷ []
unfolding build_updated_log collect_raw_lines not_blank lines ends_with_newline trim trim_start
    trim_end
updated_file = refl

file-genesis : try_from_jsonl ⦃t = two_texts⦄ file ≡ ok (read_back genesis ∷ [])
unfolding try_from_jsonl read_lines read_line lines trim trim_start trim_end
file-genesis = rw (entry_try_from-to_value genesis refl tt) refl

try_from_jsonl-build_updated_log_example :
    try_from_jsonl ⦃t = two_texts⦄ (build_updated_log (collect_raw_lines file) (text "b"))
    ≡ ok (read_back genesis ∷ read_back second ∷ [])
unfolding trim trim_start trim_end
try_from_jsonl-build_updated_log_example =
    try_from_jsonl-build_updated_log ⦃t = two_texts⦄ file (text "b") (entry_to_value second)
      file-genesis (omega arith, tt) refl refl (entry_try_from-to_value second refl tt)
