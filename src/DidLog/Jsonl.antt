-- ===== src/DidLog/Jsonl.antt =====
-- `DIDLog::try_from_jsonl`: a log as lines of JSON.
use swiyu_rs.Prelude.{ℕ, suc, ◌+◌, List, [], ◌∷◌, ◌++◌, Result, ok, ◌>>=◌, map_err, if◌then◌else◌}
use swiyu_rs.Prelude.Text.{Text, text, is_empty}
use swiyu_rs.Prelude.Trim.{trim, lines}
use swiyu_rs.Prelude.Decimal.{decimal}
use swiyu_rs.Json.Interface.{Json}
use swiyu_rs.Vendor.Crypto.{JsonText}
use swiyu_rs.DidLog.Error.{DidLogError, invalid_format, missing_field, invalid_field_type}
use swiyu_rs.DidLog.Entry.{DidLogEntry, entry_try_from}

-- The errors of a line say which one it is, counted from 1.
abbrev pub line_error : ℕ → DidLogError → DidLogError
line_error i (invalid_format m) = invalid_format (text "line " ++ decimal (i + 1) ++ text ": " ++ m)
line_error i (missing_field f) =
    invalid_format (text "line " ++ decimal (i + 1) ++ text ": missing field '" ++ f ++ text "'")
line_error i (invalid_field_type m) =
    invalid_format (text "line " ++ decimal (i + 1) ++ text ": " ++ m)

module _ ⦃j : Json⦄ ⦃t : JsonText j⦄ where
  open j use {Value}

  unfoldable pub read_line : ℕ → Text → Result DidLogError (DidLogEntry Value)
  read_line i trimmed = do
    v ←
        map_err (λ e. invalid_format (text "line " ++ decimal (i + 1) ++ text ": " ++ e))
          (t.from_str trimmed)
    map_err (line_error i) (entry_try_from v)

  -- The lines from index `i` on; the blank ones are passed over.
  unfoldable pub read_lines : ℕ → List Text → Result DidLogError (List (DidLogEntry Value))
  unfolding trim read_line
  read_lines i [] = ok []
  read_lines i (line ∷ rest) =
      let blank = is_empty (trim line) in
      let entry = read_line i (trim line) in
      let later = read_lines (suc i) rest in
      if blank then later else (do e ← entry; es ← later; ok (e ∷ es))

  unfoldable pub try_from_jsonl : Text → Result DidLogError (List (DidLogEntry Value))
  unfolding read_lines lines
  try_from_jsonl s = read_lines 0 (lines s)
