-- ===== src/Tool/WrittenBack.antt =====
-- The text of a log with a line behind it, read back.
use swiyu_rs.Prelude.{
  ℕ, suc, ◌≡◌, refl, false, List, [], ◌∷◌, ◌++◌, Result, ok, All, arith, Bool-cases, inl, inr,
}
use swiyu_rs.Prelude.{Result-cases, ap, ◌>>=◌}
use swiyu_rs.DidLog.Error.{DidLogError}
use swiyu_rs.Prelude.Text.{Text, Lacks, is_empty}
use swiyu_rs.Prelude.Trim.{trim, lines}
use swiyu_rs.Prelude.TrimLines.{trim-strip_cr, lines-newline, Lacks-lines}
use swiyu_rs.Json.Interface.{Json}
use swiyu_rs.Vendor.Crypto.{JsonText}
use swiyu_rs.DidLog.Entry.{DidLogEntry, entry_try_from}
use swiyu_rs.DidLog.Jsonl.{read_line, read_lines, try_from_jsonl}
use swiyu_rs.Tool.Written.{not_blank, collect_raw_lines, ends_with_newline, build_updated_log}

Lacks-ends_with_newline : (s : Text) → Lacks 10 s → ends_with_newline s ≡ false
unfolding ends_with_newline
Lacks-ends_with_newline [] h = refl
Lacks-ends_with_newline (c ∷ []) h = ground arith
Lacks-ends_with_newline (c ∷ d ∷ s) h = Lacks-ends_with_newline (d ∷ s) h.1

module _ ⦃j : Json⦄ ⦃t : JsonText j⦄ where
  open j use {Value}

  -- The number of a line is in its errors only.
  read_line-number :
      (i k : ℕ) (l : Text) {e : DidLogEntry Value} → read_line i l ≡ ok e → read_line k l ≡ ok e
  unfolding read_line
  read_line-number i k l h = elim (Result-cases (t.from_str l)) [
    | inl (v, f) ↦ elim (Result-cases (entry_try_from v)) [
      | inl (e, g) ↦ ground arith
      | inr (x, g) ↦ ground arith
    ]
    | inr (x, f) ↦ ground arith
  ]

  abbrev Same :
      Result DidLogError (List (DidLogEntry Value))
      → Result DidLogError (List (DidLogEntry Value))
      → Type 0
  Same r q = r ≡ q

  -- What a first line that is not blank has read as
  read_lines-uncons :
      (i : ℕ) (l : Text) (ls : List Text) {log : List (DidLogEntry Value)}
      → is_empty (trim l) ≡ false
      → read_lines i (l ∷ ls) ≡ ok log
      → (e : DidLogEntry Value) × (es : List (DidLogEntry Value)) × (read_line i (trim l) ≡ ok e)
        × (read_lines (suc i) ls ≡ ok es)
        × (Same (ok (e ∷ es)) (ok log))
  unfolding read_lines
  read_lines-uncons i l ls blank h = elim (Result-cases (read_line i (trim l))) [
    | inl (e, f) ↦ elim (Result-cases (read_lines (suc i) ls)) [
      | inl (es, g) ↦ (e, es, f, g, ground arith)
      | inr (x, g) ↦ absurd (ground arith)
    ]
    | inr (x, f) ↦ absurd (ground arith)
  ]

  -- An entry behind those that were read
  abbrev behind :
      DidLogEntry Value
      → Result DidLogError (List (DidLogEntry Value))
      → Result DidLogError (List (DidLogEntry Value))
  behind e r = do es ← r; ok (es ++ e ∷ [])

  module _ (new_line : Text) (e : DidLogEntry Value) (plain : Lacks 10 new_line)
      (filled : is_empty (trim new_line) ≡ false)
      (reads : (k : ℕ) → read_line k (trim new_line) ≡ ok e) where
    read_lines-build_updated_log :
        (ls : List Text) (i k : ℕ) {log : List (DidLogEntry Value)}
        → All (Lacks 10) ls
        → read_lines i ls ≡ ok log
        → read_lines k (lines (build_updated_log (not_blank ls) new_line)) ≡ ok (log ++ e ∷ [])
    unfolding read_lines lines build_updated_log not_blank
    read_lines-build_updated_log [] i k {log} all h =
        rw
          (
            Lacks-ends_with_newline new_line plain,
            lines-newline new_line [] plain,
            trim-strip_cr new_line,
            filled,
            reads k,
          )
          (ap (behind e) h)
    read_lines-build_updated_log (l ∷ ls) i k {log} (hl, hs) h =
        elim (Bool-cases (is_empty (trim l))) [
          | inl b ↦ rw b (read_lines-build_updated_log ls (suc i) k hs (ground arith))
          | inr b ↦
              let (e0, es, f, g, same) = read_lines-uncons i l ls b h in
              rw
                (
                  b,
                  lines-newline l (build_updated_log (not_blank ls) new_line) hl,
                  trim-strip_cr l,
                  b,
                  read_line-number i k (trim l) f,
                  read_lines-build_updated_log ls (suc i) (suc k) hs g,
                )
                (ap (behind e) same)
        ]

  -- If a text reads as a log, and a line without a newline that is not blank holds the JSON of an
  -- entry, then the log file that is made of the raw lines of the text and the line reads as the log
  -- with the entry behind it.
  pub try_from_jsonl-build_updated_log :
      (s new_line : Text) (v : Value) {log : List (DidLogEntry Value)} {e : DidLogEntry Value}
      → try_from_jsonl s ≡ ok log
      → Lacks 10 new_line
      → is_empty (trim new_line) ≡ false
      → t.from_str (trim new_line) ≡ ok v
      → entry_try_from v ≡ ok e
      → try_from_jsonl (build_updated_log (collect_raw_lines s) new_line) ≡ ok (log ++ e ∷ [])
  unfolding try_from_jsonl collect_raw_lines read_line
  try_from_jsonl-build_updated_log s new_line v {log} {e} reads plain filled parses entry =
      read_lines-build_updated_log new_line e plain filled (λ k. rw (parses, entry) refl) (lines s)
        0 0 (Lacks-lines s) reads
