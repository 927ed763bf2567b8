-- ===== src/Tool/Log.antt =====
-- swiyu-didtool/src/cmd/didlog.rs: the DID that a log announces, the verification of a log that was
-- loaded, and the choice of an entry.
use swiyu_rs.Prelude.{ℕ, ◌-◌, Bool, true, false, Option, none, some, List, [], ◌∷◌, Result, ok, err}
use swiyu_rs.Prelude.{or_else, and_then, length, leb, ltb, ◌==◌, if◌then◌else◌}
use swiyu_rs.Prelude.Text.{Text, text, text_eq}
use swiyu_rs.Json.Interface.{Json}
use swiyu_rs.Json.Access.{as_str, member}
use swiyu_rs.Vendor.Crypto.{Bs58, Sha256, Ed25519, JsonText}
use swiyu_rs.Did.Identifier.{Did}
use swiyu_rs.Did.Parse.{from_text}
use swiyu_rs.DidLog.Parameters.{tdw03, web_vh10}
use swiyu_rs.DidLog.Entry.{DidDocState, full, patch, DidLogEntry}
use swiyu_rs.DidLog.VerifyError.{VerifyError}
use swiyu_rs.DidLog.Verify.{verify_log}

module _ ⦃j : Json⦄ where
  open j use {Value}

  -- The DID of an entry that stores a full document with a text for its `id`.
  abbrev pub did_of : DidDocState Value → Option Text
  did_of (full doc) = and_then (member doc (text "id")) as_str
  did_of (patch p) = none

  -- The newest entry that has a DID is asked.
  unfoldable pub current_did : List (DidLogEntry Value) → Option Text
  current_did [] = none
  current_did (e ∷ es) = or_else (current_did es) (did_of e.did_doc_state)

  -- `DID::from_str(&s).ok()`
  abbrev pub parsed : Option Text → Option Did
  parsed none = none
  parsed (some s) = elim (from_text s) [ ok d ↦ some d | err e ↦ none ]

  -- The DID that a loaded log is verified against.
  abbrev pub did_for_verify : List (DidLogEntry Value) → Option Did → Option Did
  did_for_verify log target = elim target [ some d ↦ some d | none ↦ parsed (current_did log) ]

-- `matches!(e.format(), LogEntryFormat::TDW03)` of the first entry
abbrev pub starts_as_tdw : {V : Type 0} → List (DidLogEntry V) → Bool
starts_as_tdw [] = false
starts_as_tdw (e ∷ es) = elim e.format [ tdw03 ↦ true | web_vh10 ↦ false ]

module _ ⦃j : Json⦄ ⦃t : JsonText j⦄ ⦃b : Bs58⦄ ⦃s : Sha256⦄ ⦃c : Ed25519⦄ where
  open j use {Value}

  unfoldable pub verify_loaded_log :
      List (DidLogEntry Value) → Option Did → Result VerifyError (Unit {0})
  verify_loaded_log log target_did =
      if starts_as_tdw log
      then elim (did_for_verify log target_did) [ some did ↦ verify_log log did | none ↦ ok tt ]
      else ok tt

pub data Selector : Type 0 where
  latest : Selector
  index : ℕ → Selector

pub data SelectorError : Type 0 where
  bad_selector : Text → SelectorError
  index_out_of_range : (index total : ℕ) → SelectorError

-- `parse_usize` is `str::parse::<usize>`.
unfoldable pub parse_selector :
    (parse_usize : Text → Option ℕ) → Text → Result SelectorError Selector
parse_selector parse_usize s =
    if text_eq s (text "latest") then ok latest else elim (parse_usize s) [
      | some n ↦ if leb 1 n then ok (index n) else err (bad_selector s)
      | none ↦ err (bad_selector s)
    ]

unfoldable pub resolve_selector : {V : Type 0} → Selector → List V → Result SelectorError ℕ
resolve_selector latest log =
    if length log == 0 then err (index_out_of_range 1 (length log)) else ok (length log - 1)
resolve_selector (index n) log =
    if ltb (length log) n then err (index_out_of_range n (length log)) else ok (n - 1)
