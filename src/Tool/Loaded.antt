-- ===== src/Tool/Loaded.antt =====
-- What a loaded log is, and where an entry is that was chosen.
use swiyu_rs.Prelude.{
  ℕ, ◌+◌, ◌<◌, ◌^◌, ◌≡◌, ◌↔◌, ◌⊎◌, inl, inr, refl, false, Option, some, List, ok, length, arith,
  Bool-cases,
}
use swiyu_rs.Prelude.Text.{Text}
use swiyu_rs.Json.Interface.{Json}
use swiyu_rs.Vendor.Crypto.{Bs58, Sha256, Ed25519, JsonText}
use swiyu_rs.Did.Identifier.{Did}
use swiyu_rs.DidLog.Entry.{DidLogEntry}
use swiyu_rs.DidLog.Chain.{LogVerified, verify_log_sound}
use swiyu_rs.DidLog.Accepts.{verify_log_complete}
use swiyu_rs.Tool.Log.{
  verify_loaded_log, starts_as_tdw, Selector, latest, index, parse_selector, resolve_selector,
}

module _ ⦃j : Json⦄ ⦃t : JsonText j⦄ ⦃b : Bs58⦄ ⦃s : Sha256⦄ ⦃c : Ed25519⦄ where
  open j use {Value}

  -- A log of fewer than 2^32 entries that was loaded for a DID passes just where its first entry is no
  -- did:tdw entry, or it is a verified log of that DID.
  pub verify_loaded_log_iff :
      (log : List (DidLogEntry Value)) (did : Did)
      → length log < 2 ^ 32
      → (verify_loaded_log log (some did) ≡ ok tt)
        ↔ ((starts_as_tdw log ≡ false) ⊎ LogVerified log did)
  unfolding verify_loaded_log
  verify_loaded_log_iff log did fits = elim (Bool-cases (starts_as_tdw log)) [
    | inl tdw ↦ (
      λ h. inr (verify_log_sound log did fits (rw tdw at h)),
      λ found. elim found [
        | inl other ↦ absurd (ground arith)
        | inr verified ↦ rw tdw (verify_log_complete log did fits verified)
      ],
    )
    | inr other ↦ (λ h. inl other, λ found. rw other refl)
  ]

parse_selector-index :
    (parse_usize : Text → Option ℕ) (s : Text) {n : ℕ}
    → parse_selector parse_usize s ≡ ok (index n)
    → 0 < n
unfolding parse_selector
parse_selector-index parse_usize s h = ground arith

-- The place, counted from 1, that a selector stands for in a log of `n` entries.
abbrev pub place_of : Selector → ℕ → ℕ
place_of latest n = n
place_of (index i) n = i

-- The index that a selector text resolves to is within the log: it is the last one for `latest`, and
-- the place given, counted from 1, for a number.
pub resolve_selector-bounds :
    {V : Type 0} (parse_usize : Text → Option ℕ) (s : Text) (selector : Selector) (log : List V)
    (i : ℕ)
    → parse_selector parse_usize s ≡ ok selector
    → resolve_selector selector log ≡ ok i
    → (i < length log) × (i + 1 ≡ place_of selector (length log))
unfolding resolve_selector
resolve_selector-bounds parse_usize s latest log i h g = (ground arith, ground arith)
resolve_selector-bounds parse_usize s (index n) log i h g =
    let positive = parse_selector-index parse_usize s h in (ground arith, ground arith)
