-- ===== src/Tool/Pending.antt =====
-- Which fallback file is written.
use swiyu_rs.Prelude.{
  ℕ, zero, suc, ◌+◌, ◌<◌, ◌≤◌, ◌≡◌, ◌⊎◌, inl, inr, refl, none, some, Result, ok, err, Option-cases,
  Bool-cases, ◌==◌, arith,
}
use swiyu_rs.Prelude.Text.{Text, text_eq, text_eq_sound}
use swiyu_rs.KeyStore.Dir.{Dir, find, find-put, put}
use swiyu_rs.Tool.Files.{
  WriteLogError, pending_exhausted, max_pending_index, pending_name, pending_from,
  write_pending_log,
}

-- All of the numbers from `n` to before `last` have their file.
abbrev pub AllTaken : Dir Text → ℕ → ℕ → Type 0
AllTaken files n last =
    (m : ℕ) → n ≤ m → m < last → (s : Text) × (find files (pending_name m) ≡ some s)

-- The file of the first number that has none is written, if there is one from `n` to before `last`.
abbrev pub TakesFirst : Dir Text → Text → ℕ → ℕ → Result WriteLogError (Dir Text × Text) → Type 0
TakesFirst files content n last written =
    ((k : ℕ) × (n ≤ k)
      × (k < last)
      × (written ≡ ok (put files (pending_name k) content, pending_name k))
      × (find files (pending_name k) ≡ none)
      × AllTaken files n k)
    ⊎ ((written ≡ err (pending_exhausted max_pending_index)) × AllTaken files n last)

AllTaken-suc :
    (files : Dir Text) (n last : ℕ) {s : Text}
    → find files (pending_name n) ≡ some s
    → AllTaken files (suc n) last
    → AllTaken files n last
AllTaken-suc files n last {s} there rest m low high = elim (Bool-cases (n == m)) [
  | inl h ↦ let same : n ≡ m = ground arith in (s, rw (← same) there)
  | inr h ↦ rest m (ground arith) high
]

pending_from-first :
    (left n last : ℕ) (files : Dir Text) (content : Text)
    → n + left ≡ last
    → TakesFirst files content n last (pending_from left n files content)
unfolding pending_from
pending_from-first zero n last files content e = inr (refl, λ m low high. absurd (omega arith))
pending_from-first (suc left) n last files content e =
    elim (Option-cases (find files (pending_name n))) [
      | inl free ↦
          inl (n, omega arith, omega arith, rw free refl, free, λ m low high. absurd (omega arith))
      | inr (s, there) ↦ elim (pending_from-first left (suc n) last files content (omega arith)) [
        | inl (k, low, high, written, free, taken) ↦
            inl (k, omega arith, high, rw there written, free, AllTaken-suc files n k there taken)
        | inr (failed, taken) ↦ inr (rw there failed, AllTaken-suc files n last there taken)
      ]
    ]

TakesFirst-kept :
    (files : Dir Text) (content : Text) (n last : ℕ)
    (written : Result WriteLogError (Dir Text × Text))
    → TakesFirst files content n last written
    → (new : Dir Text) (path : Text) → written ≡ ok (new, path)
    → (l : Text) {s : Text} → find files l ≡ some s
    → find new l ≡ some s
TakesFirst-kept files content n last written (inr (failed, taken)) new path h l there = absurd (cc)
TakesFirst-kept files content n last written (inl (k, low, high, made, free, taken)) new path h l
      there =
    let same : put files (pending_name k) content ≡ new = cc in
    elim (Bool-cases (text_eq (pending_name k) l)) [
      | inl e ↦ let name = text_eq_sound (pending_name k) l e in absurd (cc)
      | inr e ↦ rw (← same, find-put files (pending_name k) l content, e) there
    ]

-- The loop ends: it writes the file of the first of the 9999 names that has none, or fails where all
-- have one.
pub write_pending_log-first :
    (files : Dir Text) (content : Text)
    → TakesFirst files content 1 10000 (write_pending_log files content)
unfolding write_pending_log
write_pending_log-first files content = pending_from-first 9999 1 10000 files content (omega arith)

-- No file that is there is written over.
pub write_pending_log-kept :
    (files : Dir Text) (content : Text) (new : Dir Text) (path l s : Text)
    → write_pending_log files content ≡ ok (new, path)
    → find files l ≡ some s
    → find new l ≡ some s
write_pending_log-kept files content new path l s h there =
    TakesFirst-kept files content 1 10000 _ (write_pending_log-first files content) new path h l
      there
