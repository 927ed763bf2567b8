-- ===== src/DidLog/Append.antt =====
-- A verified log, and an entry behind it.
use swiyu_rs.Prelude.{
  ℕ, zero, suc, ◌<◌, ◌≤◌, ◌≡◌, refl, none, some, List, [], ◌∷◌, ◌++◌, length, take, get_elem?, All,
  arith,
}
use swiyu_rs.Prelude.{sym, ap, ltb, Bool-cases, inl, inr, ◌∙◌}
use swiyu_rs.Prelude.Chunks.{get_elem?-append_left}
use swiyu_rs.Prelude.Text.{Text}
use mathlib.Core.Option.{some-injective}
use swiyu_rs.Json.Interface.{Json}
use swiyu_rs.Vendor.Crypto.{Bs58, Sha256, Ed25519, JsonText}
use swiyu_rs.Did.Identifier.{Did, to_text}
use swiyu_rs.DidLog.Parameters.{tdw03}
use swiyu_rs.DidLog.Entry.{DidLogEntry}
use swiyu_rs.DidLog.Verified.{EntryVerified}
use swiyu_rs.DidLog.Chain.{LogVerified, previous, authorized_keys}

module _ {ℓ} {A : Type ℓ} where
  get_elem?-end :
      (xs : List A) (x : A) (k : ℕ) {y : A}
      → get_elem? (xs ++ x ∷ []) k ≡ some y
      → ¬ (k < length xs)
      → (k ≡ length xs) × (x ≡ y)
  get_elem?-end [] x zero h past = (refl, some-injective _ _ h)
  get_elem?-end [] x (suc k) h past = absurd (cc)
  get_elem?-end (z ∷ xs) x zero h past = absurd (past (omega arith))
  get_elem?-end (z ∷ xs) x (suc k) h past =
      let (place, same) = get_elem?-end xs x k h (λ l. past (omega arith)) in (ap suc place, same)

  take-append : (xs ys : List A) (n : ℕ) → n ≤ length xs → take n (xs ++ ys) ≡ take n xs
  take-append xs ys zero h = refl
  take-append [] ys (suc n) h = absurd (omega arith)
  take-append (x ∷ xs) ys (suc n) h = ap (λ r. x ∷ r) (take-append xs ys n (omega arith))

  All-snoc {κ} : (P : A → Type κ) (xs : List A) (x : A) → All P xs → P x → All P (xs ++ x ∷ [])
  All-snoc P [] x h p = (p, tt)
  All-snoc P (y ∷ xs) x (q, h) p = (q, All-snoc P xs x h p)

previous-append :
    {V : Type 0} (log es : List (DidLogEntry V)) (k : ℕ)
    → k ≤ length log
    → previous none (log ++ es) k ≡ previous none log k
previous-append log es zero h = refl
previous-append log es (suc k) h = rw (get_elem?-append_left log es k (omega arith)) refl

authorized_keys-append :
    {V : Type 0} (e : DidLogEntry V) (log es : List (DidLogEntry V)) (k : ℕ)
    → k ≤ length (e ∷ log)
    → authorized_keys (e ∷ log ++ es) k ≡ authorized_keys (e ∷ log) k
authorized_keys-append e log es zero h = refl
authorized_keys-append e log es (suc k) h = rw (take-append (e ∷ log) es (suc k) h) refl

module _ ⦃j : Json⦄ ⦃t : JsonText j⦄ ⦃b : Bs58⦄ ⦃s : Sha256⦄ ⦃c : Ed25519⦄ where
  open j use {Value}

  -- The entry of index `k` of the longer log, which is one of the shorter.
  entry_within :
      (e : DidLogEntry Value) (log es : List (DidLogEntry Value)) (scid did : Text) (k : ℕ)
      (f : DidLogEntry Value)
      → k ≤ length (e ∷ log)
      → EntryVerified scid did (suc k) (previous none (e ∷ log) k) (authorized_keys (e ∷ log) k) f
      → EntryVerified scid did
          (suc k)
          (previous none (e ∷ log ++ es) k)
          (authorized_keys (e ∷ log ++ es) k)
          f
  entry_within e log es scid did k f h found =
      rw (previous-append (e ∷ log) es k h, authorized_keys-append e log es k h) found

  -- A verified log stays verified with an entry behind it that is verified at its place there.
  pub LogVerified-append :
      (e : DidLogEntry Value) (log : List (DidLogEntry Value)) (last : DidLogEntry Value)
      (did : Did) (verified : LogVerified (e ∷ log) did)
      → last.format ≡ tdw03
      → EntryVerified verified.scid
          (to_text did)
          (suc (length (e ∷ log)))
          (previous none (e ∷ log) (length (e ∷ log)))
          (authorized_keys (e ∷ log) (length (e ∷ log)))
          last
      → LogVerified (e ∷ log ++ last ∷ []) did
  LogVerified-append e log last did verified format entry = record {
    scid = verified.scid;
    scid_eq = verified.scid_eq;
    formats =
        All-snoc (λ (e : DidLogEntry Value). e.format ≡ tdw03) (e ∷ log) last verified.formats
          format;
    genesis = verified.genesis;
    genesis_eq = verified.genesis_eq;
    self_certifying = verified.self_certifying;
    entries = λ k f h. elim (Bool-cases (ltb k (length (e ∷ log)))) [
      | inl before ↦
          let inside : k < length (e ∷ log) = ground arith in
          entry_within e log (last ∷ []) verified.scid (to_text did) k f (omega arith)
            (verified.entries k f (sym (get_elem?-append_left (e ∷ log) (last ∷ []) k inside) ∙ h))
      | inr past ↦
          let (place, same) = get_elem?-end (e ∷ log) last k h (ground arith) in
          rw (place, ← same)
            (entry_within e log (last ∷ []) verified.scid (to_text did) (length (e ∷ log)) last
              (omega arith) entry)
    ];
  }
