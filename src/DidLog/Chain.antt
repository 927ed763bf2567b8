-- ===== src/DidLog/Chain.antt =====
-- What a verified did:tdw log is, entry by entry and without a state that a loop carries, and that the
-- verification of a log accepts no other.
use swiyu_rs.Prelude.{
  ℕ, zero, suc, ◌+◌, ◌<◌, ◌^◌, ◌≡◌, refl, Option, none, some, List, [], ◌∷◌, ok, ok_or,
}
use swiyu_rs.Prelude.{
  or_else, length, take, get_elem?, All, Ensures, returns, fails, Ensures-bind, Ensures-ok,
  Ensures-weaken, ok_or-eq-ok, arith,
}
use swiyu_rs.Prelude.Text.{Text}
use mathlib.Core.Option
use mathlib.Core.Option.{some-injective}
use swiyu_rs.Json.Interface.{Json}
use swiyu_rs.Vendor.Crypto.{Bs58, Sha256, Ed25519, JsonText}
use swiyu_rs.Did.Identifier.{Did, to_text}
use swiyu_rs.DidLog.Parameters.{LogEntryFormat, tdw03, web_vh10}
use swiyu_rs.DidLog.Entry.{DidLogEntry}
use swiyu_rs.DidLog.Verify.{
  verify_log, verify_entries, verify_entry, check_formats, check_format, announced, sequence_number,
}
use swiyu_rs.DidLog.Verified.{EntryVerified, SelfCertifying, hashed_part, verify_entry_sound}

abbrev pub unwrap_or : Option (List Text) → List Text → List Text
unwrap_or none keys = keys
unwrap_or (some own) keys = own

module _ {V : Type 0} where
  -- The version id before the entry of index `k`, where `prev` stands before the whole list.
  abbrev pub previous : Option Text → List (DidLogEntry V) → ℕ → Option Text
  previous prev log zero = prev
  previous prev log (suc k) = Option.map (λ (e : DidLogEntry V). e.version_id) (get_elem? log k)

  -- The key list of the last entry that has one.
  unfoldable pub last_announced : List (DidLogEntry V) → Option (List Text)
  last_announced [] = none
  last_announced (e ∷ es) = or_else (last_announced es) e.parameters.update_keys

  -- The keys for the entry of index `k`: the last key list before it, and its own for the first entry.
  abbrev pub authorized_keys : List (DidLogEntry V) → ℕ → List Text
  authorized_keys log zero = unwrap_or (last_announced (take 1 log)) []
  authorized_keys log (suc k) = unwrap_or (last_announced (take (suc k) log)) []

  pub previous-cons :
      (prev : Option Text) (e : DidLogEntry V) (es : List (DidLogEntry V)) (k : ℕ)
      → previous (some e.version_id) es k ≡ previous prev (e ∷ es) (suc k)
  previous-cons prev e es zero = refl
  previous-cons prev e es (suc k) = refl

pub unwrap_or-or_else :
    (o own : Option (List Text)) (keys : List Text)
    → unwrap_or o (announced keys own) ≡ unwrap_or (or_else o own) keys
unfolding or_else
unwrap_or-or_else none none keys = refl
unwrap_or-or_else none (some own) keys = refl
unwrap_or-or_else (some o) own keys = refl

pub sequence_number_lem : (i : ℕ) → suc i < 2 ^ 32 → sequence_number i ≡ suc i
sequence_number_lem i h = omega arith

module _ ⦃j : Json⦄ ⦃t : JsonText j⦄ ⦃b : Bs58⦄ ⦃s : Sha256⦄ ⦃c : Ed25519⦄ where
  open j use {Value}

  pub record LogVerified (log : List (DidLogEntry Value)) (did : Did) : Type 0 where
    pub scid : Text
    pub scid_eq : did.scid ≡ some scid
    pub formats : All (λ (e : DidLogEntry Value). e.format ≡ tdw03) log
    pub genesis : DidLogEntry Value
    pub genesis_eq : get_elem? log 0 ≡ some genesis
    pub self_certifying : SelfCertifying scid (hashed_part scid genesis)
    pub entries :
        (k : ℕ) (e : DidLogEntry Value)
        → get_elem? log k ≡ some e
        → EntryVerified scid (to_text did) (suc k) (previous none log k) (authorized_keys log k) e

  check_formats_sound :
      (i : ℕ) (log : List (DidLogEntry Value))
      → Ensures (λ _. All (λ (e : DidLogEntry Value). e.format ≡ tdw03) log) (check_formats i log)
  unfolding check_formats
  check_formats_sound i [] = returns tt
  check_formats_sound i (e ∷ es) =
      Ensures-bind (check_format i e.format) _ λ _ h.
        Ensures-weaken (check_formats_sound (suc i) es) λ _ rest. (format_of e.format h, rest)
    where
      format_of : (f : LogEntryFormat) {u : Unit {0}} → check_format i f ≡ ok u → f ≡ tdw03
      format_of tdw03 h = refl
      format_of web_vh10 h = cc

  -- The entries of `es` are verified where they stand behind `prev` and the keys `keys`.
  abbrev pub AllVerified :
      Text → Text → ℕ → List Text → Option Text → List (DidLogEntry Value) → Type 0
  AllVerified scid did i keys prev es =
      (k : ℕ) (e : DidLogEntry Value)
      → get_elem? es k ≡ some e
      → EntryVerified scid did (suc (i + k)) (previous prev es k)
          (unwrap_or (last_announced (take k es)) keys) e

  AllVerified-tail :
      (scid did : Text) (i : ℕ) (keys : List Text) (prev : Option Text) (e : DidLogEntry Value)
      (es : List (DidLogEntry Value))
      → AllVerified scid did
          (suc i)
          (announced keys e.parameters.update_keys)
          (some e.version_id)
          es
      → (k : ℕ) (f : DidLogEntry Value) → get_elem? es k ≡ some f
      → EntryVerified scid did
          (suc (i + suc k))
          (previous prev (e ∷ es) (suc k))
          (unwrap_or (last_announced (take (suc k) (e ∷ es))) keys)
          f
  unfolding last_announced
  AllVerified-tail scid did i keys prev e es tail k f h =
      let found : EntryVerified scid did (suc (suc i + k)) (previous (some e.version_id) es k)
          (unwrap_or (last_announced (take k es)) (announced keys e.parameters.update_keys)) f =
        tail k f h in
      let place : suc (suc i + k) ≡ suc (i + suc k) = omega arith in
      let keys_eq = unwrap_or-or_else (last_announced (take k es)) e.parameters.update_keys keys in
      rw (place, previous-cons prev e es k, keys_eq) at found

  AllVerified-cons :
      (scid did : Text) (i : ℕ) (keys : List Text) (prev : Option Text) (e : DidLogEntry Value)
      (es : List (DidLogEntry Value))
      → EntryVerified scid did (suc i) prev keys e
      → AllVerified scid did
          (suc i)
          (announced keys e.parameters.update_keys)
          (some e.version_id)
          es
      → AllVerified scid did i keys prev (e ∷ es)
  unfolding last_announced
  AllVerified-cons scid did i keys prev e es head tail zero f h =
      let same : e ≡ f = some-injective _ _ h in
      let here : i ≡ i + 0 = omega arith in rw (← same, ← here) head
  AllVerified-cons scid did i keys prev e es head tail (suc k) f h =
      AllVerified-tail scid did i keys prev e es tail k f h

  entries_of :
      (scid did : Text) (own : List Text) (e : DidLogEntry Value) (es : List (DidLogEntry Value))
      → e.parameters.update_keys ≡ some own
      → EntryVerified scid did 1 none own e
      → AllVerified scid did 1 (announced [] e.parameters.update_keys) (some e.version_id) es
      → (k : ℕ) (f : DidLogEntry Value) → get_elem? (e ∷ es) k ≡ some f
      → EntryVerified scid did (suc k) (previous none (e ∷ es) k) (authorized_keys (e ∷ es) k) f
  unfolding last_announced or_else
  entries_of scid did own e es announces head tail zero f h =
      let same : e ≡ f = some-injective _ _ h in
      let keys_eq : own ≡ unwrap_or e.parameters.update_keys [] = simp announces in
      let first = rw keys_eq at head in rw (← same) first
  entries_of scid did own e es announces head tail (suc k) f h =
      let found = AllVerified-tail scid did 0 [] none e es tail k f h in
      let place : 0 + suc k ≡ suc k = omega arith in rw place at found

  verify_rest_sound :
      (scid did : Text) (i : ℕ) (keys : List Text) (prev : Option Text)
      (es : List (DidLogEntry Value))
      → All (λ (e : DidLogEntry Value). e.format ≡ tdw03) es
      → suc i + length es < 2 ^ 32
      → Ensures
          (λ _. AllVerified scid did (suc i) keys prev es)
          (verify_entries scid did (suc i) keys prev es)
  unfolding verify_entries
  verify_rest_sound scid did i keys prev [] formats fits = returns λ k e h. absurd (cc)
  verify_rest_sound scid did i keys prev (e ∷ es) (format, formats) fits =
      Ensures-bind (verify_entry (suc i) (sequence_number (suc i)) e scid did prev keys) _ λ _ h.
        Ensures-weaken
          (verify_rest_sound scid did (suc i) (announced keys e.parameters.update_keys)
            (some e.version_id) es formats (omega arith))
          λ _ tail.
            let head = Ensures-ok (verify_entry_sound (suc i) _ e scid did prev keys format) h in
            let number = sequence_number_lem (suc i) (omega arith) in
            AllVerified-cons scid did (suc i) keys prev e es (rw number at head.0) tail

  verify_log-Ensures :
      (log : List (DidLogEntry Value)) (did : Did)
      → length log < 2 ^ 32
      → Ensures (λ _. LogVerified log did) (verify_log log did)
  unfolding verify_log verify_entries
  verify_log-Ensures [] did fits = fails
  verify_log-Ensures (e ∷ es) did fits = Ensures-bind (ok_or did.scid _) _ λ scid e1.
      Ensures-bind (check_formats 0 (e ∷ es)) _ λ _ e2.
        Ensures-bind (ok_or e.parameters.update_keys _) _ λ own e3.
          Ensures-bind (verify_entry 0 (sequence_number 0) e scid (to_text did) none own) _ λ _ e4.
            let (format, formats) = Ensures-ok (check_formats_sound 0 (e ∷ es)) e2 in
            let (head, genesis) =
              Ensures-ok (verify_entry_sound 0 1 e scid (to_text did) none own format) e4 in
            Ensures-weaken
              (verify_rest_sound scid (to_text did) 0 (announced [] e.parameters.update_keys)
                (some e.version_id) es formats (omega arith))
              λ _ tail. record {
                scid = scid;
                scid_eq = ok_or-eq-ok did.scid _ e1;
                formats = (format, formats);
                genesis = e;
                genesis_eq = refl;
                self_certifying = genesis;
                entries =
                    entries_of scid (to_text did) own e es
                      (ok_or-eq-ok e.parameters.update_keys _ e3) head tail;
              }

  -- A log of fewer than 2^32 entries that the verification accepts for a DID is a verified log of it.
  pub verify_log_sound :
      (log : List (DidLogEntry Value)) (did : Did)
      → length log < 2 ^ 32
      → verify_log log did ≡ ok tt
      → LogVerified log did
  verify_log_sound log did fits h = Ensures-ok (verify_log-Ensures log did fits) h
