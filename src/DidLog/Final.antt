-- ===== src/DidLog/Final.antt =====
-- Deactivation: the entry that ends a log.
use swiyu_rs.Prelude.{
  ℕ, zero, suc, ◌<◌, ◌^◌, ◌≡◌, true, some, List, [], ◌∷◌, ok, or_else, length, take, get_elem?,
  arith, ap,
}
use swiyu_rs.Prelude.{Option-cases, inl, inr, get_elem?-none, get_elem?-lt}
use swiyu_rs.Prelude.Text.{Text}
use mathlib.Core.Option.{some-injective}
use swiyu_rs.Json.Interface.{Json}
use swiyu_rs.Vendor.Crypto.{Bs58, Sha256, Ed25519, JsonText}
use swiyu_rs.Did.Identifier.{Did}
use swiyu_rs.DidDoc.Document.{DidDoc}
use swiyu_rs.DidDoc.Doc.{doc_to_value}
use swiyu_rs.DidLog.Parameters.{LogEntryFormat, LogParameters, only_keys}
use swiyu_rs.DidLog.Entry.{DidLogEntry, full, new_entry}
use swiyu_rs.DidLog.Verify.{verify_log}
use swiyu_rs.DidLog.Signed.{no_signer}
use swiyu_rs.DidLog.Chain.{LogVerified, verify_log_sound, last_announced, authorized_keys}

module _ ⦃j : Json⦄ ⦃b : Bs58⦄ where
  open j use {Value}

  -- `new_deactivation`
  unfoldable pub new_deactivation : LogEntryFormat → Text → DidDoc Value → Text → DidLogEntry Value
  unfolding new_entry
  new_deactivation format prev_version_id prev_did_doc new_version_time =
      new_entry format prev_version_id new_version_time (only_keys format [] (some true))
        (full (doc_to_value prev_did_doc)) []

last_announced-take :
    {V : Type 0} (log : List (DidLogEntry V)) (k : ℕ) {e : DidLogEntry V} {keys : List Text}
    → get_elem? log k ≡ some e
    → e.parameters.update_keys ≡ some keys
    → last_announced (take (suc k) log) ≡ some keys
unfolding last_announced or_else
last_announced-take [] k h announces = absurd (ground arith)
last_announced-take (x ∷ xs) zero {e} h announces =
    let same : x ≡ e = some-injective _ _ h in rw same announces
last_announced-take (x ∷ xs) (suc k) h announces = simp (last_announced-take xs k h announces)

module _ ⦃j : Json⦄ ⦃t : JsonText j⦄ ⦃b : Bs58⦄ ⦃s : Sha256⦄ ⦃c : Ed25519⦄ where
  open j use {Value}

  -- A verified log ends with the entry whose key list is empty.
  LogVerified-ends :
      (log : List (DidLogEntry Value)) (did : Did) (k : ℕ) {e : DidLogEntry Value}
      → LogVerified log did
      → get_elem? log k ≡ some e
      → e.parameters.update_keys ≡ some []
      → length log ≡ suc k
  LogVerified-ends log did k verified at announces = elim (Option-cases (get_elem? log (suc k))) [
    | inl past ↦ omega (arith, get_elem?-none log (suc k) past, get_elem?-lt log k at)
    | inr (next, there) ↦
        let signed = (verified.entries (suc k) next there).signed in
        let keys_eq : authorized_keys log (suc k) ≡ [] =
          simp (last_announced-take log k at announces) in
        absurd (no_signer _ _ (rw keys_eq at signed))
  ]

  -- Nothing stands behind an entry with the parameters of a deactivation in a log of fewer than 2^32
  -- entries that the verification accepts.
  pub verify_log-new_deactivation :
      (log : List (DidLogEntry Value)) (did : Did) (k : ℕ) (e : DidLogEntry Value)
      (format : LogEntryFormat) (prev : Text) (doc : DidDoc Value) (time : Text)
      → length log < 2 ^ 32
      → verify_log log did ≡ ok tt
      → get_elem? log k ≡ some e
      → e.parameters ≡ (new_deactivation format prev doc time).parameters
      → length log ≡ suc k
  unfolding new_deactivation
  verify_log-new_deactivation log did k e format prev doc time fits accepted at same =
      LogVerified-ends log did k (verify_log_sound log did fits accepted) at
        (ap (λ (p : LogParameters Value). p.update_keys) same)
