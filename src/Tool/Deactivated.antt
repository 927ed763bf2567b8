-- ===== src/Tool/Deactivated.antt =====
-- The deactivation that the tool adds to a verified log: it is made, and the longer log is accepted.
use swiyu_rs.Prelude.{
  ℕ, suc, ◌<◌, ◌^◌, ◌≡◌, ◌≢◌, refl, true, false, Bool, Option, none, some, List, [], ◌∷◌, ◌++◌,
  Result, ok, length, get_elem?, arith,
}
use swiyu_rs.Prelude.{or_else, sym, ap, ◌∙◌, length-append, All-get_elem?}
use mathlib.Core.Option.{some-injective}
use swiyu_rs.Prelude.Text.{Text, Lacks}
use swiyu_rs.Json.Interface.{Json}
use swiyu_rs.Json.Access.{object, insert_some}
use swiyu_rs.Vendor.Crypto.{Bs58, Sha256, Ed25519, JsonText}
use swiyu_rs.Did.Identifier.{Did, to_text}
use swiyu_rs.Did.Parse.{from_text}
use swiyu_rs.DidLog.Parameters.{
  tdw03, only_keys, parameters_try_from, parameters_to_value, parameters_try_from-to_value,
}
use swiyu_rs.DidLog.Entry.{full, DidLogEntry, entry_try_from}
use swiyu_rs.DidLog.Verify.{verify_log}
use swiyu_rs.DidLog.Verified.{EntryVerified}
use swiyu_rs.DidLog.Chain.{LogVerified, previous, authorized_keys, verify_log_sound}
use swiyu_rs.DidLog.Accepts.{verify_log_complete}
use swiyu_rs.Tool.Log.{current_did, did_of}
use swiyu_rs.Tool.Update.{
  SigningKey, UpdateError, last, multikey_of, signed_entry, check_active, deactivation_parameters,
  deactivate,
}
use swiyu_rs.Tool.Updated.{Works, updated, entry_try_from-signed_entry, LogVerified-updated}

pub last-get_elem? {ℓ} :
    {A : Type ℓ} (x : A) (xs : List A) → last (x ∷ xs) ≡ get_elem? (x ∷ xs) (length xs)
unfolding last
last-get_elem? x [] = refl
last-get_elem? x (y ∷ xs) = last-get_elem? y xs

module _ ⦃j : Json⦄ where
  open j use {Value}

  pub current_did-last :
      (log : List (DidLogEntry Value)) {l : DidLogEntry Value} {did : Text}
      → last log ≡ some l
      → did_of l.did_doc_state ≡ some did
      → current_did log ≡ some did
  unfolding current_did last or_else
  current_did-last [] h named = absurd (cc)
  current_did-last (x ∷ []) {l} {did} h named =
      let same : x ≡ l = some-injective _ _ h in rw (← same) at named
  current_did-last (x ∷ y ∷ xs) h named = simp (current_did-last (y ∷ xs) h named)

  -- What the tool writes for the parameters is what they are written as.
  deactivation_parameters-written :
      parameters_to_value (only_keys tdw03 [] (some true)) ≡ deactivation_parameters
  unfolding parameters_to_value insert_some
  deactivation_parameters-written = ap object (sym (j.insert-insert _ _ _ _ _ refl))

  deactivation_parameters-parsed :
      parameters_try_from deactivation_parameters tdw03 ≡ ok (only_keys tdw03 [] (some true))
  deactivation_parameters-parsed =
      rw (← deactivation_parameters-written)
        (parameters_try_from-to_value (only_keys tdw03 [] (some true)) tt)

check_active-active : (d : Option Bool) → d ≢ some true → check_active d ≡ ok tt
check_active-active none h = refl
check_active-active (some false) h = refl
check_active-active (some true) h = absurd (h refl)

module _ ⦃j : Json⦄ ⦃t : JsonText j⦄ ⦃b : Bs58⦄ ⦃s : Sha256⦄ ⦃c : Ed25519⦄ where
  open j use {Value}

  -- The last entry of a verified log, at its place.
  pub last-EntryVerified :
      (e : DidLogEntry Value) (log : List (DidLogEntry Value)) (did : Did) {l : DidLogEntry Value}
      (verified : LogVerified (e ∷ log) did)
      → last (e ∷ log) ≡ some l
      → EntryVerified verified.scid
          (to_text did)
          (suc (length log))
          (previous none (e ∷ log) (length log))
          (authorized_keys (e ∷ log) (length log))
          l
  last-EntryVerified e log did verified h =
      verified.entries (length log) _ (sym (last-get_elem? e log) ∙ h)

  pub last-did_of :
      {scid did : Text} {n : ℕ} {prev : Option Text} {keys : List Text} (l : DidLogEntry Value)
      → EntryVerified scid did n prev keys l
      → did_of l.did_doc_state ≡ some did
  last-did_of l entry = rw entry.state_eq entry.id_eq

  pub last-previous :
      (e : DidLogEntry Value) (log : List (DidLogEntry Value)) {l : DidLogEntry Value}
      → last (e ∷ log) ≡ some l
      → previous none (e ∷ log) (length (e ∷ log)) ≡ some l.version_id
  last-previous e log h = rw (← last-get_elem? e log, h) refl

module _ ⦃j : Json⦄ ⦃t : JsonText j⦄ ⦃b : Bs58⦄ ⦃s : Sha256⦄ ⦃c : Ed25519⦄ (key : SigningKey)
    (works : Works key)
    (jcs-remove : (m : j.Map) (k : Text) (v : j.Value)
      → j.get m k ≡ none
      → t.jcs (object (j.remove (j.insert m k v) k)) ≡ t.jcs (object m)) where
  open j use {Value}

  -- The line that `deactivate` makes, of the document of the last entry.
  deactivate-line :
      (prev_authorized : Did → Result UpdateError SigningKey) (e : DidLogEntry Value)
      (log : List (DidLogEntry Value)) (did : Did) (l : DidLogEntry Value) (document : Value)
      (time : Text)
      → last (e ∷ log) ≡ some l
      → l.format ≡ tdw03
      → l.parameters.deactivated ≢ some true
      → l.did_doc_state ≡ full document
      → current_did (e ∷ log) ≡ some (to_text did)
      → from_text (to_text did) ≡ ok did
      → prev_authorized did ≡ ok key
      → deactivate prev_authorized (e ∷ log) time
        ≡ ok
            (signed_entry key (length (e ∷ log)) l.version_id time deactivation_parameters document)
  unfolding deactivate
  deactivate-line prev_authorized e log did l document time at format active state named parsed
        found =
      simp (at, format, check_active-active _ active, state, named, parsed, found)

  -- For a log of fewer than 2^32 - 1 entries that the verification accepts for a DID that parses from
  -- its text, whose last entry is no deactivation, and a key of the key store that is a working key
  -- among those announced last and whose multikey has no `#`, `deactivate` makes a line that parses,
  -- with no update keys, and the verification accepts the log with that entry behind it. JCS does not
  -- see a member that was inserted and removed again.
  pub deactivate-verify_log :
      (prev_authorized : Did → Result UpdateError SigningKey) (e : DidLogEntry Value)
      (log : List (DidLogEntry Value)) (did : Did) (l : DidLogEntry Value) (time : Text) (i : ℕ)
      → suc (length (e ∷ log)) < 2 ^ 32
      → verify_log (e ∷ log) did ≡ ok tt
      → last (e ∷ log) ≡ some l
      → l.parameters.deactivated ≢ some true
      → from_text (to_text did) ≡ ok did
      → prev_authorized did ≡ ok key
      → Lacks b'#' (multikey_of key)
      → get_elem? (authorized_keys (e ∷ log) (length (e ∷ log))) i ≡ some (multikey_of key)
      → (line : Value) × (new : DidLogEntry Value) × (deactivate prev_authorized (e ∷ log) time
          ≡ ok line)
        × (entry_try_from line ≡ ok new)
        × (new.parameters ≡ only_keys tdw03 [] (some true))
        × (verify_log (e ∷ log ++ new ∷ []) did ≡ ok tt)
  deactivate-verify_log prev_authorized e log did l time i fits accepted at active parsed found
        plain authorized =
      let verified = verify_log_sound (e ∷ log) did (omega arith) accepted in
      let entry = last-EntryVerified e log did verified at in
      let format : l.format ≡ tdw03 =
        All-get_elem? (λ (e : DidLogEntry Value). e.format ≡ tdw03) (e ∷ log) (length log)
          verified.formats (sym (last-get_elem? e log) ∙ at) in
      let named = last-did_of l entry in
      let new =
        updated key (length (e ∷ log)) l.version_id time (only_keys tdw03 [] (some true))
          deactivation_parameters entry.document in
      let longer =
        LogVerified-updated key works jcs-remove e log did l.version_id time
          (only_keys tdw03 [] (some true)) entry.document i verified fits (last-previous e log at)
          entry.id_eq plain authorized in
      (
        signed_entry key (length (e ∷ log)) l.version_id time deactivation_parameters
            entry.document,
        new,
        deactivate-line prev_authorized e log did l entry.document time at format active
            entry.state_eq (current_did-last (e ∷ log) at named) parsed found,
        entry_try_from-signed_entry key (length (e ∷ log)) l.version_id time _ _ entry.document
            deactivation_parameters-parsed,
        refl,
        verify_log_complete (e ∷ log ++ new ∷ []) did (omega (arith, length-append log (new ∷ [])))
            (rw deactivation_parameters-written at longer),
      )
