-- ===== src/DidLog/Accepts.antt =====
-- A verified did:tdw log is one that the verification accepts.
use swiyu_rs.Prelude.{
  ℕ, zero, suc, ◌+◌, ◌<◌, ◌^◌, ◌≡◌, refl, true, Option, none, some, List, [], ◌∷◌, ◌++◌, ok,
}
use swiyu_rs.Prelude.{or_else, length, take, All, append_assoc, sym, arith}
use swiyu_rs.Prelude.{Option-cases, inl, inr}
use swiyu_rs.Prelude.Text.{Text, text, text_eq, text_eq_refl, strip_prefix, strip_prefix-append}
use swiyu_rs.Prelude.Decimal.{decimal}
use mathlib.Core.Option.{some-injective}
use swiyu_rs.Json.Interface.{Json}
use swiyu_rs.Vendor.Crypto.{Bs58, Sha256, Ed25519, JsonText}
use swiyu_rs.Did.Identifier.{Did, to_text}
use swiyu_rs.DidLog.Parameters.{tdw03}
use swiyu_rs.DidLog.Entry.{DidDocState, full, DidLogEntry}
use swiyu_rs.DidLog.Edits.{set_first}
use swiyu_rs.DidLog.Hash.{derive_scid, derive_entry_hash, hash_log_entry}
use swiyu_rs.DidLog.Verify.{
  verify_log, verify_entries, verify_entry, check_formats, check_genesis, announced,
  sequence_number, link_of, value_state,
}
use swiyu_rs.DidLog.Verified.{EntryVerified, GenesisAt, hash_of, hashed_part, as_array-entry}
use swiyu_rs.DidLog.Signed.{verify_proof_complete, no_signer}
use swiyu_rs.DidLog.Chain.{
  LogVerified, AllVerified, previous, previous-cons, authorized_keys, unwrap_or, unwrap_or-or_else,
  last_announced,
}

module _ ⦃j : Json⦄ ⦃t : JsonText j⦄ ⦃b : Bs58⦄ ⦃s : Sha256⦄ where
  open j use {Value}

  check_genesis_complete :
      (i : ℕ) (v : Value) (scid : Text) → GenesisAt i scid v → check_genesis i v scid ≡ ok tt
  unfolding check_genesis derive_scid hash_log_entry
  check_genesis_complete (suc i) v scid g = refl
  check_genesis_complete zero v scid g =
      let same : hash_of g.preliminary ≡ scid = sym g.scid_eq in
      simp (g.written_eq, g.preliminary_eq, same, text_eq_refl scid)

module _ ⦃j : Json⦄ ⦃t : JsonText j⦄ ⦃b : Bs58⦄ ⦃s : Sha256⦄ ⦃c : Ed25519⦄ where
  open j use {Value}

  version_hash :
      (n : ℕ) (version_id hash : Text)
      → version_id ≡ decimal n ++ b'-' ∷ hash
      → strip_prefix (decimal n ++ text "-") version_id ≡ some hash
  version_hash n version_id hash h =
      rw (h, ← append_assoc (decimal n) (text "-") hash)
        (strip_prefix-append (decimal n ++ text "-") hash)

  value_state_full :
      (i : ℕ) {state : DidDocState Value} {v : Value} → state ≡ full v → value_state i state ≡ ok v
  value_state_full i h = rw h refl

  verify_entry_complete :
      (i n : ℕ) (e : DidLogEntry Value) (scid did : Text) (prev : Option Text) (keys : List Text)
      → e.format ≡ tdw03
      → EntryVerified scid did n prev keys e
      → GenesisAt i scid (hashed_part (link_of scid prev) e)
      → verify_entry i n e scid did prev keys ≡ ok tt
  unfolding verify_entry derive_entry_hash hash_log_entry set_first
  verify_entry_complete i n e scid did prev keys format entry genesis =
      let same_hash : text_eq (hash_log_entry (hashed_part (link_of scid prev) e))
            (hash_of (hashed_part (link_of scid prev) e))
          ≡ true =
        text_eq_refl (hash_of (hashed_part (link_of scid prev) e)) in
      simp (
        value_state_full i entry.state_eq,
        entry.id_eq,
        text_eq_refl did,
        version_hash n e.version_id _ entry.version_id_eq,
        as_array-entry e format,
        same_hash,
        check_genesis_complete i (hashed_part (link_of scid prev) e) scid genesis,
        verify_proof_complete i e.data_integrity_proofs entry.document keys entry.signed,
      )

  -- What stands behind an entry, of its own keys and version id.
  rest_at :
      (scid did : Text) (i : ℕ) (keys : List Text) (prev : Option Text) (e : DidLogEntry Value)
      (es : List (DidLogEntry Value)) (k n : ℕ) (f : DidLogEntry Value)
      → n ≡ suc (suc i + k)
      → EntryVerified scid did n
          (previous prev (e ∷ es) (suc k))
          (unwrap_or (last_announced (take (suc k) (e ∷ es))) keys)
          f
      → EntryVerified scid did
          (suc (suc i + k))
          (previous (some e.version_id) es k)
          (unwrap_or (last_announced (take k es)) (announced keys e.parameters.update_keys))
          f
  unfolding last_announced
  rest_at scid did i keys prev e es k n f place found =
      let keys_eq = unwrap_or-or_else (last_announced (take k es)) e.parameters.update_keys keys in
      rw (place, ← previous-cons prev e es k, ← keys_eq) at found

  check_formats_complete :
      (i : ℕ) (log : List (DidLogEntry Value))
      → All (λ (e : DidLogEntry Value). e.format ≡ tdw03) log
      → check_formats i log ≡ ok tt
  unfolding check_formats
  check_formats_complete i [] tt = refl
  check_formats_complete i (e ∷ es) (format, formats) =
      simp (format, check_formats_complete (suc i) es formats)

  verify_rest_complete :
      (scid did : Text) (i : ℕ) (keys : List Text) (prev : Option Text)
      (es : List (DidLogEntry Value))
      → All (λ (e : DidLogEntry Value). e.format ≡ tdw03) es
      → suc i + length es < 2 ^ 32
      → AllVerified scid did (suc i) keys prev es
      → verify_entries scid did (suc i) keys prev es ≡ ok tt
  unfolding verify_entries last_announced
  verify_rest_complete scid did i keys prev [] formats fits all = refl
  verify_rest_complete scid did i keys prev (e ∷ es) (format, formats) fits all =
      let here : suc (suc i + 0) ≡ sequence_number (suc i) = omega arith in
      let found = all 0 e refl in
      let head = rw here at found in
      let rest =
        verify_rest_complete scid did (suc i) (announced keys e.parameters.update_keys)
          (some e.version_id) es formats (omega arith)
          (λ k f h.
            rest_at scid did (suc i) keys prev e es k _ f (omega arith) (all (suc k) f h)) in
      simp (verify_entry_complete (suc i) _ e scid did prev keys format head tt, rest)

  -- The first entry of a verified log brings its own keys.
  genesis_keys :
      (e : DidLogEntry Value) (es : List (DidLogEntry Value)) (did : Did)
      → LogVerified (e ∷ es) did
      → (own : List Text) × (e.parameters.update_keys ≡ some own)
  unfolding last_announced or_else
  genesis_keys e es did verified = elim (Option-cases e.parameters.update_keys) [
    | inl none_own ↦
        let keys_eq : authorized_keys (e ∷ es) 0 ≡ [] = simp none_own in
        absurd (no_signer _ _ (rw keys_eq at (verified.entries 0 e refl).signed))
    | inr found ↦ found
  ]

  verify_log-LogVerified :
      (e : DidLogEntry Value) (es : List (DidLogEntry Value)) (did : Did) (own : List Text)
      → e.parameters.update_keys ≡ some own
      → length (e ∷ es) < 2 ^ 32
      → LogVerified (e ∷ es) did
      → verify_log (e ∷ es) did ≡ ok tt
  unfolding verify_log verify_entries last_announced or_else
  verify_log-LogVerified e es did own announces fits verified =
      let (format, formats) = verified.formats in
      let same : verified.genesis ≡ e = some-injective _ _ (sym verified.genesis_eq) in
      let genesis = rw same at verified.self_certifying in
      let keys_eq : authorized_keys (e ∷ es) 0 ≡ own = simp announces in
      let first = rw keys_eq at (verified.entries 0 e refl) in
      let head =
        verify_entry_complete 0 1 e verified.scid (to_text did) none own format first genesis in
      let rest =
        verify_rest_complete verified.scid (to_text did) 0 (announced [] e.parameters.update_keys)
          (some e.version_id) es formats (omega arith)
          (λ k f h.
            rest_at verified.scid (to_text did) 0 [] none e es k _ f (omega arith)
              (verified.entries (suc k) f h)) in
      simp (
        verified.scid_eq,
        check_formats_complete 0 (e ∷ es) (format, formats),
        announces,
        head,
        rw announces at rest,
      )

  -- Every verified log of fewer than 2^32 entries is accepted.
  pub verify_log_complete :
      (log : List (DidLogEntry Value)) (did : Did)
      → length log < 2 ^ 32
      → LogVerified log did
      → verify_log log did ≡ ok tt
  verify_log_complete [] did fits verified = absurd (ground (arith, verified.genesis_eq))
  verify_log_complete (e ∷ es) did fits verified =
      let (own, announces) = genesis_keys e es did verified in
      verify_log-LogVerified e es did own announces fits verified
