-- ===== src/DidLog/Verified.antt =====
-- What an entry of a did:tdw log has to satisfy at its place in the log, and that the check of an
-- entry accepts no other.
use swiyu_rs.Prelude.{ℕ, zero, suc, ◌≡◌, Option, some, List, [], ◌∷◌, ◌++◌, ok, guard, ok_or}
use swiyu_rs.Prelude.{map_err, and_then, append_assoc, ap, sym, Ensures-ok, ◌∙◌}
use swiyu_rs.Prelude.{
  Ensures, returns, Ensures-bind, Ensures-weaken, Ensures-guard, ok_or-eq-ok, map_err-eq-ok,
  guard-eq-ok,
}
use swiyu_rs.Prelude.Text.{
  Text, text, text_eq, text_eq_sound, strip_prefix, strip_prefix_sound, replace,
}
use swiyu_rs.Prelude.Decimal.{decimal}
use mathlib.Core.Option.{some-injective}
use swiyu_rs.Json.Interface.{Json}
use swiyu_rs.Json.Access.{as_str, as_array, string, array, member, as_array-array}
use swiyu_rs.Vendor.Crypto.{Bs58, Sha256, Ed25519, JsonText}
use swiyu_rs.DidLog.Parameters.{tdw03, parameters_to_value}
use swiyu_rs.DidLog.Entry.{
  DidDocState, full, patch, DidLogEntry, entry_to_value, state_to_value, fields_to_value,
}
use swiyu_rs.DidLog.Edits.{set_first}
use swiyu_rs.DidLog.Hash.{derive_scid, derive_entry_hash, hash_log_entry}
use swiyu_rs.DidLog.Verify.{verify_entry, check_genesis, link_of, value_state}
use swiyu_rs.DidLog.Signed.{Signed, verify_proof_sound}

module _ ⦃j : Json⦄ ⦃t : JsonText j⦄ ⦃b : Bs58⦄ ⦃s : Sha256⦄ where
  open j use {Value}

  abbrev pub hash_of : Value → Text
  hash_of v = b.encode (s.multihash (t.jcs v))

  -- What is hashed of an entry: no proof, and the version id before it in the place of its own.
  abbrev pub hashed_part : Text → DidLogEntry Value → Value
  hashed_part link e = array (
      string link
      ∷ string e.version_time
      ∷ parameters_to_value e.parameters
      ∷ state_to_value e.did_doc_state
      ∷ [])

  -- The SCID is the hash of the genesis entry with a placeholder for each of its occurrences.
  pub record SelfCertifying (scid : Text) (genesis : Value) : Type 0 where
    pub written : Text
    pub preliminary : Value
    pub written_eq : t.to_string genesis ≡ ok written
    pub preliminary_eq : t.from_str (replace written scid (text "{SCID}")) ≡ ok preliminary
    pub scid_eq : scid ≡ hash_of preliminary

  -- `SelfCertifying` of the entry of index 0, and nothing of the others.
  abbrev pub GenesisAt : ℕ → Text → Value → Type 0
  GenesisAt zero scid genesis = SelfCertifying scid genesis
  GenesisAt (suc i) scid genesis = Unit

  check_genesis_sound :
      (i : ℕ) (v : Value) (scid : Text) → Ensures (λ _. GenesisAt i scid v) (check_genesis i v scid)
  unfolding check_genesis derive_scid hash_log_entry
  check_genesis_sound (suc i) v scid = returns tt
  check_genesis_sound zero v scid = Ensures-bind (map_err _ (t.to_string v)) _ λ written e1.
      Ensures-bind (map_err _ (t.from_str (replace written scid (text "{SCID}")))) _ λ prelim e2.
        Ensures-guard _ _ λ same. record {
          written = written;
          preliminary = prelim;
          written_eq = map_err-eq-ok _ (t.to_string v) e1;
          preliminary_eq = map_err-eq-ok _ (t.from_str (replace written scid (text "{SCID}"))) e2;
          scid_eq = sym (text_eq_sound _ scid same);
        }

  pub as_array-entry :
      (e : DidLogEntry Value)
      → e.format ≡ tdw03
      → as_array (entry_to_value e)
        ≡ some (
            string e.version_id
            ∷ string e.version_time
            ∷ parameters_to_value e.parameters
            ∷ state_to_value e.did_doc_state
            ∷ array e.data_integrity_proofs
            ∷ [])
  unfolding entry_to_value fields_to_value
  as_array-entry e h = rw h (as_array-array _)

value_state_sound :
    {V : Type 0} (i : ℕ) (state : DidDocState V) {v : V}
    → value_state i state ≡ ok v
    → state ≡ full v
value_state_sound i (full w) h = cc
value_state_sound i (patch p) h = cc

module _ ⦃j : Json⦄ ⦃t : JsonText j⦄ ⦃b : Bs58⦄ ⦃s : Sha256⦄ ⦃c : Ed25519⦄ where
  open j use {Value}

  -- The entry of sequence number `n` of the log of `did`, behind the version id `prev`, by `keys`.
  pub record EntryVerified (scid did : Text) (n : ℕ) (prev : Option Text) (keys : List Text)
      (entry : DidLogEntry Value) : Type 0 where
    pub document : Value
    pub state_eq : entry.did_doc_state ≡ full document
    pub id_eq : and_then (member document (text "id")) as_str ≡ some did
    pub version_id_eq :
        entry.version_id ≡ decimal n ++ b'-' ∷ hash_of (hashed_part (link_of scid prev) entry)
    pub signed : Signed keys document entry.data_integrity_proofs

  pub verify_entry_sound :
      (i n : ℕ) (e : DidLogEntry Value) (scid did : Text) (prev : Option Text) (keys : List Text)
      → e.format ≡ tdw03
      → Ensures
          (λ _.
            EntryVerified scid did n prev keys e
            × GenesisAt i scid (hashed_part (link_of scid prev) e))
          (verify_entry i n e scid did prev keys)
  unfolding verify_entry derive_entry_hash hash_log_entry set_first
  verify_entry_sound i n e scid did prev keys format =
      Ensures-bind (value_state i e.did_doc_state) _ λ doc e1.
        Ensures-bind (ok_or (and_then (member doc (text "id")) as_str) _) _ λ id e2.
          Ensures-bind (guard (text_eq id did) _) _ λ _ e3.
            Ensures-bind (ok_or (strip_prefix (decimal n ++ text "-") e.version_id) _) _ λ hash e4.
              Ensures-bind (ok_or (as_array (entry_to_value e)) _) _ λ arr e5.
                let read = ok_or-eq-ok (as_array (entry_to_value e)) _ e5 in
                let same = some-injective _ _ (sym (as_array-entry e format) ∙ read) in
                rw (← same) (
                  Ensures-bind
                    (guard (text_eq (hash_of (hashed_part (link_of scid prev) e)) hash) _) _
                    λ _ e6.
                      Ensures-bind (check_genesis i (hashed_part (link_of scid prev) e) scid) _
                        λ _ e7.
                          Ensures-weaken (verify_proof_sound i e.data_integrity_proofs doc keys)
                            λ _ signed.
                              let id_at =
                                ok_or-eq-ok (and_then (member doc (text "id")) as_str) _ e2 in
                              let same_id =
                                text_eq_sound id did (guard-eq-ok (text_eq id did) _ e3) in
                              let rest =
                                ok_or-eq-ok (strip_prefix (decimal n ++ text "-") e.version_id) _
                                  e4 in
                              let whole =
                                strip_prefix_sound (decimal n ++ text "-") e.version_id hash rest in
                              let same_hash = text_eq_sound _ hash (guard-eq-ok _ _ e6) in
                              (
                                record {
                                  document = doc;
                                  state_eq = value_state_sound i e.did_doc_state e1;
                                  id_eq = rw (← same_id) id_at;
                                  version_id_eq =
                                      whole
                                      ∙ append_assoc (decimal n) (text "-") hash
                                      ∙ ap (λ h. decimal n ++ b'-' ∷ h) (sym same_hash);
                                  signed = signed;
                                },
                                Ensures-ok (check_genesis_sound i _ scid) e7,
                              ))
