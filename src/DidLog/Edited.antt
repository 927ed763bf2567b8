-- ===== src/DidLog/Edited.antt =====
-- What an edited entry parses to: the edits of the JSON are those of the typed entry.
use swiyu_rs.Prelude.{◌≡◌, none, List, [], ◌∷◌, ok, if◌then◌else◌}
use swiyu_rs.Prelude.Text.{Text, text, text_eq}
use swiyu_rs.Json.Interface.{Json}
use swiyu_rs.Json.Access.{json_laws, string, array, member}
use swiyu_rs.DidLog.Fields.{FitsU64}
use swiyu_rs.DidLog.Parameters.{
  LogEntryFormat, tdw03, web_vh10, LogParameters, as_written, parameters_to_value,
}
use swiyu_rs.DidLog.Entry.{
  DidDocState, DidLogEntry, new_entry, state_to_value, entry_try_from, entry_to_value,
  fields_to_value,
}
use swiyu_rs.DidLog.RoundTrip.{entry_as_written, from_array, from_object}
use swiyu_rs.DidLog.Edits.{strip_proof_slot, set_version_id, append_proof, pop, set_first}

module _ ⦃j : Json⦄ where
  open j use {Value}

  set_version_id-fields :
      (format : LogEntryFormat) (id new_id time : Text) (params : LogParameters Value)
      (state : DidDocState Value) (proofs : List Value)
      → params.format ≡ format
      → FitsU64 params.ttl
      → entry_try_from
          (set_version_id (fields_to_value format id time params state proofs) new_id format)
        ≡ ok (entry_as_written format new_id time params state proofs)
  unfolding entry_try_from fields_to_value set_version_id set_first
  set_version_id-fields tdw03 id new_id time params state proofs e h =
      simp json_laws (from_array new_id time params state proofs e h)
  set_version_id-fields web_vh10 id new_id time params state proofs e h = simp json_laws (
      from_object _ new_id time params state proofs e h (simp json_laws) (simp json_laws)
        (simp json_laws) (simp json_laws) (simp json_laws))

  -- Setting the version id in the JSON of an entry sets the version id of the entry that it parses to,
  -- and nothing else.
  pub set_version_id-entry :
      (e : DidLogEntry Value) (new_id : Text)
      → e.parameters.format ≡ e.format
      → FitsU64 e.parameters.ttl
      → entry_try_from (set_version_id (entry_to_value e) new_id e.format)
        ≡ ok (record e { version_id = new_id; parameters = as_written e.parameters })
  unfolding entry_to_value
  set_version_id-entry e new_id =
      set_version_id-fields e.format e.version_id new_id e.version_time e.parameters e.did_doc_state
        e.data_integrity_proofs

  -- What is left of an entry without its proof slot: of a did:tdw entry, the four elements before it,
  -- and of a did:webvh entry, all members but the one.
  abbrev pub WithoutProof : LogEntryFormat → DidLogEntry Value → Value → Type 0
  WithoutProof tdw03 e v =
      v
      ≡ array (
          string e.version_id
          ∷ string e.version_time
          ∷ parameters_to_value e.parameters
          ∷ state_to_value e.did_doc_state
          ∷ [])
  WithoutProof web_vh10 e v =
      (k : Text)
      → member v k ≡ (if text_eq (text "proof") k then none else member (entry_to_value e) k)

  replace_proof-fields :
      (format : LogEntryFormat) (id time : Text) (params : LogParameters Value)
      (state : DidDocState Value) (proofs : List Value) (proof : Value)
      → params.format ≡ format
      → FitsU64 params.ttl
      → entry_try_from (
          append_proof
            (strip_proof_slot (fields_to_value format id time params state proofs) format)
            proof
            format)
        ≡ ok (entry_as_written format id time params state (proof ∷ []))
  unfolding entry_try_from fields_to_value append_proof strip_proof_slot pop
  replace_proof-fields tdw03 id time params state proofs proof e h =
      simp json_laws (from_array id time params state (proof ∷ []) e h)
  replace_proof-fields web_vh10 id time params state proofs proof e h = simp json_laws (
      from_object _ id time params state (proof ∷ []) e h (simp json_laws) (simp json_laws)
        (simp json_laws) (simp json_laws) (simp json_laws))

  strip_proof_slot-fields :
      (format : LogEntryFormat) (id time : Text) (params : LogParameters Value)
      (state : DidDocState Value) (proofs : List Value)
      → WithoutProof format
          (new_entry format id time params state proofs)
          (strip_proof_slot (fields_to_value format id time params state proofs) format)
  unfolding entry_to_value new_entry fields_to_value strip_proof_slot pop
  strip_proof_slot-fields tdw03 id time params state proofs = simp json_laws
  strip_proof_slot-fields web_vh10 id time params state proofs = λ k. simp json_laws

  -- Of the JSON of an entry, strip_proof_slot leaves all but the proofs, in both wire formats; and with
  -- a proof appended to that, it parses to the entry whose one proof that is, its parameters as their
  -- JSON shows them; if the parameters have the entry's format and the ttl fits a u64.
  pub replace_proof-entry :
      (e : DidLogEntry Value) (proof : Value)
      → e.parameters.format ≡ e.format
      → FitsU64 e.parameters.ttl
      → WithoutProof e.format e (strip_proof_slot (entry_to_value e) e.format)
        × (entry_try_from
              (append_proof (strip_proof_slot (entry_to_value e) e.format) proof e.format)
            ≡ ok (record e {
              parameters = as_written e.parameters;
              data_integrity_proofs = proof ∷ [];
            }))
  unfolding entry_to_value new_entry
  replace_proof-entry e proof same fits = (
    strip_proof_slot-fields e.format e.version_id e.version_time e.parameters e.did_doc_state
        e.data_integrity_proofs,
    replace_proof-fields e.format e.version_id e.version_time e.parameters e.did_doc_state
        e.data_integrity_proofs proof same fits,
  )
