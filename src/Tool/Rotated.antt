-- ===== src/Tool/Rotated.antt =====
-- The entry that a rotation adds to a verified log: it is made, the longer log is accepted, and its
-- next entry is for the new key.  Behind a deactivation it is made all the same.
use swiyu_rs.Prelude.{
  ℕ, suc, ◌<◌, ◌^◌, ◌≡◌, ◌≢◌, refl, Option, none, some, List, [], ◌∷◌, ◌++◌, Result, ok, length,
  get_elem?, arith,
}
use swiyu_rs.Prelude.{
  and_then, sym, ◌∙◌, length-append, All-get_elem?, Bool-cases, inl, inr, if◌then◌else◌,
}
use swiyu_rs.Prelude.Chunks.{get_elem?-append_left}
use swiyu_rs.Prelude.Text.{Text, text, text_eq, Lacks}
use swiyu_rs.Json.Interface.{Json}
use swiyu_rs.Json.Access.{as_str, member, object, insert_some, json_laws}
use swiyu_rs.Vendor.Encoding.{Base64}
use swiyu_rs.Vendor.Crypto.{Bs58, Sha256, Ed25519, JsonText}
use swiyu_rs.Did.Identifier.{Did, to_text}
use swiyu_rs.Did.Parse.{from_text}
use swiyu_rs.DidDoc.Multibase.{ed25519_verifying_key_to_multikey}
use swiyu_rs.DidDoc.Document.{P256PublicKey, DidDoc, new, new_genesis}
use swiyu_rs.DidDoc.Doc.{doc_members, doc_to_value}
use swiyu_rs.DidLog.Parameters.{
  tdw03, LogParameters, only_keys, parameters_try_from, parameters_to_value,
  parameters_try_from-to_value,
}
use swiyu_rs.DidLog.Entry.{DidLogEntry, entry_try_from}
use swiyu_rs.DidLog.Verify.{verify_log}
use swiyu_rs.DidLog.Chain.{authorized_keys, verify_log_sound}
use swiyu_rs.DidLog.Accepts.{verify_log_complete}
use swiyu_rs.DidDoc.Document.{DidDoc}
use swiyu_rs.DidLog.Final.{new_deactivation, verify_log-new_deactivation}
use swiyu_rs.Tool.Log.{current_did}
use swiyu_rs.Tool.Update.{
  SigningKey, UpdateError, StagedPublic, last, multikey_of, signed_entry, rotation_parameters,
  rotate,
}
use swiyu_rs.Tool.Updated.{Works, updated, entry_try_from-signed_entry, LogVerified-updated}
use swiyu_rs.Tool.Deactivated.{
  last-get_elem?, current_did-last, last-EntryVerified, last-did_of, last-previous,
}

-- The parameters of a rotation: a key list or nothing.
abbrev pub rotated_parameters : {V : Type 0} → Option (List Text) → LogParameters V
rotated_parameters keys = record (only_keys tdw03 [] none) { update_keys = keys }

-- The key list, where the authorized key is another one.
abbrev pub rotated_keys : (prev_multikey new_multikey : Text) → Option (List Text)
rotated_keys prev_multikey new_multikey =
    if text_eq prev_multikey new_multikey then none else some (new_multikey ∷ [])

module _ ⦃j : Json⦄ where
  open j use {Value}

  rotation_parameters-written :
      (prev next : Text)
      → parameters_to_value (rotated_parameters (rotated_keys prev next))
        ≡ rotation_parameters prev next
  unfolding parameters_to_value insert_some
  rotation_parameters-written prev next = elim (Bool-cases (text_eq prev next)) [
    | inl e ↦ rw e refl
    | inr e ↦ rw e refl
  ]

  rotation_parameters-parsed :
      (prev next : Text)
      → parameters_try_from (rotation_parameters prev next) tdw03
        ≡ ok (rotated_parameters (rotated_keys prev next))
  rotation_parameters-parsed prev next =
      rw (← rotation_parameters-written prev next)
        (parameters_try_from-to_value (rotated_parameters (rotated_keys prev next)) tt)

module _ ⦃j : Json⦄ ⦃b : Bs58⦄ where
  open j use {Value}

  doc_to_value-id :
      (d : DidDoc Value) → and_then (member (doc_to_value d) (text "id")) as_str ≡ some d.id
  unfolding doc_to_value doc_members
  doc_to_value-id d = simp json_laws

module _ ⦃j : Json⦄ ⦃b : Bs58⦄ ⦃r : Base64⦄ where
  pub new_genesis-id :
      (did : Text) (k l : P256PublicKey)
      → and_then (member (doc_to_value (new_genesis did k l)) (text "id")) as_str ≡ some did
  unfolding new_genesis
  new_genesis-id did k l = doc_to_value-id (new_genesis did k l)

module _ ⦃j : Json⦄ ⦃t : JsonText j⦄ ⦃b : Bs58⦄ ⦃s : Sha256⦄ ⦃r : Base64⦄ where
  open j use {Value}

  rotate-line :
      (prev_authorized : Did → Result UpdateError SigningKey)
      (stage_keys : Did → Result UpdateError StagedPublic) (log : List (DidLogEntry Value))
      (did : Did) (did_str : Text) (l : DidLogEntry Value) (key : SigningKey)
      (staged : StagedPublic) (time : Text)
      → last log ≡ some l
      → l.format ≡ tdw03
      → current_did log ≡ some did_str
      → from_text did_str ≡ ok did
      → prev_authorized did ≡ ok key
      → stage_keys did ≡ ok staged
      → rotate prev_authorized stage_keys log time
        ≡ ok (
            signed_entry key
              (length log)
              l.version_id
              time
              (rotation_parameters
                (multikey_of key)
                (ed25519_verifying_key_to_multikey staged.authorized))
              (doc_to_value (new_genesis did_str staged.authentication staged.assertion)))
  unfolding rotate
  rotate-line prev_authorized stage_keys log did did_str l key staged time at format named parsed
        found made =
      simp (at, format, named, parsed, found, made)

module _ ⦃j : Json⦄ ⦃t : JsonText j⦄ ⦃b : Bs58⦄ ⦃s : Sha256⦄ ⦃r : Base64⦄ ⦃c : Ed25519⦄
    (key : SigningKey) (works : Works key)
    (jcs-remove : (m : j.Map) (k : Text) (v : j.Value)
      → j.get m k ≡ none
      → t.jcs (object (j.remove (j.insert m k v) k)) ≡ t.jcs (object m)) where
  open j use {Value}

  -- For a log of fewer than 2^32 - 1 entries that the verification accepts for a DID that parses from
  -- its text, a key of the key store that is a working key among those announced last and whose
  -- multikey has no `#`, and staged keys, `rotate` makes a line that parses, whose update keys are the
  -- staged key where it is another one and none else, and the verification accepts the log with that
  -- entry behind it. JCS does not see a member that was inserted and removed again.
  pub rotate-verify_log :
      (prev_authorized : Did → Result UpdateError SigningKey)
      (stage_keys : Did → Result UpdateError StagedPublic) (e : DidLogEntry Value)
      (log : List (DidLogEntry Value)) (did : Did) (l : DidLogEntry Value) (staged : StagedPublic)
      (time : Text) (i : ℕ)
      → suc (length (e ∷ log)) < 2 ^ 32
      → verify_log (e ∷ log) did ≡ ok tt
      → last (e ∷ log) ≡ some l
      → from_text (to_text did) ≡ ok did
      → prev_authorized did ≡ ok key
      → stage_keys did ≡ ok staged
      → Lacks b'#' (multikey_of key)
      → get_elem? (authorized_keys (e ∷ log) (length (e ∷ log))) i ≡ some (multikey_of key)
      → (line : Value) × (new : DidLogEntry Value) × (rotate prev_authorized stage_keys
            (e ∷ log)
            time
          ≡ ok line)
        × (entry_try_from line ≡ ok new)
        × (new.parameters.update_keys
            ≡ rotated_keys (multikey_of key) (ed25519_verifying_key_to_multikey staged.authorized))
        × (verify_log (e ∷ log ++ new ∷ []) did ≡ ok tt)
  rotate-verify_log prev_authorized stage_keys e log did l staged time i fits accepted at parsed
        found made plain authorized =
      let verified = verify_log_sound (e ∷ log) did (omega arith) accepted in
      let entry = last-EntryVerified e log did verified at in
      let format : l.format ≡ tdw03 =
        All-get_elem? (λ (e : DidLogEntry Value). e.format ≡ tdw03) (e ∷ log) (length log)
          verified.formats (sym (last-get_elem? e log) ∙ at) in
      let named = current_did-last (e ∷ log) at (last-did_of l entry) in
      let next = ed25519_verifying_key_to_multikey staged.authorized in
      let keys = rotated_keys (multikey_of key) next in
      let document =
        doc_to_value (new_genesis (to_text did) staged.authentication staged.assertion) in
      let parameters = rotation_parameters (multikey_of key) next in
      let new =
        updated key (length (e ∷ log)) l.version_id time (rotated_parameters keys) parameters
          document in
      let longer =
        LogVerified-updated key works jcs-remove e log did l.version_id time
          (rotated_parameters keys) document i verified fits (last-previous e log at)
          (new_genesis-id (to_text did) staged.authentication staged.assertion) plain authorized in
      (
        signed_entry key (length (e ∷ log)) l.version_id time parameters document,
        new,
        rotate-line prev_authorized stage_keys (e ∷ log) did (to_text did) l key staged time at
            format named parsed found made,
        entry_try_from-signed_entry key (length (e ∷ log)) l.version_id time
            (rotated_parameters keys) parameters document
            (rotation_parameters-parsed (multikey_of key) next),
        refl,
        verify_log_complete (e ∷ log ++ new ∷ []) did (omega (arith, length-append log (new ∷ [])))
            (rw (rotation_parameters-written (multikey_of key) next) at longer),
      )

module _ ⦃j : Json⦄ ⦃t : JsonText j⦄ ⦃b : Bs58⦄ ⦃s : Sha256⦄ ⦃r : Base64⦄ ⦃c : Ed25519⦄ where
  open j use {Value}

  -- For a verified log of fewer than 2^32 - 1 entries that ends with the parameters of a deactivation,
  -- `rotate` makes a line all the same, with any key of the key store, and no entry behind the log
  -- makes one that the verification accepts, so not the one it makes.
  pub rotate-deactivated :
      (prev_authorized : Did → Result UpdateError SigningKey)
      (stage_keys : Did → Result UpdateError StagedPublic) (e : DidLogEntry Value)
      (log : List (DidLogEntry Value)) (did : Did) (l : DidLogEntry Value) (key : SigningKey)
      (staged : StagedPublic) (time prev old_time : Text) (doc : DidDoc Value)
      (new : DidLogEntry Value)
      → suc (length (e ∷ log)) < 2 ^ 32
      → verify_log (e ∷ log) did ≡ ok tt
      → last (e ∷ log) ≡ some l
      → l.parameters ≡ (new_deactivation tdw03 prev doc old_time).parameters
      → from_text (to_text did) ≡ ok did
      → prev_authorized did ≡ ok key
      → stage_keys did ≡ ok staged
      → ((line : Value) × (rotate prev_authorized stage_keys (e ∷ log) time ≡ ok line))
        × (verify_log (e ∷ log ++ new ∷ []) did ≢ ok tt)
  rotate-deactivated prev_authorized stage_keys e log did l key staged time prev old_time doc new
        fits accepted at ended parsed found made =
      let verified = verify_log_sound (e ∷ log) did (omega arith) accepted in
      let entry = last-EntryVerified e log did verified at in
      let here = sym (last-get_elem? e log) ∙ at in
      let format : l.format ≡ tdw03 =
        All-get_elem? (λ (e : DidLogEntry Value). e.format ≡ tdw03) (e ∷ log) (length log)
          verified.formats here in
      let named = current_did-last (e ∷ log) at (last-did_of l entry) in
      (
        (
          _,
          rotate-line prev_authorized stage_keys (e ∷ log) did (to_text did) l key staged time at
              format named parsed found made,
        ),
        λ longer.
            let size =
              verify_log-new_deactivation (e ∷ log ++ new ∷ []) did (length log) l tdw03 prev doc
                old_time (omega (arith, length-append log (new ∷ []))) longer
                (get_elem?-append_left (e ∷ log) (new ∷ []) (length log) (omega arith) ∙ here)
                ended in
            absurd (omega (arith, length-append log (new ∷ []), size)),
      )
