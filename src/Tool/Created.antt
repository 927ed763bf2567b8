-- ===== src/Tool/Created.antt =====
-- The genesis entry that the tool makes: the log of it alone is accepted.
use swiyu_rs.Prelude.{
  ℕ, zero, suc, ◌≡◌, refl, true, Option, none, some, [], ◌∷◌, ok, get_elem?, arith, sym, false,
  or_else,
}
use mathlib.Core.Option.{some-injective}
use swiyu_rs.DidLog.Verified.{EntryVerified}
use swiyu_rs.DidLog.Chain.{previous, authorized_keys}
use swiyu_rs.Prelude.Text.{Text, text, Lacks, replace}
use swiyu_rs.Prelude.Decimal.{decimal}
use swiyu_rs.Json.Interface.{Json}
use swiyu_rs.Json.Access.{object, json_laws, as_array-array}
use swiyu_rs.Vendor.Encoding.{Base64}
use swiyu_rs.Vendor.Crypto.{Bs58, Sha256, Ed25519, JsonText}
use swiyu_rs.Did.Identifier.{
  Did, tdw, to_text, validate_and_build, try_new_tdw, is_valid_domain, path_is_valid,
}
use swiyu_rs.DidDoc.Document.{P256PublicKey, new_genesis}
use swiyu_rs.DidDoc.Doc.{doc_to_value}
use swiyu_rs.DidLog.Parameters.{
  tdw03, LogParameters, parameters_to_value, parameters_try_from-to_value, only_keys,
}
use swiyu_rs.DidLog.Entry.{
  DidLogEntry, entry_try_from, entry_to_value, fields_to_value, state_to_value, new_entry,
}
use swiyu_rs.DidLog.Builders.{genesis_entry, minimal_parameters, method_text}
use swiyu_rs.DidLog.Edits.{strip_proof_slot, set_version_id, append_proof, pop, set_first}
use swiyu_rs.DidLog.Hash.{derive_scid, derive_entry_hash, hash_log_entry}
use swiyu_rs.DidLog.Verify.{verify_log}
use swiyu_rs.DidLog.Chain.{LogVerified, last_announced}
use swiyu_rs.DidLog.Accepts.{verify_log_complete}
use swiyu_rs.Tool.Create.{build_did, preliminary_entry, completed, create_entry}
use swiyu_rs.Tool.Update.{SigningKey, multikey_of, entry_value, signed_entry}
use swiyu_rs.Tool.Updated.{Works, updated, updated-Signed, entry_try_from-signed_entry}
use swiyu_rs.Tool.Rotated.{new_genesis-id}

-- What holds of the only element holds of what stands anywhere.
only-get_elem? {ℓ κ} :
    {A : Type ℓ} (P : ℕ → A → Type κ) (e : A)
    → P 0 e
    → (i : ℕ) (x : A) → get_elem? (e ∷ []) i ≡ some x
    → P i x
only-get_elem? P e h zero x at = let same : e ≡ x = some-injective _ _ at in rw (← same) h
only-get_elem? P e h (suc i) x at = absurd (cc)

-- The did:tdw identifier of an SCID, or of the placeholder
abbrev pub tdw_did : Option Text → Text → Option Text → Did
tdw_did scid domain path = record { method = tdw; scid = scid; domain = domain; path = path }

build_did-valid :
    (scid : Option Text) (domain : Text) (path : Option Text)
    → is_valid_domain domain ≡ true
    → path_is_valid path ≡ true
    → build_did tdw03 scid domain path ≡ ok (tdw_did scid domain path)
unfolding build_did try_new_tdw validate_and_build
build_did-valid scid domain path valid valid_path = simp (valid, valid_path)

-- The parameters of a genesis entry as their JSON shows them, with an SCID or its placeholder
abbrev pub genesis_parameters : {V : Type 0} → Text → Text → LogParameters V
genesis_parameters multikey scid = record (only_keys tdw03 (multikey ∷ []) none) {
  method = some (text "did:tdw:0.3");
  scid = some scid;
  portable = some false;
}

module _ ⦃j : Json⦄ ⦃t : JsonText j⦄ ⦃b : Bs58⦄ ⦃s : Sha256⦄ ⦃r : Base64⦄ where
  open j use {Value}

  -- The genesis entry without a proof: `scid` stands for the SCID wherever the SCID goes.
  abbrev pub unproved :
      Text → Text → Text → Option Text → P256PublicKey → P256PublicKey → Text → Value
  unproved scid multikey domain path k l now =
      entry_value scid now (parameters_to_value (genesis_parameters multikey scid))
        (doc_to_value (new_genesis (to_text (tdw_did (some scid) domain path)) k l))

  minimal_parameters-written :
      (multikey : Text)
      → parameters_to_value (minimal_parameters tdw03 multikey)
        ≡ parameters_to_value (genesis_parameters multikey (text "{SCID}"))
  unfolding parameters_to_value minimal_parameters method_text
  minimal_parameters-written multikey = refl

  preliminary_entry_lem :
      (multikey domain : Text) (path : Option Text) (k l : P256PublicKey) (now : Text)
      → preliminary_entry tdw03 multikey (tdw_did none domain path) k l now
        ≡ unproved (text "{SCID}") multikey domain path k l now
  unfolding preliminary_entry genesis_entry new_entry entry_to_value fields_to_value state_to_value
      strip_proof_slot pop to_text
  preliminary_entry_lem multikey domain path k l now =
      simp (as_array-array, minimal_parameters-written)

  completed_lem :
      (key : SigningKey) (scid now : Text) (parameters document : Value)
      → completed tdw03 key now (entry_value scid now parameters document)
        ≡ signed_entry key 0 scid now parameters document
  unfolding completed set_version_id append_proof set_first signed_entry decimal
  completed_lem key scid now parameters document = simp json_laws

  -- serde_json writes both forms of an entry so that putting the SCID for the placeholder in the text of
  -- the one gives a text of the other, and back.
  pub record Exchanges (scid : Text) (prelim proper : Value) : Type 0 where
    pub prelim_text : Text
    pub proper_text : Text
    pub prelim_written : t.to_string prelim ≡ ok prelim_text
    pub proper_written : t.to_string proper ≡ ok proper_text
    pub proper_read : t.from_str (replace prelim_text (text "{SCID}") scid) ≡ ok proper
    pub prelim_read : t.from_str (replace proper_text scid (text "{SCID}")) ≡ ok prelim

  create_entry-line :
      (key : SigningKey) (scid domain : Text) (path : Option Text) (k l : P256PublicKey)
      (now : Text)
      → is_valid_domain domain ≡ true
      → path_is_valid path ≡ true
      → derive_scid (unproved (text "{SCID}") (multikey_of key) domain path k l now) ≡ scid
      → Exchanges scid
          (unproved (text "{SCID}") (multikey_of key) domain path k l now)
          (unproved scid (multikey_of key) domain path k l now)
      → create_entry tdw03 domain path key k l now
        ≡ ok (
          signed_entry key 0 scid now
              (parameters_to_value (genesis_parameters (multikey_of key) scid))
              (doc_to_value (new_genesis (to_text (tdw_did (some scid) domain path)) k l)),
          tdw_did (some scid) domain path,
        )
  unfolding create_entry
  create_entry-line key scid domain path k l now valid valid_path derived texts = simp (
    build_did-valid none domain path valid valid_path,
    preliminary_entry_lem,
    derived,
    texts.prelim_written,
    texts.proper_read,
    build_did-valid (some scid) domain path valid valid_path,
    completed_lem,
  )

module _ ⦃j : Json⦄ ⦃t : JsonText j⦄ ⦃b : Bs58⦄ ⦃s : Sha256⦄ ⦃r : Base64⦄ ⦃c : Ed25519⦄
    (key : SigningKey) (works : Works key)
    (jcs-remove : (m : j.Map) (k : Text) (v : j.Value)
      → j.get m k ≡ none
      → t.jcs (object (j.remove (j.insert m k v) k)) ≡ t.jcs (object m)) where
  open j use {Value}

  -- The genesis entry of an SCID
  abbrev pub created :
      Text → Text → Option Text → P256PublicKey → P256PublicKey → Text → DidLogEntry Value
  created scid domain path k l now =
      let p = genesis_parameters (multikey_of key) scid in
      updated key 0 scid now p (parameters_to_value p)
        (doc_to_value (new_genesis (to_text (tdw_did (some scid) domain path)) k l))

  LogVerified-created :
      (scid domain : Text) (path : Option Text) (k l : P256PublicKey) (now : Text)
      → derive_scid (unproved (text "{SCID}") (multikey_of key) domain path k l now) ≡ scid
      → Exchanges scid
          (unproved (text "{SCID}") (multikey_of key) domain path k l now)
          (unproved scid (multikey_of key) domain path k l now)
      → Lacks b'#' (multikey_of key)
      → LogVerified (created scid domain path k l now ∷ []) (tdw_did (some scid) domain path)
  unfolding derive_scid derive_entry_hash hash_log_entry state_to_value last_announced decimal
      or_else
  LogVerified-created scid domain path k l now derived texts plain =
      let p = genesis_parameters (multikey_of key) scid in
      let document = doc_to_value (new_genesis (to_text (tdw_did (some scid) domain path)) k l) in
      let e = created scid domain path k l now in
      record {
        scid = scid;
        scid_eq = refl;
        formats = (refl, tt);
        genesis = e;
        genesis_eq = refl;
        self_certifying = record {
          written = texts.proper_text;
          preliminary = unproved (text "{SCID}") (multikey_of key) domain path k l now;
          written_eq = texts.proper_written;
          preliminary_eq = texts.prelim_read;
          scid_eq = sym derived;
        };
        entries =
            only-get_elem?
              (λ i (x : DidLogEntry Value).
                EntryVerified scid (to_text (tdw_did (some scid) domain path)) (suc i)
                  (previous none (e ∷ []) i) (authorized_keys (e ∷ []) i) x)
              e
              (record {
                document = document;
                state_eq = refl;
                id_eq = new_genesis-id (to_text (tdw_did (some scid) domain path)) k l;
                version_id_eq = refl;
                signed =
                    updated-Signed key works jcs-remove 0 scid now p (parameters_to_value p)
                      document (multikey_of key ∷ []) 0 plain refl;
              });
      }

  -- For a domain and a path that a DID can have and a working key whose multikey has no `#`, `create`
  -- makes an entry that parses and a DID of that domain and path, and the verification accepts the log
  -- of that entry alone for the DID; if serde_json writes the entry with the placeholder and the entry
  -- with the SCID so that putting the one for the other in their texts gives each from the other. JCS
  -- does not see a member that was inserted and removed again.
  pub create_entry-verify_log :
      (domain : Text) (path : Option Text) (k l : P256PublicKey) (now scid : Text)
      → is_valid_domain domain ≡ true
      → path_is_valid path ≡ true
      → derive_scid (unproved (text "{SCID}") (multikey_of key) domain path k l now) ≡ scid
      → Exchanges scid
          (unproved (text "{SCID}") (multikey_of key) domain path k l now)
          (unproved scid (multikey_of key) domain path k l now)
      → Lacks b'#' (multikey_of key)
      → (line : Value) × (did : Did) × (new : DidLogEntry Value) × (create_entry tdw03 domain path
            key k l now
          ≡ ok (line, did))
        × (did.domain ≡ domain)
        × (did.path ≡ path)
        × (entry_try_from line ≡ ok new)
        × (verify_log (new ∷ []) did ≡ ok tt)
  create_entry-verify_log domain path k l now scid valid valid_path derived texts plain =
      let p = genesis_parameters (multikey_of key) scid in
      let document = doc_to_value (new_genesis (to_text (tdw_did (some scid) domain path)) k l) in
      (
        signed_entry key 0 scid now (parameters_to_value p) document,
        tdw_did (some scid) domain path,
        created scid domain path k l now,
        create_entry-line key scid domain path k l now valid valid_path derived texts,
        refl,
        refl,
        entry_try_from-signed_entry key 0 scid now p (parameters_to_value p) document
            (parameters_try_from-to_value p tt),
        verify_log_complete (created scid domain path k l now ∷ [])
            (tdw_did (some scid) domain path) (omega arith)
            (LogVerified-created scid domain path k l now derived texts plain),
      )
