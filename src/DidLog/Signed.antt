-- ===== src/DidLog/Signed.antt =====
-- What it is that an entry's proof is signed by an authorised key, in terms of the proof's JSON and of
-- the primitives, and that the check of a proof accepts no other.
use swiyu_rs.Prelude.{
  ℕ, ◌≡◌, refl, true, List, [], ◌∷◌, ◌++◌, some, ok, guard, ok_or, map_err, ◌==◌, length, get_elem?,
}
use swiyu_rs.Prelude.{
  Ensures, fails, Ensures-bind, Ensures-guard, ok_or-eq-ok, map_err-eq-ok, guard-eq-ok, arith,
}
use swiyu_rs.Prelude.Text.{Text, text, Lacks}
use swiyu_rs.Json.Interface.{Json}
use swiyu_rs.Json.Access.{as_object, object}
use swiyu_rs.Vendor.Crypto.{Bs58, Sha256, Ed25519, JsonText}
use swiyu_rs.DidLog.Hash.{eddsa_jcs_2022_hash}
use swiyu_rs.DidLog.VerifyError.{malformed_proof}
use swiyu_rs.DidLog.Proof.{
  verify_proof, string_member, contains_key, parse_did_key_vm, decode_ed25519_multikey,
  decode_multibase_z,
}
use swiyu_rs.DidLog.ProofLemmas.{
  did_key_url, parse_did_key_vm_sound, contains_key_sound, decode_ed25519_multikey_sound,
  decode_multibase_z_sound, parse_did_key_vm-did_key_url, contains_key_complete,
  decode_ed25519_multikey_complete, decode_multibase_z_complete,
}

module _ ⦃j : Json⦄ ⦃t : JsonText j⦄ ⦃b : Bs58⦄ ⦃s : Sha256⦄ ⦃c : Ed25519⦄ where
  open j use {Value, Map, get, remove}

  -- `proof` is the object of a proof by one of `keys` over `document`.
  pub record ProofBy (keys : List Text) (document : Value) (proof : Map) : Type 0 where
    -- The key is named by a did:key URL, and is one of the authorised ones.
    pub multikey : Text
    pub key_index : ℕ
    pub vm_eq : string_member proof (text "verificationMethod") ≡ some (did_key_url multikey)
    pub one_fragment : Lacks b'#' multikey
    pub authorized : get_elem? keys key_index ≡ some multikey
    -- The multikey is the Ed25519 key `vk`.
    pub key_text : Text
    pub key_bytes : List ℕ
    pub vk : c.VerifyingKey
    pub multikey_eq : multikey ≡ b'z' ∷ key_text
    pub decode_key : b.decode key_text ≡ ok (0xed ∷ 0x01 ∷ key_bytes)
    pub length_key : length key_bytes ≡ 32
    pub vk_eq : c.from_bytes key_bytes ≡ ok vk
    -- The signature of 64 bytes is valid for the hashes of the proof without it, and of the document.
    pub signature_text : Text
    pub signature : List ℕ
    pub proof_value_eq : string_member proof (text "proofValue") ≡ some (b'z' ∷ signature_text)
    pub decode_signature : b.decode signature_text ≡ ok signature
    pub length_signature : length signature ≡ 64
    pub valid :
        c.verify vk
          (s.digest (t.jcs (object (remove proof (text "proofValue"))))
            ++ s.digest (t.jcs document))
          signature
        ≡ true

  -- The first of an entry's proofs, the only one that is looked at, is by one of `keys`.
  abbrev pub Signed : List Text → Value → List Value → Type 0
  Signed keys document proofs =
      (v : Value) × (rest : List Value) × (proof : Map) × (proofs ≡ v ∷ rest)
      × (as_object v ≡ some proof)
      × ProofBy keys document proof

  pub verify_proof_sound :
      (i : ℕ) (proofs : List Value) (document : Value) (keys : List Text)
      → Ensures (λ _. Signed keys document proofs) (verify_proof i proofs document keys)
  unfolding verify_proof eddsa_jcs_2022_hash
  verify_proof_sound i [] document keys = fails
  verify_proof_sound i (v ∷ rest) document keys = Ensures-bind (ok_or (as_object v) _) _ λ proof e1.
      Ensures-bind (ok_or (string_member proof (text "verificationMethod")) _) _ λ vm e2.
        Ensures-bind (ok_or (parse_did_key_vm vm) _) _ λ mk e3.
          Ensures-bind (guard (contains_key keys mk) _) _ λ _ e4.
            Ensures-bind (map_err (malformed_proof i) (decode_ed25519_multikey mk)) _ λ key e5.
              Ensures-bind (map_err _ (c.from_bytes key)) _ λ vk e6.
                Ensures-bind (ok_or (string_member proof (text "proofValue")) _) _ λ pv e7.
                  Ensures-bind (map_err (malformed_proof i) (decode_multibase_z pv)) _ λ sig e8.
                    Ensures-bind (guard (length sig == 64) _) _ λ _ e9. Ensures-guard _ _ λ valid.
                      let vm_at =
                        ok_or-eq-ok (string_member proof (text "verificationMethod")) _ e2 in
                      let url =
                        parse_did_key_vm_sound vm (ok_or-eq-ok (parse_did_key_vm vm) _ e3) in
                      let known =
                        contains_key_sound keys mk (guard-eq-ok (contains_key keys mk) _ e4) in
                      let (key_text, mk_eq, key_at, key_size) =
                        decode_ed25519_multikey_sound mk
                          (map_err-eq-ok (malformed_proof i) (decode_ed25519_multikey mk) e5) in
                      let (sig_text, pv_eq, sig_at) =
                        decode_multibase_z_sound pv
                          (map_err-eq-ok (malformed_proof i) (decode_multibase_z pv) e8) in
                      let sized = guard-eq-ok (length sig == 64) _ e9 in
                      let pv_at = ok_or-eq-ok (string_member proof (text "proofValue")) _ e7 in
                      (
                        v,
                        rest,
                        proof,
                        refl,
                        ok_or-eq-ok (as_object v) _ e1,
                        record {
                          multikey = mk;
                          key_index = known.0;
                          vm_eq = rw (← url.0) vm_at;
                          one_fragment = url.1;
                          authorized = known.1;
                          key_text = key_text;
                          key_bytes = key;
                          vk = vk;
                          multikey_eq = mk_eq;
                          decode_key = key_at;
                          length_key = key_size;
                          vk_eq = map_err-eq-ok _ (c.from_bytes key) e6;
                          signature_text = sig_text;
                          signature = sig;
                          proof_value_eq = rw (← pv_eq) pv_at;
                          decode_signature = sig_at;
                          length_signature = ground arith;
                          valid = valid;
                        },
                      )

  pub no_signer : (document : Value) (proofs : List Value) → ¬ Signed [] document proofs
  no_signer document proofs (v, rest, proof, whole, is_object, by_key) =
      nothing_at by_key.key_index by_key.authorized
    where
      nothing_at : (i : ℕ) {mk : Text} → ¬ (get_elem? {A = Text} [] i ≡ some mk)
      nothing_at i h = cc

  -- The bytes of the key of such a proof are what its multikey decodes to.
  ProofBy-decode :
      {keys : List Text} {document : Value} {proof : Map} (by_key : ProofBy keys document proof)
      → decode_ed25519_multikey by_key.multikey ≡ ok by_key.key_bytes
  ProofBy-decode by_key =
      rw by_key.multikey_eq
        (decode_ed25519_multikey_complete by_key.key_text by_key.decode_key by_key.length_key)

  ProofBy-verify :
      (i : ℕ) (v : Value) (rest : List Value) (proof : Map) (document : Value) (keys : List Text)
      → as_object v ≡ some proof
      → ProofBy keys document proof
      → verify_proof i (v ∷ rest) document keys ≡ ok tt
  unfolding verify_proof eddsa_jcs_2022_hash
  ProofBy-verify i v rest proof document keys is_object by_key = simp (
    is_object,
    by_key.vm_eq,
    parse_did_key_vm-did_key_url by_key.multikey by_key.one_fragment,
    contains_key_complete keys by_key.key_index by_key.multikey by_key.authorized,
    ProofBy-decode by_key,
    by_key.vk_eq,
    by_key.proof_value_eq,
    decode_multibase_z_complete by_key.signature_text by_key.decode_signature,
    by_key.length_signature,
    by_key.valid,
  )

  pub verify_proof_complete :
      (i : ℕ) (proofs : List Value) (document : Value) (keys : List Text)
      → Signed keys document proofs
      → verify_proof i proofs document keys ≡ ok tt
  verify_proof_complete i proofs document keys (v, rest, proof, whole, is_object, by_key) =
      rw whole (ProofBy-verify i v rest proof document keys is_object by_key)
