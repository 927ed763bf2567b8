-- ===== src/DataIntegrity/Verifies.antt =====
-- The verification of a log accepts a proof that was signed with the typed proof.
use swiyu_rs.Prelude.{
  ℕ, ◌≡◌, refl, true, none, some, List, ◌∷◌, ◌++◌, ok, length, get_elem?, All, arith,
}
use swiyu_rs.Prelude.{ap, sym, ◌∙◌}
use swiyu_rs.Prelude.Text.{Text, text, Lacks, strip_prefix}
use swiyu_rs.Prelude.Bytes.{IsByte}
use swiyu_rs.Json.Interface.{Json}
use swiyu_rs.Json.Access.{object, json_laws}
use swiyu_rs.Vendor.Crypto.{Bs58, Sha256, Ed25519, JsonText}
use swiyu_rs.DidDoc.Multibase.{ed25519_verifying_key_to_multikey, multibase_from_text}
use swiyu_rs.DidLog.Hash.{eddsa_jcs_2022_hash}
use swiyu_rs.DidLog.Proof.{verify_proof, string_member, decode_ed25519_multikey, decode_multibase_z}
use swiyu_rs.DidLog.ProofLemmas.{did_key_url, parse_did_key_vm-did_key_url, contains_key_complete}
use swiyu_rs.DataIntegrity.Config.{
  Cryptosuite, ProofPurpose, eddsa_jcs_2022, ProofConfig, config_members, config_to_value,
  signing_input,
}
use swiyu_rs.DataIntegrity.Proof.{sign, proof_to_value}

module _ ⦃j : Json⦄ ⦃t : JsonText j⦄ ⦃s : Sha256⦄ where
  signing_input-suite :
      (suite : Cryptosuite) (method : Text) (purpose : ProofPurpose) (challenge created : Text)
      (document : j.Value)
      → let config : ProofConfig = record {
        cryptosuite = suite;
        verification_method = method;
        proof_purpose = purpose;
        challenge = challenge;
        created = created;
      } in
        signing_input config document ≡ eddsa_jcs_2022_hash document (config_to_value config)
  unfolding signing_input
  signing_input-suite eddsa_jcs_2022 method purpose challenge created document = refl

module _ ⦃b : Bs58⦄ where
  decode_ed25519_multikey-encoded :
      (bytes : List ℕ)
      → All IsByte bytes
      → length bytes ≡ 32
      → decode_ed25519_multikey (ed25519_verifying_key_to_multikey bytes) ≡ ok bytes
  unfolding decode_ed25519_multikey ed25519_verifying_key_to_multikey multibase_from_text
  decode_ed25519_multikey-encoded bytes h size =
      simp (b.decode-encode (0xed ∷ 0x01 ∷ bytes) (omega arith, (omega arith, h)), size)

  decode_multibase_z-encoded :
      (bytes : List ℕ) → All IsByte bytes → decode_multibase_z (b'z' ∷ b.encode bytes) ≡ ok bytes
  unfolding decode_multibase_z strip_prefix
  decode_multibase_z-encoded bytes h = simp (b.decode-encode bytes h)

module _ ⦃j : Json⦄ ⦃t : JsonText j⦄ ⦃b : Bs58⦄ ⦃s : Sha256⦄ ⦃c : Ed25519⦄ (bytes : List ℕ)
    (vk : c.VerifyingKey) (signer : List ℕ → List ℕ) (bytes-IsByte : All IsByte bytes)
    (length-bytes : length bytes ≡ 32) (from_bytes-bytes : c.from_bytes bytes ≡ ok vk)
    (signer-IsByte : (m : List ℕ) → All IsByte (signer m))
    (length-signer : (m : List ℕ) → length (signer m) ≡ 64)
    (verify-signer : (m : List ℕ) → c.verify vk m (signer m) ≡ true)
    (jcs-remove : (m : j.Map) (k : Text) (v : j.Value)
      → j.get m k ≡ none
      → t.jcs (object (j.remove (j.insert m k v) k)) ≡ t.jcs (object m)) where
  open j use {Value}

  accepts :
      (i : ℕ) (rest : List Value) (document : Value) (obj : j.Map) (keys : List Text) (k : ℕ)
      (h : List ℕ)
      → Lacks b'#' (ed25519_verifying_key_to_multikey bytes)
      → get_elem? keys k ≡ some (ed25519_verifying_key_to_multikey bytes)
      → string_member obj (text "verificationMethod")
        ≡ some (did_key_url (ed25519_verifying_key_to_multikey bytes))
      → string_member obj (text "proofValue") ≡ some (b'z' ∷ b.encode (signer h))
      → eddsa_jcs_2022_hash document (object (j.remove obj (text "proofValue"))) ≡ h
      → verify_proof i (object obj ∷ rest) document keys ≡ ok tt
  unfolding verify_proof
  accepts i rest document obj keys k h plain authorized method value hash =
      let mk = ed25519_verifying_key_to_multikey bytes in
      simp (
        json_laws,
        method,
        value,
        hash,
        parse_did_key_vm-did_key_url mk plain,
        contains_key_complete keys k mk authorized,
        decode_ed25519_multikey-encoded bytes bytes-IsByte length-bytes,
        from_bytes-bytes,
        decode_multibase_z-encoded _ (signer-IsByte h),
        length-signer,
        verify-signer,
      )

  unsigned : (config : ProofConfig) → j.get (config_members config) (text "proofValue") ≡ none
  unfolding config_members
  unsigned config = simp json_laws

  signing_input-members :
      (document : Value) (config : ProofConfig) (v : Value)
      → eddsa_jcs_2022_hash document (
          object
            (j.remove (j.insert (config_members config) (text "proofValue") v) (text "proofValue")))
        ≡ signing_input config document
  unfolding eddsa_jcs_2022_hash config_to_value
  signing_input-members document config v =
      ap (λ x. s.digest x ++ s.digest (t.jcs document))
        (jcs-remove (config_members config) (text "proofValue") v (unsigned config))
      ∙ sym (
          signing_input-suite config.cryptosuite config.verification_method config.proof_purpose
            config.challenge config.created document)

  -- A proof signed by an authorised key is accepted for the document that was signed, wherever its
  -- entry stands: the key is Ed25519 and verifies what its signer makes, the proof's method is the
  -- key's did:key URL, whose multikey has no `#`, and JCS does not see a member that was inserted and
  -- removed again.
  pub verify_proof-sign :
      (i : ℕ) (rest : List Value) (document : Value) (config : ProofConfig) (keys : List Text)
      (k : ℕ)
      → config.verification_method ≡ did_key_url (ed25519_verifying_key_to_multikey bytes)
      → Lacks b'#' (ed25519_verifying_key_to_multikey bytes)
      → get_elem? keys k ≡ some (ed25519_verifying_key_to_multikey bytes)
      → verify_proof i (proof_to_value (sign signer document config) ∷ rest) document keys ≡ ok tt
  unfolding proof_to_value sign config_members
  verify_proof-sign i rest document config keys k method plain authorized =
      accepts i rest document _ keys k (signing_input config document) plain authorized
        (simp (json_laws, method)) (simp json_laws) (signing_input-members document config _)
