-- ===== src/Jws/Embedded.antt =====
-- What the verification with an embedded key accepts.
use swiyu_rs.Prelude.{
  ℕ, ◌≡◌, ◌↔◌, refl, true, some, List, [], ◌∷◌, Result, ok, ok_or, guard, map_err, and_then, length,
  ◌==◌, arith, All, Bool-cases, inl, inr, err, if◌then◌else◌,
}
use swiyu_rs.Prelude.{
  Ensures, Ensures-ok, Ensures-bind, Ensures-guard, ok_or-eq-ok, map_err-eq-ok, guard-eq-ok,
}
use swiyu_rs.Prelude.Text.{Text, text, text_eq, text_eq_sound, text_eq_refl}
use swiyu_rs.Prelude.Bytes.{IsByte}
use swiyu_rs.Json.Interface.{Json}
use swiyu_rs.Json.Access.{as_str, member, string, json_object, json_laws}
use swiyu_rs.Vendor.Encoding.{Base64}
use swiyu_rs.Vendor.Crypto.{Ed25519, P256}
use swiyu_rs.DidDoc.Jwk.{
  PublicKeyJwk, okp, okp_from_ed25519_bytes, okp_new, jwk_to_value, jwk_try_from,
  jwk_try_from-to_value,
}
use swiyu_rs.Jws.Verify.{
  JwsVerifyError, unsupported_alg, alg_key_mismatch, VerifyingKey, ed25519, ecdsa_p256, alg_of,
  signature_verifies, key_verify, key_try_from, ed25519_of_x, is_supported,
  verify_with_embedded_jwk,
}

module _ ⦃b : Base64⦄ ⦃c : Ed25519⦄ ⦃p : P256⦄ where
  pub key_verify_iff :
      (key : VerifyingKey) (signing_input signature : List ℕ)
      → (key_verify key signing_input signature ≡ ok tt)
        ↔ ((length signature ≡ 64) × (signature_verifies key signing_input signature ≡ true))
  unfolding key_verify
  key_verify_iff key signing_input signature = (λ h. ground arith, λ h. ground arith)

  pub alg_of-is_supported : (key : VerifyingKey) → is_supported (alg_of key) ≡ true
  unfolding alg_of
  alg_of-is_supported (ed25519 k) = refl
  alg_of-is_supported (ecdsa_p256 k) = refl

module _ ⦃j : Json⦄ ⦃b : Base64⦄ ⦃c : Ed25519⦄ ⦃p : P256⦄ where
  open j use {Value}

  -- The header holds a key, names that key's algorithm, and the signature of 64 bytes is the key's.
  pub record SignedByHeader (header : Value) (signing_input signature : List ℕ) : Type 0 where
    pub jwk_value : Value
    pub jwk : PublicKeyJwk
    pub key : VerifyingKey
    pub jwk_at : member header (text "jwk") ≡ some jwk_value
    pub jwk_eq : jwk_try_from jwk_value ≡ ok jwk
    pub key_eq : key_try_from jwk ≡ ok key
    pub alg_eq : and_then (member header (text "alg")) as_str ≡ some (alg_of key)
    pub size : length signature ≡ 64
    pub valid : signature_verifies key signing_input signature ≡ true

  embedded_sound :
      (header : Value) (signing_input signature : List ℕ)
      → Ensures
          (λ _. SignedByHeader header signing_input signature)
          (verify_with_embedded_jwk header signing_input signature)
  unfolding verify_with_embedded_jwk key_verify
  embedded_sound header signing_input signature =
      Ensures-bind (ok_or (and_then (member header (text "alg")) as_str) _) _ λ alg e1.
        Ensures-bind (guard (is_supported alg) _) _ λ _ e2.
          Ensures-bind (ok_or (member header (text "jwk")) _) _ λ value e3.
            Ensures-bind (map_err _ (jwk_try_from value)) _ λ jwk e4.
              Ensures-bind (key_try_from jwk) _ λ key e5.
                Ensures-bind (guard (text_eq alg (alg_of key)) _) _ λ _ e6.
                  let alg_at = ok_or-eq-ok (and_then (member header (text "alg")) as_str) _ e1 in
                  let same = text_eq_sound alg (alg_of key) (guard-eq-ok _ _ e6) in
                  checked key jwk value (ok_or-eq-ok (member header (text "jwk")) _ e3)
                    (map_err-eq-ok _ (jwk_try_from value) e4) e5 (rw same at alg_at)
    where
      checked :
          (key : VerifyingKey) (jwk : PublicKeyJwk) (value : Value)
          → member header (text "jwk") ≡ some value
          → jwk_try_from value ≡ ok jwk
          → key_try_from jwk ≡ ok key
          → and_then (member header (text "alg")) as_str ≡ some (alg_of key)
          → Ensures
              (λ _. SignedByHeader header signing_input signature)
              (key_verify key signing_input signature)
      checked key jwk value e3 e4 e5 e1 = Ensures-bind (guard (length signature == 64) _) _ λ _ e7.
          Ensures-guard (signature_verifies key signing_input signature) _ λ e8. record {
            jwk_value = value;
            jwk = jwk;
            key = key;
            jwk_at = e3;
            jwk_eq = e4;
            key_eq = e5;
            alg_eq = e1;
            size = let sized = guard-eq-ok (length signature == 64) _ e7 in ground arith;
            valid = e8;
          }

  -- A JWS is accepted just where its header holds a key, names that key's algorithm, and the signature
  -- has 64 bytes and is the key's.
  pub verify_with_embedded_jwk_iff :
      (header : Value) (signing_input signature : List ℕ)
      → (verify_with_embedded_jwk header signing_input signature ≡ ok tt)
        ↔ SignedByHeader header signing_input signature
  unfolding verify_with_embedded_jwk
  verify_with_embedded_jwk_iff header signing_input signature = (
    λ h. Ensures-ok (embedded_sound header signing_input signature) h,
    λ signed.
        let verified =
          (key_verify_iff signed.key signing_input signature).1 (signed.size, signed.valid) in
        simp (
          signed.alg_eq, alg_of-is_supported, signed.jwk_at, signed.jwk_eq, signed.key_eq,
          text_eq_refl, verified,
        ),
  )

  -- What the verification answers for an Ed25519 key of a given `alg`.
  abbrev pub by_alg : Text → VerifyingKey → List ℕ → List ℕ → Result JwsVerifyError (Unit {0})
  by_alg alg key signing_input signature =
      if text_eq alg (text "EdDSA")
      then key_verify key signing_input signature
      else if text_eq alg (text "ES256")
      then err (alg_key_mismatch alg (text "EdDSA"))
      else err (unsupported_alg alg)

  key_try_from-ed25519 :
      (bytes : List ℕ) (vk : c.VerifyingKey)
      → All IsByte bytes
      → length bytes ≡ 32
      → c.from_bytes bytes ≡ ok vk
      → key_try_from (okp (okp_from_ed25519_bytes bytes)) ≡ ok (ed25519 vk)
  unfolding key_try_from ed25519_of_x okp_from_ed25519_bytes okp_new
  key_try_from-ed25519 bytes vk are_bytes size is_key =
      simp (b.decode-encode bytes are_bytes, size, is_key)

  -- For a header that holds the JWK of the bytes of an Ed25519 key, the signature is checked with that
  -- key where the algorithm named is EdDSA, and no other algorithm is accepted.
  pub verify_with_embedded_jwk-ed25519 :
      (alg : Text) (bytes : List ℕ) (vk : c.VerifyingKey) (signing_input signature : List ℕ)
      → All IsByte bytes
      → length bytes ≡ 32
      → c.from_bytes bytes ≡ ok vk
      → verify_with_embedded_jwk
          (json_object (
            (text "alg", string alg)
            ∷ (text "jwk", jwk_to_value (okp (okp_from_ed25519_bytes bytes)))
            ∷ []))
          signing_input
          signature
        ≡ by_alg alg (ed25519 vk) signing_input signature
  unfolding verify_with_embedded_jwk alg_of
  verify_with_embedded_jwk-ed25519 alg bytes vk signing_input signature are_bytes size is_key =
      let parsed = jwk_try_from-to_value (okp (okp_from_ed25519_bytes bytes)) in
      let key_at = key_try_from-ed25519 bytes vk are_bytes size is_key in
      elim (Bool-cases (text_eq alg (text "EdDSA"))) [
        | inl e ↦ simp (json_laws, parsed, key_at, e)
        | inr e ↦ elim (Bool-cases (text_eq alg (text "ES256"))) [
          | inl f ↦ simp (json_laws, parsed, key_at, e, f)
          | inr f ↦ simp (json_laws, parsed, key_at, e, f)
        ]
      ]
