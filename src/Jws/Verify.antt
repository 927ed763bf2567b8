-- ===== src/Jws/Verify.antt =====
-- The keys of JSON Web Signatures, and the verification with them.
use swiyu_rs.Prelude.{
  ℕ, Bool, ◌||◌, Option, none, some, List, ◌∷◌, ◌++◌, Result, ok, err, ◌>>=◌, guard, ok_or, map_err,
  map_ok, and_then, length, ◌==◌, if◌then◌else◌,
}
use swiyu_rs.Prelude.Text.{Text, text, text_eq}
use swiyu_rs.Prelude.Decimal.{decimal}
use swiyu_rs.Json.Interface.{Json}
use swiyu_rs.Json.Access.{as_str, member}
use swiyu_rs.Vendor.Encoding.{Base64}
use swiyu_rs.Vendor.Crypto.{Ed25519, P256}
use swiyu_rs.DidDoc.Error.{error_text}
use swiyu_rs.Jws.Debug.{debug}
use swiyu_rs.DidDoc.Jwk.{EcKey, PublicKeyJwk, ec, okp, rsa, kty, curve, jwk_try_from}

pub data JwsVerifyError : Type 0 where
  unsupported_alg malformed_jwk : Text → JwsVerifyError
  alg_key_mismatch : (alg jwk_alg : Text) → JwsVerifyError
  invalid_signature_length : (expected actual : ℕ) → JwsVerifyError
  signature_mismatch : JwsVerifyError

-- `Display for JwsVerifyError`
unfoldable pub jws_error_text : JwsVerifyError → Text
jws_error_text (unsupported_alg alg) =
    text "unsupported alg " ++ debug alg ++ text "; expected \"EdDSA\" or \"ES256\""
jws_error_text (alg_key_mismatch alg jwk_alg) =
    text "alg "
    ++ debug alg
    ++ text " does not match the jwk type (jwk implies alg="
    ++ debug jwk_alg
    ++ text ")"
jws_error_text (malformed_jwk msg) = text "malformed jwk: " ++ msg
jws_error_text (invalid_signature_length expected actual) =
    text "invalid signature length: expected "
    ++ decimal expected
    ++ text " bytes, got "
    ++ decimal actual
jws_error_text signature_mismatch = text "signature did not verify"

pub data EcKeyError : Type 0 where
  unsupported_curve invalid_public_key : Text → EcKeyError
  invalid_coordinate : (component reason : Text) → EcKeyError

-- The error of a coordinate
abbrev bad_coordinate : Text → Text → EcKeyError
bad_coordinate component reason = invalid_coordinate component reason

module _ ⦃b : Base64⦄ ⦃p : P256⦄ where
  -- `TryFrom<&ECKey> for p256::ecdsa::VerifyingKey`, on the uncompressed point
  unfoldable pub p256_try_from : EcKey → Result EcKeyError p.VerifyingKey
  p256_try_from key = do
    _ ← guard (text_eq key.crv (text "P-256")) (unsupported_curve key.crv)
    x_bytes ← map_err (bad_coordinate (text "x")) (b.decode key.x)
    y_bytes ← map_err (bad_coordinate (text "y")) (b.decode key.y)
    map_err invalid_public_key (p.from_sec1_bytes (0x04 ∷ x_bytes ++ y_bytes))

-- `Display for ECKeyError`
unfoldable pub ec_error_text : EcKeyError → Text
ec_error_text (unsupported_curve crv) =
    text "unsupported curve '" ++ crv ++ text "' (expected 'P-256')"
ec_error_text (invalid_coordinate component reason) =
    text "JWK '" ++ component ++ text "' not base64url: " ++ reason
ec_error_text (invalid_public_key reason) = text "invalid P-256 public key: " ++ reason

-- `{:?}` of a curve
abbrev shown_curve : Option Text → Text
shown_curve none = text "None"
shown_curve (some crv) = text "Some(" ++ debug crv ++ text ")"

-- The error for a key of another type or curve
abbrev unsupported_jwk : PublicKeyJwk → JwsVerifyError
unsupported_jwk other =
    malformed_jwk
      (text "unsupported jwk: kty=" ++ kty other ++ text ", crv=" ++ shown_curve (curve other))

module _ ⦃b : Base64⦄ ⦃c : Ed25519⦄ ⦃p : P256⦄ where
  pub data VerifyingKey : Type 0 where
    ed25519 : c.VerifyingKey → VerifyingKey
    ecdsa_p256 : p.VerifyingKey → VerifyingKey

  unfoldable pub alg_of : VerifyingKey → Text
  alg_of (ed25519 k) = text "EdDSA"
  alg_of (ecdsa_p256 k) = text "ES256"

  -- The check of the signature itself
  unfoldable pub signature_verifies : VerifyingKey → List ℕ → List ℕ → Bool
  signature_verifies (ed25519 k) signing_input signature = c.verify k signing_input signature
  signature_verifies (ecdsa_p256 k) signing_input signature = p.verify k signing_input signature

  unfoldable pub key_verify : VerifyingKey → List ℕ → List ℕ → Result JwsVerifyError (Unit {0})
  unfolding signature_verifies
  key_verify key signing_input signature = do
    _ ← guard (length signature == 64) (invalid_signature_length 64 (length signature))
    guard (signature_verifies key signing_input signature) signature_mismatch

  -- `x` of an Ed25519 key
  unfoldable pub ed25519_of_x : Text → Result JwsVerifyError VerifyingKey
  ed25519_of_x x = do
    bytes ← map_err (λ e. malformed_jwk (text "`x` not base64url: " ++ e)) (b.decode x)
    _ ← guard (length bytes == 32) (
        malformed_jwk
          (text "`x` must decode to 32 bytes for Ed25519, got " ++ decimal (length bytes)))
    vk ←
        map_err (λ e. malformed_jwk (text "invalid Ed25519 public key: " ++ e)) (c.from_bytes bytes)
    ok (ed25519 vk)

  unfoldable pub p256_of_key : EcKey → Result JwsVerifyError VerifyingKey
  unfolding p256_try_from ec_error_text
  p256_of_key k =
      map_ok ecdsa_p256 (map_err (λ e. malformed_jwk (ec_error_text e)) (p256_try_from k))

  -- `TryFrom<&PublicKeyJWK> for VerifyingKey`
  unfoldable pub key_try_from : PublicKeyJwk → Result JwsVerifyError VerifyingKey
  unfolding ed25519_of_x p256_of_key kty curve
  key_try_from (okp k) =
      if text_eq k.crv (text "Ed25519") then ed25519_of_x k.x else err (unsupported_jwk (okp k))
  key_try_from (ec k) =
      if text_eq k.crv (text "P-256") then p256_of_key k else err (unsupported_jwk (ec k))
  key_try_from (rsa k) = err (unsupported_jwk (rsa k))

abbrev pub is_supported : Text → Bool
is_supported alg = text_eq alg (text "EdDSA") || text_eq alg (text "ES256")

module _ ⦃j : Json⦄ ⦃b : Base64⦄ ⦃c : Ed25519⦄ ⦃p : P256⦄ where
  open j use {Value}

  unfoldable pub verify_with_embedded_jwk :
      Value → List ℕ → List ℕ → Result JwsVerifyError (Unit {0})
  unfolding key_try_from key_verify alg_of
  verify_with_embedded_jwk header signing_input signature = do
    alg ←
        ok_or (and_then (member header (text "alg")) as_str)
          (malformed_jwk (text "header missing `alg`"))
    _ ← guard (is_supported alg) (unsupported_alg alg)
    jwk_value ← ok_or (member header (text "jwk")) (malformed_jwk (text "header missing `jwk`"))
    jwk ← map_err (λ e. malformed_jwk (error_text e)) (jwk_try_from jwk_value)
    key ← key_try_from jwk
    _ ← guard (text_eq alg (alg_of key)) (alg_key_mismatch alg (alg_of key))
    key_verify key signing_input signature
