-- ===== src/Jws/Runs.antt =====
-- The theorems at concrete keys.
use swiyu_rs.Prelude.{ℕ, ◌≡◌, ◌↔◌, refl, ◌∙◌, List, [], ◌∷◌, ok, replicate, All-replicate, arith}
use swiyu_rs.Prelude.Text.{Text, text}
use swiyu_rs.Prelude.Bytes.{IsByte}
use swiyu_rs.Json.Access.{string, json_object}
use swiyu_rs.Json.Plain.{Tree, plain_json}
use swiyu_rs.Vendor.Plain.{plain_base64}
use swiyu_rs.Vendor.Samples.{sample_ed25519, sample_p256, sample_signature}
use swiyu_rs.DidDoc.Jwk.{okp, okp_from_ed25519_bytes, jwk_to_value}
use swiyu_rs.Jws.Debug.{debug, escaped, all_escaped}
use swiyu_rs.Jws.Verify.{ed25519, key_verify, signature_verifies, verify_with_embedded_jwk}
use swiyu_rs.Jws.Embedded.{
  SignedByHeader, verify_with_embedded_jwk_iff, by_alg, verify_with_embedded_jwk-ed25519,
}

abbrev key : List ℕ
key = replicate 32 b'k'

abbrev header : Tree
header = json_object (
    (text "alg", string (text "EdDSA"))
    ∷ (text "jwk", jwk_to_value (okp (okp_from_ed25519_bytes key)))
    ∷ [])

abbrev message : Text
message = text "h.p"

verify_with_embedded_jwk_iff_example :
    (verify_with_embedded_jwk header message (sample_signature message) ≡ ok tt)
    ↔ SignedByHeader header message (sample_signature message)
verify_with_embedded_jwk_iff_example =
    verify_with_embedded_jwk_iff header message (sample_signature message)

verify_with_embedded_jwk-ed25519_example :
    verify_with_embedded_jwk header message (sample_signature message)
    ≡ by_alg (text "EdDSA") (ed25519 key) message (sample_signature message)
verify_with_embedded_jwk-ed25519_example =
    verify_with_embedded_jwk-ed25519 (text "EdDSA") key key message (sample_signature message)
      (All-replicate IsByte 32 b'k' (omega arith)) refl refl

-- The signature of the sample key is accepted.
accepted : verify_with_embedded_jwk header message (sample_signature message) ≡ ok tt
unfolding key_verify signature_verifies
accepted = verify_with_embedded_jwk-ed25519_example ∙ refl

-- A quote, a backslash and control characters are escaped in a message.
debug-escapes :
    debug (b'a' ∷ b'"' ∷ b'\\' ∷ 0 ∷ 10 ∷ b'\'' ∷ 0x7f ∷ []) ≡ text "\"a\\\"\\\\\\0\\n'\\u{7f}\""
unfolding escaped all_escaped
debug-escapes = refl
