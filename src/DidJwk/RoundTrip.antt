-- ===== src/DidJwk/RoundTrip.antt =====
-- A did:jwk made of a key parses back, as a DID and as the URL of its key.
use swiyu_rs.Prelude.{
  ℕ, ◌≡◌, refl, true, false, ◌||◌, some, List, [], ◌∷◌, ◌++◌, Result, ok, All, and_then, arith,
}
use swiyu_rs.Prelude.Text.{Text, text, text_eq, Lacks, strip_prefix-append}
use swiyu_rs.Prelude.Bytes.{IsByte}
use swiyu_rs.Json.Interface.{Json}
use swiyu_rs.Json.Access.{as_str, as_object, json_laws}
use swiyu_rs.Vendor.Encoding.{Base64}
use swiyu_rs.Vendor.Crypto.{JsonText}
use swiyu_rs.DidDoc.Jwk.{
  PublicKeyJwk, ec, okp, rsa, kty, ec_members, okp_members, rsa_members, jwk_members, jwk_to_value,
  jwk_try_from-to_value, insert_jwk_optional_fields,
}
use swiyu_rs.DidJwk.Identifier.{
  DidJwk, did_jwk_prefix, validate_curve, bare_suffix, has_private_key_material, did_jwk_from_text,
  did_jwk_from_jwk,
}

-- The encoding stands alone, or before a fragment.
bare_suffix_lem :
    (s rest : Text)
    → Lacks b'#' s
    → Lacks b'?' s
    → (bare_suffix s ≡ s) × (bare_suffix (s ++ b'#' ∷ rest) ≡ s)
unfolding bare_suffix
bare_suffix_lem [] rest h g = (refl, ground arith)
bare_suffix_lem (c ∷ s) rest (hc, h) (gc, g) =
    let (alone, before) = bare_suffix_lem s rest h g in (ground arith, ground arith)

module _ ⦃j : Json⦄ where
  no_private_material :
      (k : PublicKeyJwk)
      → validate_curve k ≡ ok tt
      → has_private_key_material (jwk_members k) ≡ false
  unfolding has_private_key_material jwk_members ec_members okp_members insert_jwk_optional_fields
      validate_curve
  no_private_material (ec k) h = simp json_laws
  no_private_material (okp k) h = simp json_laws
  no_private_material (rsa k) h = absurd (cc)

  as_object-jwk : (k : PublicKeyJwk) → as_object (jwk_to_value k) ≡ some (jwk_members k)
  unfolding jwk_to_value
  as_object-jwk k = simp json_laws

  kty_member :
      (k : PublicKeyJwk) → and_then (j.get (jwk_members k) (text "kty")) as_str ≡ some (kty k)
  unfolding jwk_members ec_members okp_members rsa_members insert_jwk_optional_fields kty
  kty_member (ec k) = simp json_laws
  kty_member (okp k) = simp json_laws
  kty_member (rsa k) = simp json_laws

  kty_supported :
      (k : PublicKeyJwk)
      → validate_curve k ≡ ok tt
      → (text_eq (kty k) (text "OKP") || text_eq (kty k) (text "EC")) ≡ true
  unfolding kty validate_curve
  kty_supported (ec k) h = refl
  kty_supported (okp k) h = refl
  kty_supported (rsa k) h = absurd (cc)

module _ ⦃j : Json⦄ ⦃t : JsonText j⦄ ⦃e : Base64⦄ where
  -- The suffix of the identifier of a key
  abbrev pub suffix_of : PublicKeyJwk → Text
  suffix_of k = e.encode (t.jcs (jwk_to_value k))

  parse_whole :
      (from_slice : List ℕ → Result Text j.Value) (k : PublicKeyJwk) (whole : Text)
      → validate_curve k ≡ ok tt
      → All IsByte (t.jcs (jwk_to_value k))
      → from_slice (t.jcs (jwk_to_value k)) ≡ ok (jwk_to_value k)
      → bare_suffix whole ≡ suffix_of k
      → did_jwk_from_text from_slice (did_jwk_prefix ++ whole)
        ≡ ok (record { did = did_jwk_prefix ++ suffix_of k; key = k })
  unfolding did_jwk_from_text
  parse_whole from_slice k whole curve_ok are_bytes parsed cut = simp (
    strip_prefix-append did_jwk_prefix whole,
    cut,
    e.decode-encode (t.jcs (jwk_to_value k)) are_bytes,
    parsed,
    as_object-jwk k,
    no_private_material k curve_ok,
    kty_member k,
    kty_supported k curve_ok,
    jwk_try_from-to_value k,
    curve_ok,
  )

  -- For a key of a supported curve, the made did:jwk parses back, and so does the URL of its key, if
  -- the canonical JSON of the key is bytes that parse back, and base64url makes no `#` and no `?`.
  pub did_jwk_from_text-from_jwk :
      (from_slice : List ℕ → Result Text j.Value) (k : PublicKeyJwk)
      → validate_curve k ≡ ok tt
      → All IsByte (t.jcs (jwk_to_value k))
      → from_slice (t.jcs (jwk_to_value k)) ≡ ok (jwk_to_value k)
      → Lacks b'#' (suffix_of k)
      → Lacks b'?' (suffix_of k)
      → (d : DidJwk) × (did_jwk_from_jwk k ≡ ok d)
        × (d.key ≡ k)
        × (did_jwk_from_text from_slice d.did ≡ ok d)
        × (did_jwk_from_text from_slice (d.did ++ text "#0") ≡ ok d)
  unfolding did_jwk_from_jwk
  did_jwk_from_text-from_jwk from_slice k curve_ok are_bytes parsed no_hash no_query =
      let (alone, before) = bare_suffix_lem (suffix_of k) (text "0") no_hash no_query in
      (
        record { did = did_jwk_prefix ++ suffix_of k; key = k },
        simp curve_ok,
        refl,
        parse_whole from_slice k (suffix_of k) curve_ok are_bytes parsed alone,
        parse_whole from_slice k (suffix_of k ++ text "#0") curve_ok are_bytes parsed before,
      )
