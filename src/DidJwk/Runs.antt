-- ===== src/DidJwk/Runs.antt =====
-- The theorem at a concrete key.
use swiyu_rs.Prelude.{
  ℕ, ◌≡◌, refl, Bool, true, not, ◌&&◌, ◌==◌, none, List, [], ◌∷◌, ◌++◌, Result, ok, arith,
}
use swiyu_rs.Prelude.Text.{Text, text, Lacks}
use swiyu_rs.Json.Access.{insert_some}
use swiyu_rs.Json.Plain.{Tree, plain_json}
use swiyu_rs.Vendor.Plain.{plain_base64, are_bytes-All}
use swiyu_rs.Vendor.Samples.{sample_json_text, leaves, item_leaves, member_leaves}
use swiyu_rs.DidDoc.Jwk.{
  PublicKeyJwk, okp, jwk_to_value, jwk_members, okp_members, insert_jwk_optional_fields,
}
use swiyu_rs.DidJwk.Identifier.{DidJwk, validate_curve, did_jwk_from_text, did_jwk_from_jwk}
use swiyu_rs.DidJwk.RoundTrip.{suffix_of, did_jwk_from_text-from_jwk}

abbrev key : PublicKeyJwk
key = okp (record {
  crv = text "Ed25519";
  x = text "AQ";
  use_ = none;
  key_ops = none;
  alg = none;
  kid = none;
})

abbrev read : List ℕ → Result Text Tree
read bytes = ok (jwk_to_value key)

abbrev lacks : ℕ → Text → Bool
lacks c [] = true
lacks c (d ∷ s) = not (d == c) && lacks c s

lacks-Lacks : (c : ℕ) (s : Text) → lacks c s ≡ true → Lacks c s
lacks-Lacks c [] h = tt
lacks-Lacks c (d ∷ s) h = (λ e. ground arith, lacks-Lacks c s (ground arith))

did_jwk_from_text-from_jwk_example :
    (d : DidJwk) × (did_jwk_from_jwk key ≡ ok d)
    × (d.key ≡ key)
    × (did_jwk_from_text read d.did ≡ ok d)
    × (did_jwk_from_text read (d.did ++ text "#0") ≡ ok d)
unfolding validate_curve jwk_to_value jwk_members okp_members insert_jwk_optional_fields insert_some
    leaves item_leaves member_leaves
did_jwk_from_text-from_jwk_example =
    did_jwk_from_text-from_jwk read key refl (are_bytes-All (suffix_of key) refl) refl
      (lacks-Lacks b'#' (suffix_of key) refl) (lacks-Lacks b'?' (suffix_of key) refl)
