-- ===== src/DidJwk/Identifier.antt =====
-- `DIDJwk`: its making from a key, its parsing, and its document.
use swiyu_rs.Prelude.{
  ℕ, Bool, true, false, ◌||◌, not, Option, none, some, List, [], ◌∷◌, ◌++◌, Result, ok, err, ◌>>=◌,
  guard, ok_or, map_err, and_then, ◌==◌, if◌then◌else◌,
}
use swiyu_rs.Prelude.Text.{Text, text, text_eq, strip_prefix}
use swiyu_rs.Json.Interface.{Json}
use swiyu_rs.Json.Access.{as_str, as_object}
use swiyu_rs.Vendor.Encoding.{Base64}
use swiyu_rs.Vendor.Crypto.{JsonText}
use swiyu_rs.DidDoc.Error.{error_text}
use swiyu_rs.DidDoc.Jwk.{PublicKeyJwk, ec, okp, rsa, jwk_to_value, jwk_try_from}
use swiyu_rs.DidDoc.Document.{
  DidDoc, VerificationMethod, jwk, reference, new, add_verification_method, add_authentication,
  add_assertion_method, add_capability_invocation, add_capability_delegation,
}

pub data DidJwkError : Type 0 where
  missing_prefix invalid_base64 private_key_material : DidJwkError
  invalid_json invalid_jwk unsupported_algorithm canonicalization : Text → DidJwkError

pub record DidJwk : Type 0 where
  pub did : Text
  pub key : PublicKeyJwk

abbrev pub did_jwk_prefix : Text
did_jwk_prefix = text "did:jwk:"

unfoldable pub validate_curve : PublicKeyJwk → Result DidJwkError (Unit {0})
validate_curve (okp k) =
    guard (text_eq k.crv (text "Ed25519")) (unsupported_algorithm (text "OKP/" ++ k.crv))
validate_curve (ec k) =
    guard (text_eq k.crv (text "P-256")) (unsupported_algorithm (text "EC/" ++ k.crv))
validate_curve (rsa k) = err (unsupported_algorithm (text "RSA"))

-- `split_once(['#', '?'])`, and the whole text where there is neither
unfoldable pub bare_suffix : Text → Text
bare_suffix [] = []
bare_suffix (c ∷ s) =
    let rest = bare_suffix s in if (c == b'#') || (c == b'?') then [] else c ∷ rest

module _ ⦃j : Json⦄ where
  open j use {Value, Map, get}

  abbrev pub is_there : Option Value → Bool
  is_there none = false
  is_there (some v) = true

  abbrev pub contains_name : Map → Text → Bool
  contains_name obj k = is_there (get obj k)

  unfoldable pub has_private_key_material : Map → Bool
  has_private_key_material obj =
      contains_name obj (text "d")
      || (contains_name obj (text "p")
          || (contains_name obj (text "q")
              || (contains_name obj (text "dp")
                  || (contains_name obj (text "dq")
                      || (contains_name obj (text "qi") || contains_name obj (text "k"))))))

  -- The document of the identifier
  unfoldable pub document_of_did_jwk : DidJwk → DidDoc Value
  unfolding new add_verification_method add_authentication add_assertion_method
      add_capability_invocation add_capability_delegation
  document_of_did_jwk d =
      let vm_id = d.did ++ text "#0" in
      let vm : VerificationMethod = record {
        id = vm_id;
        type_ = text "JsonWebKey2020";
        controller = d.did;
        public_key = jwk d.key;
      } in
      let vm_ref = reference vm_id in
      add_capability_delegation
        (add_capability_invocation
          (add_assertion_method (add_authentication (add_verification_method (new d.did) vm) vm_ref)
            vm_ref)
          vm_ref)
        vm_ref

module _ ⦃j : Json⦄ ⦃e : Base64⦄ where
  open j use {Value, Map, get}

  -- `from_slice` is serde_json's, with the text of its error.
  unfoldable pub did_jwk_from_text :
      (from_slice : List ℕ → Result Text Value) → Text → Result DidJwkError DidJwk
  unfolding validate_curve has_private_key_material bare_suffix
  did_jwk_from_text from_slice s = do
    whole ← ok_or (strip_prefix did_jwk_prefix s) missing_prefix
    let suffix = bare_suffix whole
    decoded ← map_err (λ _. invalid_base64) (e.decode suffix)
    value ← map_err invalid_json (from_slice decoded)
    obj ← ok_or (as_object value) (invalid_jwk (text "payload is not a JSON object"))
    _ ← guard (not (has_private_key_material obj)) private_key_material
    kty ←
        ok_or (and_then (get obj (text "kty")) as_str)
          (invalid_jwk (text "missing or non-string 'kty'"))
    _ ← guard (text_eq kty (text "OKP") || text_eq kty (text "EC")) (unsupported_algorithm kty)
    key ← map_err (λ e. invalid_jwk (error_text e)) (jwk_try_from value)
    _ ← validate_curve key
    ok (record { did = did_jwk_prefix ++ suffix; key = key })

module _ ⦃j : Json⦄ ⦃t : JsonText j⦄ ⦃e : Base64⦄ where
  unfoldable pub did_jwk_from_jwk : PublicKeyJwk → Result DidJwkError DidJwk
  unfolding validate_curve
  did_jwk_from_jwk k = do
    _ ← validate_curve k
    ok (record { did = did_jwk_prefix ++ e.encode (t.jcs (jwk_to_value k)); key = k })
