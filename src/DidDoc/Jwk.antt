-- ===== src/DidDoc/Jwk.antt =====
-- The JSON Web Keys of swiyu-core/src/diddoc/public_keys.rs, with their JSON.
use swiyu_rs.Prelude.{
  ℕ, ◌≡◌, refl, Option, none, some, List, ◌++◌, Result, ok, err, ◌>>=◌, ok_or, map_ok,
  if◌then◌else◌,
}
use swiyu_rs.Prelude.Text.{Text, text, text_eq}
use mathlib.Core.Option
use swiyu_rs.Json.Interface.{Json}
use swiyu_rs.Json.Access.{as_str, as_object, string, object, insert_some, json_laws, as_str-string}
use swiyu_rs.Vendor.Encoding.{Base64}
use swiyu_rs.DidDoc.Error.{DidDocError, invalid_field_type, invalid_format}
use swiyu_rs.DidDoc.Fields.{
  required_string, optional_string, optional_string_array, strings, doc_field_laws,
}

pub data KeyUse : Type 0 where
  sig enc : KeyUse

unfoldable pub key_use_from_text : Text → Result DidDocError KeyUse
key_use_from_text s =
    if text_eq s (text "sig")
    then ok sig
    else if text_eq s (text "enc")
    then ok enc
    else err (invalid_format (text "unknown key use '" ++ s ++ text "'; expected 'sig' or 'enc'"))

unfoldable pub key_use_text : KeyUse → Text
key_use_text sig = text "sig"
key_use_text enc = text "enc"

pub record EcKey : Type 0 where
  pub crv : Text
  pub x : Text
  pub y : Text
  pub use_ : Option KeyUse
  pub key_ops : Option (List Text)
  pub alg : Option Text
  pub kid : Option Text

pub record OkpKey : Type 0 where
  pub crv : Text
  pub x : Text
  pub use_ : Option KeyUse
  pub key_ops : Option (List Text)
  pub alg : Option Text
  pub kid : Option Text

pub record RsaKey : Type 0 where
  pub n : Text
  pub e : Text
  pub use_ : Option KeyUse
  pub key_ops : Option (List Text)
  pub alg : Option Text
  pub kid : Option Text

pub data PublicKeyJwk : Type 0 where
  ec : EcKey → PublicKeyJwk
  okp : OkpKey → PublicKeyJwk
  rsa : RsaKey → PublicKeyJwk

unfoldable pub ec_new : Text → Text → Text → EcKey
ec_new crv x y = record {
  crv = crv;
  x = x;
  y = y;
  use_ = none;
  key_ops = none;
  alg = none;
  kid = none;
}

unfoldable pub okp_new : Text → Text → OkpKey
okp_new crv x = record { crv = crv; x = x; use_ = none; key_ops = none; alg = none; kid = none }

unfoldable pub rsa_new : Text → Text → RsaKey
rsa_new n e = record { n = n; e = e; use_ = none; key_ops = none; alg = none; kid = none }

-- `ECKey::with_kid`
unfoldable pub with_kid : EcKey → Text → EcKey
with_kid key kid = record key { kid = some kid }

module _ ⦃b : Base64⦄ where
  unfoldable pub from_p256_coordinates : List ℕ → List ℕ → EcKey
  unfolding ec_new
  from_p256_coordinates x y = ec_new (text "P-256") (b.encode x) (b.encode y)

  -- `OKPKey::from_ed25519_bytes`
  unfoldable pub okp_from_ed25519_bytes : List ℕ → OkpKey
  unfolding okp_new
  okp_from_ed25519_bytes bytes = okp_new (text "Ed25519") (b.encode bytes)

unfoldable pub kty : PublicKeyJwk → Text
kty (ec k) = text "EC"
kty (okp k) = text "OKP"
kty (rsa k) = text "RSA"

-- `PublicKeyJWK::crv`
unfoldable pub curve : PublicKeyJwk → Option Text
curve (ec k) = some k.crv
curve (okp k) = some k.crv
curve (rsa k) = none

module _ ⦃j : Json⦄ where
  open j use {Value, Map, get, insert, empty}

  unfoldable pub key_use_of : Option Value → Result DidDocError (Option KeyUse)
  unfolding key_use_from_text
  key_use_of none = ok none
  key_use_of (some v) = do
    s ← ok_or (as_str v) (invalid_field_type (text "'use' must be a string"))
    u ← key_use_from_text s
    ok (some u)

  abbrev pub parse_key_use : Map → Result DidDocError (Option KeyUse)
  parse_key_use obj = key_use_of (get obj (text "use"))

  unfoldable pub insert_jwk_optional_fields :
      Map → Option KeyUse → Option (List Text) → Option Text → Option Text → Map
  unfolding key_use_text
  insert_jwk_optional_fields map use_ key_ops alg kid =
      insert_some
        (insert_some
          (insert_some
            (insert_some map (text "use") (Option.map (λ u. string (key_use_text u)) use_))
            (text "key_ops") (Option.map strings key_ops))
          (text "alg") (Option.map string alg))
        (text "kid") (Option.map string kid)

  unfoldable pub ec_try_from : Map → Result DidDocError EcKey
  ec_try_from obj = do
    crv ← required_string obj (text "crv")
    x ← required_string obj (text "x")
    y ← required_string obj (text "y")
    use_ ← parse_key_use obj
    key_ops ← optional_string_array obj (text "key_ops")
    alg ← optional_string obj (text "alg")
    kid ← optional_string obj (text "kid")
    ok (record { crv = crv; x = x; y = y; use_ = use_; key_ops = key_ops; alg = alg; kid = kid })

  unfoldable pub okp_try_from : Map → Result DidDocError OkpKey
  okp_try_from obj = do
    crv ← required_string obj (text "crv")
    x ← required_string obj (text "x")
    use_ ← parse_key_use obj
    key_ops ← optional_string_array obj (text "key_ops")
    alg ← optional_string obj (text "alg")
    kid ← optional_string obj (text "kid")
    ok (record { crv = crv; x = x; use_ = use_; key_ops = key_ops; alg = alg; kid = kid })

  unfoldable pub rsa_try_from : Map → Result DidDocError RsaKey
  rsa_try_from obj = do
    n ← required_string obj (text "n")
    e ← required_string obj (text "e")
    use_ ← parse_key_use obj
    key_ops ← optional_string_array obj (text "key_ops")
    alg ← optional_string obj (text "alg")
    kid ← optional_string obj (text "kid")
    ok (record { n = n; e = e; use_ = use_; key_ops = key_ops; alg = alg; kid = kid })

  -- The members of `Value::from(key)`
  unfoldable pub ec_members : EcKey → Map
  unfolding insert_jwk_optional_fields
  ec_members k =
      insert_jwk_optional_fields
        (insert
          (insert
            (insert (insert empty (text "kty") (string (text "EC"))) (text "crv") (string k.crv))
            (text "x") (string k.x))
          (text "y") (string k.y))
        k.use_ k.key_ops k.alg k.kid

  unfoldable pub okp_members : OkpKey → Map
  unfolding insert_jwk_optional_fields
  okp_members k =
      insert_jwk_optional_fields
        (insert
          (insert (insert empty (text "kty") (string (text "OKP"))) (text "crv") (string k.crv))
          (text "x") (string k.x))
        k.use_ k.key_ops k.alg k.kid

  unfoldable pub rsa_members : RsaKey → Map
  unfolding insert_jwk_optional_fields
  rsa_members k =
      insert_jwk_optional_fields
        (insert (insert (insert empty (text "kty") (string (text "RSA"))) (text "n") (string k.n))
          (text "e") (string k.e))
        k.use_ k.key_ops k.alg k.kid

  unfoldable pub jwk_members : PublicKeyJwk → Map
  unfolding ec_members okp_members rsa_members
  jwk_members (ec k) = ec_members k
  jwk_members (okp k) = okp_members k
  jwk_members (rsa k) = rsa_members k

  unfoldable pub jwk_to_value : PublicKeyJwk → Value
  unfolding jwk_members
  jwk_to_value k = object (jwk_members k)

  unfoldable pub jwk_of_kty : Text → Map → Result DidDocError PublicKeyJwk
  unfolding ec_try_from okp_try_from rsa_try_from
  jwk_of_kty kty obj =
      if text_eq kty (text "EC")
      then map_ok ec (ec_try_from obj)
      else if text_eq kty (text "OKP")
      then map_ok okp (okp_try_from obj)
      else if text_eq kty (text "RSA")
      then map_ok rsa (rsa_try_from obj)
      else err (
          invalid_format
            (text "unsupported JWK key type '" ++ kty ++ text "'; expected 'EC', 'OKP', or 'RSA'"))

  unfoldable pub jwk_try_from : Value → Result DidDocError PublicKeyJwk
  unfolding jwk_of_kty
  jwk_try_from v = do
    obj ← ok_or (as_object v) (invalid_field_type (text "publicKeyJwk must be a JSON object"))
    kty ← required_string obj (text "kty")
    jwk_of_kty kty obj

  key_use_of-map :
      (u : Option KeyUse) → key_use_of (Option.map (λ u. string (key_use_text u)) u) ≡ ok u
  unfolding key_use_of key_use_text
  key_use_of-map none = refl
  key_use_of-map (some sig) = simp as_str-string
  key_use_of-map (some enc) = simp as_str-string

  -- A JWK parses back from its JSON.
  pub jwk_try_from-to_value : (k : PublicKeyJwk) → jwk_try_from (jwk_to_value k) ≡ ok k
  unfolding jwk_try_from jwk_to_value required_string insert_jwk_optional_fields
  jwk_try_from-to_value (ec k) = simp (json_laws, doc_field_laws, key_use_of-map)
  jwk_try_from-to_value (okp k) = simp (json_laws, doc_field_laws, key_use_of-map)
  jwk_try_from-to_value (rsa k) = simp (json_laws, doc_field_laws, key_use_of-map)
