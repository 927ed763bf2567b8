-- ===== src/SdJwt/Disclosure.antt =====
-- `Disclosure`, with its encoding and its digest.
use swiyu_rs.Prelude.{ℕ, ◌≡◌, List, [], ◌∷◌, Result, ok, err, ◌>>=◌, ok_or, map_err, length, All}
use swiyu_rs.Prelude.Text.{Text}
use swiyu_rs.Prelude.Bytes.{IsByte}
use swiyu_rs.Json.Interface.{Json}
use swiyu_rs.Json.Access.{as_str, as_array, string, array, json_laws}
use swiyu_rs.Vendor.Encoding.{Base64}
use swiyu_rs.Vendor.Crypto.{Sha256}

pub data DisclosureError : Type 0 where
  base64 json : Text → DisclosureError
  not_array salt_not_string name_not_string : DisclosureError
  wrong_length : (got : ℕ) → DisclosureError

pub record Disclosure (V : Type 0) : Type 0 where
  pub salt : Text
  pub name : Text
  pub value : V
  pub encoded : Text

module _ ⦃j : Json⦄ where
  open j use {Value}

  -- `<[Value; 3]>::try_from(array)`
  abbrev three_values : List Value → Result DisclosureError (Value × Value × Value)
  three_values (s ∷ n ∷ v ∷ []) = ok (s, n, v)
  three_values arr = err (wrong_length (length arr))

module _ ⦃j : Json⦄ ⦃e : Base64⦄ where
  open j use {Value}

  -- `to_vec` is serde_json's, which cannot fail here.
  unfoldable pub new_disclosure : (to_vec : Value → List ℕ) → Text → Text → Value → Disclosure Value
  new_disclosure to_vec salt name value = record {
    salt = salt;
    name = name;
    value = value;
    encoded = e.encode (to_vec (array (string salt ∷ string name ∷ value ∷ [])));
  }

  unfoldable pub disclosure_from_text :
      (from_slice : List ℕ → Result Text Value) → Text → Result DisclosureError (Disclosure Value)
  disclosure_from_text from_slice encoded = do
    bytes ← map_err base64 (e.decode encoded)
    decoded ← map_err json (from_slice bytes)
    arr ← ok_or (as_array decoded) not_array
    (s, n, value) ← three_values arr
    salt ← ok_or (as_str s) salt_not_string
    name ← ok_or (as_str n) name_not_string
    ok (record { salt = salt; name = name; value = value; encoded = encoded })

  -- A disclosure parses back from its encoding, which it keeps, if the bytes of its JSON parse back.
  pub disclosure_from_text-encoded :
      (to_vec : Value → List ℕ) (from_slice : List ℕ → Result Text Value) (salt name : Text)
      (value : Value)
      → All IsByte (to_vec (array (string salt ∷ string name ∷ value ∷ [])))
      → from_slice (to_vec (array (string salt ∷ string name ∷ value ∷ [])))
        ≡ ok (array (string salt ∷ string name ∷ value ∷ []))
      → disclosure_from_text from_slice (new_disclosure to_vec salt name value).encoded
        ≡ ok (new_disclosure to_vec salt name value)
  unfolding disclosure_from_text new_disclosure
  disclosure_from_text-encoded to_vec from_slice salt name value are_bytes parsed =
      simp (json_laws, e.decode-encode _ are_bytes, parsed)

module _ ⦃e : Base64⦄ ⦃s : Sha256⦄ where
  unfoldable pub disclosure_digest : {V : Type 0} → Disclosure V → Text
  disclosure_digest d = e.encode (s.digest d.encoded)
