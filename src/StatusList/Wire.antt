-- ===== src/StatusList/Wire.antt =====
-- The `status_list` object of a status-list JWT: the bitstring compressed and encoded.
use swiyu_rs.Prelude.{ℕ, ◌≡◌, ◌⊎◌, [], ◌∷◌, Option, none, some, Result, ok, ◌>>=◌}
use swiyu_rs.Prelude.{
  ◌>>◌, guard, ok_or, and_then, map_err, ltb, if◌then◌else◌, arith, Ensures, returns, Ensures-bind,
  Ensures-ok, map_err-eq-ok, All,
}
use swiyu_rs.Prelude.Text.{text}
use swiyu_rs.Prelude.Bytes.{IsByte}
use swiyu_rs.Json.Interface.{Json}
use swiyu_rs.Json.Access.{as_u64, as_object, string, u64, json_object, json_laws, as_u64-u64}
use swiyu_rs.Vendor.Encoding.{Base64, Zlib}
use swiyu_rs.StatusList.Error.{
  StatusListError, invalid_field_type, unsupported_bits, invalid_base64, decompress,
}
use swiyu_rs.StatusList.Bitstring.{StatusList, supported, IsValid}
use swiyu_rs.StatusList.Pointer.{required_str}

-- `u8::try_from(n).ok()`
abbrev pub to_byte : ℕ → Option ℕ
to_byte n = if ltb n 256 then some n else none

guard-supported :
    (bits : ℕ) {u : Unit {0}}
    → guard (supported bits) (unsupported_bits bits) ≡ ok u
    → (bits ≡ 1) ⊎ (bits ≡ 2)
guard-supported bits h = ground arith

module _ ⦃j : Json⦄ where
  open j use {Value, Map, get}

  -- `map_or(Ok(1), …)`: a missing `bits` is 1.
  abbrev bits_or_default : Option Value → Result StatusListError ℕ
  bits_or_default none = ok 1
  bits_or_default (some v) = ok_or (and_then (as_u64 v) to_byte) (invalid_field_type (text "bits"))

  module _ ⦃b : Base64⦄ ⦃z : Zlib⦄ where
    unfoldable pub list_try_from : Value → Result StatusListError StatusList
    list_try_from v = do
      obj ← ok_or (as_object v) (invalid_field_type (text "status_list"))
      bits ← bits_or_default (get obj (text "bits"))
      guard (supported bits) (unsupported_bits bits)
      lst ← required_str obj (text "lst")
      compressed ← map_err (λ _. invalid_base64) (b.decode lst)
      bytes ← map_err decompress (z.decompress compressed)
      ok (record { bits = bits; bytes = bytes })

    unfoldable pub list_to_value : StatusList → Value
    list_to_value l =
        json_object
          ((text "bits", u64 l.bits) ∷ (text "lst", string (b.encode (z.compress l.bytes))) ∷ [])

    -- Parsing a valid list that was written gives it back.
    pub list_try_from-to_value :
        (l : StatusList) → IsValid l → list_try_from (list_to_value l) ≡ ok l
    unfolding list_try_from list_to_value
    list_try_from-to_value l v =
        simp
          (
            json_laws,
            as_u64-u64 l.bits (ground arith),
            b.decode-encode (z.compress l.bytes) (z.compress-IsByte l.bytes),
            z.decompress-compress l.bytes v.octets,
          )
          (ground arith)

    list_try_from-Ensures :
        (v : Value)
        → Ensures (λ l. ((l.bits ≡ 1) ⊎ (l.bits ≡ 2)) × All IsByte l.bytes) (list_try_from v)
    unfolding list_try_from
    list_try_from-Ensures v = Ensures-bind (ok_or (as_object v) _) _ λ obj _.
        Ensures-bind (bits_or_default (get obj (text "bits"))) _ λ bits _.
          Ensures-bind (guard (supported bits) (unsupported_bits bits)) _ λ _ width.
            Ensures-bind (required_str obj (text "lst")) _ λ lst _.
              Ensures-bind (map_err (λ _. invalid_base64) (b.decode lst)) _ λ packed _.
                Ensures-bind (map_err decompress (z.decompress packed)) _ λ bytes unpacked.
                  returns {a = record { bits = bits; bytes = bytes }} (
                    guard-supported bits width,
                    z.decompress-IsByte packed bytes (map_err-eq-ok decompress _ unpacked),
                  )

    -- Whatever is parsed has width 1 or 2 and holds bytes.
    pub list_try_from-octets :
        (v : Value) (l : StatusList)
        → list_try_from v ≡ ok l
        → ((l.bits ≡ 1) ⊎ (l.bits ≡ 2)) × All IsByte l.bytes
    list_try_from-octets v l h = Ensures-ok (list_try_from-Ensures v) h
