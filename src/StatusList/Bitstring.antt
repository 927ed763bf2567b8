-- ===== src/StatusList/Bitstring.antt =====
-- `StatusList`: the decompressed bitstring and its slot width, read and written in place.
use swiyu_rs.Prelude.{ℕ, ◌*◌, ◌/◌, ◌%◌, ◌^◌, ◌≡◌, ◌⊎◌, Bool, List}
use swiyu_rs.Prelude.{bit_and, bit_or, ltb, ◌==◌, ◌||◌, if◌then◌else◌}
use swiyu_rs.Prelude.{
  Result, ok, err, ◌>>=◌, ◌>>◌, guard, ok_or, length, get_elem?, set, replicate, All,
}
use swiyu_rs.Prelude.Bytes.{IsByte, IsU64, shr8, shl8, not8}
use swiyu_rs.StatusList.Error.{
  StatusListError, unsupported_bits, invalid_capacity, idx_out_of_range,
}
use swiyu_rs.StatusList.Slot.{StatusValue, from_raw, to_raw}

pub record StatusList : Type 0 where
  pub bits : ℕ
  pub bytes : List ℕ

-- `bits == 1 || bits == 2`
abbrev pub supported : ℕ → Bool
supported bits = bits == 1 || bits == 2

unfoldable pub new : ℕ → ℕ → Result StatusListError StatusList
new bits capacity = do
  guard (supported bits) (unsupported_bits bits)
  let total_bits = capacity * bits
  guard (ltb total_bits (2 ^ 64)) (invalid_capacity capacity bits)
  guard (total_bits % 8 == 0) (invalid_capacity capacity bits)
  ok (record { bits = bits; bytes = replicate (total_bits / 8) 0 })

-- `StatusList::from_raw`
unfoldable pub wrap : ℕ → List ℕ → Result StatusListError StatusList
wrap bits bytes = do
  guard (supported bits) (unsupported_bits bits)
  ok (record { bits = bits; bytes = bytes })

-- The product is one of `u64`s.
unfoldable pub list_len : StatusList → ℕ
list_len l = length l.bytes * (8 / l.bits) % 2 ^ 64

unfoldable pub is_empty : StatusList → Bool
is_empty l = length l.bytes == 0

-- `(byte >> shift) & mask`
unfoldable pub read_field : ℕ → ℕ → ℕ → ℕ
read_field mask byte shift = bit_and (shr8 byte shift) mask

-- `(*byte & !(mask << shift)) | ((raw & mask) << shift)`
unfoldable pub write_field : ℕ → ℕ → ℕ → ℕ → ℕ
write_field mask byte shift raw =
    bit_or (bit_and byte (not8 (shl8 mask shift))) (shl8 (bit_and raw mask) shift)

unfoldable pub value_at : StatusList → ℕ → Result StatusListError StatusValue
unfolding list_len read_field
value_at l idx = do
  raw ←
      if l.bits == 1
      then (do
        byte ← ok_or (get_elem? l.bytes (idx / 8)) (idx_out_of_range idx (list_len l))
        ok (read_field 1 byte (idx % 8)))
      else if l.bits == 2
      then (do
        byte ← ok_or (get_elem? l.bytes (idx / 4)) (idx_out_of_range idx (list_len l))
        ok (read_field 0b11 byte (idx % 4 * 2)))
      else err (unsupported_bits l.bits)
  ok (from_raw raw l.bits)

unfoldable pub set_at : StatusList → ℕ → StatusValue → Result StatusListError StatusList
unfolding list_len write_field
set_at l idx value = do
  raw ← to_raw value l.bits
  let slots = list_len l
  if l.bits == 1
      then (do
        byte ← ok_or (get_elem? l.bytes (idx / 8)) (idx_out_of_range idx slots)
        ok (record l { bytes = set l.bytes (idx / 8) (write_field 1 byte (idx % 8) raw) }))
      else if l.bits == 2
      then (do
        byte ← ok_or (get_elem? l.bytes (idx / 4)) (idx_out_of_range idx slots)
        ok (record l { bytes = set l.bytes (idx / 4) (write_field 0b11 byte (idx % 4 * 2) raw) }))
      else err (unsupported_bits l.bits)

-- What the type keeps: a supported width, bytes, and a length whose slot count is a `u64`.
pub record IsValid (l : StatusList) : Type 0 where
  pub width : (l.bits ≡ 1) ⊎ (l.bits ≡ 2)
  pub octets : All IsByte l.bytes
  pub fits : IsU64 (length l.bytes * (8 / l.bits))
