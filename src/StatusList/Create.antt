-- ===== src/StatusList/Create.antt =====
-- A new status list.
use swiyu_rs.Prelude.{
  ℕ, ◌*◌, ◌/◌, ◌%◌, ◌≡◌, ◌≢◌, err, refl, ap, ◌∙◌, ◌⊎◌, inl, inr, arith, map, ok, replicate,
}
use swiyu_rs.Prelude.{length-replicate, All-replicate}
use swiyu_rs.Prelude.Bytes.{IsByte, IsU64}
use swiyu_rs.Prelude.Chunks.{chunks-replicate, map-replicate}
use swiyu_rs.StatusList.Error.{invalid_capacity}
use swiyu_rs.StatusList.Slot.{valid, from_u8}
use swiyu_rs.StatusList.Bitstring.{StatusList, new, list_len, IsValid}
use swiyu_rs.StatusList.Fields.{bits_of, pairs_of}
use swiyu_rs.StatusList.Refines.{slots}

module _ (n : ℕ) where
  zero_bits : StatusList
  zero_bits = record { bits = 1; bytes = replicate n 0 }

  zero_pairs : StatusList
  zero_pairs = record { bits = 2; bytes = replicate n 0 }

  zero_bits_lem :
      IsU64 (n * 8)
      → IsValid zero_bits
        × (list_len zero_bits ≡ n * 8)
        × (slots zero_bits ≡ replicate (n * 8) valid)
  unfolding zero_bits list_len from_u8
  zero_bits_lem fits = (
    record {
      width = inl refl;
      octets = All-replicate IsByte n 0 (omega arith);
      fits = rw (length-replicate {A = ℕ} n 0) fits;
    },
    rw (length-replicate {A = ℕ} n 0) (ground arith),
    ap (map from_u8) (chunks-replicate bits_of 8 n 0 0 refl) ∙ map-replicate from_u8 (n * 8) 0,
  )

  zero_pairs_lem :
      IsU64 (n * 4)
      → IsValid zero_pairs
        × (list_len zero_pairs ≡ n * 4)
        × (slots zero_pairs ≡ replicate (n * 4) valid)
  unfolding zero_pairs list_len from_u8
  zero_pairs_lem fits = (
    record {
      width = inr refl;
      octets = All-replicate IsByte n 0 (omega arith);
      fits = rw (length-replicate {A = ℕ} n 0) fits;
    },
    rw (length-replicate {A = ℕ} n 0) (ground arith),
    ap (map from_u8) (chunks-replicate pairs_of 4 n 0 0 refl) ∙ map-replicate from_u8 (n * 4) 0,
  )

-- A supported width and a capacity that fills whole bytes give a valid list of exactly the capacity
-- asked for, with every slot valid.
pub new-slots :
    (bits capacity : ℕ)
    → (bits ≡ 1) ⊎ (bits ≡ 2)
    → IsU64 (capacity * bits)
    → capacity * bits % 8 ≡ 0
    → (l : StatusList) × (new bits capacity ≡ ok l)
      × IsValid l
      × (list_len l ≡ capacity)
      × (slots l ≡ replicate capacity valid)
unfolding new
new-slots bits capacity (inl e) fits whole =
    let n = capacity * bits / 8 in
    let c : n * 8 ≡ capacity = omega (arith, ap (λ (b : ℕ). capacity * b) e) in
    let (valid_list, count, all_valid) = zero_bits_lem n (omega arith) in
    (
      zero_bits n,
      unfold zero_bits in ground arith,
      valid_list,
      count ∙ c,
      all_valid ∙ ap (λ (k : ℕ). replicate k valid) c,
    )
new-slots bits capacity (inr e) fits whole =
    let n = capacity * bits / 8 in
    let c : n * 4 ≡ capacity = omega (arith, ap (λ (b : ℕ). capacity * b) e) in
    let (valid_list, count, all_valid) = zero_pairs_lem n (omega arith) in
    (
      zero_pairs n,
      unfold zero_pairs in ground arith,
      valid_list,
      count ∙ c,
      all_valid ∙ ap (λ (k : ℕ). replicate k valid) c,
    )

-- At a supported width, a capacity is refused if its bits do not fit a `u64` or leave part of a byte.
pub new_refused :
    (bits capacity : ℕ)
    → (bits ≡ 1) ⊎ (bits ≡ 2)
    → (¬ IsU64 (capacity * bits)) ⊎ (capacity * bits % 8 ≢ 0)
    → new bits capacity ≡ err (invalid_capacity capacity bits)
unfolding new
new_refused bits capacity w h = ground arith
