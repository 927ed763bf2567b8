-- ===== src/StatusList/Refines.antt =====
-- A status list as the list of its slot values: what reading, writing and creation come to there.
use swiyu_rs.Prelude.{ℕ, ◌+◌, ◌*◌, ◌/◌, ◌%◌, ◌^◌, ◌<◌, ◌≡◌, refl, ap, ◌∙◌, ◌⊎◌, inl, inr}
use swiyu_rs.Prelude.{some, List, map, arith, ◌==◌, if◌then◌else◌}
use swiyu_rs.Prelude.{Result, ok, err, ok_or, and_then, map_ok, ltb, length, get_elem?, set}
use swiyu_rs.Prelude.{
  All, Option-cases, get_elem?-lt, get_elem?-none, All-get_elem?, All-set, length-set,
}
use swiyu_rs.Prelude.Bytes.{IsByte}
use swiyu_rs.Prelude.Chunks.{
  chunks, length-chunks, get_elem?-chunks, set-chunks, get_elem?-map, map-set,
}
use swiyu_rs.Prelude.Chunks.{length-map}
use swiyu_rs.StatusList.Error.{StatusListError, value_out_of_range, idx_out_of_range}
use swiyu_rs.StatusList.Slot.{StatusValue, from_raw, from_u8, to_u8, to_raw}
use swiyu_rs.StatusList.Bitstring.{
  StatusList, list_len, value_at, set_at, IsValid, read_field, write_field,
}
use swiyu_rs.StatusList.Fields.{
  bits_of, pairs_of, bits_of-write, pairs_of-write, read_bit, read_pair,
}
use swiyu_rs.StatusList.Fields.{write_bit-IsByte, write_pair-IsByte, read_bit-lt}

-- The numbers in the slots, in the order of their indices.
abbrev pub raw_slots : StatusList → List ℕ
raw_slots l = if l.bits == 1 then chunks bits_of l.bytes else chunks pairs_of l.bytes

-- The abstract view: the value of each slot.
abbrev pub slots : StatusList → List StatusValue
slots l = map from_u8 (raw_slots l)

from_raw-from_u8 : (raw bits : ℕ) → (bits ≡ 2) ⊎ (raw < 2) → from_raw raw bits ≡ from_u8 raw
unfolding from_raw from_u8
from_raw-from_u8 raw bits h = ground arith

get_elem?-bits :
    (bs : List ℕ) (i : ℕ)
    → All IsByte bs
    → get_elem? (chunks bits_of bs) i
      ≡ and_then (get_elem? bs (i / 8)) (λ b. some (read_field 1 b (i % 8)))
get_elem?-bits bs i h =
    let at : i ≡ i / 8 * 8 + i % 8 = omega arith in
    ap (get_elem? (chunks bits_of bs)) at
    ∙ get_elem?-chunks bits_of 8 bs (i / 8) (i % 8) (λ a. refl) (omega arith)
    ∙ elim (Option-cases (get_elem? bs (i / 8))) [
      | inl e ↦ rw e
      | inr (b, e) ↦ rw e (read_bit b (i % 8) (All-get_elem? IsByte bs (i / 8) h e) (omega arith))
    ]

get_elem?-pairs :
    (bs : List ℕ) (i : ℕ)
    → All IsByte bs
    → get_elem? (chunks pairs_of bs) i
      ≡ and_then (get_elem? bs (i / 4)) (λ b. some (read_field 0b11 b (i % 4 * 2)))
get_elem?-pairs bs i h =
    let at : i ≡ i / 4 * 4 + i % 4 = omega arith in
    ap (get_elem? (chunks pairs_of bs)) at
    ∙ get_elem?-chunks pairs_of 4 bs (i / 4) (i % 4) (λ a. refl) (omega arith)
    ∙ elim (Option-cases (get_elem? bs (i / 4))) [
      | inl e ↦ rw e
      | inr (b, e) ↦ rw e (read_pair b (i % 4) (All-get_elem? IsByte bs (i / 4) h e) (omega arith))
    ]

module _ (l : StatusList) (v : IsValid l) where
  -- The slot count that `list_len` computes is the number of slots.
  pub list_len-slots : list_len l ≡ length (slots l)
  unfolding list_len
  list_len-slots = ground (
    arith,
    length-map from_u8 (raw_slots l),
    length-chunks bits_of 8 l.bytes (λ a. refl),
    length-chunks pairs_of 4 l.bytes (λ a. refl),
  )

  -- Reading answers the slot's value below the slot count, and the out-of-range error at any other index.
  pub value_at-slots :
      (i : ℕ) → value_at l i ≡ ok_or (get_elem? (slots l) i) (idx_out_of_range i (length (slots l)))
  unfolding value_at
  value_at-slots i =
      rw (← list_len-slots, get_elem?-map from_u8 (raw_slots l) i)
        (elim v.width [
          | inl e ↦ elim (Option-cases (get_elem? l.bytes (i / 8))) [
            | inl out ↦ ground (arith, get_elem?-bits l.bytes i v.octets)
            | inr (b, here) ↦ ground (
              arith,
              get_elem?-bits l.bytes i v.octets,
              from_raw-from_u8 (read_field 1 b (i % 8)) 1,
              read_bit-lt b (i % 8) (All-get_elem? IsByte l.bytes (i / 8) v.octets here),
            )
          ]
          | inr e ↦ elim (Option-cases (get_elem? l.bytes (i / 4))) [
            | inl out ↦ ground (arith, get_elem?-pairs l.bytes i v.octets)
            | inr (b, here) ↦ ground (
              arith,
              get_elem?-pairs l.bytes i v.octets,
              from_raw-from_u8 (read_field 0b11 b (i % 4 * 2)) 2,
            )
          ]
        ])

-- The specification of a write, over the list of values: the value must fit the width and the index
-- must be a slot, and then that one slot changes.
abbrev pub set_slot :
    ℕ → List StatusValue → ℕ → StatusValue → Result StatusListError (List StatusValue)
set_slot bits values i value =
    if ltb (to_u8 value) (2 ^ bits)
    then (if ltb i (length values)
        then ok (set values i (from_u8 (to_u8 value)))
        else err (idx_out_of_range i (length values)))
    else err (value_out_of_range (to_u8 value) bits)

chunks-set_bit :
    (bs : List ℕ) (i b raw : ℕ)
    → All IsByte bs
    → get_elem? bs (i / 8) ≡ some b
    → raw < 2
    → chunks bits_of (set bs (i / 8) (write_field 1 b (i % 8) raw)) ≡ set (chunks bits_of bs) i raw
chunks-set_bit bs i b raw h e lt =
    set-chunks bits_of 8 bs (i / 8) (i % 8) b (write_field 1 b (i % 8) raw) raw (λ a. refl)
      (omega arith) e
      (bits_of-write b (i % 8) raw (All-get_elem? IsByte bs (i / 8) h e) (omega arith) lt)
    ∙ ap (λ (k : ℕ). set (chunks bits_of bs) k raw) (omega arith)

chunks-set_pair :
    (bs : List ℕ) (i b raw : ℕ)
    → All IsByte bs
    → get_elem? bs (i / 4) ≡ some b
    → raw < 4
    → chunks pairs_of (set bs (i / 4) (write_field 0b11 b (i % 4 * 2) raw))
      ≡ set (chunks pairs_of bs) i raw
chunks-set_pair bs i b raw h e lt =
    set-chunks pairs_of 4 bs (i / 4) (i % 4) b (write_field 0b11 b (i % 4 * 2) raw) raw (λ a. refl)
      (omega arith) e
      (pairs_of-write b (i % 4) raw (All-get_elem? IsByte bs (i / 4) h e) (omega arith) lt)
    ∙ ap (λ (k : ℕ). set (chunks pairs_of bs) k raw) (omega arith)

list_len-bits : (l : StatusList) → IsValid l → l.bits ≡ 1 → list_len l ≡ length l.bytes * 8
unfolding list_len
list_len-bits l v e = ground arith

list_len-pairs : (l : StatusList) → IsValid l → l.bits ≡ 2 → list_len l ≡ length l.bytes * 4
unfolding list_len
list_len-pairs l v e = ground arith

module _ (l : StatusList) (v : IsValid l) (i : ℕ) (value : StatusValue) where
  -- A write does to the slots what the specification says, on every branch.
  pub set_at-slots : map_ok slots (set_at l i value) ≡ set_slot l.bits (slots l) i value
  unfolding set_at to_raw
  set_at-slots = rw (← list_len-slots l v) (elim v.width [
    | inl e ↦ elim (Option-cases (get_elem? l.bytes (i / 8))) [
      | inl out ↦
          ground (arith, ap (λ k. 2 ^ k) e, list_len-bits l v e, get_elem?-none l.bytes (i / 8) out)
      | inr (b, here) ↦ ground (
        arith,
        ap (λ k. 2 ^ k) e,
        list_len-bits l v e,
        get_elem?-lt l.bytes (i / 8) here,
        chunks-set_bit l.bytes i b (to_u8 value) v.octets here,
        map-set from_u8 (chunks bits_of l.bytes) i (to_u8 value),
      )
    ]
    | inr e ↦ elim (Option-cases (get_elem? l.bytes (i / 4))) [
      | inl out ↦
          ground
            (arith, ap (λ k. 2 ^ k) e, list_len-pairs l v e, get_elem?-none l.bytes (i / 4) out)
      | inr (b, here) ↦ ground (
        arith,
        ap (λ k. 2 ^ k) e,
        list_len-pairs l v e,
        get_elem?-lt l.bytes (i / 4) here,
        chunks-set_pair l.bytes i b (to_u8 value) v.octets here,
        map-set from_u8 (chunks pairs_of l.bytes) i (to_u8 value),
      )
    ]
  ])

  -- A successful write replaces one byte by a byte.
  set_at-eq-ok :
      {l' : StatusList}
      → set_at l i value ≡ ok l'
      → (q b' : ℕ) × (l' ≡ record { bits = l.bits; bytes = set l.bytes q b' }) × IsByte b'
  unfolding set_at to_raw
  set_at-eq-ok h = elim v.width [
    | inl e ↦ elim (Option-cases (get_elem? l.bytes (i / 8))) [
      | inl out ↦ absurd (ground arith)
      | inr (b, here) ↦ (
        i / 8,
        write_field 1 b (i % 8) (to_u8 value),
        ground arith,
        write_bit-IsByte b (i % 8) (to_u8 value)
            (All-get_elem? IsByte l.bytes (i / 8) v.octets here) (omega arith) (ground arith),
      )
    ]
    | inr e ↦ elim (Option-cases (get_elem? l.bytes (i / 4))) [
      | inl out ↦ absurd (ground arith)
      | inr (b, here) ↦ (
        i / 4,
        write_field 0b11 b (i % 4 * 2) (to_u8 value),
        ground arith,
        write_pair-IsByte b (i % 4) (to_u8 value)
            (All-get_elem? IsByte l.bytes (i / 4) v.octets here) (omega arith) (ground arith),
      )
    ]
  ]

-- A successful write keeps the list valid, and keeps its width and its slot count.
pub set_at-IsValid :
    (l l' : StatusList) (i : ℕ) (value : StatusValue)
    → IsValid l
    → set_at l i value ≡ ok l'
    → IsValid l' × (l'.bits ≡ l.bits) × (list_len l' ≡ list_len l)
unfolding list_len
set_at-IsValid l l' i value v h =
    let (q, b', e, byte) = set_at-eq-ok l v i value h in
    let same : length (set l.bytes q b') ≡ length l.bytes = length-set l.bytes q b' in
    rw e (
      record {
        width = v.width;
        octets = All-set IsByte l.bytes q b' byte v.octets;
        fits = rw same v.fits;
      },
      refl,
      rw same,
    )
