-- ===== src/StatusList/Fields.antt =====
-- The fields of one byte, as numbers from the lowest bits up, against the masks and shifts.
use swiyu_rs.Prelude.{ℕ, ◌*◌, ◌/◌, ◌%◌, ◌<◌, ◌≡◌, refl, Bool, true, List, [], ◌∷◌, arith}
use swiyu_rs.Prelude.{◌==◌, ==_iff, ltb, get_elem?, set, Option, none, some, false, ap}
use swiyu_rs.Prelude.Text.{text_eq, text_eq_sound}
use swiyu_rs.Prelude.Bytes.{IsByte, every_below, every_below_sound}
use swiyu_rs.StatusList.Bitstring.{read_field, write_field}

-- Eight slots of one bit, and four of two bits.
abbrev pub bits_of : ℕ → List ℕ
bits_of b =
    b % 2
    ∷ b / 2 % 2
    ∷ b / 4 % 2
    ∷ b / 8 % 2
    ∷ b / 16 % 2
    ∷ b / 32 % 2
    ∷ b / 64 % 2
    ∷ b / 128 % 2
    ∷ []

abbrev pub pairs_of : ℕ → List ℕ
pairs_of b = b % 4 ∷ b / 4 % 4 ∷ b / 16 % 4 ∷ b / 64 % 4 ∷ []

write_bit_table :
    every_below
      (λ b.
        every_below
          (λ k. every_below (λ r. text_eq (bits_of (write_field 1 b k r)) (set (bits_of b) k r)) 2)
          8)
      256
    ≡ true
unfolding every_below write_field
write_bit_table = refl

write_pair_table :
    every_below
      (λ b.
        every_below
          (λ k.
            every_below
              (λ r. text_eq (pairs_of (write_field 0b11 b (k * 2) r)) (set (pairs_of b) k r))
              4)
          4)
      256
    ≡ true
unfolding every_below write_field
write_pair_table = refl

-- A table over bytes, shifts and values, read at one entry.
table_at :
    (test : ℕ → ℕ → ℕ → Bool) (n m b k r : ℕ)
    → every_below (λ b. every_below (λ k. every_below (test b k) m) n) 256 ≡ true
    → b < 256
    → k < n
    → r < m
    → test b k r ≡ true
table_at test n m b k r h hb hk hr =
    every_below_sound (test b k) m
      (every_below_sound (λ k. every_below (test b k) m) n
        (every_below_sound (λ b. every_below (λ k. every_below (test b k) m) n) 256 h b hb) k hk)
      r hr

pub bits_of-write :
    (b k r : ℕ) → b < 256 → k < 8 → r < 2 → bits_of (write_field 1 b k r) ≡ set (bits_of b) k r
bits_of-write b k r hb hk hr = text_eq_sound _ _ (
    table_at (λ b k r. text_eq (bits_of (write_field 1 b k r)) (set (bits_of b) k r)) 8 2 b k r
      write_bit_table hb hk hr)

pub pairs_of-write :
    (b k r : ℕ)
    → b < 256
    → k < 4
    → r < 4
    → pairs_of (write_field 0b11 b (k * 2) r) ≡ set (pairs_of b) k r
pairs_of-write b k r hb hk hr = text_eq_sound _ _ (
    table_at (λ b k r. text_eq (pairs_of (write_field 0b11 b (k * 2) r)) (set (pairs_of b) k r)) 4 4
      b k r write_pair_table hb hk hr)

write_bit_range :
    every_below (λ b. every_below (λ k. every_below (λ r. ltb (write_field 1 b k r) 256) 2) 8) 256
    ≡ true
unfolding every_below write_field
write_bit_range = refl

write_pair_range :
    every_below
      (λ b. every_below (λ k. every_below (λ r. ltb (write_field 0b11 b (k * 2) r) 256) 4) 4)
      256
    ≡ true
unfolding every_below write_field
write_pair_range = refl

lt_of_ltb : (a b : ℕ) → ltb a b ≡ true → a < b
lt_of_ltb a b h = ground arith

pub write_bit-IsByte : (b k r : ℕ) → b < 256 → k < 8 → r < 2 → IsByte (write_field 1 b k r)
write_bit-IsByte b k r hb hk hr =
    lt_of_ltb _ _
      (table_at (λ b k r. ltb (write_field 1 b k r) 256) 8 2 b k r write_bit_range hb hk hr)

pub write_pair-IsByte :
    (b k r : ℕ) → b < 256 → k < 4 → r < 4 → IsByte (write_field 0b11 b (k * 2) r)
write_pair-IsByte b k r hb hk hr =
    lt_of_ltb _ _ (
      table_at (λ b k r. ltb (write_field 0b11 b (k * 2) r) 256) 4 4 b k r write_pair_range hb hk
        hr)

-- `o` holds `n`.
abbrev holds : Option ℕ → ℕ → Bool
holds none n = false
holds (some m) n = m == n

holds_sound : (o : Option ℕ) (n : ℕ) → holds o n ≡ true → o ≡ some n
holds_sound none n h = cc
holds_sound (some m) n h = ap some ((==_iff m n).0 h)

read_bit_table :
    every_below (λ b. every_below (λ k. holds (get_elem? (bits_of b) k) (read_field 1 b k)) 8) 256
    ≡ true
unfolding every_below read_field
read_bit_table = refl

read_pair_table :
    every_below
      (λ b. every_below (λ k. holds (get_elem? (pairs_of b) k) (read_field 0b11 b (k * 2))) 4)
      256
    ≡ true
unfolding every_below read_field
read_pair_table = refl

pub read_bit : (b k : ℕ) → b < 256 → k < 8 → get_elem? (bits_of b) k ≡ some (read_field 1 b k)
read_bit b k hb hk =
    holds_sound _ _ (every_below_sound _ 8 (every_below_sound _ 256 read_bit_table b hb) k hk)

pub read_pair :
    (b k : ℕ) → b < 256 → k < 4 → get_elem? (pairs_of b) k ≡ some (read_field 0b11 b (k * 2))
read_pair b k hb hk =
    holds_sound _ _ (every_below_sound _ 4 (every_below_sound _ 256 read_pair_table b hb) k hk)

read_bit_range : every_below (λ b. every_below (λ k. ltb (read_field 1 b k) 2) 8) 256 ≡ true
unfolding every_below read_field
read_bit_range = refl

pub read_bit-lt : (b k : ℕ) → b < 256 → k < 8 → read_field 1 b k < 2
read_bit-lt b k hb hk =
    lt_of_ltb _ _ (every_below_sound _ 8 (every_below_sound _ 256 read_bit_range b hb) k hk)
