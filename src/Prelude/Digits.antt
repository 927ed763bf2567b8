-- ===== src/Prelude/Digits.antt =====
-- Reading decimal texts, as `str::parse` of an unsigned integer does of digits.
use swiyu_rs.Prelude.Tests.{ltb, leb, Bool-cases}
use swiyu_rs.Prelude.Text.{Text}
use swiyu_rs.Prelude.Lists.{length, length-append, replicate, length-replicate}
use swiyu_rs.Prelude.Decimal.{digits_of, decimal}
use Prim.Native.Nat.{ℕ, zero, suc, ◌+◌, ◌-◌, ◌*◌, ◌/◌, ◌%◌, ◌<◌, ◌≤◌, ◌^◌}
use mathlib.Core.Bool.{Bool, true, ◌&&◌}
use mathlib.Core.Logic.{◌⊎◌, inl, inr}
use mathlib.Core.Path.{◌≡◌, refl}
use mathlib.Core.List.{[], ◌∷◌, ◌++◌}
use native.Mathlib.Omega.{arith}

-- `c.is_ascii_digit()`
abbrev pub is_digit : ℕ → Bool
is_digit c = leb b'0' c && leb c b'9'

abbrev pub all_digits : Text → Bool
all_digits [] = true
all_digits (c ∷ s) = is_digit c && all_digits s

-- The number of digits behind one that is read already.
abbrev pub number_from : ℕ → Text → ℕ
number_from n [] = n
number_from n (c ∷ s) = number_from (n * 10 + (c - b'0')) s

pub number_from-append :
    (n : ℕ) (s t : Text) → number_from n (s ++ t) ≡ number_from (number_from n s) t
number_from-append n [] t = refl
number_from-append n (c ∷ s) t = number_from-append (n * 10 + (c - b'0')) s t

all_digits-append :
    (s t : Text) → all_digits s ≡ true → all_digits t ≡ true → all_digits (s ++ t) ≡ true
all_digits-append [] t h g = g
all_digits-append (c ∷ s) t h g = ground (arith, all_digits-append s t)

-- The two cases of the digits of a number.
digits_of-small : (fuel n : ℕ) → n < 10 → digits_of (suc fuel) n ≡ (n + b'0') ∷ []
unfolding digits_of
digits_of-small fuel n h = ground arith

digits_of-big :
    (fuel n : ℕ) → 10 ≤ n → digits_of (suc fuel) n ≡ digits_of fuel (n / 10) ++ (n % 10 + b'0') ∷ []
unfolding digits_of
digits_of-big fuel n h = ground arith

-- A number is below ten, or not.
small_or_big : (n : ℕ) → (n < 10) ⊎ (10 ≤ n)
small_or_big n = elim (Bool-cases (ltb n 10)) [
  | inl e ↦ inl (ground arith)
  | inr e ↦ inr (ground arith)
]

number_from-digits : (fuel n : ℕ) → n < fuel → number_from 0 (digits_of fuel n) ≡ n
number_from-digits zero n h = absurd (omega arith)
number_from-digits (suc fuel) n h = elim (small_or_big n) [
  | inl small ↦ rw (digits_of-small fuel n small) (omega arith)
  | inr big ↦
      rw
        (
          digits_of-big fuel n big,
          number_from-append 0 (digits_of fuel (n / 10)) ((n % 10 + b'0') ∷ []),
          number_from-digits fuel (n / 10) (omega arith),
        )
        (omega arith)
]

all_digits-digits : (fuel n : ℕ) → n < fuel → all_digits (digits_of fuel n) ≡ true
all_digits-digits zero n h = absurd (omega arith)
all_digits-digits (suc fuel) n h = elim (small_or_big n) [
  | inl small ↦ rw (digits_of-small fuel n small) (ground arith)
  | inr big ↦ rw (digits_of-big fuel n big) (
      all_digits-append (digits_of fuel (n / 10)) _ (all_digits-digits fuel (n / 10) (omega arith))
        (ground arith))
]

length-digits_le : (fuel n k : ℕ) → n < fuel → n < 10 ^ suc k → length (digits_of fuel n) ≤ suc k
length-digits_le zero n k h g = absurd (omega arith)
length-digits_le (suc fuel) n zero h g = rw (digits_of-small fuel n (omega arith)) (omega arith)
length-digits_le (suc fuel) n (suc k) h g = elim (small_or_big n) [
  | inl small ↦ rw (digits_of-small fuel n small) (omega arith)
  | inr big ↦
      rw (digits_of-big fuel n big, length-append (digits_of fuel (n / 10)) ((n % 10 + b'0') ∷ []))
        (omega (arith, length-digits_le fuel (n / 10) k (omega arith) (omega arith)))
]

positive_power : (k : ℕ) → 0 < 10 ^ k
positive_power zero = omega arith
positive_power (suc k) = omega (arith, positive_power k)

length-digits_gt : (fuel n k : ℕ) → n < fuel → 10 ^ k ≤ n → k < length (digits_of fuel n)
length-digits_gt zero n k h g = absurd (omega arith)
length-digits_gt (suc fuel) n zero h g = elim (small_or_big n) [
  | inl small ↦ rw (digits_of-small fuel n small) (omega arith)
  | inr big ↦
      rw (digits_of-big fuel n big, length-append (digits_of fuel (n / 10)) ((n % 10 + b'0') ∷ []))
        (omega arith)
]
length-digits_gt (suc fuel) n (suc k) h g = elim (small_or_big n) [
  | inl small ↦ absurd (omega (arith, positive_power k))
  | inr big ↦
      rw (digits_of-big fuel n big, length-append (digits_of fuel (n / 10)) ((n % 10 + b'0') ∷ []))
        (omega (arith, length-digits_gt fuel (n / 10) k (omega arith) (omega arith)))
]

-- `{n:04}`
unfoldable pub pad4 : ℕ → Text
pad4 n = let d = decimal n in replicate (4 - length d) b'0' ++ d

number_from-zeros : (k : ℕ) → number_from 0 (replicate k b'0') ≡ 0
number_from-zeros zero = refl
number_from-zeros (suc k) = number_from-zeros k

all_digits-zeros : (k : ℕ) → all_digits (replicate k b'0') ≡ true
all_digits-zeros zero = refl
all_digits-zeros (suc k) = all_digits-zeros k

pub number_from-pad4 : (n : ℕ) → number_from 0 (pad4 n) ≡ n
unfolding pad4 decimal
number_from-pad4 n =
    let d = digits_of (suc n) n in
    rw (number_from-append 0 (replicate (4 - length d) b'0') d, number_from-zeros (4 - length d))
      (number_from-digits (suc n) n (omega arith))

pub all_digits-pad4 : (n : ℕ) → all_digits (pad4 n) ≡ true
unfolding pad4 decimal
all_digits-pad4 n =
    all_digits-append (replicate (4 - length (decimal n)) b'0') (decimal n)
      (all_digits-zeros (4 - length (decimal n))) (all_digits-digits (suc n) n (omega arith))

pub length-pad4 : (n : ℕ) → n < 10 ^ 4 → length (pad4 n) ≡ 4
unfolding pad4 decimal
length-pad4 n h =
    let d = digits_of (suc n) n in
    rw
      (
        length-append (replicate (4 - length d) b'0') d,
        length-replicate {A = ℕ} (4 - length d) b'0',
      )
      (omega (arith, length-digits_le (suc n) n 3 (omega arith) h))

pub length-pad4_gt : (n : ℕ) → 10 ^ 4 ≤ n → 4 < length (pad4 n)
unfolding pad4 decimal
length-pad4_gt n h =
    let d = digits_of (suc n) n in
    rw (length-append (replicate (4 - length d) b'0') d)
      (omega (arith, length-digits_gt (suc n) n 4 (omega arith) h))
