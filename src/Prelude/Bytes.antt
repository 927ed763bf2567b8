-- ===== src/Prelude/Bytes.antt =====
-- Rust's `u8` operations, and facts over a byte that evaluation checks.
use Prim.Native.Nat.{ℕ, zero, suc, ◌-◌, ◌*◌, ◌/◌, ◌%◌, ◌^◌, ◌<◌}
use mathlib.Core.Path.{◌≡◌}
use mathlib.Core.Bool.{Bool, true, ◌&&◌}
use native.Mathlib.Omega.{arith}

abbrev pub IsByte : ℕ → Type 0
IsByte b = b < 256

abbrev pub IsU64 : ℕ → Type 0
IsU64 n = n < 2 ^ 64

-- `x >> k`, `x << k` and `!x` on `u8`
abbrev pub shr8 : ℕ → ℕ → ℕ
shr8 x k = x / 2 ^ k

abbrev pub shl8 : ℕ → ℕ → ℕ
shl8 x k = x * 2 ^ k % 256

abbrev pub not8 : ℕ → ℕ
not8 x = 255 - x

-- A test that holds of every number below a bound, run on each.
unfoldable pub every_below : (ℕ → Bool) → ℕ → Bool
every_below test zero = true
every_below test (suc k) = every_below test k && test k

pub every_below_sound :
    (test : ℕ → Bool) (k : ℕ) → every_below test k ≡ true → (i : ℕ) → i < k → test i ≡ true
unfolding every_below
every_below_sound test zero passed i low = elim low [ ]
every_below_sound test (suc k) passed i low =
    ground (arith, every_below_sound test k (ground arith) i)
