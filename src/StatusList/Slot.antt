-- ===== src/StatusList/Slot.antt =====
-- `StatusValue`: what the number in a slot means.
use swiyu_rs.Prelude.{ℕ, Bool, true, false, ltb, ◌==◌, ◌&&◌, if◌then◌else◌}
use swiyu_rs.Prelude.{Result, ok, err, ◌>>=◌}
use swiyu_rs.StatusList.Error.{StatusListError, unsupported_bits, value_out_of_range}

pub data StatusValue : Type 0 where
  valid revoked suspended : StatusValue
  reserved : ℕ → StatusValue

-- `match (bits, raw)`
unfoldable pub from_raw : ℕ → ℕ → StatusValue
from_raw raw bits =
    if raw == 0
    then valid
    else if raw == 1
    then revoked
    else if bits == 2 && raw == 2
    then suspended
    else reserved raw

unfoldable pub is_valid : StatusValue → Bool
is_valid valid = true
is_valid _ = false

-- `From<StatusValue> for u8`
unfoldable pub to_u8 : StatusValue → ℕ
to_u8 valid = 0
to_u8 revoked = 1
to_u8 suspended = 2
to_u8 (reserved n) = n

-- `From<u8> for StatusValue`
unfoldable pub from_u8 : ℕ → StatusValue
from_u8 raw =
    if raw == 0
    then valid
    else if raw == 1
    then revoked
    else if raw == 2
    then suspended
    else reserved raw

max_raw : ℕ → Result StatusListError ℕ
max_raw bits =
    if bits == 1 then ok 1 else if bits == 2 then ok 0b11 else err (unsupported_bits bits)

unfoldable pub to_raw : StatusValue → ℕ → Result StatusListError ℕ
unfolding to_u8 max_raw
to_raw v bits = do
  let raw = to_u8 v
  max ← max_raw bits
  if ltb max raw then err (value_out_of_range raw bits) else ok raw
