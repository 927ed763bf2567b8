-- ===== src/StatusList/Error.antt =====
-- `StatusListError`
use swiyu_rs.Prelude.{ℕ}
use swiyu_rs.Prelude.Text.{Text}

pub data StatusListError : Type 0 where
  missing_field : Text → StatusListError
  invalid_field_type : Text → StatusListError
  unsupported_bits : ℕ → StatusListError
  invalid_base64 : StatusListError
  decompress : Text → StatusListError
  idx_out_of_range : ℕ → ℕ → StatusListError
  invalid_capacity : ℕ → ℕ → StatusListError
  value_out_of_range : ℕ → ℕ → StatusListError
