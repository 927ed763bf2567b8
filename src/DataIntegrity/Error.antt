-- ===== src/DataIntegrity/Error.antt =====
-- `ProofError` and its `Display`
use swiyu_rs.Prelude.{◌++◌}
use swiyu_rs.Prelude.Text.{Text, text}

pub data ProofError : Type 0 where
  unknown_cryptosuite unknown_proof_purpose missing_field invalid_encoding : Text → ProofError
  invalid_field : (field message : Text) → ProofError

unfoldable pub proof_error_text : ProofError → Text
proof_error_text (unknown_cryptosuite s) = text "unknown cryptosuite: " ++ s
proof_error_text (unknown_proof_purpose s) = text "unknown proof purpose: " ++ s
proof_error_text (missing_field field) = text "missing field: " ++ field
proof_error_text (invalid_field field message) =
    text "invalid field '" ++ field ++ text "': " ++ message
proof_error_text (invalid_encoding s) = text "invalid encoding: " ++ s
