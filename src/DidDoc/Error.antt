-- ===== src/DidDoc/Error.antt =====
-- `DIDDocError` and its `Display`
use swiyu_rs.Prelude.{◌++◌}
use swiyu_rs.Prelude.Text.{Text, text}

pub data DidDocError : Type 0 where
  missing_field invalid_field_type invalid_format : Text → DidDocError

unfoldable pub error_text : DidDocError → Text
error_text (missing_field field) = text "missing required field: " ++ field
error_text (invalid_field_type msg) = text "invalid field type: " ++ msg
error_text (invalid_format msg) = text "invalid format: " ++ msg
