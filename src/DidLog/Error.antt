-- ===== src/DidLog/Error.antt =====
-- `DIDLogError`, with the text that each error carries.
use swiyu_rs.Prelude.{◌++◌}
use swiyu_rs.Prelude.Text.{Text, text}

pub data DidLogError : Type 0 where
  invalid_format missing_field invalid_field_type : Text → DidLogError

-- `Display for DIDLogError`
unfoldable pub log_error_text : DidLogError → Text
log_error_text (invalid_format msg) = text "invalid format: " ++ msg
log_error_text (missing_field field) = text "missing required field: " ++ field
log_error_text (invalid_field_type msg) = text "invalid field type: " ++ msg
