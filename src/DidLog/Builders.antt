-- ===== src/DidLog/Builders.antt =====
-- `DIDLogEntry::new_genesis` and `new_rotation`.
use swiyu_rs.Prelude.{none, some, [], ◌∷◌}
use swiyu_rs.Prelude.Text.{Text, text}
use swiyu_rs.Json.Interface.{Json}
use swiyu_rs.Vendor.Encoding.{Base64}
use swiyu_rs.Vendor.Crypto.{Bs58}
use swiyu_rs.DidDoc.Document.{P256PublicKey, new_genesis}
use swiyu_rs.DidDoc.Doc.{doc_to_value}
use swiyu_rs.DidLog.Parameters.{LogEntryFormat, tdw03, web_vh10, LogParameters, only_keys}
use swiyu_rs.DidLog.Entry.{full, DidLogEntry, new_entry}

unfoldable pub method_text : LogEntryFormat → Text
method_text tdw03 = text "did:tdw:0.3"
method_text web_vh10 = text "did:webvh:1.0"

-- `new_tdw_minimal` and `new_webvh_minimal`
unfoldable pub minimal_parameters : {V : Type 0} → LogEntryFormat → Text → LogParameters V
unfolding method_text
minimal_parameters format authorized_multikey =
    record (only_keys format (authorized_multikey ∷ []) none) {
      method = some (method_text format);
      scid = some (text "{SCID}");
    }

module _ ⦃j : Json⦄ ⦃b : Bs58⦄ ⦃e : Base64⦄ where
  open j use {Value}

  -- `new_genesis`
  unfoldable pub genesis_entry :
      LogEntryFormat → Text → Text → P256PublicKey → P256PublicKey → Text → DidLogEntry Value
  unfolding new_entry minimal_parameters
  genesis_entry format authorized_multikey did_placeholder authentication assertion now =
      new_entry format (text "{SCID}") now (minimal_parameters format authorized_multikey)
        (full (doc_to_value (new_genesis did_placeholder authentication assertion))) []

  -- `new_rotation`
  unfoldable pub rotation_entry :
      LogEntryFormat → Text → Text → Text → P256PublicKey → P256PublicKey → Text → DidLogEntry Value
  unfolding new_entry
  rotation_entry format prev_version_id did new_multikey authentication assertion new_version_time =
      new_entry format prev_version_id new_version_time (only_keys format (new_multikey ∷ []) none)
        (full (doc_to_value (new_genesis did authentication assertion))) []
