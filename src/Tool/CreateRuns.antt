-- ===== src/Tool/CreateRuns.antt =====
-- The creation of a DID at concrete keys.
use swiyu_rs.Prelude.{◌≡◌, refl, none, some, [], ◌∷◌, ok, replicate, arith, if◌then◌else◌}
use swiyu_rs.Prelude.Text.{Text, text, text_eq, replace, replace_from, split}
use swiyu_rs.Json.Plain.{Tree, plain_json}
use swiyu_rs.Vendor.Crypto.{JsonText}
use swiyu_rs.Vendor.Plain.{plain_base64}
use swiyu_rs.Vendor.Samples.{sample_base58, sample_sha256, sample_ed25519, leaves}
use swiyu_rs.Did.Identifier.{Did, tdw, to_text, is_valid_domain}
use swiyu_rs.DidDoc.Document.{P256PublicKey, new_genesis}
use swiyu_rs.DidLog.Parameters.{tdw03}
use swiyu_rs.DidLog.Entry.{DidLogEntry, entry_try_from}
use swiyu_rs.DidLog.Hash.{derive_scid, hash_log_entry}
use swiyu_rs.DidLog.Parameters.{parameters_to_value}
use swiyu_rs.Json.Access.{insert_some}
use swiyu_rs.DidDoc.Multibase.{ed25519_verifying_key_to_multikey}
use swiyu_rs.DidDoc.Doc.{doc_to_value}
use swiyu_rs.DidDoc.Wire.{vm_or_ref_to_json}
use swiyu_rs.DidDoc.Jwk.{jwk_to_value}
use swiyu_rs.DidLog.Verify.{verify_log}
use swiyu_rs.Tool.Create.{create_entry, url_to_did_components}
use swiyu_rs.Tool.CreateUrl.{url_to_did_components-log_url}
use swiyu_rs.Did.Url.{log_url}
use swiyu_rs.Tool.Created.{unproved, Exchanges, create_entry-verify_log}
use swiyu_rs.Tool.Update.{multikey_of}
use swiyu_rs.Tool.Runs.{key, key-Works, jcs-remove, multikey-Lacks}

abbrev authentication_key : P256PublicKey
authentication_key = record { x = replicate 32 1; y = replicate 32 2 }

abbrev assertion_key : P256PublicKey
assertion_key = record { x = replicate 32 3; y = replicate 32 4 }

abbrev leaf_text : JsonText plain_json
leaf_text = record { to_string = λ v. ok (leaves v); from_str = λ s. ok (Tree.str s); jcs = leaves }

-- The entry for an SCID or its placeholder
abbrev entry_for : Text → Tree
entry_for scid =
    unproved ⦃t = leaf_text⦄ scid (multikey_of key) (text "e.org") none authentication_key
      assertion_key (text "t")

abbrev scid : Text
scid = text "Qz"

-- JSON as the text of its leaves, which tells the two entries apart
instance abbrev exchange_text : JsonText plain_json
exchange_text = record {
  to_string = λ v. ok (leaves v);
  from_str = λ s.
      if text_eq s (leaves (entry_for (text "{SCID}")))
      then ok (entry_for (text "{SCID}"))
      else ok (entry_for scid);
  jcs = leaves;
}

derived :
    derive_scid (
      unproved
        (text "{SCID}")
        (multikey_of key)
        (text "e.org")
        none
        authentication_key
        assertion_key
        (text "t"))
    ≡ scid
unfolding derive_scid leaves hash_log_entry parameters_to_value insert_some
    ed25519_verifying_key_to_multikey doc_to_value new_genesis vm_or_ref_to_json to_text
    jwk_to_value
derived = refl

texts :
    Exchanges scid
      (unproved
        (text "{SCID}")
        (multikey_of key)
        (text "e.org")
        none
        authentication_key
        assertion_key
        (text "t"))
      (unproved scid
        (multikey_of key)
        (text "e.org")
        none
        authentication_key
        assertion_key
        (text "t"))
unfolding leaves replace replace_from parameters_to_value insert_some
    ed25519_verifying_key_to_multikey doc_to_value new_genesis vm_or_ref_to_json to_text
    jwk_to_value
texts = record {
  prelim_text = leaves (entry_for (text "{SCID}"));
  proper_text = leaves (entry_for scid);
  prelim_written = refl;
  proper_written = refl;
  proper_read = refl;
  prelim_read = refl;
}

create_entry-verify_log_example :
    (line : Tree) × (did : Did) × (new : DidLogEntry Tree) × (create_entry tdw03
        (text "e.org")
        none
        key
        authentication_key
        assertion_key
        (text "t")
      ≡ ok (line, did))
    × (did.domain ≡ text "e.org")
    × (did.path ≡ none)
    × (entry_try_from line ≡ ok new)
    × (verify_log (new ∷ []) did ≡ ok tt)
unfolding is_valid_domain split
create_entry-verify_log_example =
    create_entry-verify_log key key-Works jcs-remove (text "e.org") none authentication_key
      assertion_key (text "t") scid refl refl derived texts multikey-Lacks

abbrev at_path : Did
at_path = record { method = tdw; scid = some scid; domain = text "e.org"; path = some (text "a:b") }

url_to_did_components-log_url_example :
    url_to_did_components (log_url at_path) ≡ ok (text "e.org", some (text "a:b"))
unfolding split
url_to_did_components-log_url_example =
    url_to_did_components-log_url at_path (λ h. ground arith) (ground arith) (ground arith)
      (ground arith) (ground arith, (λ h. ground arith, (λ h. ground arith, tt)), λ h. ground arith)
