-- ===== src/DidDoc/Wire.antt =====
-- The JSON of a DID document, both ways.
use swiyu_rs.Prelude.{
  ◌≡◌, Option, none, some, [], ◌∷◌, Result, ok, err, ◌>>=◌, ok_or, and_then, All,
}
use swiyu_rs.Prelude.Text.{Text, text}
use swiyu_rs.Prelude.Bytes.{IsByte}
use swiyu_rs.Json.Interface.{Json}
use swiyu_rs.Json.Access.{
  as_str, as_object, string, object, insert_all, json_laws, as_str-string, as_str-object,
}
use swiyu_rs.Vendor.Crypto.{Bs58}
use swiyu_rs.DidDoc.Error.{DidDocError, missing_field, invalid_field_type}
use swiyu_rs.DidDoc.Fields.{required_string}
use swiyu_rs.DidDoc.Multibase.{multibase_from_text, multibase_to_text, multibase_from_text-to_text}
use swiyu_rs.DidDoc.Jwk.{jwk_to_value, jwk_try_from, jwk_try_from-to_value}
use swiyu_rs.DidDoc.Document.{
  PublicKey, jwk, multibase, VerificationMethod, VerificationMethodOrRef, embedded, reference,
}

module _ ⦃j : Json⦄ ⦃b : Bs58⦄ where
  open j use {Value, Map, get, insert, empty, shape}

  unfoldable pub insert_public_key : Map → PublicKey → Map
  insert_public_key m (jwk k) = insert m (text "publicKeyJwk") (jwk_to_value k)
  insert_public_key m (multibase k) =
      insert m (text "publicKeyMultibase") (string (multibase_to_text k))

  -- The object that `vm_to_json` makes
  unfoldable pub vm_members : VerificationMethod → Map
  unfolding insert_public_key
  vm_members vm =
      insert_public_key
        (insert_all empty (
          (text "id", string vm.id)
          ∷ (text "type", string vm.type_)
          ∷ (text "controller", string vm.controller)
          ∷ []))
        vm.public_key

  unfoldable pub vm_to_json : VerificationMethod → Value
  unfolding vm_members
  vm_to_json vm = object (vm_members vm)

  unfoldable pub vm_or_ref_to_json : VerificationMethodOrRef → Value
  unfolding vm_to_json
  vm_or_ref_to_json (embedded vm) = vm_to_json vm
  vm_or_ref_to_json (reference s) = string s

  -- `obj.get("publicKeyJwk")`, and `obj.get("publicKeyMultibase").and_then(as_str)`
  unfoldable pub public_key_of : Option Value → Option Text → Result DidDocError PublicKey
  public_key_of (some v) mb = do k ← jwk_try_from v; ok (jwk k)
  public_key_of none (some mb) = do k ← multibase_from_text mb; ok (multibase k)
  public_key_of none none =
      err (
        missing_field (text "verification method must have 'publicKeyJwk' or 'publicKeyMultibase'"))

  unfoldable pub vm_from_json : Value → Result DidDocError VerificationMethod
  unfolding public_key_of
  vm_from_json v = do
    obj ← ok_or (as_object v) (invalid_field_type (text "verification method must be an object"))
    id ← required_string obj (text "id")
    type_ ← required_string obj (text "type")
    controller ← required_string obj (text "controller")
    public_key ←
        public_key_of (get obj (text "publicKeyJwk"))
          (and_then (get obj (text "publicKeyMultibase")) as_str)
    ok (record { id = id; type_ = type_; controller = controller; public_key = public_key })

  unfoldable pub vm_or_ref_of : Option Text → Value → Result DidDocError VerificationMethodOrRef
  unfolding vm_from_json
  vm_or_ref_of (some s) v = ok (reference s)
  vm_or_ref_of none v = do vm ← vm_from_json v; ok (embedded vm)

  unfoldable pub vm_or_ref_from_json : Value → Result DidDocError VerificationMethodOrRef
  unfolding vm_or_ref_of
  vm_or_ref_from_json v = vm_or_ref_of (as_str v) v

  -- A key whose bytes are bytes
  abbrev pub KeyIsBytes : PublicKey → Type 0
  KeyIsBytes (jwk k) = Unit
  KeyIsBytes (multibase k) = All IsByte k.key

  abbrev pub RefIsBytes : VerificationMethodOrRef → Type 0
  RefIsBytes (embedded vm) = KeyIsBytes vm.public_key
  RefIsBytes (reference s) = Unit

  vm_fields_round_trip :
      (id type_ controller : Text) (k : PublicKey)
      → KeyIsBytes k
      → vm_from_json
          (vm_to_json (record { id = id; type_ = type_; controller = controller; public_key = k }))
        ≡ ok (record { id = id; type_ = type_; controller = controller; public_key = k })
  unfolding vm_from_json vm_to_json required_string
  vm_fields_round_trip id type_ controller (jwk k) h = simp (json_laws, jwk_try_from-to_value)
  vm_fields_round_trip id type_ controller (multibase k) h =
      simp (json_laws, multibase_from_text-to_text k h)

  pub vm_from_json-to_json :
      (vm : VerificationMethod) → KeyIsBytes vm.public_key → vm_from_json (vm_to_json vm) ≡ ok vm
  vm_from_json-to_json vm h = vm_fields_round_trip vm.id vm.type_ vm.controller vm.public_key h

  as_str-vm_to_json : (vm : VerificationMethod) → as_str (vm_to_json vm) ≡ none
  unfolding vm_to_json
  as_str-vm_to_json vm = as_str-object _

  pub vm_or_ref_from_json-to_json :
      (r : VerificationMethodOrRef)
      → RefIsBytes r
      → vm_or_ref_from_json (vm_or_ref_to_json r) ≡ ok r
  unfolding vm_or_ref_from_json vm_or_ref_to_json
  vm_or_ref_from_json-to_json (embedded vm) h =
      rw (as_str-vm_to_json vm, vm_or_ref_of) (rw (vm_from_json-to_json vm h))
  vm_or_ref_from_json-to_json (reference s) h = simp as_str-string
