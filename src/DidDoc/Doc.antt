-- ===== src/DidDoc/Doc.antt =====
-- The JSON of services and of whole DID documents, and that a document parses back from its JSON.
use swiyu_rs.Prelude.{
  ◌≡◌, refl, Option, none, some, List, [], ◌∷◌, map, Result, ok, err, ◌>>=◌, ok_or, All, traverse,
  traverse-map,
}
use swiyu_rs.Prelude.Text.{Text, text}
use swiyu_rs.Json.Interface.{Json, Shape}
use swiyu_rs.Json.Access.{
  as_str, as_array, as_object, string, array, object, json_object, insert_some, json_laws,
  as_array-array, as_str-string,
}
use swiyu_rs.Vendor.Crypto.{Bs58}
use swiyu_rs.DidDoc.Error.{DidDocError, missing_field, invalid_field_type, invalid_format}
use swiyu_rs.DidDoc.Fields.{
  about, required_string, string_or_array, strings, string_or_array_value, unless_empty,
  doc_field_laws,
}
use swiyu_rs.DidDoc.Document.{VerificationMethod, VerificationMethodOrRef, Service, DidDoc}
use swiyu_rs.DidDoc.Wire.{
  vm_to_json, vm_or_ref_to_json, vm_from_json, vm_or_ref_from_json, KeyIsBytes, RefIsBytes,
  vm_from_json-to_json, vm_or_ref_from_json-to_json,
}

module _ ⦃j : Json⦄ where
  open j use {Value, Map, get, insert, empty, shape}

  unfoldable pub service_to_json : Service Value → Value
  service_to_json s = json_object (
      (text "id", string s.id)
      ∷ (text "type", string_or_array_value s.type_)
      ∷ (text "serviceEndpoint", s.service_endpoint)
      ∷ [])

  unfoldable pub type_text : Value → Result DidDocError Text
  type_text v =
      ok_or (as_str v) (invalid_field_type (text "service 'type' elements must be strings"))

  -- `match obj.get("type")`
  unfoldable pub service_type_of : Option Value → Result DidDocError (List Text)
  unfolding type_text
  service_type_of none = err (missing_field (text "service 'type'"))
  service_type_of (some v) = elim (shape v) [
    | Shape.str s ↦ ok (s ∷ [])
    | Shape.arr l ↦ traverse type_text l
    | _ ↦ err (invalid_field_type (text "service 'type' must be a string or array of strings"))
  ]

  unfoldable pub service_from_json : Value → Result DidDocError (Service Value)
  unfolding service_type_of
  service_from_json v = do
    obj ← ok_or (as_object v) (invalid_field_type (text "service must be an object"))
    id ← required_string obj (text "id")
    type_ ← service_type_of (get obj (text "type"))
    service_endpoint ←
        ok_or (get obj (text "serviceEndpoint")) (missing_field (text "serviceEndpoint"))
    ok (record { id = id; type_ = type_; service_endpoint = service_endpoint })

  traverse-type_text : (l : List Text) → traverse type_text (map string l) ≡ ok l
  unfolding type_text traverse
  traverse-type_text [] = refl
  traverse-type_text (s ∷ l) = simp (as_str-string, traverse-type_text l)

  service_type_of-string : (s : Text) → service_type_of (some (string s)) ≡ ok (s ∷ [])
  unfolding service_type_of
  service_type_of-string s = rw (j.shape-value, service_type_of)

  service_type_of-strings : (l : List Text) → service_type_of (some (strings l)) ≡ ok l
  unfolding service_type_of
  service_type_of-strings l = rw (j.shape-value, service_type_of) (traverse-type_text l)

  service_type_of-value : (l : List Text) → service_type_of (some (string_or_array_value l)) ≡ ok l
  unfolding string_or_array_value
  service_type_of-value [] = service_type_of-strings []
  service_type_of-value (s ∷ []) = service_type_of-string s
  service_type_of-value (s ∷ t ∷ l) = service_type_of-strings (s ∷ t ∷ l)

  -- A service parses back from its JSON.
  pub service_from_json-to_json : (s : Service Value) → service_from_json (service_to_json s) ≡ ok s
  unfolding service_from_json service_to_json required_string
  service_from_json-to_json s = simp (json_laws, service_type_of-value)

  -- `parse_vm_array`, `parse_vm_or_ref_array` and `parse_service_array`, of the member
  unfoldable pub parse_array {ℓ} :
      {A : Type ℓ}
      → (Value → Result DidDocError A)
      → Text
      → Option Value
      → Result DidDocError (List A)
  parse_array f key none = ok []
  parse_array f key (some v) = do
    arr ← ok_or (as_array v) (invalid_field_type (about key (text "must be an array")))
    traverse f arr

  abbrev array_of {ℓ} : {A : Type ℓ} → (A → Value) → List A → Value
  array_of f l = array (map f l)

  parse_array-unless_empty {ℓ κ} :
      {A : Type ℓ} (P : A → Type κ) (f : Value → Result DidDocError A) (g : A → Value)
      → ((x : A) → P x → f (g x) ≡ ok x)
      → (key : Text) (l : List A) → All P l
      → parse_array f key (unless_empty (array_of g) l) ≡ ok l
  unfolding parse_array
  parse_array-unless_empty P f g h key [] all = refl
  parse_array-unless_empty P f g h key (x ∷ l) all =
      rw (as_array-array, ok_or) (traverse-map P f g h (x ∷ l) all)

module _ ⦃j : Json⦄ ⦃b : Bs58⦄ where
  open j use {Value, Map, get, insert, empty}

  abbrev vms_to_json : List VerificationMethod → Value
  vms_to_json l = array_of vm_to_json l

  abbrev refs_to_json : List VerificationMethodOrRef → Value
  refs_to_json l = array_of vm_or_ref_to_json l

  -- The members of `Value::from(doc)`, inserted in the source's order
  unfoldable pub doc_members : DidDoc Value → Map
  doc_members d =
      let m = insert (insert empty (text "@context") d.context) (text "id") (string d.id) in
      let m = insert_some m (text "alsoKnownAs") (unless_empty strings d.also_known_as) in
      let m = insert_some m (text "controller") (unless_empty string_or_array_value d.controller) in
      let m =
        insert_some m (text "verificationMethod")
          (unless_empty vms_to_json d.verification_method) in
      let m = insert_some m (text "authentication") (unless_empty refs_to_json d.authentication) in
      let m =
        insert_some m (text "assertionMethod") (unless_empty refs_to_json d.assertion_method) in
      let m = insert_some m (text "keyAgreement") (unless_empty refs_to_json d.key_agreement) in
      let m =
        insert_some m (text "capabilityInvocation")
          (unless_empty refs_to_json d.capability_invocation) in
      let m =
        insert_some m (text "capabilityDelegation")
          (unless_empty refs_to_json d.capability_delegation) in
      insert_some m (text "service") (unless_empty (array_of service_to_json) d.service)

  unfoldable pub doc_to_value : DidDoc Value → Value
  unfolding doc_members
  doc_to_value d = object (doc_members d)

  unfoldable pub doc_try_from : Value → Result DidDocError (DidDoc Value)
  doc_try_from v = do
    obj ← ok_or (as_object v) (invalid_format (text "DID document must be a JSON object"))
    context ← ok_or (get obj (text "@context")) (missing_field (text "@context"))
    id ← required_string obj (text "id")
    also_known_as ← string_or_array obj (text "alsoKnownAs")
    controller ← string_or_array obj (text "controller")
    verification_method ←
        parse_array vm_from_json (text "verificationMethod") (get obj (text "verificationMethod"))
    authentication ←
        parse_array vm_or_ref_from_json (text "authentication") (get obj (text "authentication"))
    assertion_method ←
        parse_array vm_or_ref_from_json (text "assertionMethod") (get obj (text "assertionMethod"))
    key_agreement ←
        parse_array vm_or_ref_from_json (text "keyAgreement") (get obj (text "keyAgreement"))
    capability_invocation ←
        parse_array vm_or_ref_from_json (text "capabilityInvocation")
          (get obj (text "capabilityInvocation"))
    capability_delegation ←
        parse_array vm_or_ref_from_json (text "capabilityDelegation")
          (get obj (text "capabilityDelegation"))
    service ← parse_array service_from_json (text "service") (get obj (text "service"))
    ok (record {
      context = context;
      id = id;
      also_known_as = also_known_as;
      controller = controller;
      verification_method = verification_method;
      authentication = authentication;
      assertion_method = assertion_method;
      key_agreement = key_agreement;
      capability_invocation = capability_invocation;
      capability_delegation = capability_delegation;
      service = service;
    })

  -- The multibase keys of a document hold bytes.
  pub record DocIsBytes (d : DidDoc Value) : Type 0 where
    pub methods : All (λ (vm : VerificationMethod). KeyIsBytes vm.public_key) d.verification_method
    pub authentication : All RefIsBytes d.authentication
    pub assertion_method : All RefIsBytes d.assertion_method
    pub key_agreement : All RefIsBytes d.key_agreement
    pub capability_invocation : All RefIsBytes d.capability_invocation
    pub capability_delegation : All RefIsBytes d.capability_delegation

  vms-round_trip :
      (key : Text) (l : List VerificationMethod)
      → All (λ (vm : VerificationMethod). KeyIsBytes vm.public_key) l
      → parse_array vm_from_json key (unless_empty vms_to_json l) ≡ ok l
  vms-round_trip key l h =
      parse_array-unless_empty _ vm_from_json vm_to_json vm_from_json-to_json key l h

  refs-round_trip :
      (key : Text) (l : List VerificationMethodOrRef)
      → All RefIsBytes l
      → parse_array vm_or_ref_from_json key (unless_empty refs_to_json l) ≡ ok l
  refs-round_trip key l h =
      parse_array-unless_empty RefIsBytes vm_or_ref_from_json vm_or_ref_to_json
        vm_or_ref_from_json-to_json key l h

  services-round_trip :
      (key : Text) (l : List (Service Value))
      → parse_array service_from_json key (unless_empty (array_of service_to_json) l) ≡ ok l
  services-round_trip key l =
      parse_array-unless_empty (λ s. Unit {0}) service_from_json service_to_json
        (λ s _. service_from_json-to_json s) key l (trivial l)
    where
      trivial : (l : List (Service Value)) → All (λ s. Unit {0}) l
      trivial [] = tt
      trivial (x ∷ l) = (tt, trivial l)

  -- A DID document whose multibase keys hold bytes parses back from its JSON.
  pub doc_try_from-to_value :
      (d : DidDoc Value) → DocIsBytes d → doc_try_from (doc_to_value d) ≡ ok d
  unfolding doc_try_from doc_to_value required_string
  doc_try_from-to_value d h = simp (
    json_laws,
    doc_field_laws,
    vms-round_trip (text "verificationMethod") d.verification_method h.methods,
    refs-round_trip (text "authentication") d.authentication h.authentication,
    refs-round_trip (text "assertionMethod") d.assertion_method h.assertion_method,
    refs-round_trip (text "keyAgreement") d.key_agreement h.key_agreement,
    refs-round_trip (text "capabilityInvocation") d.capability_invocation h.capability_invocation,
    refs-round_trip (text "capabilityDelegation") d.capability_delegation h.capability_delegation,
    services-round_trip,
  )
