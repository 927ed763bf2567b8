-- ===== src/DidDoc/Document.antt =====
-- DID documents: the types of swiyu-core/src/diddoc/mod.rs, and the constructors of a document.
use swiyu_rs.Prelude.{ℕ, List, [], ◌∷◌, ◌++◌}
use swiyu_rs.Prelude.Text.{Text, text}
use swiyu_rs.Json.Interface.{Json}
use swiyu_rs.Json.Access.{string, array}
use swiyu_rs.Vendor.Encoding.{Base64}
use swiyu_rs.DidDoc.Multibase.{PublicKeyMultibase}
use swiyu_rs.DidDoc.Jwk.{PublicKeyJwk, ec, with_kid, from_p256_coordinates}

pub record P256PublicKey : Type 0 where
  pub x : List ℕ
  pub y : List ℕ

pub data PublicKey : Type 0 where
  jwk : PublicKeyJwk → PublicKey
  multibase : PublicKeyMultibase → PublicKey

pub record VerificationMethod : Type 0 where
  pub id : Text
  pub type_ : Text
  pub controller : Text
  pub public_key : PublicKey

pub data VerificationMethodOrRef : Type 0 where
  embedded : VerificationMethod → VerificationMethodOrRef
  reference : Text → VerificationMethodOrRef

-- `V` is the type of JSON values.
pub record Service (V : Type 0) : Type 0 where
  pub id : Text
  pub type_ : List Text
  pub service_endpoint : V

pub record DidDoc (V : Type 0) : Type 0 where
  pub context : V
  pub id : Text
  pub also_known_as : List Text
  pub controller : List Text
  pub verification_method : List VerificationMethod
  pub authentication : List VerificationMethodOrRef
  pub assertion_method : List VerificationMethodOrRef
  pub key_agreement : List VerificationMethodOrRef
  pub capability_invocation : List VerificationMethodOrRef
  pub capability_delegation : List VerificationMethodOrRef
  pub service : List (Service V)

module _ {V : Type 0} where
  unfoldable pub with_context : DidDoc V → V → DidDoc V
  with_context d context = record d { context = context }

  unfoldable pub add_verification_method : DidDoc V → VerificationMethod → DidDoc V
  add_verification_method d vm = record d { verification_method = d.verification_method ++ vm ∷ [] }

  unfoldable pub add_authentication : DidDoc V → VerificationMethodOrRef → DidDoc V
  add_authentication d r = record d { authentication = d.authentication ++ r ∷ [] }

  unfoldable pub add_assertion_method : DidDoc V → VerificationMethodOrRef → DidDoc V
  add_assertion_method d r = record d { assertion_method = d.assertion_method ++ r ∷ [] }

  unfoldable pub add_capability_invocation : DidDoc V → VerificationMethodOrRef → DidDoc V
  add_capability_invocation d r = record d {
    capability_invocation = d.capability_invocation ++ r ∷ [];
  }

  unfoldable pub add_capability_delegation : DidDoc V → VerificationMethodOrRef → DidDoc V
  add_capability_delegation d r = record d {
    capability_delegation = d.capability_delegation ++ r ∷ [];
  }

module _ ⦃j : Json⦄ where
  open j use {Value}

  -- `DIDDoc::new`
  unfoldable pub new : Text → DidDoc Value
  new id = record {
    context = array (string (text "https://www.w3.org/ns/did/v1") ∷ []);
    id = id;
    also_known_as = [];
    controller = [];
    verification_method = [];
    authentication = [];
    assertion_method = [];
    key_agreement = [];
    capability_invocation = [];
    capability_delegation = [];
    service = [];
  }

module _ ⦃j : Json⦄ ⦃b : Base64⦄ where
  open j use {Value}

  -- The key of one role in a genesis document.
  abbrev genesis_key : P256PublicKey → Text → PublicKey
  genesis_key k kid = jwk (ec (with_kid (from_p256_coordinates k.x k.y) kid))

  -- `DIDDoc::new_genesis`
  unfoldable pub new_genesis : Text → P256PublicKey → P256PublicKey → DidDoc Value
  unfolding new with_context add_verification_method add_authentication add_assertion_method
      with_kid from_p256_coordinates
  new_genesis did authentication assertion =
      let auth_vm_id = did ++ text "#authentication-key-01" in
      let assert_vm_id = did ++ text "#assertion-key-01" in
      let auth_vm : VerificationMethod = record {
        id = auth_vm_id;
        type_ = text "JsonWebKey2020";
        controller = did;
        public_key = genesis_key authentication (text "authentication-key-01");
      } in
      let assert_vm : VerificationMethod = record {
        id = assert_vm_id;
        type_ = text "JsonWebKey2020";
        controller = did;
        public_key = genesis_key assertion (text "assertion-key-01");
      } in
      let context = array (
        string (text "https://www.w3.org/ns/did/v1")
        ∷ string (text "https://w3id.org/security/jwk/v1")
        ∷ []) in
      let with_keys =
        add_verification_method (add_verification_method (with_context (new did) context) auth_vm)
          assert_vm in
      add_assertion_method (add_authentication with_keys (reference auth_vm_id))
        (reference assert_vm_id)
