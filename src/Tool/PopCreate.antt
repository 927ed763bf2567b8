-- ===== src/Tool/PopCreate.antt =====
-- swiyu-didtool/src/cmd/pop/create.rs: the making of a proof of possession.
use swiyu_rs.Prelude.{
  ℕ, ◌+◌, ◌%◌, ◌^◌, Bool, true, false, not, ◌&&◌, Option, none, some, List, [], ◌∷◌, ◌++◌, Result,
  ok, ◌>>=◌, guard, ok_or, map_err, ◌==◌,
}
use swiyu_rs.Prelude.Text.{Text, text}
use swiyu_rs.Json.Interface.{Json}
use swiyu_rs.Json.Access.{string, u64, json_object}
use swiyu_rs.Vendor.Encoding.{Base64}
use swiyu_rs.Vendor.Crypto.{Bs58}
use swiyu_rs.DidDoc.Multibase.{ed25519_verifying_key_to_multikey}
use swiyu_rs.KeyStore.Dir.{Dir, find, put}
use swiyu_rs.KeyStore.Entry.{
  KeyFormats, KeyStoreError, not_found, KeyRole, authorized, authentication, assertion, EntryDir,
  load_eddsa, load_ecdsa,
}
use swiyu_rs.KeyStore.Store.{Store, Handle, Blake3}
use swiyu_rs.Tool.Resolve.{ResolveError, resolve_entry}

-- The errors, without those of a write that fails
pub data CreatePopError : Type 0 where
  invalid_ttl force_without_out : CreatePopError
  file_exists : (path : Text) → CreatePopError
  resolve : ResolveError → CreatePopError
  key_store : KeyStoreError → CreatePopError

-- Signing with the keys of the key store, and the bytes of an Ed25519 public key
pub record Signing ⦃f : KeyFormats⦄ : Type 0 where
  pub ed25519_bytes : f.Ed25519PublicKey → List ℕ
  pub ed25519_sign : f.Ed25519Key → List ℕ → List ℕ
  pub p256_sign : f.P256Key → List ℕ → List ℕ

module _ ⦃f : KeyFormats⦄ where
  pub data Signer : Type 0 where
    eddsa : f.Ed25519Key → Signer
    ecdsa : f.P256Key → Signer

  unfoldable pub signer_alg : Signer → Text
  signer_alg (eddsa k) = text "EdDSA"
  signer_alg (ecdsa k) = text "ES256"

module _ ⦃f : KeyFormats⦄ ⦃g : Signing⦄ where
  unfoldable pub signer_sign : Signer → List ℕ → List ℕ
  signer_sign (eddsa k) msg = g.ed25519_sign k msg
  signer_sign (ecdsa k) msg = g.p256_sign k msg

module _ ⦃f : KeyFormats⦄ ⦃g : Signing⦄ ⦃b : Bs58⦄ where
  -- The kid and the signer of a role of an entry
  unfoldable pub resolve_role :
      Handle → EntryDir → KeyRole → Option ℕ → Result KeyStoreError (Text × Signer)
  unfolding load_eddsa load_ecdsa
  resolve_role entry dir authorized version = do
    signing_key ← load_eddsa entry.hash dir authorized version
    let multikey =
        ed25519_verifying_key_to_multikey (g.ed25519_bytes (f.ed25519_public signing_key))
    ok (text "did:key:" ++ multikey ++ b'#' ∷ multikey, eddsa signing_key)
  resolve_role entry dir authentication version = do
    signing_key ← load_ecdsa entry.hash dir authentication version
    ok (entry.did ++ text "#authentication-key-01", ecdsa signing_key)
  resolve_role entry dir assertion version = do
    signing_key ← load_ecdsa entry.hash dir assertion version
    ok (entry.did ++ text "#assertion-key-01", ecdsa signing_key)

module _ ⦃j : Json⦄ where
  open j use {Value}

  abbrev pub pop_header : (alg kid : Text) → Value
  pop_header alg kid = json_object ((text "alg", string alg) ∷ (text "kid", string kid) ∷ [])

  abbrev pub pop_payload : (did : Text) → (iat exp : ℕ) → (nonce : Text) → Value
  pop_payload did iat exp nonce = json_object (
      (text "iss", string did)
      ∷ (text "iat", u64 iat)
      ∷ (text "exp", u64 exp)
      ∷ (text "nonce", string nonce)
      ∷ [])

module _ ⦃j : Json⦄ ⦃e : Base64⦄ (to_vec : j.Value → List ℕ) where
  open j use {Value}

  abbrev pub signing_input : Value → Value → Text
  signing_input header payload = e.encode (to_vec header) ++ b'.' ∷ e.encode (to_vec payload)

  -- The JWT of a header and a payload; `to_vec` is serde_json's.
  unfoldable pub signed_jwt : (sign : List ℕ → List ℕ) → Value → Value → Text
  signed_jwt sign header payload =
      let input = signing_input header payload in input ++ b'.' ∷ e.encode (sign input)

module _ ⦃j : Json⦄ ⦃e : Base64⦄ ⦃f : KeyFormats⦄ ⦃g : Signing⦄ (to_vec : j.Value → List ℕ) where
  -- The proof of a DID by a signer; the sum of the times is one of 64 bits.
  unfoldable pub pop_jwt : (did kid : Text) → Signer → (nonce : Text) → (ttl now : ℕ) → Text
  unfolding signed_jwt signer_alg signer_sign
  pop_jwt did kid signer nonce ttl now =
      signed_jwt to_vec (signer_sign signer) (pop_header (signer_alg signer) kid)
        (pop_payload did now ((now + ttl) % 2 ^ 64) nonce)

pub record CreatePopArgs : Type 0 where
  pub did : Text
  pub role : KeyRole
  pub nonce : Option Text
  pub ttl : ℕ
  pub version : Option ℕ
  pub out : Option Text
  pub force : Bool

abbrev is_none : Option Text → Bool
is_none none = true
is_none (some s) = false

abbrev is_there : Option Text → Bool
is_there o = not (is_none o)

abbrev pub nonce_or : Option Text → Text → Text
nonce_or none generated = generated
nonce_or (some n) generated = n

-- The files by their paths, with the JWT where it is to be written
unfoldable pub write_output :
    Dir Text → Text → Option Text → (force : Bool) → Result CreatePopError (Dir Text)
write_output files jwt none force = ok files
write_output files jwt (some path) force = do
  _ ← guard (not (is_there (find files path) && not force)) (file_exists path)
  ok (put files path jwt)

module _ ⦃j : Json⦄ ⦃e : Base64⦄ ⦃b : Bs58⦄ ⦃f : KeyFormats⦄ ⦃g : Signing⦄ ⦃h : Blake3⦄
    (to_vec : j.Value → List ℕ) where
  -- The JWT, with the files; `generated` is a fresh nonce and `now` the clock's.
  unfoldable pub cmd_create_pop :
      Store
      → Dir Text
      → CreatePopArgs
      → (generated : Text) → (now : ℕ) → Result CreatePopError (Text × Dir Text)
  unfolding resolve_entry resolve_role pop_jwt write_output
  cmd_create_pop store files args generated now = do
    _ ← guard (not (args.ttl == 0)) invalid_ttl
    _ ← guard (not (args.force && is_none args.out)) force_without_out
    entry ← map_err resolve (resolve_entry store args.did)
    dir ← ok_or (find store entry.hash) (key_store (not_found entry.hash))
    (kid, signer) ← map_err key_store (resolve_role entry dir args.role args.version)
    let jwt = pop_jwt to_vec entry.did kid signer (nonce_or args.nonce generated) args.ttl now
    written ← write_output files jwt args.out args.force
    ok (jwt, written)
