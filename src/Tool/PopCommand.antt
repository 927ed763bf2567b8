-- ===== src/Tool/PopCommand.antt =====
-- `cmd_create_pop` and the verification of what it prints.
use swiyu_rs.Prelude.{
  ℕ, ◌+◌, ◌^◌, ◌≤◌, ◌<◌, ◌≡◌, false, Option, none, some, List, ◌∷◌, Result, ok, length, get_elem?,
  arith, ◌==◌,
}
use swiyu_rs.Prelude.Text.{Text, text, Lacks}
use swiyu_rs.Json.Interface.{Json}
use swiyu_rs.Vendor.Encoding.{Base64}
use swiyu_rs.Vendor.Crypto.{Bs58, Ed25519, P256, Sha256, JsonText}
use swiyu_rs.Did.Identifier.{Did, to_text}
use swiyu_rs.DidLog.Entry.{DidLogEntry}
use swiyu_rs.DidLog.Chain.{LogVerified, authorized_keys}
use swiyu_rs.DidLog.ProofLemmas.{did_key_url}
use swiyu_rs.KeyStore.Dir.{Dir, find}
use swiyu_rs.KeyStore.Entry.{KeyFormats, KeyRole, authorized, EntryDir, load_eddsa}
use swiyu_rs.KeyStore.Store.{Blake3, Handle, Store}
use swiyu_rs.Tool.PopVerify.{PopError}
use swiyu_rs.Tool.PopCheck.{PopArgs, verify_pop}
use swiyu_rs.Tool.PopVerified.{Fits}
use swiyu_rs.Tool.PopCreate.{
  Signing, Signer, pop_header, pop_payload, signing_input, pop_jwt, resolve_role, cmd_create_pop,
  nonce_or, write_output,
}
use swiyu_rs.Tool.PopAccepted.{Written, as_signing_key, verify_pop-pop_jwt}
use swiyu_rs.Tool.Resolve.{resolve_entry}
use swiyu_rs.Tool.Update.{multikey_of}
use swiyu_rs.Tool.Updated.{Works}

module _ ⦃j : Json⦄ ⦃t : JsonText j⦄ ⦃s : Sha256⦄ ⦃e : Base64⦄ ⦃b : Bs58⦄ ⦃c : Ed25519⦄ ⦃p : P256⦄
    ⦃f : KeyFormats⦄ ⦃g : Signing⦄ ⦃h : Blake3⦄ (from_slice : List ℕ → Result Text j.Value)
    (to_vec : j.Value → List ℕ) (multicodec : ℕ → ℕ → Text)
    (stored : Text → Result PopError (KeyRole → Result PopError p.VerifyingKey)) where
  open j use {Value}

  cmd_create_pop-printed :
      (store : Store) (files : Dir Text) (did : Text) (role : KeyRole) (asked : Option Text)
      (ttl : ℕ) (version : Option ℕ) (generated : Text) (now : ℕ) (entry : Handle) (dir : EntryDir)
      (kid : Text) (signer : Signer)
      → 0 < ttl
      → resolve_entry store did ≡ ok entry
      → find store entry.hash ≡ some dir
      → resolve_role entry dir role version ≡ ok (kid, signer)
      → cmd_create_pop to_vec store files
          (record {
            did = did;
            role = role;
            nonce = asked;
            ttl = ttl;
            version = version;
            out = none;
            force = false;
          })
          generated
          now
        ≡ ok (pop_jwt to_vec entry.did kid signer (nonce_or asked generated) ttl now, files)
  unfolding cmd_create_pop write_output
  cmd_create_pop-printed store files did role asked ttl version generated now entry dir kid signer
        positive resolved found by_role =
      let some_time : (ttl == 0) ≡ false = ground arith in
      simp (some_time, resolved, found, by_role)

  -- By a verified log, `create-pop` with the authorized key of an entry of the store, for a time that
  -- is not 0, prints a proof of possession that `verify-pop` accepts with its claims: where the entry
  -- is that of the log's DID and its key works and may sign the log's next entry, if the header, the
  -- payload and the signature are written so that they read back and have no dot, until it expires,
  -- and for the nonce asked for.
  pub verify_pop-cmd_create_pop :
      (store : Store) (files : Dir Text) (name : Text) (asked : Option Text) (generated : Text)
      (entry : Handle) (dir : EntryDir) (version : Option ℕ) (k : f.Ed25519Key)
      (works : Works (as_signing_key k)) (first : DidLogEntry Value)
      (log : List (DidLogEntry Value)) (did : Did) (i : ℕ) (args : PopArgs) (ttl now later : ℕ)
      → resolve_entry store name ≡ ok entry
      → find store entry.hash ≡ some dir
      → load_eddsa entry.hash dir authorized version ≡ ok k
      → entry.did ≡ to_text did
      → LogVerified (first ∷ log) did
      → get_elem? (authorized_keys (first ∷ log) (length (first ∷ log))) i
        ≡ some (multikey_of (as_signing_key k))
      → Lacks b'#' (multikey_of (as_signing_key k))
      → Written from_slice to_vec
          (pop_header (text "EdDSA") (did_key_url (multikey_of (as_signing_key k))))
      → Written from_slice to_vec
          (pop_payload (to_text did) now (now + ttl) (nonce_or asked generated))
      → Lacks b'.' (
          e.encode (
            g.ed25519_sign k (
              signing_input to_vec
                (pop_header (text "EdDSA") (did_key_url (multikey_of (as_signing_key k))))
                (pop_payload (to_text did) now (now + ttl) (nonce_or asked generated)))))
      → Fits args.nonce (nonce_or asked generated)
      → 0 < ttl
      → now + ttl < 2 ^ 64
      → now ≤ later + 60
      → later < now + ttl
      → (jwt : Text) × (cmd_create_pop to_vec store files
            (record {
              did = name;
              role = authorized;
              nonce = asked;
              ttl = ttl;
              version = version;
              out = none;
              force = false;
            })
            generated
            now
          ≡ ok (jwt, files))
        × (verify_pop from_slice multicodec (some (ok (first ∷ log))) stored args later jwt
            ≡ ok (record {
              iss = to_text did;
              iat = now;
              exp = now + ttl;
              nonce = nonce_or asked generated;
              is_expired = false;
            }))
  verify_pop-cmd_create_pop store files name asked generated entry dir version k works first log did
        i args ttl now later resolved found loaded same verified at no_hash hw pw no_dot nonce_fits
        positive fits early late =
      let (kid, signer, by_role, accepted) =
        verify_pop-pop_jwt from_slice to_vec multicodec stored entry dir version k works first log
          did i args (nonce_or asked generated) ttl now later loaded same verified at no_hash hw pw
          no_dot nonce_fits fits early late in
      (
        pop_jwt to_vec entry.did kid signer (nonce_or asked generated) ttl now,
        cmd_create_pop-printed store files name authorized asked ttl version generated now entry dir
            kid signer positive resolved found by_role,
        accepted,
      )
