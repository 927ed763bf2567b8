-- ===== src/Tool/PopAccepted.antt =====
-- A proof of possession that the tool makes is accepted by its verification.
use swiyu_rs.Prelude.{
  ℕ, ◌+◌, ◌%◌, ◌^◌, ◌≤◌, ◌<◌, ◌≡◌, refl, true, false, Option, none, some, List, [], ◌∷◌, ◌++◌,
  Result, ok, length, leb, All, get_elem?, arith, append_assoc,
}
use swiyu_rs.Prelude.Text.{Text, text, text_eq_refl, split, Lacks}
use swiyu_rs.Prelude.Text.{strip_prefix, split_once-append}
use swiyu_rs.Prelude.Splits.{split-Lacks, split-part}
use swiyu_rs.Prelude.Bytes.{IsByte}
use swiyu_rs.Json.Interface.{Json}
use swiyu_rs.Json.Access.{object, as_u64-u64, as_object-object, json_laws}
use swiyu_rs.Vendor.Encoding.{Base64}
use swiyu_rs.Vendor.Crypto.{Bs58, Ed25519, P256}
use swiyu_rs.DidLog.Entry.{DidLogEntry}
use swiyu_rs.KeyStore.Entry.{KeyFormats, KeyRole}
use swiyu_rs.Jws.Verify.{alg_of, signature_verifies}
use swiyu_rs.Jws.Embedded.{key_verify_iff, alg_of-is_supported}
use swiyu_rs.Tool.PopVerify.{PopError, KidShape, parse_kid, Context, resolve_context}
use swiyu_rs.Tool.PopCheck.{
  PopArgs, decode_part_json, check_iss, check_nonce, check_claims, check_signature, verify_pop,
}
use swiyu_rs.Tool.PopVerified.{Fits}
use swiyu_rs.Tool.PopContext.{current_did-LogVerified, authorized_keys-latest}
use swiyu_rs.Tool.Update.{SigningKey, multikey_of}
use swiyu_rs.Tool.Updated.{Works}
use swiyu_rs.DidDoc.Multibase.{multibase_from_text, ed25519_verifying_key_to_multikey}
use swiyu_rs.DidLog.ProofLemmas.{did_key_url, contains_key_complete}
use swiyu_rs.DidLog.Chain.{LogVerified, authorized_keys}
use swiyu_rs.Did.Identifier.{Did, to_text}
use swiyu_rs.KeyStore.Entry.{authorized, EntryDir, load_eddsa}
use swiyu_rs.KeyStore.Store.{Handle}
use swiyu_rs.Jws.Verify.{ed25519}
use swiyu_rs.Tool.PopVerify.{
  did_key, decode_multikey, multikey_bytes_of, latest_update_keys, unwrap_keys,
}
use swiyu_rs.Vendor.Crypto.{Sha256, JsonText}
use swiyu_rs.Tool.PopCreate.{eddsa, resolve_role}
use swiyu_rs.Tool.PopCreate.{
  Signing, Signer, signer_alg, signer_sign, pop_header, pop_payload, signing_input, signed_jwt,
  pop_jwt,
}

Fits-check_iss : (o : Option Text) (s : Text) → Fits o s → check_iss o s ≡ ok tt
Fits-check_iss none s h = refl
Fits-check_iss (some wanted) s h = rw (h, text_eq_refl wanted) refl

Fits-check_nonce : (o : Option Text) (s : Text) → Fits o s → check_nonce o s ≡ ok tt
Fits-check_nonce none s h = refl
Fits-check_nonce (some wanted) s h = rw (h, text_eq_refl wanted) refl

module _ ⦃j : Json⦄ where
  open j use {Value}

  check_claims-pop_payload :
      (iss_constraint : Option Text) (args : PopArgs) (did nonce : Text) (now later exp : ℕ)
      → Fits iss_constraint did
      → Fits args.nonce nonce
      → exp < 2 ^ 64
      → now < 2 ^ 64
      → now ≤ later + 60
      → later < exp
      → check_claims iss_constraint args later (pop_payload did now exp nonce)
        ≡ ok (record { iss = did; iat = now; exp = exp; nonce = nonce; is_expired = false })
  unfolding check_claims
  check_claims-pop_payload iss_constraint args did nonce now later exp iss_fits nonce_fits small
        smaller early late =
      let not_early : leb now (later + 60) ≡ true = ground arith in
      let in_time : leb exp later ≡ false = ground arith in
      simp (
        json_laws,
        as_u64-u64 now smaller,
        as_u64-u64 exp small,
        Fits-check_iss iss_constraint did iss_fits,
        Fits-check_nonce args.nonce nonce nonce_fits,
        not_early,
        in_time,
      )

module _ ⦃j : Json⦄ ⦃e : Base64⦄ where
  open j use {Value}

  decode_part_json-encode :
      (from_slice : List ℕ → Result Text Value) (to_vec : Value → List ℕ) (label : Text) (m : j.Map)
      → All IsByte (to_vec (object m))
      → from_slice (to_vec (object m)) ≡ ok (object m)
      → decode_part_json from_slice (e.encode (to_vec (object m))) label ≡ ok (object m)
  unfolding decode_part_json
  decode_part_json-encode from_slice to_vec label m bytes back =
      ground (arith, e.decode-encode (to_vec (object m)) bytes, back, as_object-object m)

module _ ⦃j : Json⦄ ⦃e : Base64⦄ (from_slice : List ℕ → Result Text j.Value)
    (to_vec : j.Value → List ℕ) where
  open j use {Value}

  -- serde_json and base64 write a value so that it reads back, and without a dot.
  pub record Written (v : Value) : Type 0 where
    pub written-IsByte : All IsByte (to_vec v)
    pub read_back : from_slice (to_vec v) ≡ ok v
    pub no_dot : Lacks b'.' (e.encode (to_vec v))

module _ ⦃j : Json⦄ ⦃e : Base64⦄ ⦃b : Bs58⦄ ⦃c : Ed25519⦄ ⦃p : P256⦄
    (from_slice : List ℕ → Result Text j.Value) (to_vec : j.Value → List ℕ)
    (multicodec : ℕ → ℕ → Text) (load : Option (Result PopError (List (DidLogEntry j.Value))))
    (stored : Text → Result PopError (KeyRole → Result PopError p.VerifyingKey)) where
  open j use {Value}

  check_signature-signed_jwt :
      (sign : List ℕ → List ℕ) (kid : Text) (payload_map : j.Map) (shape : KidShape)
      (context : Context)
      → parse_kid kid ≡ ok shape
      → resolve_context multicodec load stored kid shape ≡ ok context
      → Written from_slice to_vec (pop_header (alg_of context.key) kid)
      → Written from_slice to_vec (object payload_map)
      → (signature : List ℕ)
      → sign (signing_input to_vec (pop_header (alg_of context.key) kid) (object payload_map))
        ≡ signature
      → All IsByte signature
      → length signature ≡ 64
      → Lacks b'.' (e.encode signature)
      → signature_verifies context.key
          (signing_input to_vec (pop_header (alg_of context.key) kid) (object payload_map))
          signature
        ≡ true
      → check_signature from_slice multicodec load stored
          (signed_jwt to_vec sign (pop_header (alg_of context.key) kid) (object payload_map))
        ≡ ok (context, object payload_map)
  unfolding check_signature signed_jwt
  check_signature-signed_jwt sign kid payload_map shape context shaped resolved hw pw signature made
        bytes size plain valid =
      let header = pop_header (alg_of context.key) kid in
      let h = e.encode (to_vec header) in
      let q = e.encode (to_vec (object payload_map)) in
      let parts : split b'.' (h ++ b'.' ∷ q ++ b'.' ∷ e.encode signature)
          ≡ h ∷ q ∷ e.encode signature ∷ [] =
        rw
          (
            append_assoc h (b'.' ∷ q) (b'.' ∷ e.encode signature),
            split-part b'.' h (q ++ b'.' ∷ e.encode signature) hw.no_dot,
            split-part b'.' q (e.encode signature) pw.no_dot,
            split-Lacks b'.' (e.encode signature) plain,
          )
          refl in
      let verified = (key_verify_iff context.key (h ++ b'.' ∷ q) signature).1 (size, valid) in
      rw (made, parts)
        (simp (
          decode_part_json-encode from_slice to_vec (text "header") _ hw.written-IsByte
              hw.read_back,
          decode_part_json-encode from_slice to_vec (text "payload") payload_map pw.written-IsByte
              pw.read_back,
          e.decode-encode signature bytes,
          json_laws,
          alg_of-is_supported context.key,
          shaped,
          resolved,
          text_eq_refl (alg_of context.key),
          verified,
        ))

module _ ⦃f : KeyFormats⦄ ⦃g : Signing⦄ where
  -- A key of the key store, as one of an Ed25519 signer
  abbrev pub as_signing_key : f.Ed25519Key → SigningKey
  as_signing_key k = record {
    public_bytes = g.ed25519_bytes (f.ed25519_public k);
    signer = g.ed25519_sign k;
  }

module _ ⦃j : Json⦄ ⦃t : JsonText j⦄ ⦃s : Sha256⦄ ⦃e : Base64⦄ ⦃b : Bs58⦄ ⦃c : Ed25519⦄ ⦃p : P256⦄
    ⦃f : KeyFormats⦄ ⦃g : Signing⦄ (from_slice : List ℕ → Result Text j.Value)
    (to_vec : j.Value → List ℕ) (multicodec : ℕ → ℕ → Text)
    (stored : Text → Result PopError (KeyRole → Result PopError p.VerifyingKey)) where
  open j use {Value}

  decode_multikey-multikey_of :
      (key : SigningKey) (works : Works key)
      → decode_multikey multicodec (multikey_of key) ≡ ok (ed25519 works.verifying_key)
  unfolding decode_multikey multikey_bytes_of multibase_from_text ed25519_verifying_key_to_multikey
  decode_multikey-multikey_of key works = simp (
    b.decode-encode (0xed ∷ 0x01 ∷ key.public_bytes)
        (omega arith, (omega arith, works.public-IsByte)),
    works.length-public,
    works.from_bytes-public,
  )

  parse_kid-did_key_url : (mk : Text) → Lacks b'#' mk → parse_kid (did_key_url mk) ≡ ok (did_key mk)
  unfolding parse_kid strip_prefix
  parse_kid-did_key_url mk h = simp (split_once-append b'#' mk mk h, text_eq_refl mk)

  -- By a verified log, the kid of a key that may sign the next entry resolves to that key.
  resolve_context-authorized :
      (first : DidLogEntry Value) (log : List (DidLogEntry Value)) (did : Did) (key : SigningKey)
      (works : Works key) (i : ℕ)
      → LogVerified (first ∷ log) did
      → get_elem? (authorized_keys (first ∷ log) (length (first ∷ log))) i ≡ some (multikey_of key)
      → resolve_context multicodec
          (some (ok (first ∷ log)))
          stored
          (did_key_url (multikey_of key))
          (did_key (multikey_of key))
        ≡ ok (record { key = ed25519 works.verifying_key; iss_constraint = some (to_text did) })
  unfolding resolve_context
  resolve_context-authorized first log did key works i verified at =
      let current = current_did-LogVerified first log did verified in
      let known =
        contains_key_complete (unwrap_keys (latest_update_keys (first ∷ log))) i (multikey_of key)
          (rw (authorized_keys-latest first log) at) in
      simp (decode_multikey-multikey_of key works, current, known)

  -- By a verified log, the proof of possession that is made with the authorized key of an entry of
  -- the key store, where the key works and may sign the log's next entry and the entry is that of the
  -- log's DID, is accepted with its claims: if the header, the payload and the signature are written
  -- so that they read back and have no dot, until it expires, and for the nonce asked for.
  pub verify_pop-pop_jwt :
      (entry : Handle) (dir : EntryDir) (version : Option ℕ) (k : f.Ed25519Key)
      (works : Works (as_signing_key k)) (first : DidLogEntry Value)
      (log : List (DidLogEntry Value)) (did : Did) (i : ℕ) (args : PopArgs) (nonce : Text)
      (ttl now later : ℕ)
      → load_eddsa entry.hash dir authorized version ≡ ok k
      → entry.did ≡ to_text did
      → LogVerified (first ∷ log) did
      → get_elem? (authorized_keys (first ∷ log) (length (first ∷ log))) i
        ≡ some (multikey_of (as_signing_key k))
      → Lacks b'#' (multikey_of (as_signing_key k))
      → Written from_slice to_vec
          (pop_header (text "EdDSA") (did_key_url (multikey_of (as_signing_key k))))
      → Written from_slice to_vec (pop_payload (to_text did) now (now + ttl) nonce)
      → Lacks b'.' (
          e.encode (
            g.ed25519_sign k (
              signing_input to_vec
                (pop_header (text "EdDSA") (did_key_url (multikey_of (as_signing_key k))))
                (pop_payload (to_text did) now (now + ttl) nonce))))
      → Fits args.nonce nonce
      → now + ttl < 2 ^ 64
      → now ≤ later + 60
      → later < now + ttl
      → (kid : Text) × (signer : Signer) × (resolve_role entry dir authorized version
          ≡ ok (kid, signer))
        × (verify_pop from_slice multicodec
              (some (ok (first ∷ log)))
              stored
              args
              later
              (pop_jwt to_vec entry.did kid signer nonce ttl now)
            ≡ ok (record {
              iss = to_text did;
              iat = now;
              exp = now + ttl;
              nonce = nonce;
              is_expired = false;
            }))
  unfolding pop_jwt verify_pop resolve_role alg_of signer_alg signer_sign signature_verifies
  verify_pop-pop_jwt entry dir version k works first log did i args nonce ttl now later loaded same
        verified at no_hash hw pw no_dot nonce_fits fits early late =
      let key = as_signing_key k in
      let kid = did_key_url (multikey_of key) in
      let input =
        signing_input to_vec (pop_header (text "EdDSA") kid)
          (pop_payload (to_text did) now (now + ttl) nonce) in
      let wrapped : (now + ttl) % 2 ^ 64 ≡ now + ttl = omega arith in
      let checked =
        check_signature-signed_jwt from_slice to_vec multicodec (some (ok (first ∷ log))) stored
          (g.ed25519_sign k) kid _ (did_key (multikey_of key))
          (record { key = ed25519 works.verifying_key; iss_constraint = some (to_text did) })
          (parse_kid-did_key_url (multikey_of key) no_hash)
          (resolve_context-authorized first log did key works i verified at) hw pw
          (g.ed25519_sign k input) refl (works.signer-IsByte input) (works.length-signer input)
          no_dot (works.verify-signer input) in
      let claimed =
        check_claims-pop_payload (some (to_text did)) args (to_text did) nonce now later (now + ttl)
          refl nonce_fits fits (omega arith) early late in
      (kid, eddsa k, rw loaded refl, rw (same, wrapped, checked) claimed)
