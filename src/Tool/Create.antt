-- ===== src/Tool/Create.antt =====
-- swiyu-didtool/src/cmd/did/create.rs: the parts of a DID that a URL gives, the keys, and the line of
-- the genesis entry.
use swiyu_rs.Prelude.{
  ℕ, Bool, true, false, not, ◌&&◌, Option, none, some, List, [], ◌∷◌, ◌++◌, Result, ok, ◌>>=◌,
  guard, ok_or, map_err, and_then, get_elem?, if◌then◌else◌,
}
use swiyu_rs.Prelude.Text.{Text, text, text_eq, is_empty, strip_prefix, split, split_once, replace}
use swiyu_rs.Json.Interface.{Json, Shape}
use swiyu_rs.Json.Access.{as_array, member}
use swiyu_rs.Vendor.Encoding.{Base64}
use swiyu_rs.Vendor.Crypto.{Bs58, Sha256, JsonText}
use swiyu_rs.Did.Identifier.{Did, DidError, try_new_tdw, try_new_webvh, to_text}
use swiyu_rs.DidDoc.Document.{P256PublicKey}
use swiyu_rs.DidLog.Parameters.{LogEntryFormat, tdw03, web_vh10}
use swiyu_rs.DidLog.Entry.{entry_to_value}
use swiyu_rs.DidLog.Builders.{genesis_entry}
use swiyu_rs.DidLog.Edits.{strip_proof_slot, set_version_id, append_proof}
use swiyu_rs.DidLog.Hash.{derive_scid, derive_entry_hash}
use swiyu_rs.DataIntegrity.Config.{
  eddsa_jcs_2022, ProofPurpose, authentication, assertion_method, ProofConfig,
}
use swiyu_rs.DataIntegrity.Proof.{sign, proof_to_value}
use swiyu_rs.KeyStore.Entry.{KeyFormats, StagedKeys}
use swiyu_rs.Tool.Update.{SigningKey, multikey_of}

-- The errors before anything is written, without those of the registry
pub data CreateError : Type 0 where
  url authorized_key authentication_key assertion_key json : Text → CreateError
  identical_keys : CreateError
  did_error : DidError → CreateError

-- `split_once` where the source slices around what `find` gives
abbrev host_and_path : Text → Option (Text × Text) → Text × Text
host_and_path rest none = (rest, [])
host_and_path rest (some parts) = parts

abbrev did_host : Text → Option (Text × Text) → Text
did_host host none = host
did_host host (some (name, port)) = name ++ text "%3A" ++ port

-- `filter(|s| !s.is_empty())`
unfoldable pub non_empty : List Text → List Text
non_empty [] = []
non_empty (s ∷ ss) = let rest = non_empty ss in if is_empty s then rest else s ∷ rest

-- The last segment is left out, where it is the file's name.
unfoldable pub without_file : List Text → List Text
without_file [] = []
without_file (s ∷ []) = if text_eq s (text "did.jsonl") then [] else s ∷ []
without_file (s ∷ r ∷ ss) = s ∷ without_file (r ∷ ss)

unfoldable pub join : ℕ → List Text → Text
join sep [] = []
join sep (s ∷ []) = s
join sep (s ∷ r ∷ ss) = s ++ sep ∷ join sep (r ∷ ss)

unfoldable pub did_path : List Text → Option Text
unfolding join
did_path [] = none
did_path (s ∷ []) = if text_eq s (text ".well-known") then none else some s
did_path (s ∷ r ∷ ss) = some (join b':' (s ∷ r ∷ ss))

unfoldable pub url_to_did_components : Text → Result CreateError (Text × Option Text)
unfolding non_empty without_file did_path
url_to_did_components u = do
  rest ← ok_or (strip_prefix (text "https://") u) (url (text "URL must use https:// scheme: " ++ u))
  let (host, path_str) = host_and_path rest (split_once b'/' rest)
  _ ← guard (not (is_empty host)) (url (text "URL is missing a host"))
  ok (
    did_host host (split_once b':' host),
    did_path (without_file (non_empty (split b'/' path_str))),
  )

unfoldable pub build_did : LogEntryFormat → Option Text → Text → Option Text → Result DidError Did
unfolding try_new_tdw try_new_webvh
build_did tdw03 scid domain path = try_new_tdw scid domain path
build_did web_vh10 scid domain path = try_new_webvh scid domain path

module _ ⦃f : KeyFormats⦄ where
  -- The key that is imported, or the one that is generated
  abbrev imported_or :
      {K : Type 0} → (Text → CreateError) → Option (Result Text K) → K → Result CreateError K
  imported_or role none generated = ok generated
  imported_or role (some read) generated = map_err role read

  abbrev both_imported : {A B : Type 0} → Option A → Option B → Bool
  both_imported (some a) (some b) = true
  both_imported _ _ = false

  -- The key files that are named, as they read, and keys that are generated; `same_key` is `==` of
  -- p256's verifying keys.
  unfoldable pub prepare_keys :
      (same_key : f.P256VerifyingKey → f.P256VerifyingKey → Bool)
      → Option (Result Text f.Ed25519Key)
      → Option (Result Text f.P256Key)
      → Option (Result Text f.P256Key)
      → (generated : StagedKeys) → Result CreateError StagedKeys
  prepare_keys same_key authorized authn assertn generated = do
    k ← imported_or authorized_key authorized generated.authorized_signing
    l ← imported_or authentication_key authn generated.authentication_signing
    m ← imported_or assertion_key assertn generated.assertion_signing
    _ ←
        guard (not (both_imported authn assertn && same_key (f.p256_public l) (f.p256_public m)))
          identical_keys
    ok (record { authorized_signing = k; authentication_signing = l; assertion_signing = m })

module _ ⦃j : Json⦄ where
  open j use {Value}

  -- A member or an element that is not there is null.
  abbrev or_null : Option Value → Value
  or_null none = j.value Shape.null
  or_null (some v) = v

  abbrev pub document_for_hash : LogEntryFormat → Value → Value
  document_for_hash tdw03 v =
      or_null
        (and_then (and_then (as_array v) (λ arr. get_elem? arr 3)) (λ s. member s (text "value")))
  document_for_hash web_vh10 v =
      or_null (and_then (member v (text "state")) (λ s. member s (text "value")))

abbrev purpose_of : LogEntryFormat → ProofPurpose
purpose_of tdw03 = authentication
purpose_of web_vh10 = assertion_method

module _ ⦃j : Json⦄ ⦃t : JsonText j⦄ ⦃b : Bs58⦄ ⦃s : Sha256⦄ ⦃e : Base64⦄ where
  open j use {Value}

  -- The entry with the placeholder, and without a proof
  unfoldable pub preliminary_entry :
      LogEntryFormat → Text → Did → P256PublicKey → P256PublicKey → Text → Value
  unfolding genesis_entry entry_to_value strip_proof_slot to_text
  preliminary_entry format multikey placeholder authn assertn now =
      strip_proof_slot
        (entry_to_value (genesis_entry format multikey (to_text placeholder) authn assertn now))
        format

  -- The entry with its SCID, its version id and its proof
  unfoldable pub completed : LogEntryFormat → SigningKey → Text → Value → Value
  unfolding set_version_id append_proof
  completed format key now with_scid =
      let version_id = text "1-" ++ derive_entry_hash with_scid in
      let numbered = set_version_id with_scid version_id format in
      let multikey = multikey_of key in
      let options : ProofConfig = record {
        cryptosuite = eddsa_jcs_2022;
        verification_method = text "did:key:" ++ multikey ++ b'#' ∷ multikey;
        proof_purpose = purpose_of format;
        challenge = version_id;
        created = now;
      } in
      append_proof numbered
        (proof_to_value (sign key.signer (document_for_hash format numbered) options)) format

  -- `cmd_create`, from the parts of the DID and the keys to the entry that is written and its DID
  unfoldable pub create_entry :
      LogEntryFormat
      → Text
      → Option Text
      → SigningKey
      → P256PublicKey
      → P256PublicKey
      → Text
      → Result CreateError (Value × Did)
  unfolding build_did preliminary_entry completed derive_scid
  create_entry format domain path key authn assertn now = do
    placeholder ← map_err did_error (build_did format none domain path)
    let prelim = preliminary_entry format (multikey_of key) placeholder authn assertn now
    let scid = derive_scid prelim
    prelim_str ← map_err json (t.to_string prelim)
    with_scid ← map_err json (t.from_str (replace prelim_str (text "{SCID}") scid))
    real_did ← map_err did_error (build_did format (some scid) domain path)
    ok (completed format key now with_scid, real_did)
