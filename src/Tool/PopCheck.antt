-- ===== src/Tool/PopCheck.antt =====
-- `cmd_verify_pop` of swiyu-didtool/src/cmd/pop/verify.rs, from the text of the JWT on.
use swiyu_rs.Prelude.{
  ℕ, ◌+◌, ◌-◌, Bool, true, false, ◌&&◌, not, Option, none, some, List, [], ◌∷◌, ◌++◌, Result, ok,
  err, ◌>>=◌, guard, ok_or, map_err, and_then, length, leb,
}
use swiyu_rs.Prelude.Text.{Text, text, text_eq, split}
use swiyu_rs.Prelude.Decimal.{decimal}
use swiyu_rs.Json.Interface.{Json}
use swiyu_rs.Json.Access.{as_str, as_u64, as_object, member}
use swiyu_rs.Vendor.Encoding.{Base64}
use swiyu_rs.Vendor.Crypto.{Bs58, Ed25519, P256}
use swiyu_rs.DidLog.Entry.{DidLogEntry}
use swiyu_rs.KeyStore.Entry.{KeyRole}
use swiyu_rs.Jws.Verify.{alg_of, key_verify, is_supported}
use swiyu_rs.Tool.PopVerify.{
  PopError, jwt_malformed, not_supported_alg, key_mismatch, iss_mismatch, expired, not_yet_issued,
  nonce_mismatch, pop_error_of, human_duration, parse_kid, Context, resolve_context,
}

-- `args.nonce` and `args.allow_expired`
pub record PopArgs : Type 0 where
  pub nonce : Option Text
  pub allow_expired : Bool

-- What the summary shows of the claims
pub record Claims : Type 0 where
  pub iss : Text
  pub iat : ℕ
  pub exp : ℕ
  pub nonce : Text
  pub is_expired : Bool

abbrev iat_skew_secs : ℕ
iat_skew_secs = 60

-- The three parts between the dots
abbrev pub three_parts : List Text → Result PopError (Text × Text × Text)
three_parts (h ∷ p ∷ s ∷ []) = ok (h, p, s)
three_parts parts =
    err (jwt_malformed (text "expected 3 dot-separated parts, got " ++ decimal (length parts)))

-- `if let Some(expected) = … && … != expected { … }`
abbrev pub check_iss : Option Text → Text → Result PopError (Unit {0})
check_iss none iss = ok tt
check_iss (some wanted) iss = guard (text_eq iss wanted) (iss_mismatch wanted iss)

abbrev pub check_nonce : Option Text → Text → Result PopError (Unit {0})
check_nonce none nonce = ok tt
check_nonce (some wanted) nonce = guard (text_eq wanted nonce) (nonce_mismatch wanted nonce)

module _ ⦃j : Json⦄ where
  open j use {Value}

  abbrev pub text_claim : Value → Text → Option Text
  text_claim payload name = and_then (member payload name) as_str

  abbrev pub number_claim : Value → Text → Option ℕ
  number_claim payload name = and_then (member payload name) as_u64

  -- The checks behind that of the signature; `now` is the clock's.
  unfoldable pub check_claims : Option Text → PopArgs → ℕ → Value → Result PopError Claims
  unfolding human_duration
  check_claims iss_constraint args now payload = do
    iss ← ok_or (text_claim payload (text "iss")) (jwt_malformed (text "missing 'iss' in payload"))
    _ ← check_iss iss_constraint iss
    iat ←
        ok_or (number_claim payload (text "iat"))
          (jwt_malformed (text "missing or non-numeric 'iat'"))
    exp ←
        ok_or (number_claim payload (text "exp"))
          (jwt_malformed (text "missing or non-numeric 'exp'"))
    _ ← guard (leb iat (now + iat_skew_secs)) (not_yet_issued (human_duration (iat - now)))
    let is_expired = leb exp now
    _ ← guard (not (is_expired && not args.allow_expired)) (expired (human_duration (now - exp)))
    nonce ←
        ok_or (text_claim payload (text "nonce"))
          (jwt_malformed (text "missing 'nonce' in payload"))
    _ ← check_nonce args.nonce nonce
    ok (record { iss = iss; iat = iat; exp = exp; nonce = nonce; is_expired = is_expired })

module _ ⦃j : Json⦄ ⦃e : Base64⦄ where
  open j use {Value}

  abbrev is_object : Value → Bool
  is_object v = elim (as_object v) [ some m ↦ true | none ↦ false ]

  -- `from_slice` is serde_json's, with the text of its error.
  unfoldable pub decode_part_json :
      (from_slice : List ℕ → Result Text Value) → Text → Text → Result PopError Value
  decode_part_json from_slice part label = do
    bytes ← map_err (λ e. jwt_malformed (label ++ text " is not base64url: " ++ e)) (e.decode part)
    value ← map_err (λ e. jwt_malformed (label ++ text " is not JSON: " ++ e)) (from_slice bytes)
    _ ← guard (is_object value) (jwt_malformed (label ++ text " is not a JSON object"))
    ok value

module _ ⦃j : Json⦄ ⦃e : Base64⦄ ⦃b : Bs58⦄ ⦃c : Ed25519⦄ ⦃p : P256⦄
    (from_slice : List ℕ → Result Text j.Value) (multicodec : ℕ → ℕ → Text)
    (load : Option (Result PopError (List (DidLogEntry j.Value))))
    (stored : Text → Result PopError (KeyRole → Result PopError p.VerifyingKey)) where
  open j use {Value}

  -- The key of the JWT, with its constraint, and the payload
  unfoldable pub check_signature : Text → Result PopError (Context × Value)
  unfolding decode_part_json parse_kid resolve_context key_verify pop_error_of
  check_signature jwt = do
    (h, p, s) ← three_parts (split b'.' jwt)
    header ← decode_part_json from_slice h (text "header")
    payload ← decode_part_json from_slice p (text "payload")
    signature ← map_err (λ e. jwt_malformed (text "signature is not base64url: " ++ e)) (e.decode s)
    alg ← ok_or (text_claim header (text "alg")) (jwt_malformed (text "missing 'alg' in header"))
    _ ← guard (is_supported alg) (not_supported_alg alg)
    kid ← ok_or (text_claim header (text "kid")) (jwt_malformed (text "missing 'kid' in header"))
    shape ← parse_kid kid
    context ← resolve_context multicodec load stored kid shape
    _ ← guard (text_eq alg (alg_of context.key)) (key_mismatch alg (alg_of context.key))
    _ ← map_err pop_error_of (key_verify context.key (h ++ b'.' ∷ p) signature)
    ok (context, payload)

  unfoldable pub verify_pop : PopArgs → ℕ → Text → Result PopError Claims
  unfolding check_signature check_claims
  verify_pop args now jwt = do
    (context, payload) ← check_signature jwt
    check_claims context.iss_constraint args now payload
