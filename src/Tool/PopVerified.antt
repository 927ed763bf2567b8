-- ===== src/Tool/PopVerified.antt =====
-- What a proof of possession is that the tool accepts.
use swiyu_rs.Prelude.{
  ℕ, ◌+◌, ◌<◌, ◌≤◌, ◌≡◌, ◌⊎◌, inl, inr, refl, Bool, true, false, ◌&&◌, not, Option, none, some,
  List, [], ◌∷◌, ◌++◌, Result, ok, guard, ok_or, map_err, length, leb, arith, sym,
}
use swiyu_rs.Prelude.{
  Ensures, returns, Ensures-ok, Ensures-bind, Ensures-guard, Ensures-weaken, ok_or-eq-ok,
  map_err-eq-ok, guard-eq-ok,
}
use swiyu_rs.Prelude.Text.{Text, text, text_eq, text_eq_sound, split}
use swiyu_rs.Json.Interface.{Json}
use swiyu_rs.Vendor.Encoding.{Base64}
use swiyu_rs.Vendor.Crypto.{Bs58, Ed25519, P256}
use swiyu_rs.DidLog.Entry.{DidLogEntry}
use swiyu_rs.KeyStore.Entry.{KeyRole}
use swiyu_rs.Jws.Verify.{alg_of, signature_verifies, key_verify, is_supported}
use swiyu_rs.Jws.Embedded.{key_verify_iff}
use swiyu_rs.Tool.PopVerify.{PopError, pop_error_of, KidShape, parse_kid, Context, resolve_context}
use swiyu_rs.Tool.PopCheck.{
  PopArgs, Claims, three_parts, check_iss, check_nonce, decode_part_json, text_claim, number_claim,
  check_claims, check_signature, verify_pop,
}

-- A text is the one that is asked for, if one is.
abbrev pub Fits : Option Text → Text → Type 0
Fits none s = Unit
Fits (some wanted) s = s ≡ wanted

check_iss_sound : (o : Option Text) (s : Text) → Ensures (λ _. Fits o s) (check_iss o s)
check_iss_sound none s = returns tt
check_iss_sound (some wanted) s = Ensures-guard _ _ λ h. text_eq_sound s wanted h

check_nonce_sound : (o : Option Text) (s : Text) → Ensures (λ _. Fits o s) (check_nonce o s)
check_nonce_sound none s = returns tt
check_nonce_sound (some wanted) s = Ensures-guard _ _ λ h. sym (text_eq_sound wanted s h)

not_expired :
    (exp now : ℕ) (allowed : Bool)
    → not (leb exp now && not allowed) ≡ true
    → (now < exp) ⊎ (allowed ≡ true)
not_expired exp now true h = inr refl
not_expired exp now false h = inl (ground arith)

module _ ⦃j : Json⦄ where
  open j use {Value}

  -- The claims of a payload that are wanted at the time `now`.
  pub record ClaimsHold (iss_constraint : Option Text) (args : PopArgs) (now : ℕ) (payload : Value)
      (claims : Claims) : Type 0 where
    pub iss_at : text_claim payload (text "iss") ≡ some claims.iss
    pub iat_at : number_claim payload (text "iat") ≡ some claims.iat
    pub exp_at : number_claim payload (text "exp") ≡ some claims.exp
    pub nonce_at : text_claim payload (text "nonce") ≡ some claims.nonce
    pub iss_fits : Fits iss_constraint claims.iss
    pub nonce_fits : Fits args.nonce claims.nonce
    pub not_early : claims.iat ≤ now + 60
    pub in_time : (now < claims.exp) ⊎ (args.allow_expired ≡ true)
    pub expired_eq : claims.is_expired ≡ leb claims.exp now

  check_claims_sound :
      (iss_constraint : Option Text) (args : PopArgs) (now : ℕ) (payload : Value)
      → Ensures
          (ClaimsHold iss_constraint args now payload)
          (check_claims iss_constraint args now payload)
  unfolding check_claims
  check_claims_sound iss_constraint args now payload =
      Ensures-bind (ok_or (text_claim payload (text "iss")) _) _ λ iss e1.
        Ensures-bind (check_iss iss_constraint iss) _ λ _ e2.
          Ensures-bind (ok_or (number_claim payload (text "iat")) _) _ λ iat e3.
            Ensures-bind (ok_or (number_claim payload (text "exp")) _) _ λ exp e4.
              Ensures-bind (guard (leb iat (now + 60)) _) _ λ _ e5.
                Ensures-bind (guard (not (leb exp now && not args.allow_expired)) _) _ λ _ e6.
                  Ensures-bind (ok_or (text_claim payload (text "nonce")) _) _ λ nonce e7.
                    Ensures-bind (check_nonce args.nonce nonce) _ λ _ e8.
                      let early = guard-eq-ok (leb iat (now + 60)) _ e5 in
                      returns (record {
                        iss_at = ok_or-eq-ok (text_claim payload (text "iss")) _ e1;
                        iat_at = ok_or-eq-ok (number_claim payload (text "iat")) _ e3;
                        exp_at = ok_or-eq-ok (number_claim payload (text "exp")) _ e4;
                        nonce_at = ok_or-eq-ok (text_claim payload (text "nonce")) _ e7;
                        iss_fits = Ensures-ok (check_iss_sound iss_constraint iss) e2;
                        nonce_fits = Ensures-ok (check_nonce_sound args.nonce nonce) e8;
                        not_early = ground arith;
                        in_time = not_expired exp now args.allow_expired (guard-eq-ok _ _ e6);
                        expired_eq = refl;
                      })

module _ ⦃j : Json⦄ ⦃e : Base64⦄ ⦃b : Bs58⦄ ⦃c : Ed25519⦄ ⦃p : P256⦄
    (from_slice : List ℕ → Result Text j.Value) (multicodec : ℕ → ℕ → Text)
    (load : Option (Result PopError (List (DidLogEntry j.Value))))
    (stored : Text → Result PopError (KeyRole → Result PopError p.VerifyingKey)) where
  open j use {Value}

  -- The three parts of a JWT whose header names a key and its algorithm, and whose signature is that
  -- key's of the first two parts.
  pub record SignatureHolds (jwt : Text) (context : Context) (payload : Value) : Type 0 where
    pub header_part : Text
    pub payload_part : Text
    pub signature_part : Text
    pub header : Value
    pub kid : Text
    pub shape : KidShape
    pub signature : List ℕ
    pub parts_eq : split b'.' jwt ≡ header_part ∷ payload_part ∷ signature_part ∷ []
    pub header_eq : decode_part_json from_slice header_part (text "header") ≡ ok header
    pub payload_eq : decode_part_json from_slice payload_part (text "payload") ≡ ok payload
    pub signature_eq : e.decode signature_part ≡ ok signature
    pub alg_at : text_claim header (text "alg") ≡ some (alg_of context.key)
    pub kid_at : text_claim header (text "kid") ≡ some kid
    pub shape_eq : parse_kid kid ≡ ok shape
    pub context_eq : resolve_context multicodec load stored kid shape ≡ ok context
    pub size : length signature ≡ 64
    pub valid : signature_verifies context.key (header_part ++ b'.' ∷ payload_part) signature ≡ true

  three_parts_sound :
      (parts : List Text) {h p s : Text} → three_parts parts ≡ ok (h, p, s) → parts ≡ h ∷ p ∷ s ∷ []
  three_parts_sound [] e = absurd (cc)
  three_parts_sound (h ∷ []) e = absurd (cc)
  three_parts_sound (h ∷ p ∷ []) e = absurd (cc)
  three_parts_sound (h ∷ p ∷ s ∷ []) e = cc
  three_parts_sound (h ∷ p ∷ s ∷ t ∷ rest) e = absurd (cc)

  check_signature_sound :
      (jwt : Text)
      → Ensures
          (λ (r : Context × Value). SignatureHolds jwt (r.0) (r.1))
          (check_signature from_slice multicodec load stored jwt)
  unfolding check_signature
  check_signature_sound jwt = Ensures-bind (three_parts (split b'.' jwt)) _ λ (h, p, s) e1.
      Ensures-bind (decode_part_json from_slice h (text "header")) _ λ header e2.
        Ensures-bind (decode_part_json from_slice p (text "payload")) _ λ payload e3.
          Ensures-bind (map_err _ (e.decode s)) _ λ signature e4.
            Ensures-bind (ok_or (text_claim header (text "alg")) _) _ λ alg e5.
              Ensures-bind (guard (is_supported alg) _) _ λ _ e6.
                Ensures-bind (ok_or (text_claim header (text "kid")) _) _ λ kid e7.
                  Ensures-bind (parse_kid kid) _ λ shape e8.
                    Ensures-bind (resolve_context multicodec load stored kid shape) _ λ context e9.
                      Ensures-bind (guard (text_eq alg (alg_of context.key)) _) _ λ _ e10.
                        Ensures-bind
                          (map_err pop_error_of (key_verify context.key (h ++ b'.' ∷ p) signature))
                          _
                          λ _ e11.
                            let alg_at = ok_or-eq-ok (text_claim header (text "alg")) _ e5 in
                            let same = text_eq_sound alg _ (guard-eq-ok _ _ e10) in
                            let verified =
                              (key_verify_iff context.key (h ++ b'.' ∷ p) signature).0
                                (map_err-eq-ok pop_error_of _ e11) in
                            returns (record {
                              header_part = h;
                              payload_part = p;
                              signature_part = s;
                              header = header;
                              kid = kid;
                              shape = shape;
                              signature = signature;
                              parts_eq = three_parts_sound (split b'.' jwt) e1;
                              header_eq = e2;
                              payload_eq = e3;
                              signature_eq = map_err-eq-ok _ (e.decode s) e4;
                              alg_at = rw same at alg_at;
                              kid_at = ok_or-eq-ok (text_claim header (text "kid")) _ e7;
                              shape_eq = e8;
                              context_eq = e9;
                              size = verified.0;
                              valid = verified.1;
                            })

  verify_pop-Ensures :
      (args : PopArgs) (now : ℕ) (jwt : Text)
      → Ensures
          (λ claims.
            (context : Context) × (payload : Value) × SignatureHolds jwt context payload
            × ClaimsHold context.iss_constraint args now payload claims)
          (verify_pop from_slice multicodec load stored args now jwt)
  unfolding verify_pop
  verify_pop-Ensures args now jwt =
      Ensures-bind (check_signature from_slice multicodec load stored jwt) _
        λ (context, payload) e1.
          Ensures-weaken (check_claims_sound context.iss_constraint args now payload)
            λ claims held. (context, payload, Ensures-ok (check_signature_sound jwt) e1, held)

  -- A proof of possession that is accepted has three parts, a header that names the algorithm of the
  -- key that its kid resolves to, a signature of 64 bytes by that key of the first two parts, and a
  -- payload with the issuer and the nonce asked for, issued no more than 60 seconds from now, and not
  -- expired unless that is allowed.
  pub verify_pop_sound :
      (args : PopArgs) (now : ℕ) (jwt : Text) (claims : Claims)
      → verify_pop from_slice multicodec load stored args now jwt ≡ ok claims
      → (context : Context) × (payload : Value) × SignatureHolds jwt context payload
        × ClaimsHold context.iss_constraint args now payload claims
  verify_pop_sound args now jwt claims h = Ensures-ok (verify_pop-Ensures args now jwt) h
