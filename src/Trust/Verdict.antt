-- ===== src/Trust/Verdict.antt =====
-- The verdict on all statements of a DID.
use swiyu_rs.Prelude.{
  ℕ, suc, ◌≡◌, refl, true, some, List, [], ◌∷◌, Result, ok, map_err, get_elem?, leb, All,
  All-weaken, arith, Bool-cases, inl, inr,
}
use swiyu_rs.Prelude.{Ensures, returns, Ensures-ok, Ensures-bind, map_err-eq-ok}
use swiyu_rs.Prelude.Text.{Text}
use swiyu_rs.Json.Interface.{Json}
use swiyu_rs.Vendor.Encoding.{Base64, Zlib}
use swiyu_rs.Vendor.Crypto.{Bs58, Sha256, Ed25519, P256, JsonText}
use swiyu_rs.Vendor.Web.{Web, Dates}
use swiyu_rs.SdJwt.Statement.{TrustStatement, try_from_jwt}
use swiyu_rs.Trust.Error.{VerifyContext, Report}
use swiyu_rs.Trust.Verify.{verify_one, verify_all}
use swiyu_rs.Trust.Command.{
  trusted, insert_by_iat, newest_first, trusted_count, outcome_of, new_context, decode_all,
  verify_statements,
}
use swiyu_rs.Trust.Lists.{ContextHolds}
use swiyu_rs.Trust.Trusted.{StatementTrusted, verify_one_sound}

module _ {κ} (P : TrustStatement → Type κ) where
  All-insert_by_iat :
      (s : TrustStatement) (ss : List TrustStatement) → P s → All P ss → All P (insert_by_iat s ss)
  unfolding insert_by_iat
  All-insert_by_iat s [] h hs = (h, tt)
  All-insert_by_iat s (r ∷ rs) h (hr, hs) = elim (Bool-cases (leb r.iat s.iat)) [
    | inl e ↦ rw e (h, (hr, hs))
    | inr e ↦ rw e (hr, All-insert_by_iat s rs h hs)
  ]

  All-newest_first : (ss : List TrustStatement) → All P ss → All P (newest_first ss)
  unfolding newest_first
  All-newest_first [] h = tt
  All-newest_first (s ∷ ss) (h, hs) =
      All-insert_by_iat s (newest_first ss) h (All-newest_first ss hs)

-- Reports with a positive verdict among them
counted :
    {P : Report → Type 0} (rs : List Report)
    → All P rs
    → outcome_of rs ≡ trusted
    → (r : Report) × P r × (r.verdict ≡ true)
unfolding trusted_count
counted [] h e = absurd (ground arith)
counted (r ∷ rs) (h, hs) e = elim (Bool-cases r.verdict) [
  | inl f ↦ (r, h, f)
  | inr f ↦ counted rs hs (rw f at e)
]

module _ ⦃j : Json⦄ ⦃e : Base64⦄ ⦃s : Sha256⦄ (members : j.Map → List (Text × j.Value))
    (from_slice : List ℕ → Result Text j.Value) where
  -- The statement is one of the texts, decoded.
  pub record StatementFrom (array : List Text) (stmt : TrustStatement) : Type 0 where
    pub index : ℕ
    pub jwt : Text
    pub jwt_at : get_elem? array index ≡ some jwt
    pub stmt_eq : try_from_jwt members from_slice jwt ≡ ok stmt

  later :
      (jwt : Text) (jwts : List Text) (stmt : TrustStatement)
      → StatementFrom jwts stmt
      → StatementFrom (jwt ∷ jwts) stmt
  later jwt jwts stmt h = record {
    index = suc h.index;
    jwt = h.jwt;
    jwt_at = h.jwt_at;
    stmt_eq = h.stmt_eq;
  }

  decode_all_sound :
      (i : ℕ) (array : List Text)
      → Ensures (All (StatementFrom array)) (decode_all members from_slice i array)
  unfolding decode_all
  decode_all_sound i [] = returns tt
  decode_all_sound i (jwt ∷ jwts) =
      Ensures-bind (map_err _ (try_from_jwt members from_slice jwt)) _ λ stmt e1.
        Ensures-bind (decode_all members from_slice (suc i) jwts) _ λ stmts e2. returns (
          record {
            index = 0;
            jwt = jwt;
            jwt_at = refl;
            stmt_eq = map_err-eq-ok _ (try_from_jwt members from_slice jwt) e1;
          },
          All-weaken (StatementFrom jwts) (StatementFrom (jwt ∷ jwts)) stmts (later jwt jwts)
              (Ensures-ok (decode_all_sound (suc i) jwts) e2),
        )

module _ ⦃j : Json⦄ ⦃t : JsonText j⦄ ⦃e : Base64⦄ ⦃b : Bs58⦄ ⦃c : Ed25519⦄ ⦃p : P256⦄ ⦃z : Zlib⦄
    ⦃w : Web⦄ ⦃d : Dates⦄ (from_slice : List ℕ → Result Text j.Value) where
  open j use {Value}

  -- A report is of a statement of which `P` holds, and a positive one is of a trusted statement.
  abbrev ReportHolds : (TrustStatement → Type 0) → Text → ℕ → Report → Type 0
  ReportHolds P issuer now r =
      P r.statement × (r.verdict ≡ true → StatementTrusted from_slice issuer now r.statement)

  verify_all_sound :
      (P : TrustStatement → Type 0) (stmts : List TrustStatement) (issuer : Text) (now : ℕ)
      (ctx : VerifyContext Value)
      → All P stmts
      → ContextHolds from_slice issuer ctx
      → Ensures (All (ReportHolds P issuer now)) (verify_all from_slice stmts now ctx)
  unfolding verify_all
  verify_all_sound P [] issuer now ctx hs holds = returns tt
  verify_all_sound P (stmt ∷ stmts) issuer now ctx (h, hs) holds =
      Ensures-bind (verify_one from_slice stmt now ctx) _ λ (report, next) e1.
        Ensures-bind (verify_all from_slice stmts now next) _ λ reports e2.
          let (same, sound, hold) =
            Ensures-ok (verify_one_sound from_slice stmt issuer now ctx holds) e1 in
          returns (
            (rw same h, λ v. rw same (sound v)),
            Ensures-ok (verify_all_sound P stmts issuer now next hs hold) e2,
          )

module _ ⦃j : Json⦄ ⦃t : JsonText j⦄ ⦃e : Base64⦄ ⦃s : Sha256⦄ ⦃b : Bs58⦄ ⦃c : Ed25519⦄ ⦃p : P256⦄
    ⦃z : Zlib⦄ ⦃w : Web⦄ ⦃d : Dates⦄ (members : j.Map → List (Text × j.Value))
    (from_slice : List ℕ → Result Text j.Value) where
  -- If the verdict on the texts is that the entity is trusted, one of them decodes to a statement whose
  -- issuer is the expected one, that is signed with an ES256 key of the last document served for the
  -- DID of its kid, that is within its time, and whose slot is valid in a status list that is served
  -- with the signature of a key of the expected issuer.
  pub verify_statements_sound :
      (issuer : Text) (now : ℕ) (array : List Text)
      → verify_statements members from_slice issuer now array ≡ ok trusted
      → (stmt : TrustStatement) × StatementFrom members from_slice array stmt
        × StatementTrusted from_slice issuer now stmt
  unfolding verify_statements
  verify_statements_sound issuer now [] h = absurd (cc)
  verify_statements_sound issuer now (jwt ∷ jwts) h =
      Ensures-ok
        (Ensures-bind
          {P = λ o.
            o ≡ trusted
            → (stmt : TrustStatement) × StatementFrom members from_slice (jwt ∷ jwts) stmt
              × StatementTrusted from_slice issuer now stmt}
          (decode_all members from_slice 0 (jwt ∷ jwts)) _
          λ decoded e1.
            Ensures-bind (verify_all from_slice (newest_first decoded) now (new_context issuer)) _
              λ reports e2. returns λ o.
                let from =
                  All-newest_first (StatementFrom members from_slice (jwt ∷ jwts)) decoded
                    (Ensures-ok (decode_all_sound members from_slice 0 (jwt ∷ jwts)) e1) in
                let sound =
                  Ensures-ok
                    (verify_all_sound from_slice (StatementFrom members from_slice (jwt ∷ jwts))
                      (newest_first decoded) issuer now (new_context issuer) from
                      (record { issuer_eq = refl; docs_hold = tt; lists_hold = tt }))
                    e2 in
                let (r, (here, trust), positive) = counted reports sound o in
                (r.statement, here, trust positive))
        h refl
