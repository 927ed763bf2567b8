-- ===== src/Trust/Complete.antt =====
-- A statement that is trusted gets a positive verdict.
use swiyu_rs.Prelude.{
  ℕ, ◌≤◌, ◌<◌, ◌≡◌, refl, true, false, Option, none, some, List, Result, ok, ap, sym, ◌∙◌, arith,
  ◌↔◌,
}
use swiyu_rs.Prelude.{Ensures-ok}
use swiyu_rs.Prelude.Text.{Text, text_eq, text_eq_refl}
use swiyu_rs.Prelude.Trim.{trim}
use swiyu_rs.Json.Interface.{Json}
use swiyu_rs.Vendor.Encoding.{Base64, Zlib}
use swiyu_rs.Vendor.Crypto.{Bs58, Ed25519, P256, JsonText}
use swiyu_rs.Vendor.Web.{Web, Dates}
use swiyu_rs.DidDoc.Document.{DidDoc}
use swiyu_rs.KeyStore.Dir.{Dir, find, put, All-find, All-put}
use swiyu_rs.Jws.Verify.{key_verify}
use swiyu_rs.Jws.Embedded.{key_verify_iff}
use swiyu_rs.Tool.Http.{found, FetchError}
use swiyu_rs.StatusList.Bitstring.{StatusList}
use swiyu_rs.StatusList.Slot.{valid}
use swiyu_rs.SdJwt.Statement.{TrustStatement}
use swiyu_rs.Trust.Error.{TrustError, VerifyContext, Check, passed, Report}
use swiyu_rs.Trust.Issuer.{fetch_issuer_doc, cached_doc, load_issuer_doc, find_verifying_key}
use swiyu_rs.Trust.StatusLists.{parse_and_verify_status_list, cached_list, load_status_list}
use swiyu_rs.Trust.Verify.{
  too_early, too_late, signature_check_of, status_check_of, slot_text, report_of, check_issuer,
  check_freshness, verify_signature, check_status, verify_one,
}
use swiyu_rs.Trust.Sources.{IssuerDoc, DocsHold, SignedBy}
use swiyu_rs.Trust.Lists.{SignedList, ListFrom, ContextHolds}
use swiyu_rs.Trust.Trusted.{
  InTime, SignatureTrusted, StatusTrusted, StatementTrusted, verify_one_sound,
}

module _ {ℓ κ} {E : Type ℓ} {A : Type κ} where
  ok-injective : {x y : A} → ◌≡◌ {A = Result E A} (ok x) (ok y) → x ≡ y
  ok-injective h = cc

module _ ⦃j : Json⦄ ⦃t : JsonText j⦄ ⦃b : Bs58⦄ ⦃w : Web⦄ where
  open j use {Value}

  fetch_issuer_doc_complete :
      (iss : Text) (doc : DidDoc Value) → IssuerDoc iss doc → fetch_issuer_doc iss ≡ ok doc
  unfolding fetch_issuer_doc
  fetch_issuer_doc_complete iss doc h =
      simp (h.did_eq, h.body_eq, h.log_eq, h.entry_eq, h.state_eq, h.doc_eq)

  -- The document is answered, from the cache or the log.
  load_issuer_doc_complete :
      (iss : Text) (doc : DidDoc Value) (docs : Dir (DidDoc Value))
      → DocsHold docs
      → IssuerDoc iss doc
      → (next : Dir (DidDoc Value)) × (load_issuer_doc iss docs ≡ ok (doc, next)) × DocsHold next
  unfolding load_issuer_doc
  load_issuer_doc_complete iss doc docs hold h = cached (find docs iss) refl
    where
      cached :
          (o : Option (DidDoc Value))
          → find docs iss ≡ o
          → (next : Dir (DidDoc Value)) × (cached_doc iss docs o ≡ ok (doc, next)) × DocsHold next
      cached (some other) at =
          let here = All-find (λ p. IssuerDoc (p.0) (p.1)) docs iss hold at in
          let same : other ≡ doc = ok-injective {E = TrustError} (
            sym (fetch_issuer_doc_complete iss other here) ∙ fetch_issuer_doc_complete iss doc h) in
          (docs, ap (λ (d : DidDoc Value). ok (d, docs)) same, hold)
      cached none at = (
        put docs iss doc,
        rw (fetch_issuer_doc_complete iss doc h) refl,
        All-put (λ p. IssuerDoc (p.0) (p.1)) docs iss doc hold h,
      )

module _ ⦃e : Base64⦄ ⦃c : Ed25519⦄ ⦃p : P256⦄ where
  find_verifying_key_complete :
      {V : Type 0} (doc : DidDoc V) (kid : Text) (input signature : List ℕ)
      → (h : SignedBy doc kid input signature)
      → (find_verifying_key doc kid ≡ ok h.key) × (key_verify h.key input signature ≡ ok tt)
  unfolding find_verifying_key
  find_verifying_key_complete doc kid input signature h = (
    simp (h.first_named, h.public_key_eq, h.key_eq, h.alg_eq),
    (key_verify_iff h.key input signature).1 (h.size, h.valid),
  )

module _ ⦃d : Dates⦄ where
  check_freshness_complete :
      (stmt : TrustStatement) (now : ℕ) → InTime stmt now → passed (check_freshness stmt now) ≡ true
  unfolding check_freshness passed
  check_freshness_complete stmt now h =
      rw (early stmt.nbf h.not_early, late stmt.exp h.not_late) refl
    where
      early : (o : Option ℕ) → ((n : ℕ) → o ≡ some n → n ≤ now) → too_early o now ≡ false
      early none f = refl
      early (some n) f = let le = f n refl in ground arith

      late : (o : Option ℕ) → ((n : ℕ) → o ≡ some n → now < n) → too_late o now ≡ false
      late none f = refl
      late (some n) f = let lt = f n refl in ground arith

module _ ⦃j : Json⦄ ⦃t : JsonText j⦄ ⦃e : Base64⦄ ⦃b : Bs58⦄ ⦃c : Ed25519⦄ ⦃p : P256⦄ ⦃z : Zlib⦄
    ⦃w : Web⦄ (from_slice : List ℕ → Result Text j.Value) where
  open j use {Value}

  parse_complete :
      (issuer url jwt : Text) (list : StatusList) (ctx : VerifyContext Value)
      → ContextHolds from_slice issuer ctx
      → SignedList from_slice issuer url jwt list
      → (docs : Dir (DidDoc Value)) × (parse_and_verify_status_list from_slice url jwt ctx
          ≡ ok (list, docs))
        × DocsHold docs
  unfolding parse_and_verify_status_list
  parse_complete issuer url jwt list ctx holds h =
      let (docs, loaded, hold) =
        load_issuer_doc_complete issuer h.doc ctx.issuer_docs holds.docs_hold h.doc_from in
      let (key_at, verified) = find_verifying_key_complete h.doc h.kid _ h.signature h.signed in
      (
        docs,
        simp (
          h.parts_eq, h.header_eq, h.payload_eq, h.signature_eq, h.alg_eq, h.kid_at, h.kid_did_eq,
          holds.issuer_eq, text_eq_refl, loaded, key_at, verified, h.inner_at, h.list_eq,
        ),
        hold,
      )

  -- Of two lists that a URL stands for, one is the other.
  ListFrom-unique :
      (issuer url : Text) (l m : StatusList) (ctx : VerifyContext Value)
      → ContextHolds from_slice issuer ctx
      → ListFrom from_slice issuer url l
      → ListFrom from_slice issuer url m
      → l ≡ m
  ListFrom-unique issuer url l m ctx holds h g =
      let bodies : h.body ≡ g.body =
        found-injective (ok-injective {E = FetchError} (sym h.body_eq ∙ g.body_eq)) in
      let (docs, first, _) = parse_complete issuer url (trim h.body) l ctx holds h.signed_list in
      let (docs2, second, _) = parse_complete issuer url (trim g.body) m ctx holds g.signed_list in
      let same = ok-injective {E = TrustError} (sym first ∙ (rw (← bodies) at second)) in
      ap (λ (r : StatusList × Dir (DidDoc Value)). r.0) same
    where
      found-injective : {x y : Text} → found x ≡ found y → x ≡ y
      found-injective e = cc

  load_status_list_complete :
      (issuer url : Text) (list : StatusList) (ctx : VerifyContext Value)
      → ContextHolds from_slice issuer ctx
      → ListFrom from_slice issuer url list
      → (next : VerifyContext Value) × (load_status_list from_slice url ctx ≡ ok (list, next))
  unfolding load_status_list
  load_status_list_complete issuer url list ctx holds h = cached (find ctx.status_lists url) refl
    where
      cached :
          (o : Option StatusList)
          → find ctx.status_lists url ≡ o
          → (next : VerifyContext Value) × (cached_list from_slice url ctx o ≡ ok (list, next))
      cached (some other) at =
          let here =
            All-find (λ q. ListFrom from_slice issuer (q.0) (q.1)) ctx.status_lists url
              holds.lists_hold at in
          let same = ListFrom-unique issuer url other list ctx holds here h in
          (ctx, ap (λ (l : StatusList). ok (l, ctx)) same)
      cached none at =
          let (docs, parsed, _) =
            parse_complete issuer url (trim h.body) list ctx holds h.signed_list in
          (
            record ctx { issuer_docs = docs; status_lists = put ctx.status_lists url list },
            simp (h.body_eq, parsed),
          )

  verify_signature_complete :
      (stmt : TrustStatement) (issuer : Text) (ctx : VerifyContext Value)
      → ContextHolds from_slice issuer ctx
      → SignatureTrusted stmt
      → (check : Check) × (next : VerifyContext Value) × (verify_signature stmt ctx
          ≡ ok (check, next))
        × (passed check ≡ true)
        × ContextHolds from_slice issuer next
  unfolding verify_signature passed
  verify_signature_complete stmt issuer ctx holds h =
      let (docs, loaded, hold) =
        load_issuer_doc_complete h.kid_did h.doc ctx.issuer_docs holds.docs_hold h.doc_from in
      let (key_at, verified) =
        find_verifying_key_complete h.doc stmt.kid stmt.signing_input stmt.signature h.signed in
      (
        signature_check_of stmt.kid (ok tt),
        record ctx { issuer_docs = docs },
        simp (h.alg_eq, h.kid_did_eq, loaded, key_at, verified),
        refl,
        record { issuer_eq = holds.issuer_eq; docs_hold = hold; lists_hold = holds.lists_hold },
      )

  check_status_complete :
      (stmt : TrustStatement) (issuer : Text) (ctx : VerifyContext Value)
      → ContextHolds from_slice issuer ctx
      → StatusTrusted from_slice issuer stmt
      → (check : Check) × (next : VerifyContext Value) × (check_status from_slice stmt ctx
          ≡ ok (check, next))
        × (passed check ≡ true)
  unfolding check_status passed
  check_status_complete stmt issuer ctx holds h =
      let (next, loaded) =
        load_status_list_complete issuer h.info.uri h.list ctx holds h.list_from in
      (
        status_check_of (slot_text h.info.idx h.list.bits) valid,
        next,
        simp (h.info_eq, loaded, h.value_eq),
        refl,
      )

  module _ ⦃d : Dates⦄ where
    -- Where the caches hold what was served, the verdict on a statement is positive exactly if its
    -- issuer is the expected one, it is signed with an ES256 key of the last document served for the
    -- DID of its kid, whatever that DID is, it is within its time, and its slot is valid in a status
    -- list that is served with the signature of a key of the expected issuer.
    pub verify_one_iff :
        (stmt : TrustStatement) (issuer : Text) (now : ℕ) (ctx : VerifyContext Value)
        → ContextHolds from_slice issuer ctx
        → ((report : Report) × (next : VerifyContext Value) × (verify_one from_slice stmt now ctx
              ≡ ok (report, next))
            × (report.verdict ≡ true))
          ↔ StatementTrusted from_slice issuer now stmt
    unfolding verify_one passed
    verify_one_iff stmt issuer now ctx holds = (
      λ (report, next, made, positive).
          (Ensures-ok (verify_one_sound from_slice stmt issuer now ctx holds) made).1 positive,
      λ h.
          let (check, next, signed, good, hold) =
            verify_signature_complete stmt issuer ctx holds h.signature in
          let (status, final, listed, valid_slot) =
            check_status_complete stmt issuer next hold h.status in
          let fresh = check_freshness_complete stmt now h.in_time in
          let named : text_eq stmt.iss ctx.expected_issuer ≡ true =
            rw (h.iss_eq, holds.issuer_eq) (text_eq_refl issuer) in
          (
            report_of stmt (check_issuer stmt.iss ctx.expected_issuer) check
                (check_freshness stmt now) status,
            final,
            simp (named, signed, good, listed),
            simp (named, good, fresh, valid_slot),
          ),
    )
