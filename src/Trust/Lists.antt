-- ===== src/Trust/Lists.antt =====
-- The status lists that a verification reads are signed by the expected issuer.
use swiyu_rs.Prelude.{
  ℕ, ◌≡◌, refl, Option, none, some, List, [], ◌∷◌, ◌++◌, Result, ok, guard, ok_or, map_err,
  and_then, All, ap, ◌∙◌,
}
use swiyu_rs.Prelude.{Ensures, returns, Ensures-ok, Ensures-bind}
use swiyu_rs.Prelude.{ok_or-eq-ok, map_err-eq-ok, guard-eq-ok}
use swiyu_rs.Prelude.Text.{Text, text, text_eq, text_eq_sound, split}
use swiyu_rs.Prelude.Trim.{trim}
use swiyu_rs.Json.Interface.{Json}
use swiyu_rs.Json.Access.{member, as_str}
use swiyu_rs.Vendor.Encoding.{Base64, Zlib}
use swiyu_rs.Vendor.Crypto.{Bs58, Ed25519, P256, JsonText}
use swiyu_rs.Vendor.Web.{Web}
use swiyu_rs.DidDoc.Document.{DidDoc}
use swiyu_rs.KeyStore.Dir.{find, All-find, All-put}
use swiyu_rs.Jws.Verify.{key_verify}
use swiyu_rs.StatusList.Bitstring.{StatusList}
use swiyu_rs.StatusList.Wire.{list_try_from}
use swiyu_rs.Tool.Http.{FetchOutcome, found, not_found, fetch_text}
use swiyu_rs.Trust.Error.{VerifyContext}
use swiyu_rs.Trust.Issuer.{load_issuer_doc, find_verifying_key}
use swiyu_rs.Trust.StatusLists.{
  header_alg, three_segs, list_text, kid_did_of, segment_json, parse_and_verify_status_list,
  cached_list, load_status_list,
}
use swiyu_rs.Trust.Sources.{
  IssuerDoc, DocsHold, load_issuer_doc_sound, SignedBy, find_verifying_key_sound,
}

three_segs_sound :
    (url : Text) (segs : List Text) {h p s : Text}
    → three_segs url segs ≡ ok (h, p, s)
    → segs ≡ h ∷ p ∷ s ∷ []
three_segs_sound url [] e = absurd (cc)
three_segs_sound url (h ∷ []) e = absurd (cc)
three_segs_sound url (h ∷ p ∷ []) e = absurd (cc)
three_segs_sound url (h ∷ p ∷ s ∷ []) e = cc
three_segs_sound url (h ∷ p ∷ s ∷ t ∷ rest) e = absurd (cc)

list_text_sound : (url : Text) (o : FetchOutcome) {s : Text} → list_text url o ≡ ok s → o ≡ found s
list_text_sound url (found r) h = cc
list_text_sound url not_found h = absurd (cc)

module _ ⦃j : Json⦄ ⦃t : JsonText j⦄ ⦃e : Base64⦄ ⦃b : Bs58⦄ ⦃c : Ed25519⦄ ⦃p : P256⦄ ⦃z : Zlib⦄
    ⦃w : Web⦄ (from_slice : List ℕ → Result Text j.Value) where
  open j use {Value}

  -- The text is a JWT for the list, signed with a key that a document of the issuer has under the kid.
  pub record SignedList (issuer url jwt : Text) (list : StatusList) : Type 0 where
    pub header_part : Text
    pub payload_part : Text
    pub signature_part : Text
    pub header : Value
    pub payload : Value
    pub signature : List ℕ
    pub kid : Text
    pub doc : DidDoc Value
    pub inner : Value
    pub parts_eq : split b'.' jwt ≡ header_part ∷ payload_part ∷ signature_part ∷ []
    pub header_eq : segment_json from_slice url (text "header") header_part ≡ ok header
    pub payload_eq : segment_json from_slice url (text "payload") payload_part ≡ ok payload
    pub signature_eq : e.decode signature_part ≡ ok signature
    pub alg_eq : header_alg header ≡ text "ES256"
    pub kid_at : and_then (member header (text "kid")) as_str ≡ some kid
    pub kid_did_eq : kid_did_of kid ≡ some issuer
    pub doc_from : IssuerDoc issuer doc
    pub signed : SignedBy doc kid (header_part ++ b'.' ∷ payload_part) signature
    pub inner_at : member payload (text "status_list") ≡ some inner
    pub list_eq : list_try_from inner ≡ ok list

  -- What the URL serves is such a text.
  pub record ListFrom (issuer url : Text) (list : StatusList) : Type 0 where
    pub body : Text
    pub body_eq : fetch_text url ≡ ok (found body)
    pub signed_list : SignedList issuer url (trim body) list

  -- The caches hold what was served, and the lists are the expected issuer's.
  pub record ContextHolds (issuer : Text) (ctx : VerifyContext Value) : Type 0 where
    pub issuer_eq : ctx.expected_issuer ≡ issuer
    pub docs_hold : DocsHold ctx.issuer_docs
    pub lists_hold : All (λ q. ListFrom issuer (q.0) (q.1)) ctx.status_lists

  parse_sound :
      (issuer url jwt : Text) (ctx : VerifyContext Value)
      → ContextHolds issuer ctx
      → Ensures
          (λ r. SignedList issuer url jwt (r.0) × DocsHold (r.1))
          (parse_and_verify_status_list from_slice url jwt ctx)
  unfolding parse_and_verify_status_list
  parse_sound issuer url jwt ctx holds =
      Ensures-bind (three_segs url (split b'.' jwt)) _ λ (h, p, s) e1.
        Ensures-bind (segment_json from_slice url (text "header") h) _ λ header e2.
          Ensures-bind (segment_json from_slice url (text "payload") p) _ λ payload e3.
            Ensures-bind (map_err _ (e.decode s)) _ λ signature e4.
              Ensures-bind (guard (text_eq (header_alg header) (text "ES256")) _) _ λ _ e5.
                Ensures-bind (ok_or (and_then (member header (text "kid")) as_str) _) _ λ kid e6.
                  Ensures-bind (ok_or (kid_did_of kid) _) _ λ kid_did e7.
                    Ensures-bind (guard (text_eq kid_did ctx.expected_issuer) _) _ λ _ e8.
                      Ensures-bind (load_issuer_doc kid_did ctx.issuer_docs) _ λ (doc, docs) e9.
                        Ensures-bind (map_err _ (find_verifying_key doc kid)) _ λ vk e10.
                          Ensures-bind (map_err _ (key_verify vk (h ++ b'.' ∷ p) signature)) _
                            λ _ e11.
                              Ensures-bind (ok_or (member payload (text "status_list")) _) _
                                λ inner e12.
                                  Ensures-bind (map_err _ (list_try_from inner)) _ λ list e13.
                                    let same : kid_did ≡ issuer =
                                      text_eq_sound kid_did ctx.expected_issuer (guard-eq-ok _ _ e8)
                                      ∙ holds.issuer_eq in
                                    let loaded =
                                      Ensures-ok
                                        (load_issuer_doc_sound kid_did ctx.issuer_docs
                                          holds.docs_hold)
                                        e9 in
                                    returns (
                                      record {
                                        header_part = h;
                                        payload_part = p;
                                        signature_part = s;
                                        header = header;
                                        payload = payload;
                                        signature = signature;
                                        kid = kid;
                                        doc = doc;
                                        inner = inner;
                                        parts_eq = three_segs_sound url (split b'.' jwt) e1;
                                        header_eq = e2;
                                        payload_eq = e3;
                                        signature_eq = map_err-eq-ok _ (e.decode s) e4;
                                        alg_eq = text_eq_sound _ _ (guard-eq-ok _ _ e5);
                                        kid_at =
                                            ok_or-eq-ok
                                              (and_then (member header (text "kid")) as_str) _ e6;
                                        kid_did_eq =
                                            ok_or-eq-ok (kid_did_of kid) _ e7 ∙ ap some same;
                                        doc_from = rw same at loaded.0;
                                        signed =
                                            find_verifying_key_sound doc kid (h ++ b'.' ∷ p)
                                              signature
                                              (map_err-eq-ok _ (find_verifying_key doc kid) e10)
                                              (map_err-eq-ok _
                                                (key_verify vk (h ++ b'.' ∷ p) signature) e11);
                                        inner_at =
                                            ok_or-eq-ok (member payload (text "status_list")) _ e12;
                                        list_eq = map_err-eq-ok _ (list_try_from inner) e13;
                                      },
                                      loaded.1,
                                    )

  pub load_status_list_sound :
      (issuer url : Text) (ctx : VerifyContext Value)
      → ContextHolds issuer ctx
      → Ensures
          (λ r. ListFrom issuer url (r.0) × ContextHolds issuer (r.1))
          (load_status_list from_slice url ctx)
  unfolding load_status_list
  load_status_list_sound issuer url ctx holds = cached (find ctx.status_lists url) refl
    where
      cached :
          (o : Option StatusList)
          → find ctx.status_lists url ≡ o
          → Ensures
              (λ r. ListFrom issuer url (r.0) × ContextHolds issuer (r.1))
              (cached_list from_slice url ctx o)
      cached (some list) at = returns (
        All-find (λ q. ListFrom issuer (q.0) (q.1)) ctx.status_lists url holds.lists_hold at,
        holds,
      )
      cached none at = Ensures-bind (map_err _ (fetch_text url)) _ λ outcome e1.
          Ensures-bind (list_text url outcome) _ λ body e2.
            Ensures-bind (parse_and_verify_status_list from_slice url (trim body) ctx) _
              λ (list, docs) e3.
                let (signed, docs_hold) =
                  Ensures-ok (parse_sound issuer url (trim body) ctx holds) e3 in
                let here : ListFrom issuer url list = record {
                  body = body;
                  body_eq =
                      map_err-eq-ok _ (fetch_text url) e1 ∙ ap ok (list_text_sound url outcome e2);
                  signed_list = signed;
                } in
                returns (
                  here,
                  record {
                    issuer_eq = holds.issuer_eq;
                    docs_hold = docs_hold;
                    lists_hold =
                        All-put (λ q. ListFrom issuer (q.0) (q.1)) ctx.status_lists url list
                          holds.lists_hold here;
                  },
                )
