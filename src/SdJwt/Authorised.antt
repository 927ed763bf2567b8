-- ===== src/SdJwt/Authorised.antt =====
-- What a decoded trust statement shows was committed to by its payload.
use swiyu_rs.Prelude.{
  ℕ, suc, ◌≡◌, refl, Bool, none, some, List, [], ◌∷◌, Result, ok, err, ◌++◌, map_err, ok_or,
  and_then, ok_or-eq-ok, map_err-eq-ok, ◌⊎◌, inl, inr, get_elem?, Bool-cases, Option-cases,
}
use swiyu_rs.Prelude.{Ensures, returns, fails, Ensures-ok, Ensures-bind}
use mathlib.Core.Option.{some-injective}
use swiyu_rs.Prelude.Text.{Text, text, text_eq, text_eq_sound, split}
use swiyu_rs.Json.Interface.{Json}
use swiyu_rs.Json.Access.{as_str, as_bool, as_object, as_u64, member}
use swiyu_rs.Vendor.Encoding.{Base64}
use swiyu_rs.Vendor.Crypto.{Sha256}
use swiyu_rs.DidLog.Proof.{contains_key}
use swiyu_rs.DidLog.ProofLemmas.{contains_key_sound}
use swiyu_rs.KeyStore.Dir.{Dir, find, find-put}
use swiyu_rs.SdJwt.Disclosure.{
  Disclosure, DisclosureError, disclosure_from_text, disclosure_digest, base64, json, not_array,
  salt_not_string, name_not_string, wrong_length,
}
use swiyu_rs.SdJwt.Statement.{
  Disclosed, with_name, insert_names, with_names, with_flag, add_disclosure, read_disclosure,
  read_disclosures, unparsed, TrustStatement, bad_base64, three_segments, head_and_rest,
  trim_tildes, sd_set, status_of, decode_segment, try_from_jwt,
}

module _ ⦃j : Json⦄ where
  open j use {Value}

  -- A name of the result was there, or is a text of the members.
  insert_names_sound :
      (names : Dir Text) (ms : List (Text × Value)) (lang : Text) {s : Text}
      → find (insert_names names ms) lang ≡ some s
      → (find names lang ≡ some s)
        ⊎ ((i : ℕ) × (v : Value) × (get_elem? ms i ≡ some (lang, v)) × (as_str v ≡ some s))
  unfolding insert_names
  insert_names_sound names [] lang h = inl h
  insert_names_sound names ((l, v) ∷ ms) lang {s} h =
      elim (insert_names_sound (with_name names l (as_str v)) ms lang h) [
        | inl found ↦ elim (Option-cases (as_str v)) [
          | inl e ↦ inl (rw e at found)
          | inr (t, e) ↦ elim (Bool-cases (text_eq l lang)) [
            | inl same ↦
                let name : l ≡ lang = text_eq_sound l lang same in
                let value : t ≡ s =
                  some-injective _ _ (rw (e, find-put names l lang t, same) at found) in
                inr (0, v, rw name refl, rw (← value) e)
            | inr other ↦ inl (rw (e, find-put names l lang t, other) at found)
          ]
        ]
        | inr (i, w, at, is_text) ↦ inr (suc i, w, at, is_text)
      ]

module _ ⦃j : Json⦄ ⦃e : Base64⦄ ⦃s : Sha256⦄ (members : j.Map → List (Text × j.Value))
    (from_slice : List ℕ → Result Text j.Value) (set : List Text) (all : List Text) where
  open j use {Value}

  -- A disclosure among `all` whose digest is one of `set`.
  pub record Committed (d : Disclosure Value) : Type 0 where
    pub index : ℕ
    pub encoded : Text
    pub digest_index : ℕ
    pub encoded_at : get_elem? all index ≡ some encoded
    pub parsed : disclosure_from_text from_slice encoded ≡ ok d
    pub digest_at : get_elem? set digest_index ≡ some (disclosure_digest d)

  -- Each thing that is shown is what such a disclosure says.
  pub record Backed (r : Disclosed) : Type 0 where
    pub flag :
        (b : Bool)
        → r.is_state_actor ≡ some b
        → (d : Disclosure Value) × Committed d
          × (d.name ≡ text "isStateActor")
          × (as_bool d.value ≡ some b)
    pub names :
        (lang name : Text)
        → find r.entity_name lang ≡ some name
        → (d : Disclosure Value) × (m : j.Map) × (i : ℕ) × (v : Value) × Committed d
          × (d.name ≡ text "entityName")
          × (as_object d.value ≡ some m)
          × (get_elem? (members m) i ≡ some (lang, v))
          × (as_str v ≡ some name)

  Backed-names :
      (d : Disclosure Value) (r : Disclosed)
      → Committed d
      → d.name ≡ text "entityName"
      → Backed r
      → Backed (with_names members r (as_object d.value))
  Backed-names d r committed named backed = elim (Option-cases (as_object d.value)) [
    | inl e ↦ rw e backed
    | inr (m, e) ↦ rw e (record {
      flag = backed.flag;
      names = λ lang name h. elim (insert_names_sound r.entity_name (members m) lang h) [
        | inl found ↦ backed.names lang name found
        | inr (i, v, at, is_text) ↦ (d, m, i, v, committed, named, e, at, is_text)
      ];
    })
  ]

  Backed-flag :
      (d : Disclosure Value) (r : Disclosed)
      → Committed d
      → d.name ≡ text "isStateActor"
      → Backed r
      → Backed (with_flag r (as_bool d.value))
  Backed-flag d r committed named backed = elim (Option-cases (as_bool d.value)) [
    | inl e ↦ rw e backed
    | inr (b, e) ↦ rw e (record {
      flag = λ c h. let same : b ≡ c = some-injective _ _ h in (d, committed, named, rw (← same) e);
      names = backed.names;
    })
  ]

  Backed-add_disclosure :
      (d : Disclosure Value) (r : Disclosed)
      → Committed d
      → Backed r
      → Backed (add_disclosure members d r)
  unfolding add_disclosure
  Backed-add_disclosure d r committed backed =
      elim (Bool-cases (text_eq d.name (text "entityName"))) [
        | inl e ↦ rw e (Backed-names d r committed (text_eq_sound d.name _ e) backed)
        | inr e ↦ elim (Bool-cases (text_eq d.name (text "isStateActor"))) [
          | inl f ↦ rw (e, f) (Backed-flag d r committed (text_eq_sound d.name _ f) backed)
          | inr f ↦ rw (e, f) backed
        ]
      ]

  Backed-unparsed : (r : Disclosed) (x : DisclosureError) → Backed r → Ensures Backed (unparsed r x)
  Backed-unparsed r (base64 reason) backed = fails
  Backed-unparsed r (json reason) backed = fails
  Backed-unparsed r not_array backed = fails
  Backed-unparsed r (wrong_length got) backed = returns backed
  Backed-unparsed r salt_not_string backed = returns backed
  Backed-unparsed r name_not_string backed = returns backed

  Backed-read_disclosure :
      (k : ℕ) (encoded : Text) (r : Disclosed) (p : Result DisclosureError (Disclosure Value))
      → get_elem? all k ≡ some encoded
      → disclosure_from_text from_slice encoded ≡ p
      → Backed r
      → Ensures Backed (read_disclosure members from_slice set r p)
  Backed-read_disclosure k encoded r (err x) at parsed backed = Backed-unparsed r x backed
  Backed-read_disclosure k encoded r (ok d) at parsed backed =
      elim (Bool-cases (contains_key set (disclosure_digest d))) [
        | inl listed ↦
            let (i, there) = contains_key_sound set (disclosure_digest d) listed in
            let committed : Committed d = record {
              index = k;
              encoded = encoded;
              digest_index = i;
              encoded_at = at;
              parsed = parsed;
              digest_at = there;
            } in
            rw listed (returns (Backed-add_disclosure d r committed backed))
        | inr unlisted ↦ rw unlisted (returns backed)
      ]

  Backed-read_disclosures :
      (r : Disclosed) (ds : List Text)
      → ((k : ℕ) (x : Text) → get_elem? ds k ≡ some x → (i : ℕ) × (get_elem? all i ≡ some x))
      → Backed r
      → Ensures Backed (read_disclosures members from_slice set r ds)
  unfolding read_disclosures
  Backed-read_disclosures r [] within backed = returns backed
  Backed-read_disclosures r (d ∷ ds) within backed =
      let (i, at) = within 0 d refl in
      Ensures-bind (read_disclosure members from_slice set r (disclosure_from_text from_slice d)) _
        λ next h.
          Backed-read_disclosures next ds (λ k x g. within (suc k) x g)
            (Ensures-ok (Backed-read_disclosure i d r _ at refl backed) h)

module _ ⦃j : Json⦄ ⦃e : Base64⦄ ⦃s : Sha256⦄ (members : j.Map → List (Text × j.Value))
    (from_slice : List ℕ → Result Text j.Value) where
  open j use {Value}

  -- The statement is of the three segments before the disclosures: the input and the bytes of its
  -- signature are theirs, and all it shows of disclosures is backed by those that follow.
  pub record StatementHolds (jwt_text : Text) (st : TrustStatement) : Type 0 where
    pub header_part : Text
    pub payload_part : Text
    pub signature_part : Text
    pub payload : Value
    pub segments_eq :
        split b'.' (head_and_rest (split b'~' (trim_tildes jwt_text))).0
        ≡ header_part ∷ payload_part ∷ signature_part ∷ []
    pub payload_eq : decode_segment members from_slice (text "payload") payload_part ≡ ok payload
    pub signing_input_eq : st.signing_input ≡ header_part ++ b'.' ∷ payload_part
    pub signature_eq : e.decode signature_part ≡ ok st.signature
    pub iat_eq : and_then (member payload (text "iat")) as_u64 ≡ some st.iat
    pub backed :
        Backed members from_slice
          (sd_set payload)
          (head_and_rest (split b'~' (trim_tildes jwt_text))).1
          st.disclosed

  three_segments_sound :
      (segs : List Text) {h p s : Text} → three_segments segs ≡ ok (h, p, s) → segs ≡ h ∷ p ∷ s ∷ []
  three_segments_sound [] g = absurd (cc)
  three_segments_sound (h ∷ []) g = absurd (cc)
  three_segments_sound (h ∷ p ∷ []) g = absurd (cc)
  three_segments_sound (h ∷ p ∷ s ∷ []) g = cc
  three_segments_sound (h ∷ p ∷ s ∷ t ∷ rest) g = absurd (cc)

  nothing_shown :
      (set all : List Text)
      → Backed members from_slice set all (record { entity_name = []; is_state_actor = none })
  unfolding find
  nothing_shown set all = record { flag = λ b h. absurd (cc); names = λ lang name h. absurd (cc) }

  try_from_jwt-Ensures :
      (jwt_text : Text)
      → Ensures (StatementHolds jwt_text) (try_from_jwt members from_slice jwt_text)
  unfolding try_from_jwt
  try_from_jwt-Ensures jwt_text =
      let parts = head_and_rest (split b'~' (trim_tildes jwt_text)) in
      Ensures-bind (three_segments (split b'.' (parts.0))) _ λ (h, p, s) e1.
        Ensures-bind (decode_segment members from_slice (text "header") h) _ λ header e2.
          Ensures-bind (decode_segment members from_slice (text "payload") p) _ λ payload e3.
            Ensures-bind (map_err (bad_base64 (text "signature")) (e.decode s)) _ λ signature e4.
              Ensures-bind (ok_or (and_then (member header (text "kid")) as_str) _) _ λ kid e5.
                Ensures-bind (ok_or (and_then (member header (text "alg")) as_str) _) _ λ alg e6.
                  Ensures-bind
                    (read_disclosures members from_slice (sd_set payload)
                      (record { entity_name = []; is_state_actor = none }) (parts.1))
                    _
                    λ disclosed e7.
                      Ensures-bind (ok_or (and_then (member payload (text "iat")) as_u64) _) _
                        λ iat e8. Ensures-bind (status_of payload) _ λ status e9. returns (record {
                          header_part = h;
                          payload_part = p;
                          signature_part = s;
                          payload = payload;
                          segments_eq = three_segments_sound (split b'.' (parts.0)) e1;
                          payload_eq = e3;
                          signing_input_eq = refl;
                          signature_eq = map_err-eq-ok _ (e.decode s) e4;
                          iat_eq = ok_or-eq-ok (and_then (member payload (text "iat")) as_u64) _ e8;
                          backed =
                              Ensures-ok
                                (Backed-read_disclosures members from_slice (sd_set payload)
                                  (parts.1) _ (parts.1) (λ k x g. (k, g))
                                  (nothing_shown (sd_set payload) (parts.1)))
                                e7;
                        })

  -- A trust statement that is decoded keeps the input and the bytes of its signature, and every name and
  -- flag that it shows is what a disclosure behind the JWT says whose digest the payload lists.
  pub try_from_jwt_sound :
      (jwt_text : Text) (st : TrustStatement)
      → try_from_jwt members from_slice jwt_text ≡ ok st
      → StatementHolds jwt_text st
  try_from_jwt_sound jwt_text st h = Ensures-ok (try_from_jwt-Ensures jwt_text) h
