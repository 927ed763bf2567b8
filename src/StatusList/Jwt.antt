-- ===== src/StatusList/Jwt.antt =====
-- The header and the payload of a status-list JWT.
use swiyu_rs.Prelude.{ℕ, ◌≡◌, [], ◌∷◌, Option, none, some, Result, ok, ◌>>=◌, ok_or}
use swiyu_rs.Prelude.{if◌then◌else◌}
use swiyu_rs.Prelude.Text.{Text, text}
use swiyu_rs.Prelude.Bytes.{IsU64}
use swiyu_rs.Json.Interface.{Json}
use swiyu_rs.Json.Access.{
  as_u64, as_object, is_null, string, u64, object, insert_all, json_object, json_laws,
}
use swiyu_rs.Json.Access.{as_u64-u64}
use swiyu_rs.Vendor.Encoding.{Base64, Zlib}
use swiyu_rs.StatusList.Error.{StatusListError, missing_field, invalid_field_type}
use swiyu_rs.StatusList.Bitstring.{StatusList, IsValid}
use swiyu_rs.StatusList.Pointer.{required_str, required_u64}
use swiyu_rs.StatusList.Wire.{list_try_from, list_to_value, list_try_from-to_value}

pub record StatusListJwtHeader : Type 0 where
  pub alg : Text
  pub typ : Text
  pub kid : Text

pub record StatusListJwtPayload : Type 0 where
  pub iss : Text
  pub sub : Text
  pub iat : ℕ
  pub exp : Option ℕ
  pub list : StatusList

module _ ⦃j : Json⦄ where
  open j use {Value, Map, get, insert, empty}

  unfoldable pub header_try_from : Value → Result StatusListError StatusListJwtHeader
  header_try_from v = do
    obj ← ok_or (as_object v) (invalid_field_type (text "header"))
    alg ← required_str obj (text "alg")
    typ ← required_str obj (text "typ")
    kid ← required_str obj (text "kid")
    ok (record { alg = alg; typ = typ; kid = kid })

  unfoldable pub header_to_value : StatusListJwtHeader → Value
  header_to_value h =
      json_object
        ((text "alg", string h.alg) ∷ (text "typ", string h.typ) ∷ (text "kid", string h.kid) ∷ [])

  -- Parsing a header that was written gives it back.
  pub header_try_from-to_value :
      (h : StatusListJwtHeader) → header_try_from (header_to_value h) ≡ ok h
  unfolding header_try_from header_to_value
  header_try_from-to_value h = simp json_laws

  -- `match obj.get("exp")`: absent and `null` both mean that there is no expiry.
  abbrev exp_field : Option Value → Result StatusListError (Option ℕ)
  exp_field none = ok none
  exp_field (some v) =
      if is_null v
      then ok none
      else (do n ← ok_or (as_u64 v) (invalid_field_type (text "exp")); ok (some n))

  -- `if let Some(exp) = payload.exp { obj.insert("exp", …) }`
  abbrev insert_exp : Option ℕ → Map → Map
  insert_exp none m = m
  insert_exp (some n) m = insert m (text "exp") (u64 n)

  module _ ⦃b : Base64⦄ ⦃z : Zlib⦄ where
    unfoldable pub payload_try_from : Value → Result StatusListError StatusListJwtPayload
    payload_try_from v = do
      obj ← ok_or (as_object v) (invalid_field_type (text "payload"))
      iss ← required_str obj (text "iss")
      sub ← required_str obj (text "sub")
      iat ← required_u64 obj (text "iat")
      exp ← exp_field (get obj (text "exp"))
      inner ← ok_or (get obj (text "status_list")) (missing_field (text "status_list"))
      list ← list_try_from inner
      ok (record { iss = iss; sub = sub; iat = iat; exp = exp; list = list })

    unfoldable pub payload_to_value : StatusListJwtPayload → Value
    payload_to_value p =
        let claims = insert_all empty (
          (text "iss", string p.iss) ∷ (text "sub", string p.sub) ∷ (text "iat", u64 p.iat) ∷ []) in
        object (insert (insert_exp p.exp claims) (text "status_list") (list_to_value p.list))

    abbrev InRange : Option ℕ → Type 0
    InRange none = Unit
    InRange (some n) = IsU64 n

    payload_round_trip :
        (iss sub : Text) (iat : ℕ) (exp : Option ℕ) (l : StatusList)
        → IsU64 iat
        → InRange exp
        → IsValid l
        → payload_try_from
            (payload_to_value (record { iss = iss; sub = sub; iat = iat; exp = exp; list = l }))
          ≡ ok (record { iss = iss; sub = sub; iat = iat; exp = exp; list = l })
    unfolding payload_try_from payload_to_value
    payload_round_trip iss sub iat none l hi he v =
        simp (json_laws, as_u64-u64 iat hi, list_try_from-to_value l v)
    payload_round_trip iss sub iat (some n) l hi he v =
        simp (json_laws, as_u64-u64 iat hi, as_u64-u64 n he, list_try_from-to_value l v)

    -- Parsing a payload that was written gives it back, with or without an expiry, if its times are
    -- `u64`s and its list is valid.
    pub payload_try_from-to_value :
        (p : StatusListJwtPayload)
        → IsU64 p.iat
        → InRange p.exp
        → IsValid p.list
        → payload_try_from (payload_to_value p) ≡ ok p
    payload_try_from-to_value p = payload_round_trip p.iss p.sub p.iat p.exp p.list
