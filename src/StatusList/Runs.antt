-- ===== src/StatusList/Runs.antt =====
-- Concrete runs, and the theorems at concrete inputs.
use swiyu_rs.Prelude.{◌≡◌, refl, inr, [], ◌∷◌, some, ok, err, ok_or, map_ok}
use swiyu_rs.Prelude.{length, get_elem?, replicate, arith}
use swiyu_rs.Prelude.Text.{text}
use swiyu_rs.Json.Plain.{plain_json}
use swiyu_rs.Json.Access.{string, json_object, as_object, as_str}
use swiyu_rs.Vendor.Plain.{plain_base64, plain_zlib}
use swiyu_rs.StatusList.Error.{idx_out_of_range, value_out_of_range}
use swiyu_rs.StatusList.Slot.{valid, revoked, suspended, reserved, from_u8, to_raw}
use swiyu_rs.StatusList.Bitstring.{StatusList, new, list_len, value_at, set_at, IsValid}
use swiyu_rs.StatusList.Refines.{slots, set_slot, value_at-slots, set_at-slots, set_at-IsValid}
use swiyu_rs.StatusList.ReadWrite.{value_at-set_at}
use swiyu_rs.StatusList.Create.{new-slots}
use swiyu_rs.StatusList.Wire.{list_try_from, list_to_value, list_try_from-to_value}
use swiyu_rs.StatusList.Jwt.{
  StatusListJwtPayload, payload_try_from, payload_to_value, payload_try_from-to_value,
}

-- 0b11_10_01_00
abbrev codepoints : StatusList
codepoints = record { bits = 2; bytes = 0b11100100 ∷ [] }

-- `codepoints` with slot 0 suspended.
abbrev suspended_first : StatusList
suspended_first = record { bits = 2; bytes = 0b11100110 ∷ [] }

codepoints-IsValid : IsValid codepoints
codepoints-IsValid = record { width = inr refl; octets = omega arith; fits = omega arith }

reads : slots codepoints ≡ valid ∷ revoked ∷ suspended ∷ reserved 3 ∷ []
unfolding from_u8
reads = refl

set_first : set_at codepoints 0 suspended ≡ ok suspended_first
unfolding set_at to_raw
set_first = refl

suspend_in_one_bit :
    set_at (record { bits = 1; bytes = 0 ∷ [] }) 0 suspended ≡ err (value_out_of_range 2 1)
unfolding set_at to_raw
suspend_in_one_bit = refl

value_at-slots_example :
    value_at codepoints 10
    ≡ ok_or (get_elem? (slots codepoints) 10) (idx_out_of_range 10 (length (slots codepoints)))
value_at-slots_example = value_at-slots codepoints codepoints-IsValid 10

set_at-slots_example :
    map_ok slots (set_at codepoints 0 suspended) ≡ set_slot 2 (slots codepoints) 0 suspended
set_at-slots_example = set_at-slots codepoints codepoints-IsValid 0 suspended

set_at-IsValid_example :
    IsValid suspended_first
    × (suspended_first.bits ≡ codepoints.bits)
    × (list_len suspended_first ≡ list_len codepoints)
set_at-IsValid_example =
    set_at-IsValid codepoints suspended_first 0 suspended codepoints-IsValid set_first

value_at-set_at_example : value_at suspended_first 3 ≡ value_at codepoints 3
value_at-set_at_example =
    value_at-set_at codepoints suspended_first 0 suspended codepoints-IsValid 3 set_first

new-slots_example :
    (l : StatusList) × (new 2 131072 ≡ ok l)
    × IsValid l
    × (list_len l ≡ 131072)
    × (slots l ≡ replicate 131072 valid)
new-slots_example = new-slots 2 131072 (inr refl) (omega arith) refl

list_try_from-to_value_example : list_try_from (list_to_value codepoints) ≡ ok codepoints
list_try_from-to_value_example = list_try_from-to_value codepoints codepoints-IsValid

one_bit :
    list_try_from (json_object ((text "lst", string (120 ∷ 5 ∷ [])) ∷ []))
    ≡ ok (record { bits = 1; bytes = 5 ∷ [] })
unfolding list_try_from as_object as_str
one_bit = refl

abbrev payload : StatusListJwtPayload
payload = record {
  iss = text "did:tdw:abc:example.org";
  sub = text "https://example.org/list";
  iat = 1700000000;
  exp = some 1800000000;
  list = codepoints;
}

payload_try_from-to_value_example : payload_try_from (payload_to_value payload) ≡ ok payload
payload_try_from-to_value_example =
    payload_try_from-to_value payload (omega arith) (omega arith) codepoints-IsValid
