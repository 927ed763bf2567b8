-- ===== src/StatusList/ReadWrite.antt =====
-- What a reader of a status list sees after a write.
use swiyu_rs.Prelude.{ℕ, ◌<◌, ◌≡◌, ap, ◌∙◌, sym, arith, ◌==◌, if◌then◌else◌, ok}
use swiyu_rs.Prelude.{set, length, map_ok}
use swiyu_rs.Prelude.Chunks.{get_elem?-set}
use swiyu_rs.StatusList.Slot.{StatusValue, to_u8, from_u8}
use swiyu_rs.StatusList.Bitstring.{StatusList, value_at, set_at, IsValid}
use swiyu_rs.StatusList.Refines.{
  slots, set_slot, list_len-slots, value_at-slots, set_at-slots, set_at-IsValid,
}

module _ (l l' : StatusList) (i : ℕ) (value : StatusValue) (v : IsValid l) where
  -- A write that succeeds was at a slot, and sets that slot.
  slots-set_at :
      set_at l i value ≡ ok l'
      → (i < length (slots l)) × (slots l' ≡ set (slots l) i (from_u8 (to_u8 value)))
  slots-set_at h =
      let e : ok (slots l') ≡ set_slot l.bits (slots l) i value =
        ap (map_ok slots) (sym h) ∙ set_at-slots l v i value in
      ground arith

  -- After a successful write at `i`, index `i` reads as the value written, up to the numbers that
  -- stand for it, and every other index reads as before, errors included.
  pub value_at-set_at :
      (k : ℕ)
      → set_at l i value ≡ ok l'
      → value_at l' k ≡ (if k == i then ok (from_u8 (to_u8 value)) else value_at l k)
  value_at-set_at k h =
      let (lt, e) = slots-set_at h in
      let (v', same-bits, same-len) = set_at-IsValid l l' i value v h in
      let count : length (slots l') ≡ length (slots l) =
        sym (list_len-slots l' v') ∙ same-len ∙ list_len-slots l v in
      rw (value_at-slots l' v' k, value_at-slots l v k, count, e)
        (ground (arith, get_elem?-set (slots l) i k (from_u8 (to_u8 value)) lt))
