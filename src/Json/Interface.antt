-- ===== src/Json/Interface.antt =====
-- serde_json, a library that the program calls, as an interface. `Value` is its public enum, and
-- `Shape` one layer of it; `Map` is its object type. The laws are the documented behaviour.
use swiyu_rs.Prelude.{ℕ, ◌<◌, ◌^◌, ◌≡◌, Bool, false, Option, none, some, List}
use swiyu_rs.Prelude.{if◌then◌else◌}
use swiyu_rs.Prelude.Text.{Text, text_eq}

-- One layer of a JSON value: which variant of the enum it is, and what that holds.
pub data Shape (Number Value Map : Type 0) : Type 0 where
  null : Shape Number Value Map
  bool : Bool → Shape Number Value Map
  num : Number → Shape Number Value Map
  str : Text → Shape Number Value Map
  arr : List Value → Shape Number Value Map
  obj : Map → Shape Number Value Map

pub record Json : Type 1 where
  pub Value : Type 0
  pub Map : Type 0
  pub Number : Type 0
  pub value : Shape Number Value Map → Value
  pub shape : Value → Shape Number Value Map
  pub from_u64 : ℕ → Number
  pub u64_of : Number → Option ℕ
  pub empty : Map
  pub get : Map → Text → Option Value
  pub insert : Map → Text → Value → Map
  pub remove : Map → Text → Map
  pub shape-value : (s : Shape Number Value Map) → shape (value s) ≡ s
  pub value-shape : (v : Value) → value (shape v) ≡ v
  pub u64_of-from_u64 : (n : ℕ) → n < 2 ^ 64 → u64_of (from_u64 n) ≡ some n
  pub u64_of-lt : (x : Number) (n : ℕ) → u64_of x ≡ some n → n < 2 ^ 64
  pub get-empty : (k : Text) → get empty k ≡ none
  pub get-insert :
      (m : Map) (k j : Text) (v : Value)
      → get (insert m k v) j ≡ (if text_eq k j then some v else get m j)
  pub get-remove :
      (m : Map) (k j : Text) → get (remove m k) j ≡ (if text_eq k j then none else get m j)
  pub insert-insert :
      (m : Map) (k l : Text) (v w : Value)
      → text_eq k l ≡ false
      → insert (insert m k v) l w ≡ insert (insert m l w) k v
