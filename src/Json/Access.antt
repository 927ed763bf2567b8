-- ===== src/Json/Access.antt =====
-- Reading and building JSON values, over the interface.
use swiyu_rs.Prelude.{ℕ, Bool, true, false, Option, none, some, List, [], ◌∷◌, and_then}
use swiyu_rs.Prelude.{◌≡◌, if◌then◌else◌, or_else, or_else-none, arith}
use swiyu_rs.Prelude.Text.{Text, text_eq}
use swiyu_rs.Prelude.Bytes.{IsU64}
use swiyu_rs.Json.Interface.{Json, Shape}

module _ ⦃j : Json⦄ where
  open j use {Value, Map, Number, value, shape, from_u64, u64_of, empty, get, insert, remove}

  unfoldable pub as_str : Value → Option Text
  as_str v = elim (shape v) [ Shape.str s ↦ some s | _ ↦ none ]

  unfoldable pub as_u64 : Value → Option ℕ
  as_u64 v = elim (shape v) [ Shape.num n ↦ u64_of n | _ ↦ none ]

  unfoldable pub as_bool : Value → Option Bool
  as_bool v = elim (shape v) [ Shape.bool b ↦ some b | _ ↦ none ]

  unfoldable pub as_array : Value → Option (List Value)
  as_array v = elim (shape v) [ Shape.arr l ↦ some l | _ ↦ none ]

  unfoldable pub as_object : Value → Option Map
  as_object v = elim (shape v) [ Shape.obj m ↦ some m | _ ↦ none ]

  -- the pattern `Value::Null`
  unfoldable pub is_null : Value → Bool
  is_null v = elim (shape v) [ Shape.null ↦ true | _ ↦ false ]

  -- `Value::String(s)`, `Value::Number(n.into())`, and so on
  abbrev pub string : Text → Value
  string s = value (Shape.str s)

  abbrev pub u64 : ℕ → Value
  u64 n = value (Shape.num (from_u64 n))

  abbrev pub boolean : Bool → Value
  boolean b = value (Shape.bool b)

  abbrev pub array : List Value → Value
  array l = value (Shape.arr l)

  abbrev pub object : Map → Value
  object m = value (Shape.obj m)

  -- `Value::get(key)`: the member of an object, and nothing of any other value
  abbrev pub member : Value → Text → Option Value
  member v k = and_then (as_object v) (λ m. get m k)

  -- `json!({ "k": v, … })`
  abbrev pub insert_all : Map → List (Text × Value) → Map
  insert_all m [] = m
  insert_all m ((k, v) ∷ rest) = insert_all (insert m k v) rest

  abbrev pub json_object : List (Text × Value) → Value
  json_object fields = object (insert_all empty fields)

  pub as_str-string : (s : Text) → as_str (string s) ≡ some s
  unfolding as_str
  as_str-string s = rw (j.shape-value, as_str)

  pub as_u64-u64 : (n : ℕ) → IsU64 n → as_u64 (u64 n) ≡ some n
  unfolding as_u64
  as_u64-u64 n h = rw (j.shape-value, as_u64) (j.u64_of-from_u64 n h)

  pub is_null-u64 : (n : ℕ) → is_null (u64 n) ≡ false
  unfolding is_null
  is_null-u64 n = rw (j.shape-value, is_null)

  pub as_bool-boolean : (b : Bool) → as_bool (boolean b) ≡ some b
  unfolding as_bool
  as_bool-boolean b = rw (j.shape-value, as_bool)

  pub as_array-array : (l : List Value) → as_array (array l) ≡ some l
  unfolding as_array
  as_array-array l = rw (j.shape-value, as_array)

  pub as_array-object : (m : Map) → as_array (object m) ≡ none
  unfolding as_array
  as_array-object m = rw (j.shape-value, as_array)

  pub as_object-object : (m : Map) → as_object (object m) ≡ some m
  unfolding as_object
  as_object-object m = rw (j.shape-value, as_object)

  pub as_str-object : (m : Map) → as_str (object m) ≡ none
  unfolding as_str
  as_str-object m = rw (j.shape-value, as_str)

  pub as_str-array : (l : List Value) → as_str (array l) ≡ none
  unfolding as_str
  as_str-array l = rw (j.shape-value, as_str)

  pub get-insert :
      (m : Map) (k i : Text) (v : Value)
      → get (insert m k v) i ≡ (if text_eq k i then some v else get m i)
  get-insert = j.get-insert

  pub get-empty : (k : Text) → get empty k ≡ none
  get-empty = j.get-empty

  pub get-remove :
      (m : Map) (k i : Text) → get (remove m k) i ≡ (if text_eq k i then none else get m i)
  get-remove = j.get-remove

-- `if let Some(v) = o { map.insert(k, v) }`
module _ ⦃j : Json⦄ where
  open j use {Value, Map, get, insert}

  unfoldable pub insert_some : Map → Text → Option Value → Map
  insert_some m k none = m
  insert_some m k (some v) = insert m k v

  pub get-insert_some :
      (m : Map) (k i : Text) (o : Option Value)
      → get (insert_some m k o) i ≡ (if text_eq k i then or_else o (get m i) else get m i)
  unfolding insert_some or_else
  get-insert_some m k i none = ground arith
  get-insert_some m k i (some v) = j.get-insert m k i v

pub ruleset json_laws = (
  as_str-string, is_null-u64, as_bool-boolean, as_str-object, as_str-array, as_array-array,
  as_array-object, as_object-object, get-insert, get-empty, get-remove, get-insert_some,
  or_else-none,
)
