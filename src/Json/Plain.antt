-- ===== src/Json/Plain.antt =====
-- A concrete JSON library, at which tests and examples run: values as a tree, objects as lists of
-- members.
use swiyu_rs.Prelude.{ℕ, ◌<◌, ◌^◌, ◌≡◌, refl, ap, Bool, Option, none, some, List, [], ◌∷◌}
use swiyu_rs.Prelude.{if◌then◌else◌, ltb, ◌==◌, ◌&&◌, true, false, arith}
use swiyu_rs.Prelude.Text.{Text, text_eq, text_eq_iff, text_eq_refl}
use swiyu_rs.Json.Interface.{Json, Shape}

mutual
  pub data Tree : Type 0 where
    null : Tree
    bool : Bool → Tree
    num : ℕ → Tree
    str : Text → Tree
    arr : Items → Tree
    obj : Members → Tree

  pub data Items : Type 0 where
    nil : Items
    cons : Tree → Items → Items

  pub data Members : Type 0 where
    done : Members
    entry : Text → Tree → Members → Members

abbrev items : List Tree → Items
items [] = nil
items (t ∷ ts) = cons t (items ts)

abbrev trees : Items → List Tree
trees nil = []
trees (cons t ts) = t ∷ trees ts

trees-items : (ts : List Tree) → trees (items ts) ≡ ts
trees-items [] = refl
trees-items (t ∷ ts) = ap (λ r. t ∷ r) (trees-items ts)

items-trees : (ts : Items) → items (trees ts) ≡ ts
items-trees nil = refl
items-trees (cons t ts) = ap (cons t) (items-trees ts)

abbrev get : Members → Text → Option Tree
get done k = none
get (entry i t m) k = if text_eq i k then some t else get m k

-- The order of keys, by their bytes.
abbrev before : Text → Text → Bool
before s [] = false
before [] (d ∷ t) = true
before (c ∷ s) (d ∷ t) = let rest = before s t in if ltb c d then true else (c == d) && rest

before-irreflexive : (s : Text) → before s s ≡ false
before-irreflexive [] = refl
before-irreflexive (c ∷ s) = ground (arith, before-irreflexive s)

before-asymmetric : (s t : Text) → before s t ≡ true → before t s ≡ false
before-asymmetric s [] h = absurd (cc)
before-asymmetric [] (d ∷ t) h = refl
before-asymmetric (c ∷ s) (d ∷ t) h = ground (arith, before-asymmetric s t)

before-transitive : (r s t : Text) → before r s ≡ true → before s t ≡ true → before r t ≡ true
before-transitive r s [] h g = absurd (cc)
before-transitive r [] (d ∷ t) h g = absurd (cc)
before-transitive [] (c ∷ s) (d ∷ t) h g = refl
before-transitive (b ∷ r) (c ∷ s) (d ∷ t) h g = ground (arith, before-transitive r s t)

before-total : (s t : Text) → text_eq s t ≡ false → before s t ≡ false → before t s ≡ true
before-total [] [] e h = absurd (cc)
before-total (c ∷ s) [] e h = refl
before-total [] (d ∷ t) e h = absurd (cc)
before-total (c ∷ s) (d ∷ t) e h = ground (arith, before-total s t)

abbrev insert : Members → Text → Tree → Members
insert done k t = entry k t done
insert (entry i u m) k t =
    let rest = insert m k t in
    if text_eq i k
    then entry k t m
    else if before k i
    then entry k t (entry i u m)
    else entry i u rest

abbrev remove : Members → Text → Members
remove done k = done
remove (entry i u m) k = let rest = remove m k in if text_eq i k then rest else entry i u rest

pub get-insert :
    (m : Members) (k j : Text) (t : Tree)
    → get (insert m k t) j ≡ (if text_eq k j then some t else get m j)
get-insert done k j t = refl
get-insert (entry i u m) k j t =
    ground (arith, text_eq_iff i k, text_eq_iff i j, text_eq_iff k j, get-insert m k j t)

pub get-remove :
    (m : Members) (k j : Text) → get (remove m k) j ≡ (if text_eq k j then none else get m j)
get-remove done k j = ground arith
get-remove (entry i u m) k j =
    ground (arith, text_eq_iff i k, text_eq_iff i j, text_eq_iff k j, get-remove m k j)

pub insert-insert :
    (m : Members) (k l : Text) (t v : Tree)
    → text_eq k l ≡ false
    → insert (insert m k t) l v ≡ insert (insert m l v) k t
insert-insert done k l t v h = ground (
  arith,
  text_eq_iff k l,
  text_eq_iff l k,
  before-asymmetric k l,
  before-asymmetric l k,
  before-total k l,
)
insert-insert (entry i u m) k l t v h = ground (
  arith,
  text_eq_iff i k,
  text_eq_iff i l,
  text_eq_iff k l,
  text_eq_iff l k,
  before-asymmetric k l,
  before-total k l,
  before-transitive l k i,
  before-transitive k l i,
  insert-insert m k l t v h,
)

remove-absent : (m : Members) (k : Text) → get m k ≡ none → remove m k ≡ m
remove-absent done k h = refl
remove-absent (entry i u m) k h = ground (arith, remove-absent m k)

pub remove-insert :
    (m : Members) (k : Text) (t : Tree) → get m k ≡ none → remove (insert m k t) k ≡ m
remove-insert done k t h = ground (arith, text_eq_refl k)
remove-insert (entry i u m) k t h =
    ground (arith, remove-insert m k t, remove-absent m k, text_eq_refl k)

abbrev value : Shape ℕ Tree Members → Tree
value Shape.null = null
value (Shape.bool b) = bool b
value (Shape.num n) = num n
value (Shape.str s) = str s
value (Shape.arr l) = arr (items l)
value (Shape.obj m) = obj m

abbrev shape : Tree → Shape ℕ Tree Members
shape null = Shape.null
shape (bool b) = Shape.bool b
shape (num n) = Shape.num n
shape (str s) = Shape.str s
shape (arr l) = Shape.arr (trees l)
shape (obj m) = Shape.obj m

pub shape-value : (s : Shape ℕ Tree Members) → shape (value s) ≡ s
shape-value (Shape.arr l) = ap Shape.arr (trees-items l)
shape-value Shape.null = refl
shape-value (Shape.bool b) = refl
shape-value (Shape.num n) = refl
shape-value (Shape.str s) = refl
shape-value (Shape.obj m) = refl

pub value-shape : (v : Tree) → value (shape v) ≡ v
value-shape (arr l) = ap arr (items-trees l)
value-shape null = refl
value-shape (bool b) = refl
value-shape (num n) = refl
value-shape (str s) = refl
value-shape (obj m) = refl

abbrev u64_of : ℕ → Option ℕ
u64_of n = if ltb n (2 ^ 64) then some n else none

pub u64_of-lt : (x n : ℕ) → u64_of x ≡ some n → n < 2 ^ 64
u64_of-lt x n h = ground arith

pub u64_of-number : (n : ℕ) → n < 2 ^ 64 → u64_of n ≡ some n
u64_of-number n h = ground arith

instance abbrev pub plain_json : Json
plain_json = record {
  Value = Tree;
  Map = Members;
  Number = ℕ;
  value = value;
  shape = shape;
  from_u64 = λ n. n;
  u64_of = u64_of;
  empty = done;
  get = get;
  insert = insert;
  remove = remove;
  shape-value = shape-value;
  value-shape = value-shape;
  u64_of-from_u64 = u64_of-number;
  u64_of-lt = u64_of-lt;
  get-empty = λ k. refl;
  get-insert = get-insert;
  get-remove = get-remove;
  insert-insert = insert-insert;
}
