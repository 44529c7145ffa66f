-- ===== src/Base/Orders.antt =====
-- Comparisons that are total preorders.
use Prim.Native.Nat.{ℕ, compare, Ordering}
use mathlib.Core.Path.{◌≡◌, refl}
use mathlib.Core.Logic.{◌≢◌}
use mathlib.Core.Bool.{Bool, true, false}
use mathlib.Core.Option.{Option, none, some}
use mathlib.Core.List.{List, [], ◌∷◌}
use native.Mathlib.Omega.{arith}

abbrev pub Comparison {ℓ} : Type ℓ → Type ℓ
Comparison A = A → A → Ordering

abbrev pub flip : Ordering → Ordering
flip Ordering.lt = Ordering.gt
flip Ordering.eq = Ordering.eq
flip Ordering.gt = Ordering.lt

pub record IsOrder {ℓ} {A : Type ℓ} (cmp : Comparison A) : Type ℓ where
  pub swap : (x y : A) → cmp y x ≡ flip (cmp x y)
  pub trans : (x y z : A) → cmp x y ≢ Ordering.gt → cmp y z ≢ Ordering.gt → cmp x z ≢ Ordering.gt

-- `Ord` of `Option`: `None` comes first.
abbrev pub cmp_option {ℓ} : {A : Type ℓ} → Comparison A → Comparison (Option A)
cmp_option cmp none none = Ordering.eq
cmp_option cmp none (some y) = Ordering.lt
cmp_option cmp (some x) none = Ordering.gt
cmp_option cmp (some x) (some y) = cmp x y

abbrev pub then_cmp : Ordering → Ordering → Ordering
then_cmp Ordering.eq next = next
then_cmp Ordering.lt next = Ordering.lt
then_cmp Ordering.gt next = Ordering.gt

-- `Ord` of sequences, which is lexicographic.
unfoldable pub cmp_list {ℓ} : {A : Type ℓ} → Comparison A → Comparison (List A)
cmp_list cmp [] [] = Ordering.eq
cmp_list cmp [] (y ∷ ys) = Ordering.lt
cmp_list cmp (x ∷ xs) [] = Ordering.gt
cmp_list cmp (x ∷ xs) (y ∷ ys) = then_cmp (cmp x y) (cmp_list cmp xs ys)

-- `a.key.cmp(&b.key)`.
abbrev pub cmp_by {ℓ κ} : {A : Type ℓ} {B : Type κ} → (A → B) → Comparison B → Comparison A
cmp_by key cmp x y = cmp (key x) (key y)

abbrev pub is_less : Ordering → Bool
is_less Ordering.lt = true
is_less Ordering.eq = false
is_less Ordering.gt = false

nat_swap : (x y : ℕ) → compare y x ≡ flip (compare x y)
nat_swap x y = ground arith

nat_trans :
    (x y z : ℕ) → compare x y ≢ Ordering.gt → compare y z ≢ Ordering.gt → compare x z ≢ Ordering.gt
nat_trans x y z h k e = ground (arith, h, k)

pub compare-IsOrder : IsOrder compare
compare-IsOrder = record { swap = nat_swap; trans = nat_trans }

pub cmp_by-IsOrder :
    {A B : Type 0} (key : A → B) (cmp : Comparison B) → IsOrder cmp → IsOrder (cmp_by key cmp)
cmp_by-IsOrder key cmp o = record {
  swap = λ x y. o.swap (key x) (key y);
  trans = λ x y z. o.trans (key x) (key y) (key z);
}

module _ {A : Type 0} (cmp : Comparison A) where
  abbrev pub before : A → A → Bool
  before x y = is_less (cmp x y)

module _ {A : Type 0} (cmp : Comparison A) (o : IsOrder cmp) where
  option_swap : (x y : Option A) → cmp_option cmp y x ≡ flip (cmp_option cmp x y)
  option_swap none none = refl
  option_swap none (some y) = refl
  option_swap (some x) none = refl
  option_swap (some x) (some y) = o.swap x y

  option_trans :
      (x y z : Option A)
      → cmp_option cmp x y ≢ Ordering.gt
      → cmp_option cmp y z ≢ Ordering.gt
      → cmp_option cmp x z ≢ Ordering.gt
  option_trans none y none h k e = cc
  option_trans none y (some z) h k e = cc
  option_trans (some x) none z h k e = h refl
  option_trans (some x) (some y) none h k e = k refl
  option_trans (some x) (some y) (some z) h k e = o.trans x y z h k e

  pub cmp_option-IsOrder : IsOrder (cmp_option cmp)
  cmp_option-IsOrder = record { swap = option_swap; trans = option_trans }

  list_swap : (xs ys : List A) → cmp_list cmp ys xs ≡ flip (cmp_list cmp xs ys)
  unfolding cmp_list
  list_swap [] [] = refl
  list_swap [] (y ∷ ys) = refl
  list_swap (x ∷ xs) [] = refl
  list_swap (x ∷ xs) (y ∷ ys) = ground (arith, o.swap x y, list_swap xs ys)

  list_trans :
      (xs ys zs : List A)
      → cmp_list cmp xs ys ≢ Ordering.gt
      → cmp_list cmp ys zs ≢ Ordering.gt
      → cmp_list cmp xs zs ≢ Ordering.gt
  unfolding cmp_list
  list_trans [] ys [] h k e = cc
  list_trans [] ys (z ∷ zs) h k e = cc
  list_trans (x ∷ xs) [] zs h k e = h refl
  list_trans (x ∷ xs) (y ∷ ys) [] h k e = k refl
  list_trans (x ∷ xs) (y ∷ ys) (z ∷ zs) h k e = ground (
    arith,
    o.swap x y,
    o.swap y z,
    o.swap x z,
    o.trans x y z,
    o.trans y z x,
    o.trans z x y,
    list_trans xs ys zs,
  )

  pub cmp_list-IsOrder : IsOrder (cmp_list cmp)
  cmp_list-IsOrder = record { swap = list_swap; trans = list_trans }
