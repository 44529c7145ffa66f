-- ===== src/Base/Sorting.antt =====
-- Sorting by a comparison that is a total preorder.
use Prim.Native.Nat.{Ordering}
use mathlib.Core.Path.{refl, sym, subst}
use mathlib.Core.Logic.{◌≢◌, inl, inr}
use mathlib.Core.Bool.{Bool}
use mathlib.Core.List.Permᴰ
use mathlib.Core.Logic.Or
use mathlib.Core.List.{
  Permᴰ, eq-or-mem_of_mem-cons, Pairwise, Mem, Pairwise-reverse, not-mem-nil, List, [], ◌∷◌,
  reverse,
}
use native.Mathlib.Omega.{arith}
use pueue.Base.Tests.{Bool-cases}
use pueue.Base.Lists.{All, insert_by, sort_by}
use pueue.Base.Orders.{Comparison, IsOrder, before}

module _ {A : Type 0} (cmp : Comparison A) where
  -- No entry comes before one that stands left of it.
  abbrev pub IsSorted : List A → Type 0
  IsSorted [] = Unit
  IsSorted (x ∷ xs) = All (λ y. cmp x y ≢ Ordering.gt) xs × IsSorted xs

module _ {A : Type 0} (cmp : Comparison A) (o : IsOrder cmp) where
  All-insert_by :
      (P : A → Type 0) (x : A) (xs : List A) → P x → All P xs → All P (insert_by (before cmp) x xs)
  unfolding insert_by
  All-insert_by P x [] p a = (p, tt)
  All-insert_by P x (y ∷ ys) p a = elim (Bool-cases (before cmp y x)) [
    | inl less ↦ rw (less) (a.0, All-insert_by P x ys p a.1)
    | inr not_less ↦ rw (not_less) (p, a)
  ]

  All-le :
      (x y : A) (ys : List A)
      → cmp x y ≢ Ordering.gt
      → All (λ z. cmp y z ≢ Ordering.gt) ys
      → All (λ z. cmp x z ≢ Ordering.gt) ys
  All-le x y [] h a = tt
  All-le x y (z ∷ zs) h a = (o.trans x y z h a.0, All-le x y zs h a.1)

  insert_by-IsSorted :
      (x : A) (xs : List A) → IsSorted cmp xs → IsSorted cmp (insert_by (before cmp) x xs)
  unfolding insert_by
  insert_by-IsSorted x [] s = (tt, tt)
  insert_by-IsSorted x (y ∷ ys) s = elim (Bool-cases (before cmp y x)) [
    | inl less ↦ rw less (
      All-insert_by (λ z. cmp y z ≢ Ordering.gt) x ys (ground (arith, less)) s.0,
      insert_by-IsSorted x ys s.1,
    )
    | inr not_less ↦
        let below : cmp x y ≢ Ordering.gt = ground (arith, not_less, o.swap x y) in
        rw not_less ((below, All-le x y ys below s.0), s)
  ]

  pub sort_by-IsSorted : (xs : List A) → IsSorted cmp (sort_by (before cmp) xs)
  unfolding sort_by
  sort_by-IsSorted [] = tt
  sort_by-IsSorted (x ∷ xs) = insert_by-IsSorted x (sort_by (before cmp) xs) (sort_by-IsSorted xs)

module _ {A : Type 0} (lt : A → A → Bool) where
  insert_by-Permᴰ : (x : A) (xs : List A) → Permᴰ (insert_by lt x xs) (x ∷ xs)
  unfolding insert_by
  insert_by-Permᴰ x [] = Permᴰ.refl (x ∷ [])
  insert_by-Permᴰ x (y ∷ ys) = elim (Bool-cases (lt y x)) [
    | inl less ↦
        rw less (Permᴰ.trans (Permᴰ.cons refl (insert_by-Permᴰ x ys)) (Permᴰ.swap refl refl))
    | inr not_less ↦ rw not_less (Permᴰ.refl (x ∷ y ∷ ys))
  ]

  pub sort_by-Permᴰ : (xs : List A) → Permᴰ (sort_by lt xs) xs
  unfolding sort_by
  sort_by-Permᴰ [] = Permᴰ.refl []
  sort_by-Permᴰ (x ∷ xs) =
      Permᴰ.trans (insert_by-Permᴰ x (sort_by lt xs)) (Permᴰ.cons refl (sort_by-Permᴰ xs))

at_least-prop : (o : Ordering) → IsProp (o ≢ Ordering.gt)
at_least-prop o = hlevel

module _ {A : Type 0} (P : A → Type 0) (P-prop : (a : A) → IsProp (P a)) where
  All-Mem : (xs : List A) (a : A) → All P xs → Mem a xs → P a
  All-Mem [] a h m = absurd (not-mem-nil m)
  All-Mem (x ∷ xs) a h m =
      Or.elim (P-prop a) (eq-or-mem_of_mem-cons m) (λ e. subst P (sym e) h.0)
        (λ rest. All-Mem xs a h.1 rest)

module _ {A : Type 0} (cmp : Comparison A) where
  IsSorted→Pairwise : (xs : List A) → IsSorted cmp xs → Pairwise (λ x y. cmp x y ≢ Ordering.gt) xs
  IsSorted→Pairwise [] s = Pairwise.nil
  IsSorted→Pairwise (x ∷ xs) s =
      Pairwise.cons
        (λ a m. All-Mem (λ y. cmp x y ≢ Ordering.gt) (λ y. at_least-prop (cmp x y)) xs a s.0 m)
        (IsSorted→Pairwise xs s.1)

  pub sort_by-Pairwise :
      (xs : List A)
      → IsOrder cmp
      → Pairwise (λ x y. cmp x y ≢ Ordering.gt) (sort_by (before cmp) xs)
  sort_by-Pairwise xs o = IsSorted→Pairwise (sort_by (before cmp) xs) (sort_by-IsSorted cmp o xs)

  pub reverse-sort_by-Pairwise :
      (xs : List A)
      → IsOrder cmp
      → Pairwise (λ x y. cmp y x ≢ Ordering.gt) (reverse (sort_by (before cmp) xs))
  reverse-sort_by-Pairwise xs o =
      (Pairwise-reverse (λ x y. at_least-prop (cmp y x))).1 (sort_by-Pairwise xs o)
