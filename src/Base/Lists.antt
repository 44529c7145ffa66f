-- ===== src/Base/Lists.antt =====
-- Lists: measures, membership and universal predicates that compute, tests, and sorting.
use Prim.Native.Nat.{ℕ, zero, suc, ◌+◌, ◌≤◌}
use mathlib.Core.Path.{◌≡◌, refl}
use mathlib.Core.Logic.{◌⊎◌, inl, inr}
use mathlib.Core.Bool.{Bool, true, false, ◌&&◌, ◌||◌}
use mathlib.Core.List.{List, [], ◌∷◌, ◌++◌}
use mathlib.Core.Option.{Option, none, some}
use native.Mathlib.Omega.{arith}
use pueue.Base.Tests.{if◌then◌else◌, Bool-cases, Ord, ◌==◌}

module _ {ℓ} {A : Type ℓ} where
  abbrev pub length : List A → ℕ
  length [] = 0
  length (x ∷ xs) = suc (length xs)

  abbrev pub All {κ} : (A → Type κ) → List A → Type κ
  All P [] = Unit
  All P (x ∷ xs) = P x × All P xs

  abbrev pub head? : List A → Option A
  head? [] = none
  head? (x ∷ xs) = some x

  abbrev pub take : ℕ → List A → List A
  take zero xs = []
  take (suc n) [] = []
  take (suc n) (x ∷ xs) = x ∷ take n xs

  abbrev pub drop : ℕ → List A → List A
  drop zero xs = xs
  drop (suc n) [] = []
  drop (suc n) (x ∷ xs) = drop n xs

  pub length-append : (xs ys : List A) → length (xs ++ ys) ≡ length xs + length ys
  length-append [] ys = omega arith
  length-append (x ∷ xs) ys = omega (arith, length-append xs ys)

  pub take-drop : (n : ℕ) (xs : List A) → take n xs ++ drop n xs ≡ xs
  take-drop zero xs = refl
  take-drop (suc n) [] = refl
  take-drop (suc n) (x ∷ xs) = cc (take-drop n xs)

  pub length-take_of_le : (n : ℕ) (xs : List A) → n ≤ length xs → length (take n xs) ≡ n
  length-take_of_le zero xs h = refl
  length-take_of_le (suc n) [] h = absurd (omega arith)
  length-take_of_le (suc n) (x ∷ xs) h = omega (arith, length-take_of_le n xs (omega arith))

  pub length-drop-le : (n : ℕ) (xs : List A) → length (drop n xs) + n ≤ length xs ⊎ (drop n xs ≡ [])
  length-drop-le zero xs = ground arith
  length-drop-le (suc n) [] = ground arith
  length-drop-le (suc n) (x ∷ xs) = ground (arith, length-drop-le n xs)

  -- Equal fronts of equal lengths leave equal rests.
  pub append_inj :
      (xs xs' ys ys' : List A)
      → length xs ≡ length xs'
      → xs ++ ys ≡ xs' ++ ys'
      → (xs ≡ xs') × (ys ≡ ys')
  append_inj [] [] ys ys' e h = (refl, h)
  append_inj [] (x' ∷ xs') ys ys' e h = absurd (omega arith)
  append_inj (x ∷ xs) [] ys ys' e h = absurd (omega arith)
  append_inj (x ∷ xs) (x' ∷ xs') ys ys' e h =
      let rest : xs ++ ys ≡ xs' ++ ys' = cc in
      let (front, back) = append_inj xs xs' ys ys' (omega arith) rest in (cc front, back)

  abbrev pub is_empty : List A → Bool
  is_empty [] = true
  is_empty (x ∷ xs) = false

  -- `iter().filter(p)`, `iter().all(p)` and `iter().any(p)`.
  unfoldable pub keep : (A → Bool) → List A → List A
  keep p [] = []
  keep p (x ∷ xs) = if p x then x ∷ keep p xs else keep p xs

  unfoldable pub all_of : (A → Bool) → List A → Bool
  all_of p [] = true
  all_of p (x ∷ xs) = p x && all_of p xs

  unfoldable pub any_of : (A → Bool) → List A → Bool
  any_of p [] = false
  any_of p (x ∷ xs) = p x || any_of p xs

  -- `sort_by`, which is stable: an entry goes before those that follow it in the list, unless they
  -- come first.
  unfoldable pub insert_by : (A → A → Bool) → A → List A → List A
  insert_by lt x [] = x ∷ []
  insert_by lt x (y ∷ ys) = if lt y x then y ∷ insert_by lt x ys else x ∷ y ∷ ys

  unfoldable pub sort_by : (A → A → Bool) → List A → List A
  sort_by lt [] = []
  sort_by lt (x ∷ xs) = insert_by lt x (sort_by lt xs)

-- Membership that computes.
module _ {A : Type 0} where
  abbrev pub In : A → List A → Type 0
  In a [] = ⊥
  In a (x ∷ xs) = (a ≡ x) ⊎ In a xs

  pub In-keep : (p : A → Bool) (a : A) (xs : List A) → In a (keep p xs) → In a xs × (p a ≡ true)
  unfolding keep
  In-keep p a [] h = absurd h
  In-keep p a (x ∷ xs) h = ground (arith, In-keep p a xs)

  pub keep-In : (p : A → Bool) (a : A) (xs : List A) → In a xs → p a ≡ true → In a (keep p xs)
  unfolding keep
  keep-In p a [] h e = absurd h
  keep-In p a (x ∷ xs) h e = ground (arith, keep-In p a xs)

  pub all_of→ : (p : A → Bool) (a : A) (xs : List A) → all_of p xs ≡ true → In a xs → p a ≡ true
  unfolding all_of
  all_of→ p a [] h m = absurd m
  all_of→ p a (x ∷ xs) h m = ground (arith, all_of→ p a xs)

  pub all_of-In :
      (p : A → Bool) (xs : List A) → ((a : A) → In a xs → p a ≡ true) → all_of p xs ≡ true
  unfolding all_of
  all_of-In p [] h = refl
  all_of-In p (x ∷ xs) h = ground (arith, h x (inl refl), all_of-In p xs (λ a m. h a (inr m)))

  pub any_of→ : (p : A → Bool) (xs : List A) → any_of p xs ≡ true → (a : A) × In a xs × (p a ≡ true)
  unfolding any_of
  any_of→ p [] h = cc
  any_of→ p (x ∷ xs) h = elim (Bool-cases (p x)) [
    | inl e ↦ (x, inl refl, e)
    | inr e ↦ let (a, m, q) = any_of→ p xs (rw (e, any_of) at h) in (a, inr m, q)
  ]

  pub In→any_of : (p : A → Bool) (a : A) (xs : List A) → In a xs → p a ≡ true → any_of p xs ≡ true
  unfolding any_of
  In→any_of p a [] m e = absurd m
  In→any_of p a (x ∷ xs) m e = ground (arith, In→any_of p a xs)

  pub In-++ : (a : A) (xs ys : List A) → In a (xs ++ ys) → In a xs ⊎ In a ys
  In-++ a [] ys m = inr m
  In-++ a (x ∷ xs) ys m = ground (arith, In-++ a xs ys)

  pub ++-In : (a : A) (xs ys : List A) → In a xs ⊎ In a ys → In a (xs ++ ys)
  ++-In a [] ys m = ground arith
  ++-In a (x ∷ xs) ys m = ground (arith, ++-In a xs ys)

  pub In-insert_by :
      (lt : A → A → Bool) (a x : A) (xs : List A) → In a (insert_by lt x xs) → In a (x ∷ xs)
  unfolding insert_by
  In-insert_by lt a x [] m = m
  In-insert_by lt a x (y ∷ ys) m = ground (arith, In-insert_by lt a x ys)

  pub insert_by-In :
      (lt : A → A → Bool) (a x : A) (xs : List A) → In a (x ∷ xs) → In a (insert_by lt x xs)
  unfolding insert_by
  insert_by-In lt a x [] m = m
  insert_by-In lt a x (y ∷ ys) m = ground (arith, insert_by-In lt a x ys)

  pub In-sort_by : (lt : A → A → Bool) (a : A) (xs : List A) → In a (sort_by lt xs) → In a xs
  unfolding sort_by
  In-sort_by lt a [] m = m
  In-sort_by lt a (x ∷ xs) m =
      ground (arith, In-insert_by lt a x (sort_by lt xs) m, In-sort_by lt a xs)

  pub sort_by-In : (lt : A → A → Bool) (a : A) (xs : List A) → In a xs → In a (sort_by lt xs)
  unfolding sort_by
  sort_by-In lt a [] m = m
  sort_by-In lt a (x ∷ xs) m =
      ground (arith, insert_by-In lt a x (sort_by lt xs), sort_by-In lt a xs)

module _ {A : Type 0} ⦃o : Ord A⦄ where
  -- `Vec::contains`.
  unfoldable pub contains : List A → A → Bool
  contains [] a = false
  contains (x ∷ xs) a = x == a || contains xs a

  pub contains→In : (xs : List A) (a : A) → contains xs a ≡ true → In a xs
  unfolding contains
  contains→In [] a h = cc
  contains→In (x ∷ xs) a h = ground (arith, o.cmp_eq x a, contains→In xs a)

  pub In→contains : (xs : List A) (a : A) → In a xs → contains xs a ≡ true
  unfolding contains
  In→contains [] a h = absurd h
  In→contains (x ∷ xs) a h = ground (arith, o.cmp_refl a, In→contains xs a)
