-- ===== src/Base/Ascending.antt =====
-- The order of a map's entries, for numeric keys.
use Prim.Native.Nat.{ℕ, suc, ◌≤◌, ◌<◌}
use mathlib.Core.Path.{◌≡◌, refl}
use mathlib.Core.Logic.{inl, inr}
use mathlib.Core.Bool.{Bool}
use mathlib.Core.List.{[], ◌∷◌}
use mathlib.Core.Option.{none, some}
use native.Mathlib.Omega.{arith}
use pueue.Base.Tests.{nat_ord, Option-cases}
use pueue.Base.Lists.{In}
use pueue.Base.Maps.{OrdMap, get, insert, update, remove, map_values, retain, last_key}

module _ {ℓ} {V : Type ℓ} where
  -- Keys grow along the list, from `low` on.
  abbrev pub From : ℕ → OrdMap ℕ V → Type 0
  From low [] = Unit {0}
  From low ((k, v) ∷ m) = (low ≤ k) × From (suc k) m

  abbrev pub IsAscending : OrdMap ℕ V → Type 0
  IsAscending m = From 0 m

  pub get-eq-none_of_lt : (k low : ℕ) (m : OrdMap ℕ V) → From low m → k < low → get k m ≡ none
  unfolding get
  get-eq-none_of_lt k low [] f h = refl
  get-eq-none_of_lt k low ((j, v) ∷ m) f h = ground (arith, get-eq-none_of_lt k (suc j) m f.1)

  get-eq-none_of_empty : (k : ℕ) (m : OrdMap ℕ V) → last_key m ≡ none → get k m ≡ none
  unfolding get last_key
  get-eq-none_of_empty k [] e = refl
  get-eq-none_of_empty k ((j, v) ∷ m) e = ground arith

  last_key-ge : (n low : ℕ) (m : OrdMap ℕ V) → From low m → last_key m ≡ some n → low ≤ n
  unfolding last_key
  last_key-ge n low [] f e = cc
  last_key-ge n low ((j, v) ∷ m) f e = elim (Option-cases (last_key m)) [
    | inl none_left ↦ ground arith
    | inr (i, found) ↦ ground (arith, last_key-ge i (suc j) m f.1 found)
  ]

  -- No key lies above the last one.
  pub get-eq-none_of_last :
      (k low : ℕ) (m : OrdMap ℕ V)
      → From low m
      → ((n : ℕ) → last_key m ≡ some n → n < k)
      → get k m ≡ none
  unfolding get last_key
  get-eq-none_of_last k low [] f h = refl
  get-eq-none_of_last k low ((j, v) ∷ m) f h = elim (Option-cases (last_key m)) [
    | inl none_left ↦
        let below = h j (rw (none_left, last_key)) in
        ground (arith, get-eq-none_of_empty k m none_left)
    | inr (n, found) ↦
        let below = h n (rw (found, last_key)) in
        let rest = get-eq-none_of_last k (suc j) m f.1 (λ i e. h i (rw (e, last_key))) in
        ground (arith, last_key-ge n (suc j) m f.1 found)
  ]

  pub insert-From :
      (k low : ℕ) (v : V) (m : OrdMap ℕ V) → low ≤ k → From low m → From low (insert k v m)
  unfolding insert
  insert-From k low v [] h f = (h, tt)
  insert-From k low v ((j, w) ∷ m) h f = ground (arith, insert-From k (suc j) v m)

  pub update-From : (k low : ℕ) (g : V → V) (m : OrdMap ℕ V) → From low m → From low (update k g m)
  unfolding update
  update-From k low g [] f = tt
  update-From k low g ((j, w) ∷ m) f = ground (arith, update-From k (suc j) g m f.1)

  From-mono : (low high : ℕ) (m : OrdMap ℕ V) → low ≤ high → From high m → From low m
  From-mono low high [] h f = tt
  From-mono low high ((j, w) ∷ m) h f = (omega arith, f.1)

  pub remove-From : (k low : ℕ) (m : OrdMap ℕ V) → From low m → From low (remove k m)
  unfolding remove
  remove-From k low [] f = tt
  remove-From k low ((j, w) ∷ m) f =
      ground (arith, remove-From k (suc j) m f.1, From-mono low (suc j) (remove k m))

  pub map_values-From :
      (low : ℕ) (g : ℕ → V → V) (m : OrdMap ℕ V) → From low m → From low (map_values g m)
  unfolding map_values
  map_values-From low g [] f = tt
  map_values-From low g ((j, w) ∷ m) f = (f.0, map_values-From (suc j) g m f.1)

  pub retain-From :
      (low : ℕ) (p : ℕ → V → Bool) (m : OrdMap ℕ V) → From low m → From low (retain p m)
  unfolding retain
  retain-From low p [] f = tt
  retain-From low p ((j, w) ∷ m) f =
      ground (arith, retain-From (suc j) p m f.1, From-mono low (suc j) (retain p m))

module _ {V : Type 0} where
  From-In : (k low : ℕ) (v : V) (m : OrdMap ℕ V) → From low m → In (k, v) m → low ≤ k
  From-In k low v [] f h = absurd h
  From-In k low v ((j, w) ∷ m) f h = ground (arith, From-In k (suc j) v m f.1)

  -- An entry is what a lookup of its key finds.
  pub In→get : (k low : ℕ) (v : V) (m : OrdMap ℕ V) → From low m → In (k, v) m → get k m ≡ some v
  unfolding get
  In→get k low v [] f h = absurd h
  In→get k low v ((j, w) ∷ m) f h =
      ground (arith, In→get k (suc j) v m f.1, From-In k (suc j) v m f.1)
