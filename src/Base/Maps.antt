-- ===== src/Base/Maps.antt =====
-- `std::collections::BTreeMap` as the list of its entries in the order of their keys.
-- Every law below is about `get`, and holds of any list of entries.
use mathlib.Core.Path.{◌≡◌, refl}
use mathlib.Core.Logic.{inl, inr}
use mathlib.Core.Bool.{Bool}
use mathlib.Core.List.{List, [], ◌∷◌}
use mathlib.Core.Option.{Option, none, some}
use mathlib.Core.Option
use Prim.Native.Nat.{Ordering}
use native.Mathlib.Omega.{arith}
use pueue.Base.Tests.{if◌then◌else◌, Bool-cases, Ord, ◌==◌, ==_refl, is_some}
use pueue.Base.Lists.{In}

abbrev pub OrdMap {ℓ κ} : Type ℓ → Type κ → Type (ℓ ⊔ κ)
OrdMap K V = List (K × V)

module _ {ℓ κ} {K : Type ℓ} {V : Type κ} where
  abbrev pub keys : OrdMap K V → List K
  keys [] = []
  keys ((k, v) ∷ m) = k ∷ keys m

  abbrev pub values : OrdMap K V → List V
  values [] = []
  values ((k, v) ∷ m) = v ∷ values m

  -- A loop over `iter_mut()` that rewrites each value.
  unfoldable pub map_values : (K → V → V) → OrdMap K V → OrdMap K V
  map_values f [] = []
  map_values f ((k, v) ∷ m) = (k, f k v) ∷ map_values f m

  unfoldable pub retain : (K → V → Bool) → OrdMap K V → OrdMap K V
  retain p [] = []
  retain p ((k, v) ∷ m) = if p k v then (k, v) ∷ retain p m else retain p m

  -- `last_key_value()`.
  unfoldable pub last_key : OrdMap K V → Option K
  last_key [] = none
  last_key ((k, v) ∷ m) = elim (last_key m) [ none ↦ some k | some j ↦ some j ]

module _ {ℓ κ} {K : Type ℓ} {V : Type κ} ⦃o : Ord K⦄ where
  unfoldable pub get : K → OrdMap K V → Option V
  get k [] = none
  get k ((j, v) ∷ m) = if j == k then some v else get k m

  abbrev pub contains_key : K → OrdMap K V → Bool
  contains_key k m = is_some (get k m)

  -- The entry replaces one of the same key, and goes before the first larger key.
  unfoldable pub insert : K → V → OrdMap K V → OrdMap K V
  insert k v [] = (k, v) ∷ []
  insert k v ((j, w) ∷ m) =
      let rest = insert k v m in
      elim (o.cmp k j) [
        | Ordering.lt ↦ (k, v) ∷ (j, w) ∷ m
        | Ordering.eq ↦ (k, v) ∷ m
        | Ordering.gt ↦ (j, w) ∷ rest
      ]

  -- A write through `get_mut(k)`.
  unfoldable pub update : K → (V → V) → OrdMap K V → OrdMap K V
  update k f [] = []
  update k f ((j, v) ∷ m) = if j == k then (j, f v) ∷ m else (j, v) ∷ update k f m

  unfoldable pub remove : K → OrdMap K V → OrdMap K V
  remove k [] = []
  remove k ((j, v) ∷ m) = if j == k then remove k m else (j, v) ∷ remove k m

  pub get-insert :
      (j k : K) (v : V) (m : OrdMap K V)
      → get j (insert k v m) ≡ (if k == j then some v else get j m)
  unfolding get insert
  get-insert j k v [] = refl
  get-insert j k v ((i, w) ∷ m) =
      ground (arith, o.cmp_eq k i, o.cmp_eq k j, o.cmp_eq i j, o.cmp_refl k, get-insert j k v m)

  pub get-update :
      (j k : K) (f : V → V) (m : OrdMap K V)
      → get j (update k f m) ≡ (if k == j then Option.map f (get j m) else get j m)
  unfolding get update
  get-update j k f [] = ground arith
  get-update j k f ((i, w) ∷ m) =
      ground (arith, o.cmp_eq k j, o.cmp_eq i j, o.cmp_eq i k, o.cmp_refl k, get-update j k f m)

  pub get-remove :
      (j k : K) (m : OrdMap K V) → get j (remove k m) ≡ (if k == j then none else get j m)
  unfolding get remove
  get-remove j k [] = ground arith
  get-remove j k ((i, w) ∷ m) =
      ground (arith, o.cmp_eq k j, o.cmp_eq i j, o.cmp_eq i k, o.cmp_refl k, get-remove j k m)

  pub get-map_values :
      (j : K) (f : K → V → V) (m : OrdMap K V) → get j (map_values f m) ≡ Option.map (f j) (get j m)
  unfolding get map_values
  get-map_values j f [] = refl
  get-map_values j f ((i, w) ∷ m) = ground (arith, o.cmp_eq i j, get-map_values j f m)

-- Entries and lookups, at the level of the program's data.
module _ {K V : Type 0} ⦃o : Ord K⦄ where
  pub get→In : (k : K) (v : V) (m : OrdMap K V) → get k m ≡ some v → In (k, v) m
  unfolding get
  get→In k v [] h = cc
  get→In k v ((j, w) ∷ m) h = ground (arith, o.cmp_eq j k, get→In k v m)

  pub In-keys : (k : K) (v : V) (m : OrdMap K V) → In (k, v) m → In k (keys m)
  In-keys k v [] h = absurd h
  In-keys k v ((j, w) ∷ m) h = ground (arith, In-keys k v m)

  pub In-keys→get : (k : K) (m : OrdMap K V) → In k (keys m) → (v : V) × (get k m ≡ some v)
  unfolding get
  In-keys→get k [] h = absurd h
  In-keys→get k ((j, w) ∷ m) h = elim (Bool-cases (j == k)) [
    | inl e ↦ (w, rw (e, get))
    | inr e ↦ let (v, found) = In-keys→get k m (ground (arith, ==_refl k)) in (v, rw (e, get) found)
  ]

  pub In-values : (k : K) (v : V) (m : OrdMap K V) → In (k, v) m → In v (values m)
  In-values k v [] h = absurd h
  In-values k v ((j, w) ∷ m) h = ground (arith, In-values k v m)
