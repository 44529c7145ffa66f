-- ===== src/Daemon/Links/Steps.antt =====
-- Membership in `dependents` after each step of the bookkeeping.
use mathlib.Core.Bool.{false≢true}
use mathlib.Core.Option
use pueue.Base.{
  In-++, ℕ, ◌≡◌, refl, sym, ◌∙◌, eq→==, ◌≢◌, ◌⊎◌, inl, inr, true, not, Option, none, some, List, [],
  ◌∷◌, ◌++◌, arith, get, update, get-update, contains→In, In, In-keep, keep-In, ltb, In-sort_by,
  sort_by-In, is_some, ◌==◌, ==→eq, ==_refl, nat_ord, if◌then◌else◌, Bool-cases, Option-cases,
}
use pueue.Task.{Task}
use pueue.State.{Tasks}
use pueue.Daemon.Internal.{dependents_of}
use pueue.Daemon.Links.{drop_dependent, add_dependent, drop_links, add_links}

append-In_left : (a : ℕ) (xs ys : List ℕ) → In a xs → In a (xs ++ ys)
append-In_left a [] ys m = absurd m
append-In_left a (x ∷ xs) ys m = ground (arith, append-In_left a xs ys)

append-In_last : (a : ℕ) (xs : List ℕ) → In a (xs ++ a ∷ [])
append-In_last a [] = inl refl
append-In_last a (x ∷ xs) = inr (append-In_last a xs)

-- A task of the map, or none, after a write through `get_mut`.
pub dependents-update :
    (b d : ℕ) (f : Task → Task) (tasks : Tasks)
    → dependents_of (get b (update d f tasks))
      ≡ (if d == b then dependents_of (Option.map f (get b tasks)) else dependents_of (get b tasks))
dependents-update b d f tasks = ground (arith, get-update b d f tasks)

drop_map→ :
    (a id : ℕ) (o : Option Task)
    → In a (dependents_of (Option.map (drop_dependent id) o))
    → In a (dependents_of o) × (a ≢ id)
unfolding drop_dependent
drop_map→ a id none m = absurd m
drop_map→ a id (some t) m =
    let (old, other) = In-keep (λ x. not (x == id)) a t.dependents m in
    (old, λ e. ground (arith, ==_refl id, other))

drop_map← :
    (a id : ℕ) (o : Option Task)
    → In a (dependents_of o)
    → a ≢ id
    → In a (dependents_of (Option.map (drop_dependent id) o))
unfolding drop_dependent
drop_map← a id none m h = absurd m
drop_map← a id (some t) m h =
    keep-In (λ x. not (x == id)) a t.dependents m (ground (arith, ==→eq a id))

add_map→ :
    (a id : ℕ) (o : Option Task)
    → In a (dependents_of (Option.map (add_dependent id) o))
    → In a (dependents_of o) ⊎ (a ≡ id)
unfolding add_dependent
add_map→ a id none m = absurd m
add_map→ a id (some t) m =
    ground (arith, In-sort_by ltb a (t.dependents ++ id ∷ []), In-++ a t.dependents (id ∷ []))

add_map← :
    (a id : ℕ) (o : Option Task)
    → In a (dependents_of o)
    → In a (dependents_of (Option.map (add_dependent id) o))
unfolding add_dependent
add_map← a id none m = absurd m
add_map← a id (some t) m =
    ground
      (arith, sort_by-In ltb a (t.dependents ++ id ∷ []), append-In_left a t.dependents (id ∷ []))

add_map_self : (id : ℕ) (t : Task) → In id (add_dependent id t).dependents
unfolding add_dependent
add_map_self id t = ground (
  arith,
  contains→In t.dependents id,
  sort_by-In ltb id (t.dependents ++ id ∷ []),
  append-In_last id t.dependents,
)

module _ (a id b d : ℕ) (tasks : Tasks) where
  drop_update→ :
      In a (dependents_of (get b (update d (drop_dependent id) tasks)))
      → In a (dependents_of (get b tasks)) × (b ≡ d → a ≢ id)
  drop_update→ m = elim (Bool-cases (d == b)) [
    | inl e ↦
        let (old, other) =
          drop_map→ a id (get b tasks)
            (rw (dependents-update b d (drop_dependent id) tasks, e) at m) in
        (old, λ _. other)
    | inr e ↦ (
      rw (dependents-update b d (drop_dependent id) tasks, e) at m,
      λ same. absurd (false≢true (sym e ∙ eq→== d b (sym same))),
    )
  ]

  add_update→ :
      In a (dependents_of (get b (update d (add_dependent id) tasks)))
      → In a (dependents_of (get b tasks)) ⊎ ((a ≡ id) × (b ≡ d))
  add_update→ m = elim (Bool-cases (d == b)) [
    | inl e ↦
        elim (add_map→ a id (get b tasks)
          (rw (dependents-update b d (add_dependent id) tasks, e) at m)) [
            | inl old ↦ inl old
            | inr same ↦ inr (same, sym (==→eq d b e))
          ]
    | inr e ↦ inl (rw (dependents-update b d (add_dependent id) tasks, e) at m)
  ]

module _ (a id b : ℕ) where
  pub drop_links→ :
      (ids : List ℕ) (tasks : Tasks)
      → In a (dependents_of (get b (drop_links id ids tasks)))
      → In a (dependents_of (get b tasks)) × (In b ids → a ≢ id)
  unfolding drop_links
  drop_links→ [] tasks m = (m, λ h. absurd h)
  drop_links→ (d ∷ ids) tasks m =
      let (later, other) = drop_links→ ids (update d (drop_dependent id) tasks) m in
      let (old, here) = drop_update→ a id b d tasks later in
      (old, λ h. elim h [ inl e ↦ here e | inr k ↦ other k ])

  pub drop_links← :
      (ids : List ℕ) (tasks : Tasks)
      → In a (dependents_of (get b tasks))
      → a ≢ id
      → In a (dependents_of (get b (drop_links id ids tasks)))
  unfolding drop_links
  drop_links← [] tasks m h = m
  drop_links← (d ∷ ids) tasks m h =
      drop_links← ids (update d (drop_dependent id) tasks)
        (rw (dependents-update b d (drop_dependent id) tasks)
          (ground (arith, drop_map← a id (get b tasks) m h)))
        h

  pub add_links→ :
      (ids : List ℕ) (tasks : Tasks)
      → In a (dependents_of (get b (add_links id ids tasks)))
      → In a (dependents_of (get b tasks)) ⊎ ((a ≡ id) × In b ids)
  unfolding add_links
  add_links→ [] tasks m = inl m
  add_links→ (d ∷ ids) tasks m = elim (add_links→ ids (update d (add_dependent id) tasks) m) [
    | inr (e, k) ↦ inr (e, inr k)
    | inl later ↦ elim (add_update→ a id b d tasks later) [
      | inl old ↦ inl old
      | inr (e, same) ↦ inr (e, inl same)
    ]
  ]

  pub add_links← :
      (ids : List ℕ) (tasks : Tasks)
      → In a (dependents_of (get b tasks))
      → In a (dependents_of (get b (add_links id ids tasks)))
  unfolding add_links
  add_links← [] tasks m = m
  add_links← (d ∷ ids) tasks m = add_links← ids (update d (add_dependent id) tasks) (
      rw (dependents-update b d (add_dependent id) tasks)
        (ground (arith, add_map← a id (get b tasks) m)))

pub is_some-update :
    (b d : ℕ) (f : Task → Task) (tasks : Tasks)
    → is_some (get b (update d f tasks)) ≡ is_some (get b tasks)
is_some-update b d f tasks = ground (arith, get-update b d f tasks)

pub add_links_self :
    (id b : ℕ) (ids : List ℕ) (tasks : Tasks)
    → is_some (get b tasks) ≡ true
    → In b ids
    → In id (dependents_of (get b (add_links id ids tasks)))
unfolding add_links
add_links_self id b [] tasks e m = absurd m
add_links_self id b (d ∷ ids) tasks e (inr m) =
    add_links_self id b ids (update d (add_dependent id) tasks)
      (is_some-update b d (add_dependent id) tasks ∙ e) m
add_links_self id b (d ∷ ids) tasks e (inl here) = elim (Option-cases (get b tasks)) [
  | inl missing ↦ absurd (ground arith)
  | inr (u, found) ↦ add_links← id id b ids (update d (add_dependent id) tasks) (
      rw (dependents-update b d (add_dependent id) tasks, eq→== d b (sym here), found)
        (add_map_self id u))
]
