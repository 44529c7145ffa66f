-- ===== src/Daemon/Internal/Restore/Index.antt =====
-- The reverse index that a restored state gets: `build_reverse_dependency_index`
-- (daemon/internal_state/state.rs).
use mathlib.Core.Bool.{false≢true}
use mathlib.Core.Option
use pueue.Base.{
  ℕ, ◌≡◌, refl, sym, ap, ◌∙◌, subst, ◌⊎◌, inl, inr, true, false, Option, none, some, List, [], ◌∷◌,
  arith, get, update, contains→In, In, In-++, ++-In, is_some, ◌==◌, ==→eq, eq→==, nat_ord,
  Bool-cases,
}
use pueue.Task.{Task}
use pueue.State.{Tasks}
use pueue.Daemon.Os.{for_all}
use pueue.Daemon.Internal.{dependents_of}
use pueue.Daemon.Internal.Restore.{push_dependent, index_dependencies, index_all}
use pueue.Daemon.Links.Steps.{dependents-update, is_some-update}
use pueue.Daemon.Links.Shape.{shape, shape-update, core}

push→ : (a id : ℕ) (t : Task) → In a (push_dependent id t).dependents → In a t.dependents ⊎ (a ≡ id)
unfolding push_dependent
push→ a id t m = ground (arith, In-++ a t.dependents (id ∷ []))

push← : (a id : ℕ) (t : Task) → In a t.dependents ⊎ (a ≡ id) → In a (push_dependent id t).dependents
unfolding push_dependent
push← a id t m = ground (arith, ++-In a t.dependents (id ∷ []), contains→In t.dependents id)

push_map→ :
    (a id : ℕ) (o : Option Task)
    → In a (dependents_of (Option.map (push_dependent id) o))
    → In a (dependents_of o) ⊎ (a ≡ id)
push_map→ a id none m = absurd m
push_map→ a id (some t) m = push→ a id t m

push_map← :
    (a id : ℕ) (o : Option Task)
    → is_some o ≡ true
    → In a (dependents_of o) ⊎ (a ≡ id)
    → In a (dependents_of (Option.map (push_dependent id) o))
push_map← a id none e m = cc
push_map← a id (some t) e m = push← a id t m

module _ (a b : ℕ) where
  push_update→ :
      (id d : ℕ) (tasks : Tasks)
      → In a (dependents_of (get b (update d (push_dependent id) tasks)))
      → In a (dependents_of (get b tasks)) ⊎ ((a ≡ id) × (b ≡ d))
  push_update→ id d tasks m =
      let law = dependents-update b d (push_dependent id) tasks in
      elim (Bool-cases (d == b)) [
        | inl e ↦ elim (push_map→ a id (get b tasks) (rw (law, e) at m)) [
          | inl old ↦ inl old
          | inr same ↦ inr (same, sym (==→eq d b e))
        ]
        | inr e ↦ inl (rw (law, e) at m)
      ]

  push_update← :
      (id d : ℕ) (tasks : Tasks)
      → is_some (get b tasks) ≡ true
      → In a (dependents_of (get b tasks)) ⊎ ((a ≡ id) × (b ≡ d))
      → In a (dependents_of (get b (update d (push_dependent id) tasks)))
  push_update← id d tasks there m =
      let law = dependents-update b d (push_dependent id) tasks in
      let cases = push_map← a id (get b tasks) there in
      elim (Bool-cases (d == b)) [
        | inl e ↦ rw (law, e) (cases (first m))
        | inr e ↦ rw (law, e) (old e m)
      ]
    where
      first : {A B C : Type 0} → A ⊎ (B × C) → A ⊎ B
      first (inl x) = inl x
      first (inr (y, z)) = inr y

      old :
          (d == b) ≡ false
          → In a (dependents_of (get b tasks)) ⊎ ((a ≡ id) × (b ≡ d))
          → In a (dependents_of (get b tasks))
      old e (inl x) = x
      old e (inr (_, same)) = absurd (false≢true (sym e ∙ eq→== d b (sym same)))

  index_dependencies→ :
      (id : ℕ) (ids : List ℕ) (tasks : Tasks)
      → In a (dependents_of (get b (index_dependencies tasks id ids)))
      → In a (dependents_of (get b tasks)) ⊎ ((a ≡ id) × In b ids)
  unfolding index_dependencies for_all
  index_dependencies→ id [] tasks m = inl m
  index_dependencies→ id (d ∷ ids) tasks m =
      elim (index_dependencies→ id ids (update d (push_dependent id) tasks) m) [
        | inr (e, k) ↦ inr (e, inr k)
        | inl later ↦ elim (push_update→ id d tasks later) [
          | inl old ↦ inl old
          | inr (e, here) ↦ inr (e, inl here)
        ]
      ]

  index_dependencies← :
      (id : ℕ) (ids : List ℕ) (tasks : Tasks)
      → is_some (get b tasks) ≡ true
      → In a (dependents_of (get b tasks)) ⊎ ((a ≡ id) × In b ids)
      → In a (dependents_of (get b (index_dependencies tasks id ids)))
  unfolding index_dependencies for_all
  index_dependencies← id [] tasks there (inl m) = m
  index_dependencies← id [] tasks there (inr (_, m)) = absurd m
  index_dependencies← id (d ∷ ids) tasks there m =
      index_dependencies← id ids (update d (push_dependent id) tasks)
        (is_some-update b d (push_dependent id) tasks ∙ there)
        (elim m [
          | inl old ↦ inl (push_update← id d tasks there (inl old))
          | inr (e, inl here) ↦ inl (push_update← id d tasks there (inr (e, here)))
          | inr (e, inr k) ↦ inr (e, k)
        ])

-- Some entry of the list is of task `a` and names `b` as a dependency.
abbrev pub Names : List (ℕ × Task) → ℕ → ℕ → Type 0
Names entries a b = (t : Task) × In (a, t) entries × In b t.dependencies

is_some-index :
    (b id : ℕ) (ids : List ℕ) (tasks : Tasks)
    → is_some (get b (index_dependencies tasks id ids)) ≡ is_some (get b tasks)
unfolding index_dependencies for_all
is_some-index b id [] tasks = refl
is_some-index b id (d ∷ ids) tasks =
    is_some-index b id ids (update d (push_dependent id) tasks)
    ∙ is_some-update b d (push_dependent id) tasks

module _ (a b : ℕ) where
  pub index_all→ :
      (entries : List (ℕ × Task)) (index : Tasks)
      → In a (dependents_of (get b (index_all entries index)))
      → In a (dependents_of (get b index)) ⊎ Names entries a b
  unfolding index_all
  index_all→ [] index m = inl m
  index_all→ ((id, t) ∷ entries) index m =
      elim (index_all→ entries (index_dependencies index id t.dependencies) m) [
        | inr (u, entry, k) ↦ inr (u, inr entry, k)
        | inl later ↦ elim (index_dependencies→ a b id t.dependencies index later) [
          | inl old ↦ inl old
          | inr (e, k) ↦ inr (t, inl (ap (λ x. (x, t)) e), k)
        ]
      ]

  pub index_all← :
      (entries : List (ℕ × Task)) (index : Tasks)
      → is_some (get b index) ≡ true
      → In a (dependents_of (get b index)) ⊎ Names entries a b
      → In a (dependents_of (get b (index_all entries index)))
  unfolding index_all
  index_all← [] index there (inl m) = m
  index_all← [] index there (inr (t, m, k)) = absurd m
  index_all← ((id, t) ∷ entries) index there m =
      index_all← entries (index_dependencies index id t.dependencies)
        (is_some-index b id t.dependencies index ∙ there)
        (elim m [
          | inl old ↦ inl (index_dependencies← a b id t.dependencies index there (inl old))
          | inr (u, inl here, k) ↦ inl (
              index_dependencies← a b id t.dependencies index there
                (inr (ap (λ x. x.0) here, subst (λ (x : ℕ × Task). In b x.1.dependencies) here k)))
          | inr (u, inr entry, k) ↦ inr (u, entry, k)
        ])

core-push : (id : ℕ) (t : Task) → core (push_dependent id t) ≡ core t
unfolding push_dependent
core-push id t = ground arith

shape-index :
    (a id : ℕ) (ids : List ℕ) (tasks : Tasks)
    → shape (get a (index_dependencies tasks id ids)) ≡ shape (get a tasks)
unfolding index_dependencies for_all
shape-index a id [] tasks = refl
shape-index a id (d ∷ ids) tasks =
    shape-index a id ids (update d (push_dependent id) tasks)
    ∙ shape-update a d (push_dependent id) tasks (core-push id)

pub shape-index_all :
    (a : ℕ) (entries : List (ℕ × Task)) (index : Tasks)
    → shape (get a (index_all entries index)) ≡ shape (get a index)
unfolding index_all
shape-index_all a [] index = refl
shape-index_all a ((id, t) ∷ entries) index =
    shape-index_all a entries (index_dependencies index id t.dependencies)
    ∙ shape-index a id t.dependencies index
