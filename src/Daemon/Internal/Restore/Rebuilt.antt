-- ===== src/Daemon/Internal/Restore/Rebuilt.antt =====
-- The reverse index after `build_reverse_dependency_index` (daemon/internal_state/state.rs).
use mathlib.Core.Option
use pueue.Base.{
  ℕ, ◌≡◌, refl, sym, ap, ◌∙◌, subst, inl, inr, ◌↔◌, Option, none, some, [], get, map_values,
  get-map_values, get→In, In→get, IsAscending, In, ltb, sort_by, In-sort_by, sort_by-In, nat_ord,
  Option-cases,
}
use pueue.Task.{Task}
use pueue.State.{Tasks}
use pueue.Daemon.Internal.{dependents_of}
use pueue.Daemon.Internal.Restore.{set_dependents, index_all, build_reverse_dependency_index}
use pueue.Daemon.Links.{dependencies_of}
use pueue.Daemon.Links.Consistent.{IsLinked, dependencies_of-shape, is_some-of_shape}
use pueue.Daemon.Links.Shape.{shape}
use pueue.Daemon.Internal.Restore.Index.{Names, index_all→, index_all←, shape-index_all}

-- The two passes over all tasks, which only set the dependents.
abbrev cleared : Tasks → Tasks
cleared = map_values (λ (_ : ℕ). set_dependents [])

abbrev sorted : Tasks → Tasks
sorted = map_values (λ (_ : ℕ) (t : Task). set_dependents (sort_by ltb t.dependents) t)

get-cleared :
    (a : ℕ) (tasks : Tasks) → get a (cleared tasks) ≡ Option.map (set_dependents []) (get a tasks)
get-cleared a tasks = get-map_values a (λ (_ : ℕ). set_dependents []) tasks

get-sorted :
    (a : ℕ) (tasks : Tasks)
    → get a (sorted tasks)
      ≡ Option.map (λ (t : Task). set_dependents (sort_by ltb t.dependents) t) (get a tasks)
get-sorted a tasks =
    get-map_values a (λ (_ : ℕ) (t : Task). set_dependents (sort_by ltb t.dependents) t) tasks

shape-cleared : (a : ℕ) (tasks : Tasks) → shape (get a (cleared tasks)) ≡ shape (get a tasks)
shape-cleared a tasks = ap shape (get-cleared a tasks) ∙ of (get a tasks)
  where
    of : (o : Option Task) → shape (Option.map (set_dependents []) o) ≡ shape o
    of none = refl
    of (some t) = refl

shape-sorted : (a : ℕ) (tasks : Tasks) → shape (get a (sorted tasks)) ≡ shape (get a tasks)
shape-sorted a tasks = ap shape (get-sorted a tasks) ∙ of (get a tasks)
  where
    of :
        (o : Option Task)
        → shape (Option.map (λ (t : Task). set_dependents (sort_by ltb t.dependents) t) o) ≡ shape o
    of none = refl
    of (some t) = refl

-- The index changes nothing but the dependents.
pub shape-build :
    (a : ℕ) (tasks : Tasks)
    → shape (get a (build_reverse_dependency_index tasks)) ≡ shape (get a tasks)
unfolding build_reverse_dependency_index
shape-build a tasks =
    shape-sorted a (index_all tasks (cleared tasks))
    ∙ shape-index_all a tasks (cleared tasks)
    ∙ shape-cleared a tasks

In-sorted :
    (a b : ℕ) (tasks : Tasks)
    → In a (dependents_of (get b (sorted tasks))) ↔ In a (dependents_of (get b tasks))
In-sorted a b tasks =
    subst (λ o. In a (dependents_of o) ↔ In a (dependents_of (get b tasks)))
      (sym (get-sorted b tasks)) (of (get b tasks))
  where
    of :
        (o : Option Task)
        → In a (
            dependents_of
              (Option.map (λ (t : Task). set_dependents (sort_by ltb t.dependents) t) o))
          ↔ In a (dependents_of o)
    of none = ((λ m. m), (λ m. m))
    of (some t) = (In-sort_by ltb a t.dependents, sort_by-In ltb a t.dependents)

none-cleared : (a b : ℕ) (tasks : Tasks) → ¬ In a (dependents_of (get b (cleared tasks)))
none-cleared a b tasks =
    subst (λ o. ¬ In a (dependents_of o)) (sym (get-cleared b tasks)) (of (get b tasks))
  where
    of : (o : Option Task) → ¬ In a (dependents_of (Option.map (set_dependents []) o))
    of none = λ m. m
    of (some t) = λ m. m

Names→dependencies :
    (a b : ℕ) (tasks : Tasks)
    → IsAscending tasks
    → Names tasks a b
    → In b (dependencies_of (get a tasks))
Names→dependencies a b tasks ordered (t, entry, k) =
    subst (λ o. In b (dependencies_of o)) (sym (In→get a 0 t tasks ordered entry)) k

dependencies→Names :
    (a b : ℕ) (tasks : Tasks) → In b (dependencies_of (get a tasks)) → Names tasks a b
dependencies→Names a b tasks m = elim (Option-cases (get a tasks)) [
  | inl absent ↦ absurd (subst (λ o. In b (dependencies_of o)) absent m)
  | inr (t, found) ↦ (t, get→In a t tasks found, subst (λ o. In b (dependencies_of o)) found m)
]

-- Whatever the dependents of a map of tasks were, they are exactly the tasks that name the task after
-- the index is built.
pub build_reverse_dependency_index-IsLinked :
    (tasks : Tasks) → IsAscending tasks → IsLinked (build_reverse_dependency_index tasks)
unfolding build_reverse_dependency_index
build_reverse_dependency_index-IsLinked tasks ordered a b there =
    let deps = dependencies_of-shape _ _ (shape-build a tasks) in
    let index = index_all tasks (cleared tasks) in
    let exists =
      is_some-of_shape _ _ (shape-cleared b tasks)
      ∙ sym (is_some-of_shape _ _ (shape-build b tasks))
      ∙ there in
    (
      (λ m. (In-sorted a b index).1 (
          index_all← a b tasks (cleared tasks) exists
            (inr (dependencies→Names a b tasks (subst (In b) deps m))))),
      (λ m. elim (index_all→ a b tasks (cleared tasks) ((In-sorted a b index).0 m)) [
        | inl old ↦ absurd (none-cleared a b tasks old)
        | inr names ↦ subst (In b) (sym deps) (Names→dependencies a b tasks ordered names)
      ]),
    )
