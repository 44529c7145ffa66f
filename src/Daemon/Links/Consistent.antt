-- ===== src/Daemon/Links/Consistent.antt =====
-- The invariant of the reverse index, and that the bookkeeping of the handlers keeps it.
use mathlib.Core.Bool.{false≢true}
use pueue.Base.{
  ℕ, ◌≡◌, refl, sym, ap, ◌∙◌, ◌↔◌, inl, inr, true, false, Option, none, some, arith, get,
  get-remove, In, is_some, ◌==◌, ==→eq, eq→==, nat_ord, if◌then◌else◌, Bool-cases,
}
use pueue.Task.{Task}
use pueue.State.{Tasks}
use pueue.Daemon.Internal.{dependents_of}
use pueue.Daemon.Links.{drop_links, remove_task, dependencies_of}
use pueue.Daemon.Links.Shape.{shape, shape-drop_links}
use pueue.Daemon.Links.Steps.{drop_links→, drop_links←}

-- Of a task that exists, the dependents are exactly the tasks that name it as a dependency.
abbrev pub IsLinked : Tasks → Type 0
IsLinked tasks =
    (a b : ℕ)
    → is_some (get b tasks) ≡ true
    → In b (dependencies_of (get a tasks)) ↔ In a (dependents_of (get b tasks))

dependencies-shape : (o : Option Task) → dependencies_of (shape o) ≡ dependencies_of o
dependencies-shape none = refl
dependencies-shape (some t) = refl

is_some-shape : (o : Option Task) → is_some (shape o) ≡ is_some o
is_some-shape none = refl
is_some-shape (some t) = refl

pub dependencies_of-shape :
    (o p : Option Task) → shape o ≡ shape p → dependencies_of o ≡ dependencies_of p
dependencies_of-shape o p e =
    sym (dependencies-shape o) ∙ ap dependencies_of e ∙ dependencies-shape p

pub is_some-of_shape : (o p : Option Task) → shape o ≡ shape p → is_some o ≡ is_some p
is_some-of_shape o p e = sym (is_some-shape o) ∙ ap (is_some {A = Task}) e ∙ is_some-shape p

-- What stays of another task's links when `id` is removed.
module _ (id : ℕ) (tasks : Tasks) where
  abbrev unlinked : Tasks
  unlinked = drop_links id (dependencies_of (get id tasks)) tasks

  get-remove_task :
      (x : ℕ) → get x (remove_task id tasks) ≡ (if id == x then none else get x unlinked)
  unfolding remove_task
  get-remove_task x = get-remove x id unlinked

  get-remove_task_ne : (x : ℕ) → (id == x) ≡ false → get x (remove_task id tasks) ≡ get x unlinked
  get-remove_task_ne x e = get-remove_task x ∙ rw e

  other_of_some : (x : ℕ) → is_some (get x (remove_task id tasks)) ≡ true → (id == x) ≡ false
  other_of_some x e = ground (arith, get-remove_task x)

  dependencies-unlinked : (x : ℕ) → dependencies_of (get x unlinked) ≡ dependencies_of (get x tasks)
  dependencies-unlinked x =
      dependencies_of-shape _ _ (shape-drop_links x id (dependencies_of (get id tasks)) tasks)

  is_some-unlinked : (x : ℕ) → is_some (get x unlinked) ≡ is_some (get x tasks)
  is_some-unlinked x =
      is_some-of_shape _ _ (shape-drop_links x id (dependencies_of (get id tasks)) tasks)

  -- The removal of a task keeps the index exact.
  pub remove_task-IsLinked : IsLinked tasks → IsLinked (remove_task id tasks)
  remove_task-IsLinked linked a b there =
      let b_other = other_of_some b there in
      let law =
        linked a b
          (sym (is_some-unlinked b) ∙ ap is_some (sym (get-remove_task_ne b b_other)) ∙ there) in
      (
        (λ m. elim (Bool-cases (id == a)) [
          | inl e ↦ absurd (rw (get-remove_task a, e) at m)
          | inr e ↦
              let named = rw (get-remove_task_ne a e, dependencies-unlinked a) at m in
              rw (get-remove_task_ne b b_other) (
                drop_links← a id b (dependencies_of (get id tasks)) tasks (law.0 named)
                  (λ same. false≢true (sym e ∙ eq→== id a (sym same))))
        ]),
        (λ m.
            let (old, unnamed) =
              drop_links→ a id b (dependencies_of (get id tasks)) tasks
                (rw (get-remove_task_ne b b_other) at m) in
            let named = law.1 old in
            elim (Bool-cases (id == a)) [
              | inl e ↦ absurd (unnamed (rw (sym (==→eq id a e)) at named) (sym (==→eq id a e)))
              | inr e ↦ rw (get-remove_task_ne a e, dependencies-unlinked a) named
            ]),
      )
