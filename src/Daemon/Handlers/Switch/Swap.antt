-- ===== src/Daemon/Handlers/Switch/Swap.antt =====
-- What a switch makes of a task's dependency on the task that it is switched with
-- (message_handler/switch.rs).
use mathlib.Core.Option
use pueue.Base.{
  ℕ, ◌≡◌, refl, sym, ap, subst, ◌∙◌, ◌⊎◌, inl, inr, false, not, Option, none, some, List, [], ◌∷◌,
  arith, get, update, insert, remove, get-update, get-insert, get-remove, In, In-keep, In-++, keep,
  contains, ◌==◌, ==→eq, ==_refl, nat_ord,
}
use pueue.Task.{Task}
use pueue.State.{Tasks}
use pueue.Daemon.Os.{finished, for_all}
use pueue.Daemon.Links.{dependencies_of}
use pueue.Daemon.Handlers.Switch.{
  unique, symmetric_difference, swap_dependents, swap_dependencies, update_each, put_back,
  switch_pair,
}

In-unique : (a : ℕ) (xs : List ℕ) → In a (unique xs) → In a xs
unfolding unique
In-unique a [] m = m
In-unique a (x ∷ xs) (inl e) = inl e
In-unique a (x ∷ xs) (inr m) = inr (In-unique a xs (In-keep (λ y. not (y == x)) a (unique xs) m).0)

In-symmetric_difference :
    (a : ℕ) (xs ys : List ℕ) → In a (symmetric_difference xs ys) → In a xs ⊎ In a ys
unfolding symmetric_difference
In-symmetric_difference a xs ys m =
    elim (In-++ a (keep (λ x. not (contains ys x)) (unique xs))
      (keep (λ y. not (contains xs y)) (unique ys)) m) [
        | inl k ↦ inl (In-unique a xs (In-keep (λ x. not (contains ys x)) a (unique xs) k).0)
        | inr k ↦ inr (In-unique a ys (In-keep (λ y. not (contains xs y)) a (unique ys) k).0)
      ]

get-update_other :
    (f : Task → Task) (a : ℕ) (ids : List ℕ) (tasks : Tasks)
    → ¬ In a ids
    → get a (update_each f ids tasks) ≡ get a tasks
unfolding for_all
get-update_other f a [] tasks h = refl
get-update_other f a (id ∷ ids) tasks h =
    get-update_other f a ids (update id f tasks) (λ m. h (inr m))
    ∙ ground (arith, get-update a id f tasks, ==→eq id a, h)

dependencies-map :
    (f : Task → Task) (o : Option Task)
    → ((t : Task) → (f t).dependencies ≡ t.dependencies)
    → dependencies_of (Option.map f o) ≡ dependencies_of o
dependencies-map f none h = refl
dependencies-map f (some t) h = h t

dependencies-update_each :
    (f : Task → Task) (a : ℕ) (ids : List ℕ) (tasks : Tasks)
    → ((t : Task) → (f t).dependencies ≡ t.dependencies)
    → dependencies_of (get a (update_each f ids tasks)) ≡ dependencies_of (get a tasks)
unfolding for_all
dependencies-update_each f a [] tasks h = refl
dependencies-update_each f a (id ∷ ids) tasks h =
    dependencies-update_each f a ids (update id f tasks) h
    ∙ ground (arith, get-update a id f tasks, dependencies-map f (get a tasks) h)

dependencies-put_back :
    (task1 task2 : Task) (tasks : Tasks)
    → ¬ In task1.id task1.dependents
    → ¬ In task1.id task2.dependents
    → dependencies_of (get task1.id (put_back task1 task2 tasks)) ≡ task2.dependencies
unfolding put_back
dependencies-put_back task1 task2 tasks h k =
    let a = task1.id in
    let b = task2.id in
    let back : Tasks =
      insert a (record task2 { id = a }) (insert b (record task1 { id = b }) tasks) in
    ap dependencies_of (
      get-update_other (swap_dependencies a b) a
        (symmetric_difference task1.dependents task2.dependents) _
        (λ m. elim (In-symmetric_difference a task1.dependents task2.dependents m) [
          | inl x ↦ h x
          | inr y ↦ k y
        ]))
    ∙ dependencies-update_each (swap_dependents a b) a
        (symmetric_difference task1.dependencies task2.dependencies) back (λ t. refl)
    ∙ ground (
      arith,
      get-insert a a (record task2 { id = a }) (insert b (record task1 { id = b }) tasks),
      ==_refl a,
    )

-- If task `b` depends on another task `a`, and `a` is among the dependents of neither, then the
-- switch of the two returns, and afterwards the task with the id `a` depends on itself.
pub switch_pair-depends_on_itself :
    (tasks : Tasks) (a b : ℕ) (task1 task2 : Task)
    → (a == b) ≡ false
    → get a tasks ≡ some task1
    → get b tasks ≡ some task2
    → task1.id ≡ a
    → In a task2.dependencies
    → ¬ In a task1.dependents
    → ¬ In a task2.dependents
    → (tasks' : Tasks) × (switch_pair tasks a b ≡ finished tasks')
      × In a (dependencies_of (get a tasks'))
unfolding switch_pair
switch_pair-depends_on_itself tasks a b task1 task2 apart here there same depends h k =
    let tasks' = put_back task1 task2 (remove b (remove a tasks)) in
    let deps =
      dependencies-put_back task1 task2 (remove b (remove a tasks))
        (subst (λ x. ¬ In x task1.dependents) (sym same) h)
        (subst (λ x. ¬ In x task2.dependents) (sym same) k) in
    (
      tasks',
      ground (arith, get-remove b a tasks),
      subst (λ x. In a (dependencies_of (get x tasks'))) same (subst (In a) (sym deps) depends),
    )
