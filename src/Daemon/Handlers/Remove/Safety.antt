-- ===== src/Daemon/Handlers/Remove/Safety.antt =====
-- What `remove` (message_handler/remove.rs) may take from the tasks that stay.
use mathlib.Core.Bool.{false≢true}
use pueue.Base.{
  ℕ, ◌≡◌, refl, sym, ap, ◌∙◌, subst, inl, inr, true, false, Option, none, some, List, [], ◌∷◌,
  arith, get, is_some, In, contains, contains→In, In→contains, nat_ord, Bool-cases, if◌then◌else◌,
}
use pueue.Task.{Task, is_done}
use pueue.State.{Tasks, FilteredTasks}
use pueue.Message.{Response, lit}
use pueue.Daemon.Os.{Os, Outcome, finished, for_all, >>=-eq-finished}
use pueue.Daemon.Internal.{InternalState, unfinished, is_unfinished, dependents_of}
use pueue.Daemon.Internal.Removable.{Waits, direct}
use pueue.Daemon.Links.{dependencies_of}
use pueue.Daemon.Links.Consistent.{IsLinked}
use pueue.Daemon.Links.Shape.{core, shape, shape-remove_task}
use pueue.Daemon.Responses.{save_then, compile_task_response}
use pueue.Daemon.Handlers.Remove.{drop_blocked, remove_one, remove, selected}
use pueue.Daemon.Handlers.Remove.Blocked.{drop_blocked-closed, drop_blocked-subset}

-- Removing tasks leaves the others as they were, up to their dependents.
pub shape-remove_all :
    (a : ℕ) (ids : List ℕ) (s : InternalState)
    → shape (get a (for_all ids remove_one s).tasks)
      ≡ (if contains ids a then none else shape (get a s.tasks))
unfolding for_all remove_one contains
shape-remove_all a [] s = refl
shape-remove_all a (x ∷ ids) s =
    ground (arith, shape-remove_all a ids (remove_one s x), shape-remove_task a x s.tasks)

In-unfinished :
    (tasks : Tasks) (a : ℕ) (ids : List ℕ)
    → In a ids
    → is_unfinished (get a tasks) ≡ true
    → In a (unfinished tasks ids)
unfolding unfinished
In-unfinished tasks a [] m e = absurd m
In-unfinished tasks a (x ∷ ids) m e = ground (arith, In-unfinished tasks a ids)

-- `dependents` names every task that depends on a task of the state.
abbrev IsIndexed : Tasks → Type 0
IsIndexed tasks =
    (a b : ℕ) (t u : Task)
    → get a tasks ≡ some t
    → get b tasks ≡ some u
    → In b t.dependencies
    → In a u.dependents

IsLinked→IsIndexed : (tasks : Tasks) → IsLinked tasks → IsIndexed tasks
IsLinked→IsIndexed tasks linked a b t u here there m =
    subst (λ o. In a (dependents_of o)) there
      ((linked a b (ap is_some there)).0 (subst (λ o. In b (dependencies_of o)) (sym here) m))

pub saved_tasks :
    (os : Os) (s : InternalState) (r : Response) → (save_then os s r).0.tasks ≡ s.tasks
unfolding save_then
saved_tasks os s r = ground arith

abbrev finish : Os → InternalState → FilteredTasks → Outcome (InternalState × Response)
finish os s allowed =
    let s' = for_all allowed.matching_ids remove_one s in
    finished (save_then os s' (compile_task_response (lit "Tasks removed from list" ∷ []) allowed))

pub remove_result :
    (os : Os) (s s' : InternalState) (ids : List ℕ) (r : Response)
    → remove os s ids ≡ finished (s', r)
    → (allowed : FilteredTasks) × (drop_blocked s.tasks
          (selected s ids).matching_ids
          (selected s ids)
        ≡ finished allowed)
      × (s'.tasks ≡ (for_all allowed.matching_ids remove_one s).tasks)
unfolding remove
remove_result os s s' ids r e =
    let (allowed, dropped, ends) =
      >>=-eq-finished (drop_blocked s.tasks (selected s ids).matching_ids (selected s ids))
        (λ allowed. finish os s allowed) e in
    (
      allowed,
      dropped,
      ground (
        arith,
        saved_tasks os (for_all allowed.matching_ids remove_one s)
            (compile_task_response (lit "Tasks removed from list" ∷ []) allowed),
      ),
    )

shape-is_some : (o : Option Task) (t : Task) → shape o ≡ some t → is_some o ≡ true
shape-is_some none t e = cc
shape-is_some (some u) t e = refl

Waits-of :
    (tasks : Tasks) (a b : ℕ) (t u : Task)
    → get b tasks ≡ some u
    → get a tasks ≡ some t
    → is_done t ≡ false
    → In a u.dependents
    → Waits tasks b a
Waits-of tasks a b t u there here open_task m =
    subst (λ o. In a (unfinished tasks (dependents_of o))) (sym there)
      (In-unfinished tasks a u.dependents m (ground arith))

shape-some :
    (o : Option Task) (t : Task)
    → some (core t) ≡ shape o
    → (t' : Task) × (o ≡ some t') × (t.dependencies ≡ t'.dependencies) × (is_done t' ≡ is_done t)
shape-some none t e = cc
shape-some (some t') t e = (t', refl, ground arith, ground arith)

module _ (os : Os) (s s' : InternalState) (ids : List ℕ) (r : Response)
    (e : remove os s ids ≡ finished (s', r)) where
  abbrev removed : List ℕ
  removed = (remove_result os s s' ids r e).0.matching_ids

  shape_after :
      (a : ℕ)
      → shape (get a s'.tasks) ≡ (if contains removed a then none else shape (get a s.tasks))
  shape_after a =
      ap (λ (ts : Tasks). shape (get a ts)) (remove_result os s s' ids r e).2
      ∙ shape-remove_all a removed s

  -- A task of the new state was in the old one, with the same dependencies and status.
  survivor :
      (a : ℕ) (t : Task)
      → get a s'.tasks ≡ some t
      → (contains removed a ≡ false)
        × ((t' : Task) × (get a s.tasks ≡ some t')
            × (t.dependencies ≡ t'.dependencies)
            × (is_done t' ≡ is_done t))
  survivor a t here = elim (Bool-cases (contains removed a)) [
    | inl gone ↦ absurd (ground (arith, shape_after a))
    | inr kept ↦ (kept, shape-some (get a s.tasks) t (ground (arith, shape_after a)))
  ]

  stays :
      (b : ℕ) (u : Task)
      → get b s.tasks ≡ some u
      → contains removed b ≡ false
      → is_some (get b s'.tasks) ≡ true
  stays b u there kept = shape-is_some (get b s'.tasks) (core u) (ground (arith, shape_after b))

-- If the dependents of the tasks are exact and `remove` returns, then a task that is left and has
-- not finished still has each dependency that it names and that existed before.
pub remove-keeps_dependencies :
    (os : Os) (s s' : InternalState) (ids : List ℕ) (r : Response)
    → IsLinked s.tasks
    → remove os s ids ≡ finished (s', r)
    → (a b : ℕ) (t u : Task) → get a s'.tasks ≡ some t
    → is_done t ≡ false
    → In b t.dependencies
    → get b s.tasks ≡ some u
    → is_some (get b s'.tasks) ≡ true
remove-keeps_dependencies os s s' ids r linked e a b t u here unfinished_ depends there =
    let (allowed, dropped, same) = remove_result os s s' ids r e in
    let (kept, was) = survivor os s s' ids r e a t here in
    let (t', before, deps, done) = was in
    elim (Bool-cases (contains allowed.matching_ids b)) [
      | inr stay ↦ stays os s s' ids r e b u there stay
      | inl gone ↦
          let leaves = contains→In allowed.matching_ids b gone in
          let waits =
            Waits-of s.tasks a b t' u there before (done ∙ unfinished_) (
              IsLinked→IsIndexed s.tasks linked a b t' u before there
                (subst (In b) deps depends)) in
          let follows =
            drop_blocked-closed s.tasks (selected s ids).matching_ids (selected s ids) allowed
              dropped b a (drop_blocked-subset s.tasks _ (selected s ids) allowed dropped b leaves)
              leaves (direct waits) in
          absurd (false≢true (sym kept ∙ In→contains allowed.matching_ids a follows))
    ]
