-- ===== src/Daemon/Handlers/Remove/Linked.antt =====
-- `remove` and `clean` keep the reverse index, and return when no tasks wait in a circle
-- (message_handler/remove.rs and message_handler/clean.rs).
use pueue.Base.{
  ℕ, suc, ◌≤◌, ◌≡◌, refl, sym, ap, ◌∙◌, subst, inl, inr, Bool, none, some, List, [], ◌∷◌, arith,
  length, Option-cases, if◌then◌else◌,
}
use pueue.State.{Tasks, FilteredTasks, filter_tasks}
use pueue.Task.{is_done_status}
use pueue.Message.{lit, Response, CleanRequest}
use pueue.Daemon.Os.{Os, finished, for_all, for_each, finished_injective, >>=-eq-finished, ◌>>=◌}
use pueue.Daemon.Internal.{InternalState, is_task_removable}
use pueue.Daemon.Internal.Removable.{IsRanked, removable-ne_none}
use pueue.Daemon.Links.Consistent.{IsLinked, remove_task-IsLinked}
use pueue.Daemon.Responses.{save_then, compile_task_response}
use pueue.Daemon.Handlers.Remove.{
  move_to_mismatch, drop_blocked, remove_one, remove, selected, clean, clean_one,
  construct_success_clean_message,
}
use pueue.Daemon.Handlers.Remove.Safety.{remove_result, saved_tasks}

remove_one-IsLinked :
    (s : InternalState) (id : ℕ) → IsLinked s.tasks → IsLinked (remove_one s id).tasks
unfolding remove_one
remove_one-IsLinked s id linked = remove_task-IsLinked id s.tasks linked

remove_all-IsLinked :
    (ids : List ℕ) (s : InternalState)
    → IsLinked s.tasks
    → IsLinked (for_all ids remove_one s).tasks
unfolding for_all
remove_all-IsLinked [] s linked = linked
remove_all-IsLinked (id ∷ ids) s linked =
    remove_all-IsLinked ids (remove_one s id) (remove_one-IsLinked s id linked)

-- If `remove` returns and the dependents of each task were exactly the tasks that name it as a
-- dependency, then they are so afterwards.
pub remove-IsLinked :
    (os : Os) (s s' : InternalState) (ids : List ℕ) (r : Response)
    → remove os s ids ≡ finished (s', r)
    → IsLinked s.tasks
    → IsLinked s'.tasks
remove-IsLinked os s s' ids r e linked =
    let (allowed, _, same) = remove_result os s s' ids r e in
    subst IsLinked (sym same) (remove_all-IsLinked allowed.matching_ids s linked)

clean_one-IsLinked :
    (message : CleanRequest) (s s' : InternalState) (id : ℕ)
    → clean_one message s id ≡ finished s'
    → IsLinked s.tasks
    → IsLinked s'.tasks
unfolding clean_one
clean_one-IsLinked message s s' id e linked = ground (arith, remove_one-IsLinked s id linked)

clean_all-IsLinked :
    (message : CleanRequest) (ids : List ℕ) (s s' : InternalState)
    → for_each ids (clean_one message) s ≡ finished s'
    → IsLinked s.tasks
    → IsLinked s'.tasks
unfolding for_each
clean_all-IsLinked message [] s s' e linked = ground arith
clean_all-IsLinked message (id ∷ ids) s s' e linked =
    let (t, first, rest) =
      >>=-eq-finished (clean_one message s id) (λ t. for_each ids (clean_one message) t) e in
    clean_all-IsLinked message ids t s' rest (clean_one-IsLinked message s t id first linked)

finished-fst : {A B : Type 0} {p : A × B} {c : A} {d : B} → finished p ≡ finished (c, d) → p.0 ≡ c
finished-fst e = ap (λ q. q.0) (finished_injective e)

-- If `clean` returns and the dependents of each task were exactly the tasks that name it as a
-- dependency, then they are so afterwards.
pub clean-IsLinked :
    (os : Os) (s s' : InternalState) (message : CleanRequest) (r : Response)
    → clean os s message ≡ finished (s', r)
    → IsLinked s.tasks
    → IsLinked s'.tasks
unfolding clean
clean-IsLinked os s s' message r e linked =
    let ids = (filter_tasks s.inner (λ task. is_done_status task.status) none).matching_ids in
    let response = Response.success (construct_success_clean_message message) in
    let (t, looped, ends) =
      >>=-eq-finished (for_each ids (clean_one message) s) (λ t. finished (save_then os t response))
        e in
    let same = ap (λ (u : InternalState). u.tasks) (finished-fst ends) in
    subst IsLinked (sym (saved_tasks os t response) ∙ same)
      (clean_all-IsLinked message ids s t looped linked)

drop_blocked-step :
    (tasks : Tasks) (id : ℕ) (ids : List ℕ) (filtered : FilteredTasks) (removable : Bool)
    → is_task_removable (suc (length tasks)) tasks id filtered.matching_ids ≡ some removable
    → drop_blocked tasks (id ∷ ids) filtered
      ≡ drop_blocked tasks ids (if removable then filtered else move_to_mismatch id filtered)
unfolding drop_blocked
drop_blocked-step tasks id ids filtered removable found = ground arith

drop_blocked-returns :
    (tasks : Tasks) (rank : ℕ → ℕ)
    → IsRanked tasks rank
    → ((id : ℕ) → rank id ≤ length tasks)
    → (ids : List ℕ) (filtered : FilteredTasks)
    → (allowed : FilteredTasks) × (drop_blocked tasks ids filtered ≡ finished allowed)
unfolding drop_blocked
drop_blocked-returns tasks rank ranked low [] filtered = (filtered, refl)
drop_blocked-returns tasks rank ranked low (id ∷ ids) filtered =
    elim (Option-cases (is_task_removable (suc (length tasks)) tasks id filtered.matching_ids)) [
      | inl missing ↦ absurd (
          removable-ne_none tasks filtered.matching_ids rank (suc (length tasks)) id ranked
            (omega (arith, low id)) missing)
      | inr (removable, found) ↦
          let (allowed, rest) =
            drop_blocked-returns tasks rank ranked low ids
              (if removable then filtered else move_to_mismatch id filtered) in
          (allowed, drop_blocked-step tasks id ids filtered removable found ∙ rest)
    ]

-- `remove` returns, and does not overflow the stack, if a rank of at most the number of tasks
-- falls from each task to its unfinished dependents.
pub remove-returns :
    (os : Os) (s : InternalState) (ids : List ℕ) (rank : ℕ → ℕ)
    → IsRanked s.tasks rank
    → ((id : ℕ) → rank id ≤ length s.tasks)
    → (s' : InternalState) × (r : Response) × (remove os s ids ≡ finished (s', r))
unfolding remove
remove-returns os s ids rank ranked low =
    let (allowed, dropped) =
      drop_blocked-returns s.tasks rank ranked low (selected s ids).matching_ids (selected s ids) in
    let s' = for_all allowed.matching_ids remove_one s in
    let r = compile_task_response (lit "Tasks removed from list" ∷ []) allowed in
    (
      (save_then os s' r).0,
      (save_then os s' r).1,
      ap
          (λ m. m >>= λ allowed. finished (
            save_then os (for_all allowed.matching_ids remove_one s)
              (compile_task_response (lit "Tasks removed from list" ∷ []) allowed)))
          dropped,
    )
