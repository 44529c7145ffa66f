-- ===== src/Daemon/Handlers/Remove.antt =====
-- message_handler/remove.rs and message_handler/clean.rs.
pub mod Blocked
pub mod Linked
pub mod Safety
use pueue.Base.{
  ℕ, suc, String, Bool, true, false, not, ◌&&◌, ◌||◌, Option, none, some, List, [], ◌∷◌, ◌++◌, get,
  keep, length, is_some, ◌==◌, nat_ord, text_ord, if◌then◌else◌,
}
use pueue.Task.{
  Task, is_queued_status, is_stashed_status, is_done_status, is_locked_status, is_successful_status,
}
use pueue.State.{State, FilteredTasks, filter_tasks, Tasks}
use pueue.Message.{Response, CleanRequest, Text, lit}
use pueue.Daemon.Os.{
  Os, Outcome, finished, panicked, ◌>>=◌, for_each, for_all, Effect, logs_cleaned,
}
use pueue.Daemon.Internal.{InternalState, with_tasks, log_effect, is_task_removable}
use pueue.Daemon.Links.{remove_task}
use pueue.Daemon.Responses.{compile_task_response, save_then}

-- Which tasks may be removed by their status.
abbrev pub is_idle : Task → Bool
is_idle task =
    is_queued_status task.status
    || (is_stashed_status task.status
        || (is_done_status task.status || is_locked_status task.status))

abbrev pub move_to_mismatch : ℕ → FilteredTasks → FilteredTasks
move_to_mismatch task_id filtered = record {
  matching_ids = keep (λ id. not (id == task_id)) filtered.matching_ids;
  non_matching_ids = filtered.non_matching_ids ++ task_id ∷ [];
}

-- `is_task_removable` with enough fuel for any chain of the state's tasks: a deeper recursion goes
-- in a circle, and overflows the stack.
abbrev pub check_removable {ℓ} : {A : Type ℓ} → Tasks → ℕ → List ℕ → (Bool → Outcome A) → Outcome A
check_removable tasks task_id to_delete next =
    elim (is_task_removable (suc (length tasks)) tasks task_id to_delete) [
      | none ↦ panicked
      | some removable ↦ next removable
    ]

unfoldable pub drop_blocked : Tasks → List ℕ → FilteredTasks → Outcome FilteredTasks
drop_blocked tasks [] filtered = finished filtered
drop_blocked tasks (task_id ∷ ids) filtered =
    check_removable tasks task_id filtered.matching_ids λ removable.
      drop_blocked tasks ids (if removable then filtered else move_to_mismatch task_id filtered)

unfoldable pub remove_one : InternalState → ℕ → InternalState
unfolding remove_task
remove_one s task_id =
    log_effect (logs_cleaned task_id) (with_tasks s (remove_task task_id s.tasks))

-- The tasks that `remove` takes out of the state.
abbrev pub selected : InternalState → List ℕ → FilteredTasks
selected s task_ids = filter_tasks s.inner is_idle (some task_ids)

unfoldable pub remove : Os → InternalState → List ℕ → Outcome (InternalState × Response)
unfolding drop_blocked
remove os s task_ids = do
  let filtered = selected s task_ids
  allowed ← drop_blocked s.tasks filtered.matching_ids filtered
  let s' = for_all allowed.matching_ids remove_one s
  finished (save_then os s' (compile_task_response (lit "Tasks removed from list" ∷ []) allowed))

pub construct_success_clean_message : CleanRequest → Text
construct_success_clean_message message =
    (lit "All" ∷ (if message.successful_only then lit " successfully" ∷ [] else []))
    ++ (lit " finished tasks have been removed" ∷ from message.group)
  where
    from : Option String → Text
    from none = []
    from (some name) = lit " from group '" ∷ lit name ∷ lit "'" ∷ []

abbrev pub in_group : Option String → String → Bool
in_group none group = true
in_group (some name) group = name == group

-- The settings of the request that keep a finished task from being cleaned.
abbrev pub is_skipped : CleanRequest → Option Task → Bool
is_skipped message none = false
is_skipped message (some task) =
    (message.successful_only && not (is_successful_status task.status))
    || not (in_group message.group task.group)

unfoldable pub clean_one : CleanRequest → InternalState → ℕ → Outcome InternalState
unfolding remove_one
clean_one message s task_id = check_removable s.tasks task_id [] λ removable.
    if not removable || is_skipped message (get task_id s.tasks)
    then finished s
    else if is_some (get task_id s.tasks)
    then finished (remove_one s task_id)
    else panicked

unfoldable pub clean : Os → InternalState → CleanRequest → Outcome (InternalState × Response)
unfolding clean_one
clean os s message = do
  let filtered = filter_tasks s.inner (λ task. is_done_status task.status) none
  s' ← for_each filtered.matching_ids (clean_one message) s
  finished (save_then os s' (Response.success (construct_success_clean_message message)))
