-- ===== src/Daemon/Process/Pause.antt =====
-- process_handler/pause.rs.
pub mod Effects
use pueue.Base.{
  ℕ, String, Bool, true, false, Option, none, some, List, [], ◌∷◌, contains_key, get, update,
  nat_ord, text_ord, if◌then◌else◌,
}
use pueue.Task.{Task, TaskStatus, running, paused, is_running_status}
use pueue.State.{GroupStatus, filter_tasks_of_group}
use pueue.Message.{TaskSelection}
use pueue.Daemon.Os.{Os, Outcome, finished, panicked, ◌>>=◌, for_each, ProcessAction}
use pueue.Daemon.Workers.{all_task_ids}
use pueue.Daemon.Internal.{InternalState, set_status_for_all_groups, change_status}
use pueue.Daemon.Process.Signals.{perform_action}
use pueue.Daemon.Process.Kill.{save_or_shutdown, pause_group}

abbrev pub pause_process : Os → InternalState → ℕ → ℕ → ℕ → InternalState
pause_process os s id enqueued_at start =
    let (s', success) = perform_action os s id ProcessAction.pause in
    if success then change_status s' id (paused enqueued_at start) else s'

unfoldable pub pause_status : Os → InternalState → ℕ → TaskStatus → InternalState
unfolding perform_action change_status
pause_status os s id (running enqueued_at start) = pause_process os s id enqueued_at start
pause_status os s id (paused enqueued_at start) = pause_process os s id enqueued_at start
pause_status os s id _ = s

-- The `unwrap` of the lookup panics at an id that no task has.
unfoldable pub pause_one : Os → InternalState → ℕ → Outcome InternalState
unfolding pause_status
pause_one os s id = elim (get id s.tasks) [
  | none ↦ panicked
  | some task ↦ finished (pause_status os s id task.status)
]

unfoldable pub pause_targets : InternalState → TaskSelection → Option (List ℕ × InternalState)
unfolding set_status_for_all_groups
pause_targets s (TaskSelection.task_ids ids) = some (ids, s)
pause_targets s (TaskSelection.group name) =
    let s' = pause_group name s in
    let selected = filter_tasks_of_group s'.inner (λ task. is_running_status task.status) name in
    if contains_key name s.groups then some (selected.matching_ids, s') else none
pause_targets s TaskSelection.all =
    let s' = set_status_for_all_groups s GroupStatus.paused in some (all_task_ids s'.children, s')

unfoldable pub pause : Os → InternalState → TaskSelection → Bool → Outcome InternalState
unfolding pause_targets pause_one save_or_shutdown
pause os s selection wait = elim (pause_targets s selection) [
  | none ↦ finished s
  | some (ids, s') ↦ (if wait then finished s' else for_each ids (pause_one os) s') >>= λ t.
      finished (save_or_shutdown os t)
]
