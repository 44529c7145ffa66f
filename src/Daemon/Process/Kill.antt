-- ===== src/Daemon/Process/Kill.antt =====
-- process_handler/kill.rs, and `initiate_shutdown` of process_handler/mod.rs.
pub mod Follows
pub mod Shutdown
use pueue.Base.{
  ℕ, String, Bool, true, false, not, Option, none, some, List, [], ◌∷◌, keys, update, contains_key,
  is_empty, text_ord, if◌then◌else◌,
}
use pueue.Task.{Task, is_running, is_queued}
use pueue.State.{State, GroupStatus, filter_tasks_of_group}
use pueue.Message.{TaskSelection, Signal, ShutdownRequest}
use pueue.Daemon.Os.{Os, Child, for_all}
use pueue.Daemon.Workers.{all_task_ids}
use pueue.Daemon.Internal.{
  InternalState, with_groups, set_group_status, set_status_for_all_groups, save,
}
use pueue.Daemon.Process.Signals.{send_internal_signal, kill_task}

unfoldable pub should_pause_group : InternalState → Bool → String → Bool
should_pause_group s issued_by_user group =
    if not issued_by_user
    then false
    else not (is_empty (filter_tasks_of_group s.inner is_queued group).matching_ids)

abbrev pub pause_group : String → InternalState → InternalState
pause_group group s = with_groups s (update group (set_group_status GroupStatus.paused) s.groups)

-- The task ids to kill, and the state with its groups paused; `none` is the early return.
unfoldable pub kill_targets : InternalState → TaskSelection → Bool → Option (List ℕ × InternalState)
unfolding should_pause_group set_status_for_all_groups
kill_targets s (TaskSelection.task_ids ids) user = some (ids, s)
kill_targets s (TaskSelection.group name) user =
    let s' = if should_pause_group s user name then pause_group name s else s in
    if contains_key name s.groups
    then some ((filter_tasks_of_group s'.inner is_running name).matching_ids, s')
    else none
kill_targets s TaskSelection.all user =
    let s' =
      for_all (keys s.groups)
        (λ t name.
          if should_pause_group t user name
          then set_status_for_all_groups t GroupStatus.paused
          else t)
        s in
    some (all_task_ids s'.children, s')

unfoldable pub kill_one : Os → Option Signal → InternalState → ℕ → InternalState
kill_one os none s task_id = kill_task s task_id
kill_one os (some signal) s task_id = send_internal_signal os s task_id signal

-- `ok_or_shutdown!(settings, state, state.save(settings))`, for a given shutdown.
abbrev pub save_or : (InternalState → InternalState) → Os → InternalState → InternalState
save_or shutdown os s = let (s', written) = save os s in if written then s' else shutdown s'

-- `kill`, for a given shutdown.
unfoldable pub kill_with :
    (InternalState → InternalState)
    → Os
    → InternalState
    → TaskSelection
    → Bool
    → Option Signal
    → InternalState
unfolding kill_targets kill_one
kill_with shutdown os s tasks user signal = elim (kill_targets s tasks user) [
  | none ↦ s
  | some (ids, s') ↦ save_or shutdown os (for_all ids (kill_one os signal) s')
]

-- The kill of a shutdown: a shutdown inside it does nothing, since one is under way.
unfoldable pub initiate_shutdown : Os → InternalState → ShutdownRequest → InternalState
unfolding kill_with
initiate_shutdown os s shutdown = elim s.shutdown [
  | some _ ↦ s
  | none ↦
      kill_with (λ t. t) os (record s { shutdown = some shutdown }) TaskSelection.all false none
]

unfoldable pub kill : Os → InternalState → TaskSelection → Bool → Option Signal → InternalState
unfolding initiate_shutdown
kill os = kill_with (λ t. initiate_shutdown os t ShutdownRequest.emergency) os

unfoldable pub save_or_shutdown : Os → InternalState → InternalState
unfolding initiate_shutdown
save_or_shutdown os = save_or (λ t. initiate_shutdown os t ShutdownRequest.emergency) os
