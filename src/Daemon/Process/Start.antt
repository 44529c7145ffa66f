-- ===== src/Daemon/Process/Start.antt =====
-- process_handler/start.rs.
use pueue.Base.{
  ℕ, String, none, some, List, contains_key, get, update, nat_ord, text_ord, if◌then◌else◌,
}
use pueue.Task.{TaskStatus, running, paused, is_paused_status}
use pueue.State.{GroupStatus, filter_tasks_of_group}
use pueue.Message.{TaskSelection}
use pueue.Daemon.Os.{Os, Settings, Outcome, finished, ◌>>=◌, for_each, for_all, ProcessAction}
use pueue.Daemon.Workers.{has_child, all_task_ids}
use pueue.Daemon.Internal.{
  InternalState, with_groups, set_group_status, set_status_for_all_groups, change_status,
}
use pueue.Daemon.Process.Signals.{perform_action}
use pueue.Daemon.Process.Kill.{save_or_shutdown}
use pueue.Daemon.Process.Spawn.{spawn_process}

-- The resume of a task whose status is known.
unfoldable pub resume_paused : Os → InternalState → ℕ → TaskStatus → InternalState
unfolding perform_action change_status
resume_paused os s task_id (paused enqueued_at start) =
    let (s', success) = perform_action os s task_id ProcessAction.resume in
    if success then change_status s' task_id (running enqueued_at start) else s'
resume_paused os s task_id _ = s

unfoldable pub continue_task : Os → InternalState → ℕ → InternalState
unfolding resume_paused has_child
continue_task os s task_id =
    if has_child s.children task_id
    then elim (get task_id s.tasks) [
      | none ↦ s
      | some task ↦ resume_paused os s task_id task.status
    ]
    else s

-- A given task is resumed if it has a process, and spawned by force if it has none.
unfoldable pub start_one : Os → Settings → InternalState → ℕ → Outcome InternalState
unfolding continue_task has_child
start_one os settings s task_id =
    if has_child s.children task_id
    then finished (continue_task os s task_id)
    else spawn_process os settings s task_id

abbrev pub resume_group : String → InternalState → InternalState
resume_group name s = with_groups s (update name (set_group_status GroupStatus.running) s.groups)

abbrev pub resume_all : Os → List ℕ → InternalState → InternalState
resume_all os ids s = for_all ids (continue_task os) s

unfoldable pub start : Os → Settings → InternalState → TaskSelection → Outcome InternalState
unfolding start_one set_status_for_all_groups save_or_shutdown
start os settings s (TaskSelection.task_ids ids) =
    for_each ids (start_one os settings) s >>= λ s'. finished (save_or_shutdown os s')
start os settings s (TaskSelection.group name) =
    if contains_key name s.groups
    then (let s' = resume_group name s in
        let selected = filter_tasks_of_group s'.inner (λ task. is_paused_status task.status) name in
        finished (save_or_shutdown os (resume_all os selected.matching_ids s')))
    else finished s
start os settings s TaskSelection.all =
    let s' = set_status_for_all_groups s GroupStatus.running in
    finished (save_or_shutdown os (resume_all os (all_task_ids s'.children) s'))
