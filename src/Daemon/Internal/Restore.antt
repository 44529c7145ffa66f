-- ===== src/Daemon/Internal/Restore.antt =====
-- The state that a daemon starts with: the part of `restore_state` after the state file is read
-- (pueue/src/daemon/internal_state/state.rs).
pub mod Cleanup
pub mod Index
pub mod Invariant
pub mod Rebuilt
use pueue.Base.{
  ℕ, String, Bool, true, false, Option, none, some, List, [], ◌∷◌, ◌++◌, get, update, map_values,
  contains, contains_key, ltb, sort_by, nat_ord, text_ord, if◌then◌else◌,
}
use pueue.Task.{
  Task, TaskStatus, locked, stashed, queued, running, paused, done, killed, is_queued_status,
}
use pueue.State.{State, Group, GroupStatus, Tasks, Groups, pueue_default_group}
use pueue.Daemon.Os.{for_all}
use pueue.Daemon.Internal.{InternalState, create_group, set_group_status}

-- What becomes of a status that a crash left behind.
unfoldable pub restore_status : ℕ → TaskStatus → TaskStatus
restore_status now (running enqueued_at start) = done enqueued_at start now killed
restore_status now (paused enqueued_at start) = done enqueued_at start now killed
restore_status now (locked previous_status) = stashed none
restore_status now status = status

-- The group that the task is in from now on, and the groups with that one.
unfoldable pub restore_group : Task → Groups → String × Groups
restore_group task groups =
    if contains_key task.group groups
    then (task.group, groups)
    else (pueue_default_group, create_group pueue_default_group groups)

-- The body of the loop over the tasks.
unfoldable pub restore_task : ℕ → Task → Groups → Task × Groups
unfolding restore_status restore_group
restore_task now task groups =
    let status = restore_status now task.status in
    let (group, groups') = restore_group task groups in
    (
      record task { status = status; group = group },
      if is_queued_status status
          then update group (set_group_status GroupStatus.paused) groups'
          else groups',
    )

unfoldable pub restore_tasks : ℕ → Tasks → Groups → Tasks × Groups
unfolding restore_task
restore_tasks now [] groups = ([], groups)
restore_tasks now ((id, task) ∷ tasks) groups =
    let (task', groups') = restore_task now task groups in
    let (tasks', groups'') = restore_tasks now tasks groups' in ((id, task') ∷ tasks', groups'')

abbrev pub set_dependents : List ℕ → Task → Task
set_dependents ids task = record task { dependents = ids }

-- `if !dependents.contains(&id) { dependents.push(id) }`.
unfoldable pub push_dependent : ℕ → Task → Task
push_dependent id task =
    if contains task.dependents id then task else set_dependents (task.dependents ++ id ∷ []) task

unfoldable pub index_dependencies : Tasks → ℕ → List ℕ → Tasks
unfolding push_dependent
index_dependencies tasks task_id dependencies =
    for_all dependencies (λ ts dep_id. update dep_id (push_dependent task_id) ts) tasks

-- The loop over the tasks' dependencies, which were copied before it.
unfoldable pub index_all : Tasks → Tasks → Tasks
unfolding index_dependencies
index_all [] index = index
index_all ((task_id, task) ∷ tasks) index =
    index_all tasks (index_dependencies index task_id task.dependencies)

unfoldable pub build_reverse_dependency_index : Tasks → Tasks
unfolding index_all sort_by
build_reverse_dependency_index tasks =
    map_values (λ (_ : ℕ) (task : Task). set_dependents (sort_by ltb task.dependents) task)
      (index_all tasks (map_values (λ (_ : ℕ). set_dependents []) tasks))

unfoldable pub restore_state : ℕ → State → InternalState
unfolding build_reverse_dependency_index restore_tasks
restore_state now s =
    let (tasks, groups) = restore_tasks now s.tasks s.groups in
    record {
      inner = record { tasks = build_reverse_dependency_index tasks; groups = groups };
      shutdown = none;
      children = [];
      callbacks = [];
      trace = [];
    }
