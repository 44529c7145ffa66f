-- ===== src/Daemon/TaskHandler.antt =====
-- pueue/src/daemon/task_handler.rs: one round of the daemon's loop.
pub mod Delayed
pub mod Failures
use pueue.Base.{
  ℕ, suc, ◌+◌, leb, String, Bool, true, false, not, ◌&&◌, ◌||◌, Option, none, some, List, [], ◌∷◌,
  OrdMap, keys, get, update, retain, map_values, any_of, is_empty, length, values, keep, ◌==◌,
  nat_ord, text_ord, if◌then◌else◌,
}
use pueue.Task.{
  Task, TaskStatus, stashed, queued, done, dependency_failed, is_queued_status, has_failed,
}
use pueue.State.{Group, GroupStatus, Tasks, Groups}
use pueue.Message.{ShutdownRequest}
use pueue.Daemon.Os.{Os, Settings, Outcome, finished, panicked, ◌>>=◌, for_all}
use pueue.Daemon.Workers.{Children, Pool, has_active_tasks, has_group_active_tasks}
use pueue.Daemon.Internal.{InternalState, with_tasks, with_groups, set_group_status}
use pueue.Daemon.Callbacks.{spawn_callback, check_callbacks}
use pueue.Daemon.Process.Kill.{save_or_shutdown}
use pueue.Daemon.Process.Finish.{handle_finished_tasks}
use pueue.Daemon.Process.Spawn.{spawn_loop}

-- The worker pools that `run` starts with, one for each group.
unfoldable pub empty_pools : Groups → Children
empty_pools [] = []
empty_pools ((name, group) ∷ groups) = (name, []) ∷ empty_pools groups

unfoldable pub init_pools : InternalState → InternalState
unfolding empty_pools
init_pools s = record s { children = empty_pools s.groups }

abbrev pub exit_code_of : Option ShutdownRequest → ℕ
exit_code_of (some ShutdownRequest.emergency) = 1
exit_code_of _ = 0

-- `handle_shutdown`: the exit code, once no child is left. The removal of the socket and of the pid
-- file before the exit can fail without consequence.
unfoldable pub handle_shutdown : InternalState → Option ℕ
unfolding has_active_tasks
handle_shutdown s = if has_active_tasks s.children then none else some (exit_code_of s.shutdown)

abbrev pub is_reset_group : Group → Bool
is_reset_group group = elim group.status [ GroupStatus.reset ↦ true | _ ↦ false ]

unfoldable pub groups_to_reset : Groups → List String
groups_to_reset [] = []
groups_to_reset ((name, group) ∷ groups) =
    let rest = groups_to_reset groups in if is_reset_group group then name ∷ rest else rest

unfoldable pub reset_group : InternalState → String → InternalState
unfolding has_group_active_tasks
reset_group s name = if has_group_active_tasks s.children name then s else record s {
  inner = record {
    tasks = retain (λ (_ : ℕ) (task : Task). not (task.group == name)) s.tasks;
    groups = update name (set_group_status GroupStatus.running) s.groups;
  };
}

unfoldable pub handle_group_resets : InternalState → InternalState
unfolding groups_to_reset reset_group
handle_group_resets s = for_all (groups_to_reset s.groups) reset_group s

-- Whether a stashed task is due.
abbrev pub is_due : ℕ → TaskStatus → Bool
is_due now (stashed (some time)) = leb time now
is_due now _ = false

abbrev pub enqueue_due : ℕ → Task → Task
enqueue_due now task = if is_due now task.status then record task { status = queued now } else task

unfoldable pub enqueue_delayed_tasks : Os → InternalState → InternalState
unfolding save_or_shutdown
enqueue_delayed_tasks os s =
    let now = os.now s.trace in
    let s' = with_tasks s (map_values (λ (_ : ℕ). enqueue_due now) s.tasks) in
    if any_of (λ (task : Task). is_due now task.status) (values s.tasks)
    then save_or_shutdown os s'
    else s

abbrev pub failed_at : Tasks → ℕ → Bool
failed_at tasks id = elim (get id tasks) [ none ↦ false | some task ↦ has_failed task ]

-- Queued tasks with a failed dependency, in the order of their ids.
unfoldable pub has_failed_deps : Tasks → Task → Bool
has_failed_deps tasks task =
    is_queued_status task.status && any_of (failed_at tasks) task.dependencies

unfoldable pub failed_dependents : Tasks → Tasks → List ℕ
unfolding has_failed_deps
failed_dependents all [] = []
failed_dependents all ((id, task) ∷ tasks) =
    let rest = failed_dependents all tasks in if has_failed_deps all task then id ∷ rest else rest

abbrev pub is_paused_group : Option Group → Bool
is_paused_group none = false
is_paused_group (some group) = elim group.status [ GroupStatus.paused ↦ true | _ ↦ false ]

abbrev pub dependency_failed_status : ℕ → TaskStatus → Option TaskStatus
dependency_failed_status now (queued enqueued_at) =
    some (done enqueued_at now now dependency_failed)
dependency_failed_status now _ = none

-- The body of the loop over those tasks.
unfoldable pub fail_dependent : Os → Settings → InternalState → ℕ → InternalState
unfolding spawn_callback
fail_dependent os settings s id = elim (get id s.tasks) [
  | none ↦ s
  | some task ↦ elim (dependency_failed_status (os.now s.trace) task.status) [
    | none ↦ s
    | some status ↦
        let s' = with_tasks s (update id (λ (t : Task). record t { status = status }) s.tasks) in
        if is_paused_group (get task.group s.groups)
        then s
        else spawn_callback os settings s' (record task { status = status })
  ]
]

unfoldable pub check_failed_dependencies : Os → Settings → InternalState → InternalState
unfolding failed_dependents fail_dependent
check_failed_dependencies os settings s =
    for_all (failed_dependents s.tasks s.tasks) (fail_dependent os settings) s

-- What a round ends with: the state for the next one, or the exit of the daemon.
pub data Round : Type 0 where
  continues : InternalState → Round
  exits : ℕ → Round

abbrev pub shutdown_round : InternalState → Round
shutdown_round s = elim (handle_shutdown s) [ none ↦ continues s | some code ↦ exits code ]

-- The body of `run`'s loop under the lock; `none` is a `spawn_new` that goes on beyond its fuel.
unfoldable pub round : Os → Settings → ℕ → InternalState → Option (Outcome Round)
unfolding handle_shutdown handle_group_resets enqueue_delayed_tasks check_failed_dependencies
    handle_finished_tasks check_callbacks spawn_loop
round os settings fuel s = elim (handle_finished_tasks os settings (check_callbacks os s)) [
  | panicked ↦ some panicked
  | finished s1 ↦ elim s1.shutdown [
    | some _ ↦ some (finished (shutdown_round s1))
    | none ↦
        let s2 = enqueue_delayed_tasks os (handle_group_resets s1) in
        let s3 = check_failed_dependencies os settings s2 in
        elim (spawn_loop os settings fuel s3) [
          | none ↦ none
          | some r ↦ some (r >>= λ s4. finished (continues s4))
        ]
  ]
]
