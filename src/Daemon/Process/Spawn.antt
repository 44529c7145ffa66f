-- ===== src/Daemon/Process/Spawn.antt =====
-- process_handler/spawn.rs: which queued task is next, and the start of its process.
pub mod Limits
pub mod Dequeued
pub mod Rounds
pub mod Order
use Prim.Native.String.{◌++◌ as text_append}
use pueue.Base.{
  ℕ, zero, suc, ◌+◌, String, ℤ, ◌⊎◌, inl, inr, Bool, true, false, not, ◌&&◌, Option, none, some,
  List, [], ◌∷◌, OrdMap, Ordering, cmp_ℤ, ltb, length, get, insert, update, values, keep, all_of,
  head?, sort_by, ◌==◌, nat_ord, text_ord, if◌then◌else◌,
}
use pueue.Task.{
  Task, TaskStatus, locked, queued, running, done, failed_to_spawn, is_queued_status,
  is_successful_status,
}
use pueue.State.{Group, GroupStatus, Tasks, Groups}
use pueue.Daemon.Os.{
  Os, Settings, Child, Outcome, finished, panicked, ◌>>=◌, Trace, Effect, spawned, spawn_refused,
}
use pueue.Daemon.Workers.{Pool, get_next_group_worker, add_child}
use pueue.Daemon.Internal.{InternalState, with_tasks, log_effect, change_status, pause_on_failure}
use pueue.Daemon.Callbacks.{spawn_callback}
use pueue.Daemon.Process.Kill.{save_or_shutdown}

abbrev pub is_running_group : GroupStatus → Bool
is_running_group GroupStatus.running = true
is_running_group _ = false

abbrev pub slot_in : ℕ → Option Pool → Bool
slot_in parallel_tasks none = false
slot_in parallel_tasks (some pool) = ltb (length pool) parallel_tasks

abbrev pub slot_in_group : Option Group → Option Pool → Bool
slot_in_group none pool = false
slot_in_group (some group) pool =
    if not (is_running_group group.status)
    then false
    else if group.parallel_tasks == 0
    then true
    else slot_in group.parallel_tasks pool

-- The second filter: the task's group exists, runs, and has a free slot.
abbrev pub has_slot : InternalState → Task → Bool
has_slot s task = slot_in_group (get task.group s.groups) (get task.group s.children)

-- A dependency that is gone is skipped by `flat_map`.
abbrev pub is_fulfilled : Option Task → Bool
is_fulfilled none = true
is_fulfilled (some task) = is_successful_status task.status

-- The third filter.
unfoldable pub dependencies_done : Tasks → Task → Bool
dependencies_done tasks task = all_of (λ id. is_fulfilled (get id tasks)) task.dependencies

unfoldable pub can_start : InternalState → Task → Bool
unfolding dependencies_done
can_start s task =
    is_queued_status task.status && (has_slot s task && dependencies_done s.tasks task)

-- The order of the sort: a higher priority first, then the lower id.
abbrev pub comes_before : Task → Task → Bool
comes_before a b = elim (cmp_ℤ b.priority a.priority) [
  | Ordering.eq ↦ ltb a.id b.id
  | Ordering.lt ↦ true
  | Ordering.gt ↦ false
]

abbrev pub potential_tasks : InternalState → List Task
potential_tasks s = keep (can_start s) (values s.tasks)

abbrev pub id_of : Option Task → Option ℕ
id_of none = none
id_of (some task) = some task.id

unfoldable pub get_next_task_id : InternalState → Option ℕ
unfolding can_start sort_by
get_next_task_id s = id_of (head? (sort_by comes_before (potential_tasks s)))

-- When the task was enqueued, if its status lets it be spawned.
abbrev pub spawnable_at : ℕ → TaskStatus → Option ℕ
spawnable_at now (queued enqueued_at) = some enqueued_at
spawnable_at now (locked previous_status) = some now
spawnable_at now _ = none

abbrev pub worker_envs : Os → Task → ℕ → OrdMap String String
worker_envs os task worker_id =
    insert "PUEUE_WORKER_ID" (os.show_number worker_id) (insert "PUEUE_GROUP" task.group task.envs)

abbrev pub spawn_error : Os → ℕ → String → String
spawn_error os task_id err =
    text_append "Failed to spawn child "
      (text_append (os.show_number task_id) (text_append " with err: " err))

-- The end of `spawn_process` where the system refuses the process.
unfoldable pub spawn_failed : Os → Settings → InternalState → Task → ℕ → ℕ → String → InternalState
unfolding spawn_callback pause_on_failure save_or_shutdown
spawn_failed os settings s task task_id enqueued_at err =
    let s1 = log_effect (spawn_refused task_id) s in
    let now = os.now s1.trace in
    let status = done enqueued_at now now (failed_to_spawn (spawn_error os task_id err)) in
    let s2 = with_tasks s1 (update task_id (λ (t : Task). record t { status = status }) s1.tasks) in
    let s3 = spawn_callback os settings s2 (record task { status = status }) in
    save_or_shutdown os (pause_on_failure settings s3 task.group)

-- The end of `spawn_process` where the child runs.
unfoldable pub spawn_succeeded :
    Os → InternalState → Task → ℕ → ℕ → ℕ → Child → Outcome InternalState
unfolding add_child save_or_shutdown
spawn_succeeded os s task task_id enqueued_at worker_id child = do
  let s1 = log_effect (spawned task_id child) s
  children ← add_child s1.children task.group worker_id task_id child
  let status = running enqueued_at (os.now s1.trace)
  let envs = worker_envs os task worker_id
  let tasks = update task_id (λ (t : Task). record t { envs = envs; status = status }) s1.tasks
  finished (save_or_shutdown os (with_tasks (record s1 { children = children }) tasks))

unfoldable pub spawn_child : Os → Settings → InternalState → Task → ℕ → ℕ → Outcome InternalState
unfolding get_next_group_worker spawn_failed spawn_succeeded
spawn_child os settings s task task_id enqueued_at = do
  worker_id ← get_next_group_worker s.children task.group
  elim (os.spawn s.trace task.command task.path (worker_envs os task worker_id)) [
    | inl child ↦ spawn_succeeded os s task task_id enqueued_at worker_id child
    | inr err ↦ finished (spawn_failed os settings s task task_id enqueued_at err)
  ]

-- The log files can be opened, and the template of the shell command renders.
abbrev pub is_prepared : Os → Trace → ℕ → Task → Bool
is_prepared os trace task_id task =
    os.log_files_open trace task_id && os.shell_command_renders task.command

unfoldable pub spawn_process : Os → Settings → InternalState → ℕ → Outcome InternalState
unfolding spawn_child
spawn_process os settings s task_id = elim (get task_id s.tasks) [
  | none ↦ finished s
  | some task ↦ elim (spawnable_at (os.now s.trace) task.status) [
    | none ↦ finished s
    | some enqueued_at ↦
        if is_prepared os s.trace task_id task
        then spawn_child os settings s task task_id enqueued_at
        else panicked
  ]
]

-- The loop of `spawn_new`, with fuel for its rounds: `none` is a loop that goes on.
unfoldable pub spawn_loop : Os → Settings → ℕ → InternalState → Option (Outcome InternalState)
unfolding get_next_task_id spawn_process
spawn_loop os settings zero s = none
spawn_loop os settings (suc fuel) s = elim (get_next_task_id s) [
  | none ↦ some (finished s)
  | some id ↦ elim (spawn_process os settings s id) [
    | panicked ↦ some panicked
    | finished s' ↦ spawn_loop os settings fuel s'
  ]
]
