-- ===== src/Daemon/Process/Finish.antt =====
-- process_handler/finish.rs: the tasks whose processes ended.
pub mod Results
use pueue.Base.{
  ℕ, zero, suc, String, ℤ, pos, negsuc, Bool, true, false, Option, none, some, List, [], ◌∷◌, ◌++◌,
  get, update, remove, is_empty, nat_ord, text_ord, if◌then◌else◌,
}
use pueue.Task.{
  Task, TaskStatus, TaskResult, running, paused, done, success, failed, killed, errored,
}
use pueue.State.{Group, GroupStatus, Groups}
use pueue.Daemon.Os.{
  Os, Settings, Child, Outcome, finished, panicked, ◌>>=◌, for_each, Trace, Wait, wait_error,
  still_running, exited, Effect, logs_cleaned,
}
use pueue.Daemon.Workers.{Pool, Children}
use pueue.Daemon.Internal.{InternalState, with_tasks, log_effect, pause_on_failure}
use pueue.Daemon.Callbacks.{spawn_callback}
use pueue.Daemon.Process.Kill.{save_or_shutdown}

-- A worker whose process ended, and whether `try_wait` failed.
pub record FinishedWorker : Type 0 where
  pub task_id : ℕ
  pub group : String
  pub worker_id : ℕ
  pub io_error : Bool

abbrev pub finished_in : Os → Trace → String → Pool → List FinishedWorker
finished_in os trace group [] = []
finished_in os trace group ((worker_id, (task_id, child)) ∷ pool) =
    let rest = finished_in os trace group pool in
    elim (os.try_wait trace child) [
      | wait_error ↦
          record { task_id = task_id; group = group; worker_id = worker_id; io_error = true } ∷ rest
      | still_running ↦ rest
      | exited ↦
          record { task_id = task_id; group = group; worker_id = worker_id; io_error = false }
          ∷ rest
    ]

unfoldable pub get_finished : Os → Trace → Children → List FinishedWorker
get_finished os trace [] = []
get_finished os trace ((group, pool) ∷ children) =
    finished_in os trace group pool ++ get_finished os trace children

abbrev pub times_of : ℕ → TaskStatus → ℕ × ℕ
times_of now (running enqueued_at start) = (enqueued_at, start)
times_of now (paused enqueued_at start) = (enqueued_at, start)
times_of now _ = (now, now)

abbrev pub result_of_code : Option ℤ → TaskResult
result_of_code none = killed
result_of_code (some (pos zero)) = success
result_of_code (some (pos (suc n))) = failed (pos (suc n))
result_of_code (some (negsuc n)) = failed (negsuc n)

-- Both `expect` calls: the pool and the worker are there.
unfoldable pub take_worker : Children → String → ℕ → Outcome (Child × Children)
take_worker children group worker_id = elim (get group children) [
  | none ↦ panicked
  | some pool ↦ elim (get worker_id pool) [
    | none ↦ panicked
    | some (task_id, child) ↦
        finished (child, update group (λ (p : Pool). remove worker_id p) children)
  ]
]

abbrev pub is_failure : TaskResult → Bool
is_failure (failed _) = true
is_failure _ = false

-- The output is removed early where the group is being reset, or is gone.
abbrev pub drops_logs : Option Group → Bool
drops_logs none = true
drops_logs (some group) = elim group.status [ GroupStatus.reset ↦ true | _ ↦ false ]

-- The update of the task and the callback, and the pause of a failure.
unfoldable pub conclude :
    Os → Settings → InternalState → Task → FinishedWorker → TaskResult → Bool → InternalState
unfolding spawn_callback pause_on_failure
conclude os settings s task worker result pauses =
    let now = os.now s.trace in
    let (enqueued_at, start) = times_of now task.status in
    let status = done enqueued_at start now result in
    let s1 =
      with_tasks s (update worker.task_id (λ (t : Task). record t { status = status }) s.tasks) in
    let s2 = spawn_callback os settings s1 (record task { status = status }) in
    if pauses then pause_on_failure settings s2 task.group else s2

unfoldable pub conclude_exit :
    Os → Settings → InternalState → Task → FinishedWorker → TaskResult → InternalState
unfolding conclude
conclude_exit os settings s task worker result =
    let s' = conclude os settings s task worker result (is_failure result) in
    if drops_logs (get task.group s'.groups)
    then log_effect (logs_cleaned worker.task_id) s'
    else s'

-- `child.wait().unwrap()` panics where the wait fails; a worker whose `try_wait` failed has none.
unfoldable pub finish_child :
    Os → Settings → InternalState → Task → FinishedWorker → Child → Outcome InternalState
unfolding conclude_exit
finish_child os settings s task worker child =
    if worker.io_error
    then finished (conclude os settings s task worker errored true)
    else if os.wait_succeeds s.trace child
    then finished (conclude_exit os settings s task worker (result_of_code (os.exit_code child)))
    else panicked

unfoldable pub finish_one : Os → Settings → InternalState → FinishedWorker → Outcome InternalState
unfolding take_worker finish_child
finish_one os settings s worker = elim (get worker.task_id s.tasks) [
  | none ↦ panicked
  | some task ↦ take_worker s.children worker.group worker.worker_id >>= λ (child, children).
      finish_child os settings (record s { children = children }) task worker child
]

unfoldable pub handle_finished_tasks : Os → Settings → InternalState → Outcome InternalState
unfolding get_finished finish_one save_or_shutdown
handle_finished_tasks os settings s =
    let workers = get_finished os s.trace s.children in
    if is_empty workers
    then finished s
    else for_each workers (finish_one os settings) s >>= λ s'. finished (save_or_shutdown os s')
