-- ===== src/Daemon/Process/Finish/Results.antt =====
-- What becomes of a task whose process ended (process_handler/finish.rs).
use pueue.Base.{
  ℕ, zero, suc, ℤ, pos, negsuc, Option, none, ◌≢◌, refl, subst, Bool-cases, String, ◌≡◌, ◌∙◌, inl,
  inr, Bool, true, false, some, arith, get, update, remove, nat_ord, text_ord, Option-cases,
}
use pueue.Task.{
  Task, TaskResult, TaskStatus, done, running, paused, queued, stashed, locked, errored, killed,
  success, failed, is_running_status, is_paused_status,
}
use pueue.Daemon.Os.{
  Os, Settings, Child, Outcome, finished, finished_injective, >>=-eq-finished, ◌>>=◌,
}
use pueue.Daemon.Workers.{Pool, Children}
use pueue.Daemon.Internal.{InternalState}
use pueue.Daemon.Process.Spares.{Spares-trans, spawn_callback-Spares, pause_on_failure-Spares}
use pueue.Daemon.Process.Finish.{
  FinishedWorker, finish_child, take_worker, times_of, result_of_code, conclude, conclude_exit,
  finish_one, is_failure,
}

abbrev pub free_slot : FinishedWorker → Children → Children
free_slot worker = update worker.group (λ (p : Pool). remove worker.worker_id p)

-- The result that the end of a worker's process gives its task.
pub data HasResult (os : Os) (worker : FinishedWorker) (child : Child) : TaskResult → Type 0 where
  lost : worker.io_error ≡ true → HasResult os worker child errored
  ended_by_signal :
      worker.io_error ≡ false → os.exit_code child ≡ none → HasResult os worker child killed
  succeeded :
      worker.io_error ≡ false
      → os.exit_code child ≡ some (pos 0)
      → HasResult os worker child success
  exited_with :
      (code : ℤ)
      → worker.io_error ≡ false
      → os.exit_code child ≡ some code
      → code ≢ pos 0
      → HasResult os worker child (failed code)

-- The times of enqueueing and start that a finished task keeps: its own where it had a process.
pub data HasTimes (now : ℕ) : TaskStatus → ℕ → ℕ → Type 0 where
  of_running : (enqueued_at start : ℕ) → HasTimes now (running enqueued_at start) enqueued_at start
  of_paused : (enqueued_at start : ℕ) → HasTimes now (paused enqueued_at start) enqueued_at start
  of_other :
      (status : TaskStatus)
      → is_running_status status ≡ false
      → is_paused_status status ≡ false
      → HasTimes now status now now

-- A task after its worker ended.
abbrev pub ended : Task → ℕ → TaskResult → Task
ended task now result = record task {
  status = done (times_of now task.status).0 (times_of now task.status).1 now result;
}

-- The worker's process decided the result, the slot is free, and the rest of the tasks is untouched.
pub record IsConcluded (os : Os) (s s' : InternalState) (worker : FinishedWorker) : Type 0 where
  pub task : Task
  pub pool : Pool
  pub task_id : ℕ
  pub child : Child
  pub enqueued_at : ℕ
  pub start : ℕ
  pub result : TaskResult
  pub was_task : get worker.task_id s.tasks ≡ some task
  pub had_pool : get worker.group s.children ≡ some pool
  pub had_slot : get worker.worker_id pool ≡ some (task_id, child)
  pub has_result : HasResult os worker child result
  pub has_times : HasTimes (os.now s.trace) task.status enqueued_at start
  pub slot_freed : s'.children ≡ free_slot worker s.children
  pub task_done :
      s'.tasks
      ≡ update worker.task_id
          (λ (t : Task). record t { status = done enqueued_at start (os.now s.trace) result })
          s.tasks

times_of-HasTimes :
    (now : ℕ) (st : TaskStatus) → HasTimes now st (times_of now st).0 (times_of now st).1
times_of-HasTimes now (running e b) = of_running e b
times_of-HasTimes now (paused e b) = of_paused e b
times_of-HasTimes now (queued e) = of_other (queued e) refl refl
times_of-HasTimes now (stashed e) = of_other (stashed e) refl refl
times_of-HasTimes now (locked e) = of_other (locked e) refl refl
times_of-HasTimes now (done e b d r) = of_other (done e b d r) refl refl

result_of_code-HasResult :
    (os : Os) (worker : FinishedWorker) (child : Child) (code : Option ℤ)
    → worker.io_error ≡ false
    → os.exit_code child ≡ code
    → HasResult os worker child (result_of_code code)
result_of_code-HasResult os worker child none io e = ended_by_signal io e
result_of_code-HasResult os worker child (some (pos zero)) io e = succeeded io e
result_of_code-HasResult os worker child (some (pos (suc n))) io e =
    exited_with (pos (suc n)) io e (λ h. ground arith)
result_of_code-HasResult os worker child (some (negsuc n)) io e =
    exited_with (negsuc n) io e (λ h. cc)

-- What `conclude` and `conclude_exit` leave of a state, at the time of the call.
abbrev Concludes : Os → InternalState → Task → FinishedWorker → TaskResult → InternalState → Type 0
Concludes os s task worker result s' =
    (s'.children ≡ s.children)
    × (s'.tasks
        ≡ update worker.task_id
            (λ (t : Task). record t { status = (ended task (os.now s.trace) result).status })
            s.tasks)

conclude-Concludes :
    (os : Os) (settings : Settings) (s : InternalState) (task : Task) (worker : FinishedWorker)
    (result : TaskResult) (pauses : Bool)
    → Concludes os s task worker result (conclude os settings s task worker result pauses)
unfolding conclude
conclude-Concludes os settings s task worker result true =
    let f =
      Spares-trans (spawn_callback-Spares os settings _ (ended task (os.now s.trace) result))
        (pause_on_failure-Spares settings _ task.group) in
    (f.spared_children, f.spared_tasks)
conclude-Concludes os settings s task worker result false =
    let f = spawn_callback-Spares os settings _ (ended task (os.now s.trace) result) in
    (f.spared_children, f.spared_tasks)

conclude_exit-Concludes :
    (os : Os) (settings : Settings) (s : InternalState) (task : Task) (worker : FinishedWorker)
    (result : TaskResult)
    → Concludes os s task worker result (conclude_exit os settings s task worker result)
unfolding conclude_exit
conclude_exit-Concludes os settings s task worker result =
    let (pools, tasks) = conclude-Concludes os settings s task worker result (is_failure result) in
    (ground arith, ground arith)

take_worker-inv :
    (children children' : Children) (group : String) (worker_id : ℕ) (child : Child)
    → take_worker children group worker_id ≡ finished (child, children')
    → (pool : Pool) × (task_id : ℕ) × (get group children ≡ some pool)
      × (get worker_id pool ≡ some (task_id, child))
      × (children' ≡ update group (λ (p : Pool). remove worker_id p) children)
unfolding take_worker
take_worker-inv children children' group worker_id child e =
    elim (Option-cases (get group children)) [
      | inl absent ↦ absurd (ground arith)
      | inr (pool, found) ↦ elim (Option-cases (get worker_id pool)) [
        | inl absent ↦ absurd (ground arith)
        | inr ((task_id, c), slot) ↦ (pool, task_id, found, ground arith, ground arith)
      ]
    ]

finish_child-inv :
    (os : Os) (settings : Settings) (s s' : InternalState) (task : Task) (worker : FinishedWorker)
    (child : Child)
    → finish_child os settings s task worker child ≡ finished s'
    → (result : TaskResult) × HasResult os worker child result
      × Concludes os s task worker result s'
unfolding finish_child
finish_child-inv os settings s s' task worker child e = elim (Bool-cases worker.io_error) [
  | inl io ↦
      let same = finished_injective (rw (io, finish_child) at e) in
      (
        errored,
        lost io,
        subst (λ t. Concludes os s task worker errored t) same
            (conclude-Concludes os settings s task worker errored true),
      )
  | inr io ↦ elim (Bool-cases (os.wait_succeeds s.trace child)) [
    | inr refused ↦ absurd (ground (arith, io, refused))
    | inl waited ↦
        let result = result_of_code (os.exit_code child) in
        let same : conclude_exit os settings s task worker result ≡ s' =
          ground (arith, io, waited) in
        (
          result,
          result_of_code-HasResult os worker child (os.exit_code child) io refl,
          subst (λ t. Concludes os s task worker result t) same
              (conclude_exit-Concludes os settings s task worker result),
        )
  ]
]

-- If the handling of a worker whose process ended returns, then its task existed and is done by
-- the time of the call: errored if `try_wait` failed, else killed if there is no exit code,
-- successful if the code is 0, and failed with the code otherwise. It keeps the times at which it
-- was enqueued and started if it was running or paused. No other task changed; and the worker's
-- slot was taken, is free now, and no other slot changed.
pub finish_one-IsConcluded :
    (os : Os) (settings : Settings) (s s' : InternalState) (worker : FinishedWorker)
    → finish_one os settings s worker ≡ finished s'
    → IsConcluded os s s' worker
unfolding finish_one
finish_one-IsConcluded os settings s s' worker e =
    elim (Option-cases (get worker.task_id s.tasks)) [
      | inl missing ↦ absurd (ground arith)
      | inr (task, found) ↦
          let e' : (take_worker s.children worker.group worker.worker_id >>= after task)
              ≡ finished s' =
            ground arith in
          let ((child, children), taken, rest) =
            >>=-eq-finished (take_worker s.children worker.group worker.worker_id) (after task)
              e' in
          let (pool, task_id, had_pool, had_slot, freed) =
            take_worker-inv s.children children worker.group worker.worker_id child taken in
          let (result, has_result, concluded) =
            finish_child-inv os settings (record s { children = children }) s' task worker child
              rest in
          record {
            task = task;
            pool = pool;
            task_id = task_id;
            child = child;
            enqueued_at = (times_of (os.now s.trace) task.status).0;
            start = (times_of (os.now s.trace) task.status).1;
            result = result;
            was_task = found;
            had_pool = had_pool;
            had_slot = had_slot;
            has_result = has_result;
            has_times = times_of-HasTimes (os.now s.trace) task.status;
            slot_freed = concluded.0 ∙ freed;
            task_done = concluded.1;
          }
    ]
  where
    after : Task → Child × Children → Outcome InternalState
    after task (child, children) =
        finish_child os settings (record s { children = children }) task worker child
