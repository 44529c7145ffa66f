-- ===== src/Daemon/Ordered/Loop.antt =====
-- A round of the task handler (pueue/src/daemon/task_handler.rs) keeps the order of the tasks.
pub mod Settled
use pueue.Base.{
  ℕ, zero, suc, String, ◌≡◌, refl, sym, ap, subst, ◌∙◌, Bool, true, false, Option, none, some, List,
  [], ◌∷◌, arith, get, update, map_values, inl, inr, Bool-cases, Option-cases, nat_ord, text_ord,
  if◌then◌else◌, is_empty,
}
use pueue.Task.{Task}
use pueue.Daemon.Os.{
  Child, Os, Settings, Outcome, finished, panicked, ◌>>=◌, Outcome-cases, for_each,
}
use pueue.Daemon.Internal.{InternalState}
use pueue.Daemon.Callbacks.{check_callbacks}
use pueue.Daemon.Workers.{has_group_active_tasks}
use pueue.Daemon.Process.Spares.{spawn_callback-Spares, pause_on_failure-Spares}
use pueue.Daemon.Process.Finish.{
  FinishedWorker, finish_child, finish_one, conclude, conclude_exit, take_worker,
  handle_finished_tasks, get_finished,
}
use pueue.Task.{TaskResult}
use pueue.Daemon.Process.Spawn.{spawn_loop, get_next_task_id, spawn_process}
use pueue.Daemon.TaskHandler.{
  Round, continues, exits, round, reset_group, handle_group_resets, enqueue_delayed_tasks,
  fail_dependent, check_failed_dependencies, groups_to_reset, failed_dependents,
  dependency_failed_status, enqueue_due, is_due, is_paused_group, handle_shutdown, shutdown_round,
}
use pueue.Daemon.Ordered.{
  IsOrdered, update-IsOrdered, map_values-IsOrdered, retain-IsOrdered, InOrder, Leaves, >>=-Leaves,
  for_each-Leaves, for_all-InOrder, Spares-InOrder,
}
use pueue.Daemon.Ordered.Processes.{save_or_shutdown-InOrder, spawn_process-Leaves}

conclude-InOrder :
    (os : Os) (settings : Settings) (s : InternalState) (task : Task) (worker : FinishedWorker)
    (result : TaskResult) (pauses : Bool)
    → InOrder s
    → InOrder (conclude os settings s task worker result pauses)
unfolding conclude
conclude-InOrder os settings s task worker result true o =
    Spares-InOrder (pause_on_failure-Spares settings _ task.group) (
      Spares-InOrder (spawn_callback-Spares os settings _ _)
        (update-IsOrdered worker.task_id _ s.tasks (λ t. refl) o))
conclude-InOrder os settings s task worker result false o =
    Spares-InOrder (spawn_callback-Spares os settings _ _)
      (update-IsOrdered worker.task_id _ s.tasks (λ t. refl) o)

conclude_exit-InOrder :
    (os : Os) (settings : Settings) (s : InternalState) (task : Task) (worker : FinishedWorker)
    (result : TaskResult)
    → InOrder s
    → InOrder (conclude_exit os settings s task worker result)
unfolding conclude_exit
conclude_exit-InOrder os settings s task worker result o = ground (
  arith,
  conclude-InOrder os settings s task worker result true o,
  conclude-InOrder os settings s task worker result false o,
)

finish_child-Leaves :
    (os : Os) (settings : Settings) (s : InternalState) (task : Task) (worker : FinishedWorker)
    (child : Child)
    → InOrder s
    → Leaves (finish_child os settings s task worker child)
unfolding finish_child
finish_child-Leaves os settings s task worker child o = elim (Bool-cases worker.io_error) [
  | inl lost ↦ rw lost (conclude-InOrder os settings s task worker _ true o)
  | inr ended ↦ elim (Bool-cases (os.wait_succeeds s.trace child)) [
    | inl waited ↦ rw (ended, waited) (conclude_exit-InOrder os settings s task worker _ o)
    | inr refused ↦ rw (ended, refused) tt
  ]
]

finish_one-Leaves :
    (os : Os) (settings : Settings) (s : InternalState) (worker : FinishedWorker)
    → InOrder s
    → Leaves (finish_one os settings s worker)
unfolding finish_one
finish_one-Leaves os settings s worker o = elim (Option-cases (get worker.task_id s.tasks)) [
  | inl e ↦ rw (e, finish_one) tt
  | inr (task, e) ↦ elim (Outcome-cases (take_worker s.children worker.group worker.worker_id)) [
    | inl e' ↦ rw (e, finish_one) (rw e' tt)
    | inr ((child, children), e') ↦
        rw (e, finish_one)
          (rw e' (
            finish_child-Leaves os settings (record s { children = children }) task worker child o))
  ]
]

pub handle_finished_tasks-Leaves :
    (os : Os) (settings : Settings) (s : InternalState)
    → InOrder s
    → Leaves (handle_finished_tasks os settings s)
unfolding handle_finished_tasks
handle_finished_tasks-Leaves os settings s o =
    elim (Bool-cases (is_empty (get_finished os s.trace s.children))) [
      | inl e ↦ rw (e, handle_finished_tasks) o
      | inr e ↦
          rw (e, handle_finished_tasks)
            (>>=-Leaves _ _
              (for_each-Leaves (finish_one os settings) (finish_one-Leaves os settings) _ s o)
              (λ t h. save_or_shutdown-InOrder os t h))
    ]

pub reset_group-InOrder :
    (s : InternalState) (name : String) → InOrder s → InOrder (reset_group s name)
unfolding reset_group
reset_group-InOrder s name o = elim (Bool-cases (has_group_active_tasks s.children name)) [
  | inl e ↦ rw (e, reset_group) o
  | inr e ↦ rw (e, reset_group) (retain-IsOrdered _ s.tasks o)
]

enqueue_due-id : (now : ℕ) (task : Task) → (enqueue_due now task).id ≡ task.id
enqueue_due-id now task = ground arith

pub enqueue_delayed_tasks-InOrder :
    (os : Os) (s : InternalState) → InOrder s → InOrder (enqueue_delayed_tasks os s)
unfolding enqueue_delayed_tasks
enqueue_delayed_tasks-InOrder os s o =
    let now = os.now s.trace in
    let due =
      map_values-IsOrdered (λ (_ : ℕ). enqueue_due now) s.tasks (λ k t. enqueue_due-id now t) o in
    ground (
      arith,
      save_or_shutdown-InOrder os
          (pueue.Daemon.Internal.with_tasks s (map_values (λ (_ : ℕ). enqueue_due now) s.tasks))
          due,
    )

pub fail_dependent-InOrder :
    (os : Os) (settings : Settings) (s : InternalState) (id : ℕ)
    → InOrder s
    → InOrder (fail_dependent os settings s id)
unfolding fail_dependent
fail_dependent-InOrder os settings s id o = elim (Option-cases (get id s.tasks)) [
  | inl e ↦ rw (e, fail_dependent) o
  | inr (task, e) ↦ elim (Option-cases (dependency_failed_status (os.now s.trace) task.status)) [
    | inl e' ↦ rw (e, fail_dependent) (rw e' o)
    | inr (status, e') ↦
        rw (e, fail_dependent)
          (rw e' (elim (Bool-cases (is_paused_group (get task.group s.groups))) [
            | inl p ↦ rw p o
            | inr p ↦ rw p (
                Spares-InOrder (spawn_callback-Spares os settings _ _)
                  (update-IsOrdered id _ s.tasks (λ t. refl) o))
          ]))
  ]
]

-- What a spawn loop leaves, where it ends.
abbrev LoopLeaves : Option (Outcome InternalState) → Type 0
LoopLeaves none = Unit {0}
LoopLeaves (some m) = Leaves m

spawn_loop-Leaves :
    (os : Os) (settings : Settings) (fuel : ℕ) (s : InternalState)
    → InOrder s
    → LoopLeaves (spawn_loop os settings fuel s)
unfolding spawn_loop
spawn_loop-Leaves os settings zero s o = tt
spawn_loop-Leaves os settings (suc fuel) s o = elim (Option-cases (get_next_task_id s)) [
  | inl e ↦ rw (e, spawn_loop) o
  | inr (id, e) ↦
      let next = spawn_process-Leaves os settings s id o in
      elim (Outcome-cases (spawn_process os settings s id)) [
        | inl e' ↦ rw (e, spawn_loop) (rw e' tt)
        | inr (s', e') ↦
            rw (e, spawn_loop) (rw e' (spawn_loop-Leaves os settings fuel s' (rw e' at next)))
      ]
]

-- The state that a round hands on to the next, if there is one.
abbrev pub RoundLeaves : Option (Outcome Round) → Type 0
RoundLeaves (some (finished (continues s))) = InOrder s
RoundLeaves _ = Unit {0}

spawned-RoundLeaves :
    (r : Option (Outcome InternalState))
    → LoopLeaves r
    → RoundLeaves (elim r [ none ↦ none | some m ↦ some (m >>= λ s4. finished (continues s4)) ])
spawned-RoundLeaves none h = tt
spawned-RoundLeaves (some panicked) h = tt
spawned-RoundLeaves (some (finished s)) h = h

shutdown-RoundLeaves :
    (s : InternalState) (code : Option ℕ)
    → InOrder s
    → RoundLeaves (some (finished (elim code [ none ↦ continues s | some code ↦ exits code ])))
shutdown-RoundLeaves s none o = o
shutdown-RoundLeaves s (some code) o = tt

-- The rest of a round after the finished tasks were handled.
pub round-RoundLeaves :
    (os : Os) (settings : Settings) (fuel : ℕ) (s : InternalState)
    → InOrder s
    → RoundLeaves (round os settings fuel s)
unfolding round check_callbacks
round-RoundLeaves os settings fuel s o =
    let handled = handle_finished_tasks-Leaves os settings (check_callbacks os s) o in
    elim (Outcome-cases (handle_finished_tasks os settings (check_callbacks os s))) [
      | inl e ↦ rw (e, round) tt
      | inr (s1, e) ↦
          let o1 : InOrder s1 = rw e at handled in
          elim (Option-cases s1.shutdown) [
            | inr (req, e') ↦
                rw (e, round) (rw e' (shutdown-RoundLeaves s1 (handle_shutdown s1) o1))
            | inl e' ↦
                let o2 = enqueue_delayed_tasks-InOrder os (handle_group_resets s1) (
                  for_all-InOrder reset_group reset_group-InOrder (groups_to_reset s1.groups) s1
                    o1) in
                let s2 = enqueue_delayed_tasks os (handle_group_resets s1) in
                let o3 =
                  for_all-InOrder (fail_dependent os settings) (fail_dependent-InOrder os settings)
                    (failed_dependents s2.tasks s2.tasks) s2 o2 in
                rw (e, round)
                  (rw e' (spawned-RoundLeaves _ (spawn_loop-Leaves os settings fuel _ o3)))
          ]
    ]
