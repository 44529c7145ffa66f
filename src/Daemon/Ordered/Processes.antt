-- ===== src/Daemon/Ordered/Processes.antt =====
-- The process handler (pueue/src/daemon/process_handler) keeps the order of the tasks.
use pueue.Base.{
  ℕ, String, ◌≡◌, refl, sym, subst, ◌∙◌, Bool, Option, some, List, arith, get, contains_key, inl,
  inr, Bool-cases, Option-cases, Sum-cases, nat_ord, text_ord, if◌then◌else◌,
}
use pueue.Task.{Task, TaskStatus, running, paused}
use pueue.Message.{TaskSelection, Signal}
use pueue.Daemon.Os.{Os, Settings, Child, finished, for_each, for_all, ProcessAction, Outcome-cases}
use pueue.Daemon.Workers.{has_child, get_next_group_worker, add_child}
use pueue.Daemon.Internal.{InternalState, change_status, set_status_for_all_groups}
use pueue.Daemon.Process.Signals.{perform_action, send_signal_to_child}
use pueue.Daemon.Process.Kill.{kill, save_or_shutdown, kill_with, kill_targets, kill_one}
use pueue.Daemon.Process.Kill.Follows.{for_all-Follows, kill_one-Follows, kill_targets-Follows}
use pueue.Daemon.Process.Kill.Shutdown.{save_or_shutdown-Spares}
use pueue.Daemon.Process.Spares.{spawn_callback-Spares, pause_on_failure-Spares}
use pueue.Daemon.Process.Spawn.{
  is_prepared, spawn_process, spawn_child, spawn_failed, spawn_succeeded, spawnable_at, worker_envs,
}
use pueue.Daemon.Process.Pause.{pause, pause_one, pause_status, pause_process, pause_targets}
use pueue.Daemon.Process.Start.{start, start_one, continue_task, resume_paused}
use pueue.Daemon.Ordered.{
  IsOrdered, update-IsOrdered, InOrder, Leaves, >>=-Leaves, for_each-Leaves, for_all-InOrder,
  Spares-InOrder,
}

pub change_status-InOrder :
    (s : InternalState) (id : ℕ) (status : TaskStatus)
    → InOrder s
    → InOrder (change_status s id status)
unfolding change_status
change_status-InOrder s id status o = update-IsOrdered id _ s.tasks (λ task. refl) o

perform_action-InOrder :
    (os : Os) (s : InternalState) (id : ℕ) (action : ProcessAction)
    → InOrder s
    → InOrder (perform_action os s id action).0
unfolding perform_action send_signal_to_child
perform_action-InOrder os s id action o = ground arith

pub save_or_shutdown-InOrder :
    (os : Os) (s : InternalState) → InOrder s → InOrder (save_or_shutdown os s)
save_or_shutdown-InOrder os s o = Spares-InOrder (save_or_shutdown-Spares os s) o

pub kill-InOrder :
    (os : Os) (s : InternalState) (tasks : TaskSelection) (user : Bool) (signal : Option Signal)
    → InOrder s
    → InOrder (kill os s tasks user signal)
unfolding kill kill_with save_or_shutdown
kill-InOrder os s tasks user signal o = elim (Option-cases (kill_targets s tasks user)) [
  | inl unknown ↦ rw (unknown, kill, kill_with) o
  | inr ((ids, s'), found) ↦
      let f = kill_targets-Follows s tasks user ids s' found in
      let g = for_all-Follows (kill_one os signal) (kill_one-Follows os signal) ids s' in
      rw (found, kill, kill_with)
        (save_or_shutdown-InOrder os (for_all ids (kill_one os signal) s')
          (subst IsOrdered (sym (g.same_tasks ∙ f.same_tasks)) o))
]

spawn_failed-InOrder :
    (os : Os) (settings : Settings) (s : InternalState) (task : Task) (id at : ℕ) (err : String)
    → InOrder s
    → InOrder (spawn_failed os settings s task id at err)
unfolding spawn_failed
spawn_failed-InOrder os settings s task id at err o = save_or_shutdown-InOrder os _ (
    Spares-InOrder (pause_on_failure-Spares settings _ task.group) (
      Spares-InOrder (spawn_callback-Spares os settings _ _)
        (update-IsOrdered id _ s.tasks (λ t. refl) o)))

spawn_succeeded-Leaves :
    (os : Os) (s : InternalState) (task : Task) (id at worker : ℕ) (child : Child)
    → InOrder s
    → Leaves (spawn_succeeded os s task id at worker child)
unfolding spawn_succeeded
spawn_succeeded-Leaves os s task id at worker child o =
    elim (Outcome-cases (add_child s.children task.group worker id child)) [
      | inl e ↦ rw (e, spawn_succeeded) tt
      | inr (children, e) ↦
          rw (e, spawn_succeeded)
            (save_or_shutdown-InOrder os _ (update-IsOrdered id _ s.tasks (λ t. refl) o))
    ]

spawn_child-Leaves :
    (os : Os) (settings : Settings) (s : InternalState) (task : Task) (id at : ℕ)
    → InOrder s
    → Leaves (spawn_child os settings s task id at)
unfolding spawn_child
spawn_child-Leaves os settings s task id at o =
    elim (Outcome-cases (get_next_group_worker s.children task.group)) [
      | inl e ↦ rw (e, spawn_child) tt
      | inr (worker, e) ↦
          elim (Sum-cases (os.spawn s.trace task.command task.path (worker_envs os task worker))) [
            | inl (child, e') ↦
                rw (e, spawn_child) (rw e' (spawn_succeeded-Leaves os s task id at worker child o))
            | inr (err, e') ↦
                rw (e, spawn_child) (rw e' (spawn_failed-InOrder os settings s task id at err o))
          ]
    ]

pub spawn_process-Leaves :
    (os : Os) (settings : Settings) (s : InternalState) (id : ℕ)
    → InOrder s
    → Leaves (spawn_process os settings s id)
unfolding spawn_process
spawn_process-Leaves os settings s id o = elim (Option-cases (get id s.tasks)) [
  | inl e ↦ rw (e, spawn_process) o
  | inr (task, e) ↦ elim (Option-cases (spawnable_at (os.now s.trace) task.status)) [
    | inl e' ↦ rw (e, e', spawn_process) o
    | inr (at, e') ↦ elim (Bool-cases (is_prepared os s.trace id task)) [
      | inl e'' ↦
          rw (e, spawn_process) (rw e' (rw e'' (spawn_child-Leaves os settings s task id at o)))
      | inr e'' ↦ rw (e, spawn_process) (rw e' (rw e'' tt))
    ]
  ]
]

pause_process-InOrder :
    (os : Os) (s : InternalState) (id at start : ℕ)
    → InOrder s
    → InOrder (pause_process os s id at start)
unfolding change_status
pause_process-InOrder os s id at start o =
    let acted = perform_action-InOrder os s id ProcessAction.pause o in
    elim (Bool-cases (perform_action os s id ProcessAction.pause).1) [
      | inl e ↦ rw e (update-IsOrdered id _ _ (λ task. refl) acted)
      | inr e ↦ rw e acted
    ]

pause_status-InOrder :
    (os : Os) (s : InternalState) (id : ℕ) (status : TaskStatus)
    → InOrder s
    → InOrder (pause_status os s id status)
unfolding pause_status
pause_status-InOrder os s id (running at start) o = pause_process-InOrder os s id at start o
pause_status-InOrder os s id (paused at start) o = pause_process-InOrder os s id at start o
pause_status-InOrder os s id other o = o

pause_one-Leaves : (os : Os) (s : InternalState) (id : ℕ) → InOrder s → Leaves (pause_one os s id)
unfolding pause_one
pause_one-Leaves os s id o = elim (Option-cases (get id s.tasks)) [
  | inl e ↦ rw (e, pause_one) tt
  | inr (task, e) ↦ rw (e, pause_one) (pause_status-InOrder os s id task.status o)
]

pause_targets-tasks :
    (s : InternalState) (selection : TaskSelection) (ids : List ℕ) (s' : InternalState)
    → pause_targets s selection ≡ some (ids, s')
    → s'.tasks ≡ s.tasks
unfolding pause_targets set_status_for_all_groups
pause_targets-tasks s (TaskSelection.task_ids _) ids s' e = ground arith
pause_targets-tasks s (TaskSelection.group name) ids s' e = ground arith
pause_targets-tasks s TaskSelection.all ids s' e = ground arith

pub pause-Leaves :
    (os : Os) (s : InternalState) (selection : TaskSelection) (wait : Bool)
    → InOrder s
    → Leaves (pause os s selection wait)
unfolding pause
pause-Leaves os s selection wait o = elim (Option-cases (pause_targets s selection)) [
  | inl e ↦ rw (e, pause) o
  | inr ((ids, s'), e) ↦
      let o' = subst IsOrdered (sym (pause_targets-tasks s selection ids s' e)) o in
      let run : Leaves (if wait then finished s' else for_each ids (pause_one os) s') =
        elim (Bool-cases wait) [
          | inl w ↦ rw w o'
          | inr w ↦ rw w (for_each-Leaves (pause_one os) (pause_one-Leaves os) ids s' o')
        ] in
      rw (e, pause) (>>=-Leaves _ _ run (λ t h. save_or_shutdown-InOrder os t h))
]

resume_paused-InOrder :
    (os : Os) (s : InternalState) (id : ℕ) (status : TaskStatus)
    → InOrder s
    → InOrder (resume_paused os s id status)
unfolding resume_paused change_status
resume_paused-InOrder os s id (paused at start) o =
    let acted = perform_action-InOrder os s id ProcessAction.resume o in
    elim (Bool-cases (perform_action os s id ProcessAction.resume).1) [
      | inl e ↦ rw (e, resume_paused) (update-IsOrdered id _ _ (λ task. refl) acted)
      | inr e ↦ rw (e, resume_paused) acted
    ]
resume_paused-InOrder os s id other o = o

continue_task-InOrder :
    (os : Os) (s : InternalState) (id : ℕ) → InOrder s → InOrder (continue_task os s id)
unfolding continue_task
continue_task-InOrder os s id o = elim (Bool-cases (has_child s.children id)) [
  | inr e ↦ rw (e, continue_task) o
  | inl e ↦ elim (Option-cases (get id s.tasks)) [
    | inl e' ↦ rw (e, continue_task) (rw e' o)
    | inr (task, e') ↦ rw (e, continue_task) (rw e' (resume_paused-InOrder os s id task.status o))
  ]
]

start_one-Leaves :
    (os : Os) (settings : Settings) (s : InternalState) (id : ℕ)
    → InOrder s
    → Leaves (start_one os settings s id)
unfolding start_one
start_one-Leaves os settings s id o = elim (Bool-cases (has_child s.children id)) [
  | inl e ↦ rw (e, start_one) (rw (e, continue_task) at (continue_task-InOrder os s id o))
  | inr e ↦ rw (e, start_one) (spawn_process-Leaves os settings s id o)
]

pub start-Leaves :
    (os : Os) (settings : Settings) (s : InternalState) (selection : TaskSelection)
    → InOrder s
    → Leaves (start os settings s selection)
unfolding start set_status_for_all_groups
start-Leaves os settings s (TaskSelection.task_ids ids) o =
    >>=-Leaves _ _ (for_each-Leaves (start_one os settings) (start_one-Leaves os settings) ids s o)
      (λ t h. save_or_shutdown-InOrder os t h)
start-Leaves os settings s (TaskSelection.group name) o =
    elim (Bool-cases (contains_key name s.groups)) [
      | inr e ↦ rw (e, start) o
      | inl e ↦
          rw (e, start)
            (save_or_shutdown-InOrder os _
              (for_all-InOrder (continue_task os) (continue_task-InOrder os) _ _ o))
    ]
start-Leaves os settings s TaskSelection.all o =
    save_or_shutdown-InOrder os _
      (for_all-InOrder (continue_task os) (continue_task-InOrder os) _ _ o)
