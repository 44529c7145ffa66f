-- ===== src/Daemon/TaskHandler/Delayed.antt =====
-- The delayed tasks that a round of task_handler.rs enqueues.
use mathlib.Core.Option
use pueue.Base.{
  In-values, ℕ, ◌≤◌, ◌<◌, leb, ◌≡◌, refl, sym, subst, ap, ◌∙◌, inl, inr, true, false, Option, none,
  some, arith, get, get-map_values, any_of, values, In→any_of, get→In, nat_ord, Bool-cases,
  Option-cases,
}
use pueue.Task.{Task, TaskStatus, stashed, queued}
use pueue.State.{Tasks}
use pueue.Daemon.Os.{Os}
use pueue.Daemon.Internal.{InternalState}
use pueue.Daemon.Process.Kill.Shutdown.{save_or_shutdown-Spares}
use pueue.Daemon.TaskHandler.{is_due, enqueue_due, enqueue_delayed_tasks}

not_due :
    (now k : ℕ) (t : Task) (m : Tasks)
    → any_of (λ (task : Task). is_due now task.status) (values m) ≡ false
    → get k m ≡ some t
    → is_due now t.status ≡ false
not_due now k t m none_due found = elim (Bool-cases (is_due now t.status)) [
  | inr e ↦ e
  | inl e ↦ absurd (
      ground (
        arith,
        In→any_of (λ (task : Task). is_due now task.status) t (values m)
            (In-values k t m (get→In k t m found)) e,
      ))
]

enqueue_due-eq :
    (now : ℕ) (t : Task)
    → is_due now t.status ≡ true
    → enqueue_due now t ≡ record t { status = queued now }
enqueue_due-eq now t e = ground arith

enqueue_due-id : (now : ℕ) (t : Task) → is_due now t.status ≡ false → enqueue_due now t ≡ t
enqueue_due-id now t e = ground arith

-- What becomes of a task by a time. A stashed task with a date that has come is queued at that
-- time, and nothing else of it changes; each other task stays as it is, and no task comes or goes.
pub data Enqueues (now : ℕ) : Option Task → Option Task → Type 0 where
  absent : Enqueues now none none
  queues :
      (t : Task) (time : ℕ)
      → t.status ≡ stashed (some time)
      → time ≤ now
      → Enqueues now (some t) (some (record t { status = queued now }))
  keeps :
      (t : Task)
      → ((time : ℕ) → t.status ≡ stashed (some time) → now < time)
      → Enqueues now (some t) (some t)

due_time :
    (now : ℕ) (st : TaskStatus)
    → is_due now st ≡ true
    → (time : ℕ) × (st ≡ stashed (some time)) × (time ≤ now)
due_time now (stashed (some time)) e = (time, refl, ground arith)
due_time now (stashed none) e = cc
due_time now other e = cc

not_due_time :
    (now : ℕ) (st : TaskStatus)
    → is_due now st ≡ false
    → (time : ℕ) → st ≡ stashed (some time)
    → now < time
not_due_time now st e time same =
    let open_date : leb time now ≡ false = subst (λ x. is_due now x ≡ false) same e in ground arith

enqueue_due-Enqueues : (now : ℕ) (o : Option Task) → Enqueues now o (Option.map (enqueue_due now) o)
enqueue_due-Enqueues now none = absent
enqueue_due-Enqueues now (some t) = elim (Bool-cases (is_due now t.status)) [
  | inl due ↦
      let (time, same, come) = due_time now t.status due in
      subst (λ u. Enqueues now (some t) (some u)) (sym (enqueue_due-eq now t due))
        (queues t time same come)
  | inr not_due_now ↦
      subst (λ u. Enqueues now (some t) (some u)) (sym (enqueue_due-id now t not_due_now))
        (keeps t (not_due_time now t.status not_due_now))
]

get-enqueue_delayed_tasks :
    (os : Os) (s : InternalState) (k : ℕ)
    → get k (enqueue_delayed_tasks os s).tasks
      ≡ Option.map (enqueue_due (os.now s.trace)) (get k s.tasks)
unfolding enqueue_delayed_tasks
get-enqueue_delayed_tasks os s k =
    let now = os.now s.trace in
    elim (Bool-cases (any_of (λ (task : Task). is_due now task.status) (values s.tasks))) [
      | inl due ↦
          ap (λ (m : Tasks). get k m) (rw due (save_or_shutdown-Spares os _).spared_tasks)
          ∙ get-map_values k (λ (_ : ℕ). enqueue_due now) s.tasks
      | inr none_due ↦ elim (Option-cases (get k s.tasks)) [
        | inl missing ↦ ground arith
        | inr (t, found) ↦
            ground (arith, enqueue_due-id now t (not_due now k t s.tasks none_due found))
      ]
    ]

-- `enqueue_delayed_tasks` queues, at the time at which the call starts, each stashed task whose
-- date has come by then, and leaves every other task as it is, also where the save fails and shuts
-- the daemon down.
pub enqueue_delayed_tasks-Enqueues :
    (os : Os) (s : InternalState) (k : ℕ)
    → Enqueues (os.now s.trace) (get k s.tasks) (get k (enqueue_delayed_tasks os s).tasks)
enqueue_delayed_tasks-Enqueues os s k =
    subst (λ o. Enqueues (os.now s.trace) (get k s.tasks) o)
      (sym (get-enqueue_delayed_tasks os s k))
      (enqueue_due-Enqueues (os.now s.trace) (get k s.tasks))
