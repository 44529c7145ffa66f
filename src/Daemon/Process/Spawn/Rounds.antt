-- ===== src/Daemon/Process/Spawn/Rounds.antt =====
-- The loop of `spawn_new` (process_handler/spawn.rs) ends.
use pueue.Base.{
  ℕ, suc, zero, ◌≤◌, String, ◌≡◌, ◌⊎◌, inl, inr, false, none, some, arith, get, IsAscending,
  nat_ord, text_ord, Bool-cases, Option-cases,
}
use pueue.Task.{Task}
use pueue.Daemon.Os.{Os, Settings, Child, Outcome, finished, panicked, Outcome-cases}
use pueue.Daemon.Workers.{add_child, get_next_group_worker}
use pueue.Daemon.Internal.{InternalState}
use pueue.Daemon.Process.Spawn.{
  spawnable_at, is_prepared, get_next_task_id, spawn_process, spawn_child, spawn_failed,
  spawn_succeeded, worker_envs, spawn_loop,
}
use pueue.Daemon.Process.Spawn.Limits.{IsKeyed}
use pueue.Daemon.Process.Spawn.Dequeued.{queued_count, picked-found, spawn_next-IsRound}

-- The states that the loop reaches: each picked task is spawned.
pub data Spawns (os : Os) (settings : Settings) : InternalState → InternalState → Type 0 where
  spawns_none : (s : InternalState) → Spawns os settings s s
  spawns_next :
      (s s' s'' : InternalState) (id : ℕ)
      → get_next_task_id s ≡ some id
      → spawn_process os settings s id ≡ finished s'
      → Spawns os settings s' s''
      → Spawns os settings s s''

-- The log files of the task that is picked cannot be opened, its shell command does not render, or
-- its group has no worker pool.
pub record CannotSpawn (os : Os) (s : InternalState) : Type 0 where
  pub id : ℕ
  pub task : Task
  pub picked : get_next_task_id s ≡ some id
  pub found : get id s.tasks ≡ some task
  pub cause :
      (os.log_files_open s.trace id ≡ false)
      ⊎ ((os.shell_command_renders task.command ≡ false) ⊎ (get task.group s.children ≡ none))

-- What a run of the loop ends with: the panic of a reached state, or one in which no task can start.
abbrev pub IsExhausted : Os → Settings → InternalState → Outcome InternalState → Type 0
IsExhausted os settings s panicked =
    (s' : InternalState) × Spawns os settings s s' × CannotSpawn os s'
IsExhausted os settings s (finished s') = Spawns os settings s s' × (get_next_task_id s' ≡ none)

spawn_succeeded-panicked :
    (os : Os) (s : InternalState) (task : Task) (id at worker_id : ℕ) (child : Child)
    → spawn_succeeded os s task id at worker_id child ≡ panicked
    → get task.group s.children ≡ none
unfolding spawn_succeeded add_child
spawn_succeeded-panicked os s task id at worker_id child e =
    elim (Option-cases (get task.group s.children)) [
      | inl absent ↦ absent
      | inr (pool, had) ↦ absurd (ground (arith, had))
    ]

spawn_child-panicked :
    (os : Os) (settings : Settings) (s : InternalState) (task : Task) (id at : ℕ)
    → spawn_child os settings s task id at ≡ panicked
    → get task.group s.children ≡ none
unfolding spawn_child get_next_group_worker
spawn_child-panicked os settings s task id at e = elim (Option-cases (get task.group s.children)) [
  | inl absent ↦ absent
  | inr (pool, had) ↦
      of _ (os.spawn s.trace task.command task.path (worker_envs os task _)) (rw had at e)
]
  where
    of :
        (worker_id : ℕ) (o : Child ⊎ String)
        → (elim o as (λ _. Outcome InternalState) [
          | inl child ↦ spawn_succeeded os s task id at worker_id child
          | inr err ↦ finished (spawn_failed os settings s task id at err)
        ])
          ≡ panicked
        → get task.group s.children ≡ none
    of worker_id (inl child) r = spawn_succeeded-panicked os s task id at worker_id child r
    of worker_id (inr err) r = absurd (cc r)

spawn_process-CannotSpawn :
    (os : Os) (settings : Settings) (s : InternalState) (task : Task) (id : ℕ)
    → get_next_task_id s ≡ some id
    → get id s.tasks ≡ some task
    → spawn_process os settings s id ≡ panicked
    → CannotSpawn os s
unfolding spawn_process
spawn_process-CannotSpawn os settings s task id picked found e =
    elim (Bool-cases (is_prepared os s.trace id task)) [
      | inr unprepared ↦ by_cause (ground (arith, unprepared))
      | inl open_files ↦ elim (Option-cases (spawnable_at (os.now s.trace) task.status)) [
        | inl wrong ↦ absurd (ground arith)
        | inr (at, spawnable) ↦
            by_cause (inr (inr (spawn_child-panicked os settings s task id at (ground arith))))
      ]
    ]
  where
    by_cause :
        (os.log_files_open s.trace id ≡ false)
          ⊎ ((os.shell_command_renders task.command ≡ false) ⊎ (get task.group s.children ≡ none))
        → CannotSpawn os s
    by_cause cause = record { id = id; task = task; picked = picked; found = found; cause = cause }

panics-IsExhausted :
    (os : Os) (settings : Settings) (s : InternalState) (id : ℕ)
    → IsAscending s.tasks
    → IsKeyed s.tasks
    → get_next_task_id s ≡ some id
    → spawn_process os settings s id ≡ panicked
    → IsExhausted os settings s panicked
panics-IsExhausted os settings s id ordered keyed picked e =
    let (task, found, _) = picked-found s id ordered keyed picked in
    (s, spawns_none s, spawn_process-CannotSpawn os settings s task id picked found e)

-- A panic in a state that is reached, or one in which no task can start, is so before it too.
IsExhausted-next :
    (os : Os) (settings : Settings) (s s' : InternalState) (id : ℕ) (r : Outcome InternalState)
    → get_next_task_id s ≡ some id
    → spawn_process os settings s id ≡ finished s'
    → IsExhausted os settings s' r
    → IsExhausted os settings s r
IsExhausted-next os settings s s' id panicked picked e (t, reached, cannot) =
    (t, spawns_next s s' t id picked e reached, cannot)
IsExhausted-next os settings s s' id (finished t) picked e (reached, idle) =
    (spawns_next s s' t id picked e reached, idle)

-- For tasks keyed by their ids in order, the loop of `spawn_new` ends within one round more than
-- there are queued tasks, after it spawned the tasks that `get_next_task_id` picked one by one: in
-- a state in which no task can start, or with a panic, where the log files of the picked task
-- cannot be opened, its shell command does not render, or its group has no worker pool.
pub spawn_loop-ends :
    (os : Os) (settings : Settings) (n : ℕ) (s : InternalState)
    → IsAscending s.tasks
    → IsKeyed s.tasks
    → queued_count s.tasks ≤ n
    → (r : Outcome InternalState) × (spawn_loop os settings (suc n) s ≡ some r)
      × IsExhausted os settings s r
unfolding spawn_loop
spawn_loop-ends os settings zero s ordered keyed bound = elim (Option-cases (get_next_task_id s)) [
  | inl idle ↦ (finished s, ground arith, (spawns_none s, idle))
  | inr (id, picked) ↦ elim (Outcome-cases (spawn_process os settings s id)) [
    | inl e ↦ (panicked, ground arith, panics-IsExhausted os settings s id ordered keyed picked e)
    | inr (s', e) ↦
        let round = spawn_next-IsRound os settings s s' id ordered keyed picked e in
        absurd (omega (arith, round.fewer))
  ]
]
spawn_loop-ends os settings (suc m) s ordered keyed bound =
    elim (Option-cases (get_next_task_id s)) [
      | inl idle ↦ (finished s, ground arith, (spawns_none s, idle))
      | inr (id, picked) ↦ elim (Outcome-cases (spawn_process os settings s id)) [
        | inl e ↦
            (panicked, ground arith, panics-IsExhausted os settings s id ordered keyed picked e)
        | inr (s', e) ↦
            let round = spawn_next-IsRound os settings s s' id ordered keyed picked e in
            let (r, ends, settled) =
              spawn_loop-ends os settings m s' round.ordered round.keyed
                (omega (arith, round.fewer)) in
            (r, ground arith, IsExhausted-next os settings s s' id r picked e settled)
      ]
    ]
