-- ===== src/Daemon/Process/Spawn/Dequeued.antt =====
-- A round of the loop of `spawn_new` (process_handler/spawn.rs) takes a task out of the queue.
use pueue.Base.{
  ℕ, suc, String, ◌≡◌, refl, sym, ap, subst, ◌∙◌, ◌⊎◌, inl, inr, true, false, some, [], ◌∷◌, arith,
  get, update, update-From, IsAscending, In→get, ◌==◌, nat_ord, text_ord, Bool-cases, if◌then◌else◌,
}
use pueue.Task.{Task, is_queued_status, queued, running, done, failed_to_spawn}
use pueue.State.{Tasks}
use pueue.Daemon.Os.{
  Os, Settings, Child, Outcome, finished, finished_injective, >>=-eq-finished, spawned,
  spawn_refused,
}
use pueue.Daemon.Workers.{add_child, get_next_group_worker}
use pueue.Daemon.Internal.{InternalState}
use pueue.Daemon.Process.Kill.Shutdown.{save_or_shutdown-Spares}
use pueue.Daemon.Process.Spares.{spawn_callback-Spares, pause_on_failure-Spares}
use pueue.Daemon.Process.Spawn.{
  get_next_task_id, is_prepared, spawn_process, spawn_child, spawn_failed, spawn_succeeded,
  worker_envs, spawn_error,
}
use pueue.Daemon.Process.Spawn.Order.{IsStartable, get_next_task_id-some}
use pueue.Daemon.Process.Spawn.Limits.{IsKeyed, values→In}

-- The number of queued tasks.
unfoldable pub queued_count : Tasks → ℕ
queued_count [] = 0
queued_count ((id, t) ∷ tasks) =
    if is_queued_status t.status then suc (queued_count tasks) else queued_count tasks

-- A write into the task that takes it out of the queue and keeps its id.
record Dequeues (id : ℕ) (before after : Tasks) : Type 0 where
  write : Task → Task
  dequeued : (t : Task) → is_queued_status (write t).status ≡ false
  same_id : (t : Task) → (write t).id ≡ t.id
  written : after ≡ update id write before

spawn_failed-Dequeues :
    (os : Os) (settings : Settings) (s : InternalState) (task : Task) (id at : ℕ) (err : String)
    → Dequeues id s.tasks (spawn_failed os settings s task id at err).tasks
unfolding spawn_failed
spawn_failed-Dequeues os settings s task id at err = record {
  write = λ (t : Task). record t {
    status =
        done at (os.now (spawn_refused id ∷ s.trace)) (os.now (spawn_refused id ∷ s.trace))
          (failed_to_spawn (spawn_error os id err));
  };
  dequeued = λ t. refl;
  same_id = λ t. refl;
  written =
      (save_or_shutdown-Spares os _).spared_tasks
      ∙ (pause_on_failure-Spares settings _ task.group).spared_tasks
      ∙ (spawn_callback-Spares os settings _ _).spared_tasks;
}

spawn_succeeded-Dequeues :
    (os : Os) (s s' : InternalState) (task : Task) (id at worker_id : ℕ) (child : Child)
    → spawn_succeeded os s task id at worker_id child ≡ finished s'
    → Dequeues id s.tasks s'.tasks
unfolding spawn_succeeded
spawn_succeeded-Dequeues os s s' task id at worker_id child e =
    let (children, added, rest) =
      >>=-eq-finished (add_child s.children task.group worker_id id child) _ e in
    subst (λ (t : InternalState). Dequeues id s.tasks t.tasks) (finished_injective rest)
      (record {
        write = λ (t : Task). record t {
          envs = worker_envs os task worker_id;
          status = running at (os.now (spawned id child ∷ s.trace));
        };
        dequeued = λ t. refl;
        same_id = λ t. refl;
        written = (save_or_shutdown-Spares os _).spared_tasks;
      })

spawn_child-Dequeues :
    (os : Os) (settings : Settings) (s s' : InternalState) (task : Task) (id at : ℕ)
    → spawn_child os settings s task id at ≡ finished s'
    → Dequeues id s.tasks s'.tasks
unfolding spawn_child
spawn_child-Dequeues os settings s s' task id at e =
    let (worker_id, slot, rest) =
      >>=-eq-finished (get_next_group_worker s.children task.group) _ e in
    of worker_id (os.spawn s.trace task.command task.path (worker_envs os task worker_id)) rest
  where
    of :
        (worker_id : ℕ) (o : Child ⊎ String)
        → (elim o as (λ _. Outcome InternalState) [
          | inl child ↦ spawn_succeeded os s task id at worker_id child
          | inr err ↦ finished (spawn_failed os settings s task id at err)
        ])
          ≡ finished s'
        → Dequeues id s.tasks s'.tasks
    of worker_id (inl child) r = spawn_succeeded-Dequeues os s s' task id at worker_id child r
    of worker_id (inr err) r =
        subst (λ (t : InternalState). Dequeues id s.tasks t.tasks) (finished_injective r)
          (spawn_failed-Dequeues os settings s task id at err)

spawn_process-Dequeues :
    (os : Os) (settings : Settings) (s s' : InternalState) (task : Task) (id at : ℕ)
    → get id s.tasks ≡ some task
    → task.status ≡ queued at
    → spawn_process os settings s id ≡ finished s'
    → Dequeues id s.tasks s'.tasks
unfolding spawn_process
spawn_process-Dequeues os settings s s' task id at found e h =
    elim (Bool-cases (is_prepared os s.trace id task)) [
      | inl open_files ↦ spawn_child-Dequeues os settings s s' task id at (ground arith)
      | inr failed ↦ absurd (ground arith)
    ]

count-update :
    (id : ℕ) (f : Task → Task) (m : Tasks) (t : Task)
    → get id m ≡ some t
    → is_queued_status t.status ≡ true
    → ((u : Task) → is_queued_status (f u).status ≡ false)
    → suc (queued_count (update id f m)) ≡ queued_count m
unfolding queued_count update get
count-update id f [] t e q h = cc
count-update id f ((j, u) ∷ m) t e q h = ground (arith, h u, count-update id f m t)

update-IsKeyed :
    (id : ℕ) (f : Task → Task) (m : Tasks)
    → ((t : Task) → (f t).id ≡ t.id)
    → IsKeyed m
    → IsKeyed (update id f m)
unfolding update
update-IsKeyed id f [] h keyed = keyed
update-IsKeyed id f ((j, u) ∷ m) h keyed = elim (Bool-cases (j == id)) [
  | inl e ↦
      rw (e, update)
        (λ k t. elim [
          | inl here ↦
              ap (λ (x : ℕ × Task). x.1.id) here
              ∙ h u
              ∙ keyed j u (inl refl)
              ∙ sym (ap (λ (x : ℕ × Task). x.0) here)
          | inr m' ↦ keyed k t (inr m')
        ])
  | inr e ↦
      rw (e, update)
        (λ k t. elim [
          | inl here ↦ keyed k t (inl here)
          | inr m' ↦ update-IsKeyed id f m h (λ k' t' m''. keyed k' t' (inr m'')) k t m'
        ])
]

pub picked-found :
    (s : InternalState) (id : ℕ)
    → IsAscending s.tasks
    → IsKeyed s.tasks
    → get_next_task_id s ≡ some id
    → (task : Task) × (get id s.tasks ≡ some task) × IsStartable s task
picked-found s id ordered keyed picked =
    let (task, same, here, ready, _) = get_next_task_id-some s id picked in
    let (k, entry) = values→In task s.tasks here in
    (
      task,
      subst (λ x. get x s.tasks ≡ some task) (sym (keyed k task entry) ∙ same)
          (In→get k 0 task s.tasks ordered entry),
      ready,
    )

-- One round of the loop, with the task that it takes out of the queue.
pub record IsRound (s s' : InternalState) : Type 0 where
  pub ordered : IsAscending s'.tasks
  pub keyed : IsKeyed s'.tasks
  pub fewer : suc (queued_count s'.tasks) ≡ queued_count s.tasks

pub spawn_next-IsRound :
    (os : Os) (settings : Settings) (s s' : InternalState) (id : ℕ)
    → IsAscending s.tasks
    → IsKeyed s.tasks
    → get_next_task_id s ≡ some id
    → spawn_process os settings s id ≡ finished s'
    → IsRound s s'
spawn_next-IsRound os settings s s' id ordered keyed picked e =
    let (task, found, ready) = picked-found s id ordered keyed picked in
    let d =
      spawn_process-Dequeues os settings s s' task id ready.enqueued_at found ready.is_queued e in
    record {
      ordered = subst IsAscending (sym d.written) (update-From id 0 d.write s.tasks ordered);
      keyed = subst IsKeyed (sym d.written) (update-IsKeyed id d.write s.tasks d.same_id keyed);
      fewer =
          ap (λ (m : Tasks). suc (queued_count m)) d.written
          ∙ count-update id d.write s.tasks task found (ap is_queued_status ready.is_queued)
              d.dequeued;
    }
