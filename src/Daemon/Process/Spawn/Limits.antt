-- ===== src/Daemon/Process/Spawn/Limits.antt =====
-- The number of parallel tasks in a group, under process_handler/spawn.rs.
use pueue.Base.{
  ℕ, suc, ◌≤◌, ◌<◌, String, ◌≡◌, sym, ap, subst, ◌∙◌, ◌⊎◌, inl, inr, some, [], ◌∷◌, arith, length,
  get, insert, update, get-update, OrdMap, In, values, IsAscending, In→get, ==→eq, nat_ord,
  text_ord, Bool-cases, Option-cases,
}
use pueue.Task.{Task}
use pueue.State.{Tasks}
use pueue.Daemon.Os.{Os, Settings, Child, Outcome, finished, finished_injective, >>=-eq-finished}
use pueue.Daemon.Workers.{Pool, Children, add_child, get_next_group_worker}
use pueue.Daemon.Internal.{InternalState}
use pueue.Daemon.Process.Kill.Follows.{limit_of}
use pueue.Daemon.Process.Kill.Shutdown.{Spares, save_or_shutdown-Spares}
use pueue.Daemon.Process.Spares.{Spares-trans, spawn_callback-Spares, pause_on_failure-Spares}
use pueue.Daemon.Process.Spawn.{
  get_next_task_id, is_prepared, spawn_process, spawn_child, spawn_failed, spawn_succeeded,
  spawnable_at, worker_envs,
}
use pueue.Daemon.Process.Spawn.Order.{IsStartable, get_next_task_id-some}

-- No group has more workers than it may run in parallel; a limit of 0 is no limit.
abbrev pub IsWithinLimits : InternalState → Type 0
IsWithinLimits s =
    (g : String) (n : ℕ) (pool : Pool)
    → limit_of (get g s.groups) ≡ some n
    → get g s.children ≡ some pool
    → (n ≡ 0) ⊎ (length pool ≤ n)

-- The key of each task is its id.
abbrev pub IsKeyed : Tasks → Type 0
IsKeyed tasks = (k : ℕ) (t : Task) → In (k, t) tasks → t.id ≡ k

Spares-IsWithinLimits : {s t : InternalState} → Spares s t → IsWithinLimits s → IsWithinLimits t
Spares-IsWithinLimits {s} {t} f h g n pool e k =
    h g n pool (sym (f.spared_limits g) ∙ e) (subst (λ c. get g c ≡ some pool) f.spared_children k)

insert-length :
    {V : Type 0} (k : ℕ) (v : V) (m : OrdMap ℕ V) → length (insert k v m) ≤ suc (length m)
unfolding insert
insert-length k v [] = omega arith
insert-length k v ((j, w) ∷ m) = ground (arith, insert-length k v m)

abbrev put_worker : String → ℕ → ℕ → Child → Children → Children
put_worker group worker_id task_id child =
    update group (λ (p : Pool). insert worker_id (task_id, child) p)

add_child-eq :
    (children children' : Children) (group : String) (worker_id task_id : ℕ) (child : Child)
    → add_child children group worker_id task_id child ≡ finished children'
    → children' ≡ put_worker group worker_id task_id child children
unfolding add_child
add_child-eq children children' group worker_id task_id child e = ground arith

spawn_failed-Spares :
    (os : Os) (settings : Settings) (s : InternalState) (task : Task) (task_id at : ℕ)
    (err : String)
    → IsWithinLimits s
    → IsWithinLimits (spawn_failed os settings s task task_id at err)
unfolding spawn_failed
spawn_failed-Spares os settings s task task_id at err h =
    Spares-IsWithinLimits
      (Spares-trans (spawn_callback-Spares os settings _ _) (
        Spares-trans (pause_on_failure-Spares settings _ task.group)
          (save_or_shutdown-Spares os _)))
      h

-- The group of the task has room for one more.
abbrev HasRoom : InternalState → String → Type 0
HasRoom s group =
    (n : ℕ) (pool : Pool)
    → limit_of (get group s.groups) ≡ some n
    → get group s.children ≡ some pool
    → (n ≡ 0) ⊎ (length pool < n)

put-bound :
    (g group : String) (worker_id task_id n : ℕ) (child : Child) (children : Children) (pool : Pool)
    → get g (put_worker group worker_id task_id child children) ≡ some pool
    → (o : Pool) × (get g children ≡ some o)
      × (((group ≡ g) × (length pool ≤ suc (length o))) ⊎ (pool ≡ o))
put-bound g group worker_id task_id n child children pool e = elim (Option-cases (get g children)) [
  | inl absent ↦ absurd (
      ground
        (arith, get-update g group (λ (p : Pool). insert worker_id (task_id, child) p) children))
  | inr (o, found) ↦ (
    o,
    found,
    ground (
      arith,
      get-update g group (λ (p : Pool). insert worker_id (task_id, child) p) children,
      ==→eq group g,
      insert-length worker_id (task_id, child) o,
    ),
  )
]

put-IsWithinLimits :
    (s : InternalState) (group : String) (worker_id task_id : ℕ) (child : Child)
    → HasRoom s group
    → IsWithinLimits s
    → IsWithinLimits (record s { children = put_worker group worker_id task_id child s.children })
put-IsWithinLimits s group worker_id task_id child room h g n pool e k =
    let (o, found, cases) = put-bound g group worker_id task_id n child s.children pool k in
    elim cases [
      | inr same ↦ subst (λ p. (n ≡ 0) ⊎ (length p ≤ n)) (sym same) (h g n o e found)
      | inl (here, bound) ↦
          elim (room n o (subst (λ x. limit_of (get x s.groups) ≡ some n) (sym here) e)
            (subst (λ x. get x s.children ≡ some o) (sym here) found)) [
              | inl unlimited ↦ inl unlimited
              | inr below ↦ inr (omega arith)
            ]
    ]

spawn_succeeded-IsWithinLimits :
    (os : Os) (s s' : InternalState) (task : Task) (task_id at worker_id : ℕ) (child : Child)
    → spawn_succeeded os s task task_id at worker_id child ≡ finished s'
    → HasRoom s task.group
    → IsWithinLimits s
    → IsWithinLimits s'
unfolding spawn_succeeded
spawn_succeeded-IsWithinLimits os s s' task task_id at worker_id child e room h =
    let (children, added, rest) =
      >>=-eq-finished (add_child s.children task.group worker_id task_id child) _ e in
    let within = put-IsWithinLimits s task.group worker_id task_id child room h in
    subst IsWithinLimits (finished_injective rest) (
      Spares-IsWithinLimits (save_or_shutdown-Spares os _) (λ g n pool lim k. within g n pool lim (
        subst (λ c. get g c ≡ some pool)
          (add_child-eq s.children children task.group worker_id task_id child added) k)))

spawn_child-IsWithinLimits :
    (os : Os) (settings : Settings) (s s' : InternalState) (task : Task) (task_id at : ℕ)
    → spawn_child os settings s task task_id at ≡ finished s'
    → HasRoom s task.group
    → IsWithinLimits s
    → IsWithinLimits s'
unfolding spawn_child
spawn_child-IsWithinLimits os settings s s' task task_id at e room h =
    let (worker_id, slot, rest) =
      >>=-eq-finished (get_next_group_worker s.children task.group) _ e in
    of worker_id (os.spawn s.trace task.command task.path (worker_envs os task worker_id)) rest
  where
    of :
        (worker_id : ℕ) (o : Child ⊎ String)
        → (elim o as (λ _. Outcome InternalState) [
          | inl child ↦ spawn_succeeded os s task task_id at worker_id child
          | inr err ↦ finished (spawn_failed os settings s task task_id at err)
        ])
          ≡ finished s'
        → IsWithinLimits s'
    of worker_id (inl child) r =
        spawn_succeeded-IsWithinLimits os s s' task task_id at worker_id child r room h
    of worker_id (inr err) r =
        subst IsWithinLimits (finished_injective r)
          (spawn_failed-Spares os settings s task task_id at err h)

startable-HasRoom : (s : InternalState) (task : Task) → IsStartable s task → HasRoom s task.group
startable-HasRoom s task ready n pool lim found = ground (arith, ready.grouped, ready.has_room)

spawn_process-IsWithinLimits :
    (os : Os) (settings : Settings) (s s' : InternalState) (task : Task) (task_id : ℕ)
    → get task_id s.tasks ≡ some task
    → HasRoom s task.group
    → spawn_process os settings s task_id ≡ finished s'
    → IsWithinLimits s
    → IsWithinLimits s'
unfolding spawn_process
spawn_process-IsWithinLimits os settings s s' task task_id found room e h =
    elim (Option-cases (spawnable_at (os.now s.trace) task.status)) [
      | inl refused ↦ (let same : s ≡ s' = ground arith in subst IsWithinLimits same h)
      | inr (at, spawnable) ↦ elim (Bool-cases (is_prepared os s.trace task_id task)) [
        | inl open_files ↦
            spawn_child-IsWithinLimits os settings s s' task task_id at (ground arith) room h
        | inr failed ↦ absurd (ground arith)
      ]
    ]

pub values→In : {V : Type 0} (v : V) (m : OrdMap ℕ V) → In v (values m) → (k : ℕ) × In (k, v) m
values→In v [] h = absurd h
values→In v ((k, w) ∷ m) (inl e) = (k, inl (ap (λ x. (k, x)) e))
values→In v ((k, w) ∷ m) (inr h) = let (j, found) = values→In v m h in (j, inr found)

-- If the tasks are keyed by their ids in order and no group has more workers than its limit (0 is
-- no limit), then spawning the task that `get_next_task_id` picks keeps it so, whether the process
-- starts or not.
pub spawn_next-IsWithinLimits :
    (os : Os) (settings : Settings) (s s' : InternalState) (id : ℕ)
    → IsAscending s.tasks
    → IsKeyed s.tasks
    → IsWithinLimits s
    → get_next_task_id s ≡ some id
    → spawn_process os settings s id ≡ finished s'
    → IsWithinLimits s'
spawn_next-IsWithinLimits os settings s s' id ordered keyed h picked e =
    let (task, same, here, ready, _) = get_next_task_id-some s id picked in
    let (k, entry) = values→In task s.tasks here in
    let found = In→get k 0 task s.tasks ordered entry in
    spawn_process-IsWithinLimits os settings s s' task id
      (subst (λ x. get x s.tasks ≡ some task) (sym (keyed k task entry) ∙ same) found)
      (startable-HasRoom s task ready) e h
