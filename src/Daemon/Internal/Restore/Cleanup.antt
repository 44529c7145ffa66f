-- ===== src/Daemon/Internal/Restore/Cleanup.antt =====
-- What `restore_state` (daemon/internal_state/state.rs) makes of the tasks and groups of a state
-- file, whatever they were.
use mathlib.Core.Option
use pueue.Base.{
  ℕ, String, ◌≡◌, refl, sym, ap, ◌∙◌, subst, inl, inr, Bool, true, false, ◌||◌, Option, none, some,
  [], ◌∷◌, arith, get, update, contains_key, get-update, get-insert, get→In, In, is_some, ==→eq,
  ==_refl, text_ord, nat_ord, Bool-cases,
}
use pueue.Task.{
  Task, TaskStatus, is_queued_status, is_locked_status, is_running, is_running_status,
  is_paused_status,
}
use pueue.State.{State, Group, GroupStatus, Tasks, Groups, pueue_default_group}
use pueue.Daemon.Internal.{new_group, create_group, set_group_status}
use pueue.Daemon.Links.Shape.{core, shape}
use pueue.Daemon.Internal.Restore.Rebuilt.{shape-build}
use pueue.Daemon.Internal.Restore.{
  restore_status, restore_group, restore_task, restore_tasks, restore_state,
}

abbrev pub status_is_paused : GroupStatus → Bool
status_is_paused GroupStatus.paused = true
status_is_paused _ = false

abbrev pub paused_group : Option Group → Bool
paused_group none = false
paused_group (some group) = status_is_paused group.status

-- A task that needs no process: its group exists, and is paused where the task waits in a queue.
pub record IsSettled (task : Task) (groups : Groups) : Type 0 where
  pub no_process : is_running task ≡ false
  pub unlocked : is_locked_status task.status ≡ false
  pub has_group : contains_key task.group groups ≡ true
  pub waits_paused :
      is_queued_status task.status ≡ true → paused_group (get task.group groups) ≡ true

-- What later tasks do to the groups.
record Grows (before after : Groups) : Type 0 where
  keeps_group : (g : String) → contains_key g before ≡ true → contains_key g after ≡ true
  keeps_paused :
      (g : String) → paused_group (get g before) ≡ true → paused_group (get g after) ≡ true

create_group-Grows : (name : String) (groups : Groups) → Grows groups (create_group name groups)
unfolding create_group
create_group-Grows name groups = record {
  keeps_group = λ g e. ground (arith, get-insert g name new_group groups, ==→eq name g);
  keeps_paused = λ g e. ground (arith, get-insert g name new_group groups, ==→eq name g);
}

Grows-refl : (groups : Groups) → Grows groups groups
Grows-refl groups = record { keeps_group = λ g e. e; keeps_paused = λ g e. e }

Grows-trans : {a b c : Groups} → Grows a b → Grows b c → Grows a c
Grows-trans p q = record {
  keeps_group = λ g e. q.keeps_group g (p.keeps_group g e);
  keeps_paused = λ g e. q.keeps_paused g (p.keeps_paused g e);
}

paused_of_map :
    (o : Option Group)
    → is_some o ≡ true
    → paused_group (Option.map (set_group_status GroupStatus.paused) o) ≡ true
paused_of_map none e = cc
paused_of_map (some g) e = refl

paused_is_some : (o : Option Group) → paused_group o ≡ true → is_some o ≡ true
paused_is_some none e = cc
paused_is_some (some g) e = refl

pause-paused :
    (name : String) (groups : Groups)
    → contains_key name groups ≡ true
    → paused_group (get name (update name (set_group_status GroupStatus.paused) groups)) ≡ true
pause-paused name groups e = ground (
  arith,
  get-update name name (set_group_status GroupStatus.paused) groups,
  ==_refl name,
  paused_of_map (get name groups) e,
)

pause-Grows :
    (name : String) (groups : Groups)
    → Grows groups (update name (set_group_status GroupStatus.paused) groups)
pause-Grows name groups = record {
  keeps_group =
      λ g e. ground (arith, get-update g name (set_group_status GroupStatus.paused) groups);
  keeps_paused = λ g e. ground (
    arith,
    get-update g name (set_group_status GroupStatus.paused) groups,
    paused_of_map (get g groups) (paused_is_some (get g groups) e),
  );
}

restore_group-Grows : (task : Task) (groups : Groups) → Grows groups (restore_group task groups).1
unfolding restore_group
restore_group-Grows task groups = elim (Bool-cases (contains_key task.group groups)) [
  | inl e ↦ rw (e, restore_group) (Grows-refl groups)
  | inr e ↦ rw (e, restore_group) (create_group-Grows pueue_default_group groups)
]

create_group-key :
    (name : String) (groups : Groups) → contains_key name (create_group name groups) ≡ true
unfolding create_group
create_group-key name groups = ground (arith, get-insert name name new_group groups, ==_refl name)

restore_group-key :
    (task : Task) (groups : Groups)
    → contains_key (restore_group task groups).0 (restore_group task groups).1 ≡ true
unfolding restore_group
restore_group-key task groups = ground (arith, create_group-key pueue_default_group groups)

restore_task-Grows :
    (now : ℕ) (task : Task) (groups : Groups) → Grows groups (restore_task now task groups).1
unfolding restore_task
restore_task-Grows now task groups =
    elim (Bool-cases (is_queued_status (restore_status now task.status))) [
      | inl e ↦
          rw (e, restore_task)
            (Grows-trans (restore_group-Grows task groups)
              (pause-Grows (restore_group task groups).0 (restore_group task groups).1))
      | inr e ↦ rw (e, restore_task) (restore_group-Grows task groups)
    ]

restored_no_process :
    (now : ℕ) (status : TaskStatus)
    → (is_running_status (restore_status now status)
        || is_paused_status (restore_status now status))
      ≡ false
unfolding restore_status
restored_no_process now status = ground arith

restored_unlocked :
    (now : ℕ) (status : TaskStatus) → is_locked_status (restore_status now status) ≡ false
unfolding restore_status
restored_unlocked now status = ground arith

restore_task-IsSettled :
    (now : ℕ) (task : Task) (groups : Groups)
    → IsSettled (restore_task now task groups).0 (restore_task now task groups).1
unfolding restore_task
restore_task-IsSettled now task groups = record {
  no_process = restored_no_process now task.status;
  unlocked = restored_unlocked now task.status;
  has_group = ground (
    arith,
    restore_group-key task groups,
    (pause-Grows (restore_group task groups).0 (restore_group task groups).1).keeps_group
        (restore_group task groups).0 (restore_group-key task groups),
  );
  waits_paused = λ e. ground (
    arith,
    pause-paused (restore_group task groups).0 (restore_group task groups).1
        (restore_group-key task groups),
  );
}

IsSettled-Grows : {t : Task} {a b : Groups} → Grows a b → IsSettled t a → IsSettled t b
IsSettled-Grows {t} p q = record {
  no_process = q.no_process;
  unlocked = q.unlocked;
  has_group = p.keeps_group t.group q.has_group;
  waits_paused = λ e. p.keeps_paused t.group (q.waits_paused e);
}

restore_tasks-Grows :
    (now : ℕ) (tasks : Tasks) (groups : Groups) → Grows groups (restore_tasks now tasks groups).1
unfolding restore_tasks
restore_tasks-Grows now [] groups = Grows-refl groups
restore_tasks-Grows now ((id, task) ∷ tasks) groups =
    Grows-trans (restore_task-Grows now task groups)
      (restore_tasks-Grows now tasks (restore_task now task groups).1)

restore_tasks-IsSettled :
    (now : ℕ) (tasks : Tasks) (groups : Groups) (id : ℕ) (t : Task)
    → In (id, t) (restore_tasks now tasks groups).0
    → IsSettled t (restore_tasks now tasks groups).1
unfolding restore_tasks
restore_tasks-IsSettled now [] groups id t m = absurd m
restore_tasks-IsSettled now ((i, task) ∷ tasks) groups id t (inl here) =
    subst (λ u. IsSettled u (restore_tasks now ((i, task) ∷ tasks) groups).1)
      (sym (ap (λ (e : ℕ × Task). e.1) here))
      (IsSettled-Grows (restore_tasks-Grows now tasks (restore_task now task groups).1)
        (restore_task-IsSettled now task groups))
restore_tasks-IsSettled now ((i, task) ∷ tasks) groups id t (inr m) =
    restore_tasks-IsSettled now tasks (restore_task now task groups).1 id t m

-- Two tasks that differ in their dependents only.
IsSettled-core :
    {t u : Task} {groups : Groups} → core t ≡ core u → IsSettled t groups → IsSettled u groups
IsSettled-core {groups} e q = of (
    subst (λ v. IsSettled v groups) e
      (record {
        no_process = q.no_process;
        unlocked = q.unlocked;
        has_group = q.has_group;
        waits_paused = q.waits_paused;
      }))
  where
    of : {u : Task} {groups : Groups} → IsSettled (core u) groups → IsSettled u groups
    of q = record {
      no_process = q.no_process;
      unlocked = q.unlocked;
      has_group = q.has_group;
      waits_paused = q.waits_paused;
    }

shape-some :
    (o : Option Task) (t : Task)
    → some (core t) ≡ shape o
    → (u : Task) × (o ≡ some u) × (core u ≡ core t)
shape-some none t e = cc
shape-some (some u) t e = (u, refl, cc)

-- Every task of a restored state has no process and is not locked, its group exists, and the group
-- is paused if the task is queued.
pub restore_state-IsSettled :
    (now : ℕ) (s : State) (id : ℕ) (t : Task)
    → get id (restore_state now s).tasks ≡ some t
    → IsSettled t (restore_state now s).groups
unfolding restore_state
restore_state-IsSettled now s id t e =
    let tasks = (restore_tasks now s.tasks s.groups).0 in
    let (u, found, same) = shape-some (get id tasks) t (sym (ap shape e) ∙ shape-build id tasks) in
    IsSettled-core same
      (restore_tasks-IsSettled now s.tasks s.groups id u (get→In id u tasks found))
