-- ===== src/Daemon/Internal.antt =====
-- pueue/src/daemon/internal_state/state.rs: the daemon's state and the operations on it that every
-- handler shares. The state also keeps the effects of the daemon on its surroundings, which the
-- answers of the operating system may depend on.
pub mod Removable
pub mod Restore
use pueue.Base.{
  ℕ, suc, zero, ◌+◌, String, Bool, true, false, not, ◌||◌, ◌&&◌, Option, none, some, List, [], ◌∷◌,
  OrdMap, last_key, keys, get, insert, update, remove, map_values, contains_key, is_empty, all_of,
  contains, ◌==◌, nat_ord, text_ord, if◌then◌else◌,
}
use pueue.Task.{Task, TaskStatus, is_done}
use pueue.State.{State, Group, GroupStatus, Tasks, Groups, next_id, pueue_default_group}
use pueue.State
use pueue.Message.{ShutdownRequest, Text, lit}
use pueue.Daemon.Os.{Child, Effect, Trace, Os, Settings, saved, save_failed}
use pueue.Daemon.Workers.{Children}

pub record InternalState : Type 0 where
  pub inner : State
  pub open inner use *
  pub shutdown : Option ShutdownRequest
  pub children : Children
  pub callbacks : List Child
  pub trace : Trace

-- `tasks_mut` and `groups_mut`, as the state after a write through them.
abbrev pub with_tasks : InternalState → Tasks → InternalState
with_tasks s tasks = record s { inner = record { tasks = tasks; groups = s.groups } }

abbrev pub with_groups : InternalState → Groups → InternalState
with_groups s groups = record s { inner = record { tasks = s.tasks; groups = groups } }

abbrev pub log_effect : Effect → InternalState → InternalState
log_effect e s = record s { trace = e ∷ s.trace }

unfoldable pub add_task : InternalState → Task → InternalState × ℕ
add_task s task =
    let id = next_id (last_key s.tasks) in
    (with_tasks s (insert id (record task { id = id }) s.tasks), id)

unfoldable pub change_status : InternalState → ℕ → TaskStatus → InternalState
change_status s id status =
    with_tasks s (update id (λ (task : Task). record task { status = status }) s.tasks)

abbrev pub new_group : Group
new_group = record { status = GroupStatus.running; parallel_tasks = 1 }

-- `groups.entry(name).or_insert(..)`.
unfoldable pub create_group : String → Groups → Groups
create_group name groups = if contains_key name groups then groups else insert name new_group groups

-- `Err` is the refusal to remove the default group.
unfoldable pub remove_group : InternalState → String → Option InternalState
remove_group s group =
    if group == pueue_default_group then none else some (with_groups s (remove group s.groups))

abbrev pub set_group_status : GroupStatus → Group → Group
set_group_status status group = record group { status = status }

unfoldable pub set_status_for_all_groups : InternalState → GroupStatus → InternalState
set_status_for_all_groups s status =
    with_groups s (map_values (λ (_ : String). set_group_status status) s.groups)

unfoldable pub new : InternalState
unfolding create_group
new = record {
  inner = record { tasks = []; groups = create_group pueue_default_group [] };
  shutdown = none;
  children = [];
  callbacks = [];
  trace = [];
}

-- The dependents of a task that exist and have not finished.
abbrev pub is_unfinished : Option Task → Bool
is_unfinished none = false
is_unfinished (some task) = not (is_done task)

unfoldable pub unfinished : Tasks → List ℕ → List ℕ
unfinished tasks [] = []
unfinished tasks (id ∷ ids) =
    if is_unfinished (get id tasks) then id ∷ unfinished tasks ids else unfinished tasks ids

abbrev pub dependents_of : Option Task → List ℕ
dependents_of none = []
dependents_of (some task) = task.dependents

-- `iter().all(f)` for a test that may not return: it stops at the first `false`.
unfoldable pub all_return : (ℕ → Option Bool) → List ℕ → Option Bool
all_return f [] = some true
all_return f (id ∷ ids) =
    let rest = all_return f ids in
    elim (f id) [ none ↦ none | some false ↦ some false | some true ↦ rest ]

-- `is_task_removable`. It recurs over the dependents of dependents, which takes fuel here: `none` is
-- a recursion deeper than the fuel. A missing task has no dependents.
unfoldable pub is_task_removable : ℕ → Tasks → ℕ → List ℕ → Option Bool
unfolding all_return unfinished
is_task_removable zero tasks task_id to_delete = none
is_task_removable (suc fuel) tasks task_id to_delete =
    let dependants = unfinished tasks (dependents_of (get task_id tasks)) in
    let deeper = all_return (λ id. is_task_removable fuel tasks id to_delete) dependants in
    if is_empty dependants
    then some true
    else if not (all_of (contains to_delete) dependants)
    then some false
    else deeper

unfoldable pub pause_on_failure : Settings → InternalState → String → InternalState
unfolding set_status_for_all_groups
pause_on_failure settings s group =
    if settings.pause_group_on_failure
    then with_groups s (update group (set_group_status GroupStatus.paused) s.groups)
    else if settings.pause_all_on_failure
    then set_status_for_all_groups s GroupStatus.paused
    else s

-- `save`: the state after the attempt, and whether it was written.
unfoldable pub save : Os → InternalState → InternalState × Bool
save os s =
    if os.save_succeeds s.trace
    then (log_effect (saved s.inner) s, true)
    else (log_effect save_failed s, false)
