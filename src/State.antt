-- ===== src/State.antt =====
-- pueue_lib/src/state.rs: the tasks and groups, and the filters that the handlers select tasks by.
pub mod Filter
use pueue.Base.{
  ℕ, suc, ◌+◌, String, ◌==◌, nat_ord, text_ord, ◌≡◌, Bool, true, false, not, Option, none, some,
  List, [], ◌∷◌, OrdMap, keys, last_key, get, contains_key, insert, update, map_values,
  if◌then◌else◌,
}
use pueue.Task.{Task}

abbrev pub pueue_default_group : String
pueue_default_group = "default"

pub data GroupStatus : Type 0 where
  running paused reset : GroupStatus

pub record Group : Type 0 where
  pub status : GroupStatus
  pub parallel_tasks : ℕ

abbrev pub Tasks : Type 0
Tasks = OrdMap ℕ Task

abbrev pub Groups : Type 0
Groups = OrdMap String Group

pub record State : Type 0 where
  pub tasks : Tasks
  pub groups : Groups

abbrev pub new : State
new = record { tasks = []; groups = [] }

-- `keys().max()` of the sorted keys is the last one.
abbrev pub next_id : Option ℕ → ℕ
next_id none = 0
next_id (some id) = id + 1

unfoldable pub add_task : State → Task → State × ℕ
add_task s task =
    let id = next_id (last_key s.tasks) in
    (record s { tasks = insert id (record task { id = id }) s.tasks }, id)

pub record FilteredTasks : Type 0 where
  pub matching_ids : List ℕ
  pub non_matching_ids : List ℕ

-- The ids of the entries in a group, in the order of the map.
unfoldable pub ids_in_group : String → Tasks → List ℕ
ids_in_group group [] = []
ids_in_group group ((id, task) ∷ m) =
    let rest = ids_in_group group m in if task.group == group then id ∷ rest else rest

unfoldable pub task_ids_in_group : State → String → List ℕ
unfolding ids_in_group
task_ids_in_group s group = ids_in_group group s.tasks

-- A missing task matches no condition.
abbrev pub matches : (Task → Bool) → Option Task → Bool
matches condition none = false
matches condition (some task) = condition task

-- The loop of `filter_task_ids`, which pushes each id on one of the two lists.
unfoldable pub filter_task_ids : State → (Task → Bool) → List ℕ → FilteredTasks
filter_task_ids s condition [] = record { matching_ids = []; non_matching_ids = [] }
filter_task_ids s condition (id ∷ ids) =
    let rest = filter_task_ids s condition ids in
    if matches condition (get id s.tasks)
    then record rest { matching_ids = id ∷ rest.matching_ids }
    else record rest { non_matching_ids = id ∷ rest.non_matching_ids }

abbrev pub selected_ids : State → Option (List ℕ) → List ℕ
selected_ids s (some ids) = ids
selected_ids s none = keys s.tasks

unfoldable pub filter_tasks : State → (Task → Bool) → Option (List ℕ) → FilteredTasks
unfolding filter_task_ids
filter_tasks s condition task_ids = filter_task_ids s condition (selected_ids s task_ids)

unfoldable pub filter_tasks_of_group : State → (Task → Bool) → String → FilteredTasks
unfolding filter_task_ids ids_in_group
filter_tasks_of_group s condition group =
    if contains_key group s.groups
    then filter_task_ids s condition (ids_in_group group s.tasks)
    else record { matching_ids = []; non_matching_ids = [] }
