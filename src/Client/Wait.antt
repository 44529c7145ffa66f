-- ===== src/Client/Wait.antt =====
-- pueue/src/client/commands/wait.rs. The log lines have no model. A state of the daemon that the client looks at is an argument of each round.
pub mod Covered
pub mod Settled
use pueue.Base.{
  ℕ, String, Bool, true, false, not, ◌&&◌, ◌||◌, Option, none, some, List, [], ◌∷◌, OrdMap, keys,
  values, get, insert, remove, keep, contains, is_empty, ◌==◌, nat_ord, text_ord, if◌then◌else◌,
}
use pueue.Task.{
  Task, TaskStatus, is_queued_status, is_running_status, is_done_status, is_successful_status,
  has_failed,
}
use pueue.State.{State, Tasks}
use pueue.Message.{TaskSelection}

pub data WaitTargetStatus : Type 0 where
  done success queued running : WaitTargetStatus

abbrev pub reached_target_status : Task → WaitTargetStatus → Bool
reached_target_status task WaitTargetStatus.queued =
    is_queued_status task.status || (is_running_status task.status || is_done_status task.status)
reached_target_status task WaitTargetStatus.running =
    is_running_status task.status || is_done_status task.status
reached_target_status task WaitTargetStatus.done = is_done_status task.status
reached_target_status task WaitTargetStatus.success = is_successful_status task.status

unfoldable pub tasks_of_ids : List ℕ → Tasks → List Task
tasks_of_ids task_ids [] = []
tasks_of_ids task_ids ((id, task) ∷ m) =
    let rest = tasks_of_ids task_ids m in if contains task_ids id then task ∷ rest else rest

unfoldable pub get_tasks : State → TaskSelection → List Task
unfolding tasks_of_ids
get_tasks state TaskSelection.all = values state.tasks
get_tasks state (TaskSelection.task_ids task_ids) = tasks_of_ids task_ids state.tasks
get_tasks state (TaskSelection.group group) =
    keep (λ task. task.group == group) (values state.tasks)

-- A `HashMap` and a `HashSet`, of which only the contents matter.
pub record Waiting : Type 0 where
  pub watched_tasks : OrdMap ℕ TaskStatus
  pub finished_tasks : List ℕ

-- The first loop. A status that has not changed is written once more, which changes nothing.
abbrev pub watch : Task → Waiting → Waiting
watch task w = record w { watched_tasks = insert task.id task.status w.watched_tasks }

abbrev pub look_at : Task → Waiting → Waiting
look_at task w = elim (get task.id w.watched_tasks) [
  | none ↦ if contains w.finished_tasks task.id then w else watch task w
  | some previous_status ↦ watch task w
]

unfoldable pub look_at_each : List Task → Waiting → Waiting
look_at_each [] w = w
look_at_each (task ∷ tasks) w = look_at_each tasks (look_at task w)

unfoldable pub find_task : ℕ → List Task → Option Task
find_task id [] = none
find_task id (task ∷ tasks) =
    let rest = find_task id tasks in if task.id == id then some task else rest

abbrev pub waits_for_success : WaitTargetStatus → Bool
waits_for_success WaitTargetStatus.success = true
waits_for_success _ = false

abbrev pub forget : ℕ → Waiting → Waiting
forget id w = record w { watched_tasks = remove id w.watched_tasks }

abbrev pub finish : ℕ → Waiting → Waiting
finish id w = record {
  watched_tasks = remove id w.watched_tasks;
  finished_tasks = id ∷ w.finished_tasks;
}

-- The second loop; `none` is the exit with the code 1.
abbrev pub check_task : WaitTargetStatus → ℕ → Option Task → Waiting → Option Waiting
check_task target id none w = some (forget id w)
check_task target id (some task) w =
    let w' = if reached_target_status task target then finish id w else w in
    if waits_for_success target && has_failed task then none else some w'

unfoldable pub check_each : WaitTargetStatus → List Task → List ℕ → Waiting → Option Waiting
unfolding find_task
check_each target tasks [] w = some w
check_each target tasks (id ∷ ids) w = elim (check_task target id (find_task id tasks) w) [
  | none ↦ none
  | some w' ↦ check_each target tasks ids w'
]

pub data Ended : Type 0 where
  all_reached no_tasks exit_1 : Ended

pub data Round : Type 0 where
  ended : Ended → Round
  goes_on : Waiting → Round

abbrev pub after_checks : Option Waiting → Round
after_checks none = ended exit_1
after_checks (some w) = if is_empty (keys w.watched_tasks) then ended all_reached else goes_on w

unfoldable pub round : WaitTargetStatus → TaskSelection → State → Waiting → Round
unfolding look_at_each check_each
round target selection state w =
    let tasks = get_tasks state selection in
    let looked = look_at_each tasks w in
    if is_empty tasks
    then ended no_tasks
    else after_checks (check_each target tasks (keys looked.watched_tasks) looked)

-- The loop over the states that the client gets one after the other: how it ends, and the states
-- that it no longer asks for; nothing if it still waits after the last one.
unfoldable pub rounds :
    WaitTargetStatus → TaskSelection → List State → Waiting → Option (Ended × List State)
unfolding round
rounds target selection [] w = none
rounds target selection (state ∷ states) w = elim (round target selection state w) [
  | ended how ↦ some (how, states)
  | goes_on w' ↦ rounds target selection states w'
]

unfoldable pub wait :
    Option WaitTargetStatus → TaskSelection → List State → Option (Ended × List State)
unfolding rounds
wait none selection states =
    rounds WaitTargetStatus.done selection states
      (record { watched_tasks = []; finished_tasks = [] })
wait (some target) selection states =
    rounds target selection states (record { watched_tasks = []; finished_tasks = [] })
