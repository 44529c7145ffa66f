-- ===== src/Client/Copies.antt =====
-- pueue/src/client/commands/restart.rs and copy.rs: new tasks from tasks of the daemon.
use pueue.Base.{
  ℕ, zero, suc, String, Bool, true, false, not, ◌&&◌, ◌||◌, Option, none, some, List, [], ◌∷◌, ◌++◌,
  values, get, insert, update, keep, contains_key, is_some, is_empty, ◌==◌, nat_ord, text_ord,
  Result, ok, err, or_err, if◌then◌else◌,
}
use pueue.Base.Results.{◌>>=◌}
use pueue.Task.{Task, is_done, is_successful_status}
use pueue.State.{State, Tasks, FilteredTasks, filter_tasks, filter_tasks_of_group}
use pueue.Message.{Request, Response, TaskToRestart, EditableTask, editable, into_task, Text}

-- The errors. An edit can fail in the editor or hand back an id that it was not given.
pub data CopyError : Type 0 where
  no_ids zero_count edit_failed : CopyError
  unexpected_id : ℕ → CopyError
  refused : Text → CopyError
  unexpected_response : CopyError

-- What the user's editor makes of the tasks; nothing if it fails.
abbrev pub Editor : Type 0
Editor = List EditableTask → Option (List EditableTask)

-- The entries of ids that exist.
unfoldable pub tasks_of : Tasks → List ℕ → Tasks
tasks_of tasks [] = []
tasks_of tasks (id ∷ ids) =
    let rest = tasks_of tasks ids in
    elim (get id tasks) [ none ↦ rest | some task ↦ insert id task rest ]

abbrev pub editable_each : List Task → List EditableTask
editable_each [] = []
editable_each (task ∷ tasks) = editable task ∷ editable_each tasks

-- The edited properties, back in the tasks.
unfoldable pub merge_edited : List EditableTask → Tasks → Result CopyError Tasks
unfolding into_task
merge_edited [] tasks = ok tasks
merge_edited (edited ∷ rest) tasks =
    let merged = merge_edited rest (update edited.id (into_task edited) tasks) in
    if contains_key edited.id tasks then merged else err (unexpected_id edited.id)

unfoldable pub edit_each : Option Editor → Tasks → Result CopyError Tasks
unfolding merge_edited
edit_each none tasks = ok tasks
edit_each (some editor) tasks = do
  edited ← or_err edit_failed (editor (editable_each (values tasks)))
  merge_edited edited tasks

abbrev pub is_unsuccessful : Tasks → ℕ → Bool
is_unsuccessful tasks id = elim (get id tasks) [
  | none ↦ false
  | some task ↦ not (is_successful_status task.status)
]

abbrev pub done_tasks : State → Option String → FilteredTasks
done_tasks state (some group) = filter_tasks_of_group state is_done group
done_tasks state none = filter_tasks state is_done none

-- The tasks that `restart` is about.
unfoldable pub to_restart :
    State
    → List ℕ
    → (all_failed : Bool) → (failed_in_group : Option String) → Result CopyError FilteredTasks
to_restart state task_ids all_failed failed_in_group =
    if all_failed || is_some failed_in_group
    then ok (record {
      matching_ids =
          keep (is_unsuccessful state.tasks) (done_tasks state failed_in_group).matching_ids;
      non_matching_ids = [];
    })
    else if is_empty task_ids
    then err no_ids
    else ok (filter_tasks state is_done (some task_ids))

abbrev pub task_to_restart : Task → TaskToRestart
task_to_restart task = record {
  task_id = task.id;
  original_command = task.original_command;
  path = task.path;
  label = task.label;
  priority = task.priority;
}

abbrev pub restart_each : List Task → List TaskToRestart
restart_each [] = []
restart_each (task ∷ tasks) = task_to_restart task ∷ restart_each tasks

-- The request for a new task like this one.
abbrev pub add_like : (start_immediately stashed : Bool) → String → Task → Request
add_like start_immediately is_stashed group task = Request.add (record {
  command = task.original_command;
  path = task.path;
  envs = task.envs;
  start_immediately = start_immediately;
  stashed = is_stashed;
  group = group;
  enqueue_at = none;
  dependencies = [];
  priority = some task.priority;
  label = task.label;
})

unfoldable pub add_each : (start_immediately stashed : Bool) → List Task → List Request
add_each start_immediately is_stashed [] = []
add_each start_immediately is_stashed (task ∷ tasks) =
    add_like start_immediately is_stashed task.group task
    ∷ add_each start_immediately is_stashed tasks

abbrev pub replaces : (restart_in_place in_place not_in_place : Bool) → Bool
replaces restart_in_place in_place not_in_place = (restart_in_place || in_place) && not not_in_place

-- The requests of `restart`; in place, one for all tasks. Each is sent after the answer to the one
-- before, and a failure ends the command.
unfoldable pub restart :
    (restart_in_place : Bool)
    → State
    → List ℕ
    → (all_failed : Bool) → (failed_in_group : Option String)
    → (start_immediately stashed in_place not_in_place : Bool) → Option Editor
    → Result CopyError (List Request)
unfolding tasks_of edit_each to_restart add_each
restart restart_in_place state task_ids all_failed failed_in_group start_immediately is_stashed
      in_place not_in_place editor =
    do
      filtered ← to_restart state task_ids all_failed failed_in_group
      tasks ← edit_each editor (tasks_of state.tasks filtered.matching_ids)
      ok (
          if replaces restart_in_place in_place not_in_place
          then Request.restart (record {
            tasks = restart_each (values tasks);
            start_immediately = start_immediately;
            stashed = is_stashed;
          })
            ∷ []
          else add_each start_immediately is_stashed (values tasks))

abbrev pub group_or_own : Option String → Task → String
group_or_own none task = task.group
group_or_own (some group) task = group

unfoldable pub repeat : ℕ → Request → List Request
repeat zero request = []
repeat (suc count) request = request ∷ repeat count request

unfoldable pub copy_each :
    (start_immediately enqueue : Bool) → Option String → ℕ → List Task → List Request
unfolding repeat
copy_each start_immediately enqueue group count [] = []
copy_each start_immediately enqueue group count (task ∷ tasks) =
    repeat count (add_like start_immediately (not enqueue) (group_or_own group task) task)
    ++ copy_each start_immediately enqueue group count tasks

-- The requests of `copy`.
unfoldable pub copy :
    State
    → List ℕ
    → (start_immediately enqueue : Bool) → Option String
    → Option Editor
    → ℕ
    → Result CopyError (List Request)
unfolding tasks_of edit_each copy_each
copy state task_ids start_immediately enqueue group editor count =
    let requests : Result CopyError (List Request) = (do
      tasks ←
          edit_each editor
            (tasks_of state.tasks (filter_tasks state (λ task. true) (some task_ids)).matching_ids)
      ok (copy_each start_immediately enqueue group count (values tasks))) in
    if is_empty task_ids then err no_ids else if count == 0 then err zero_count else requests

-- The requests one after the other, to a daemon that is a function of the requests. A restart goes
-- on after any answer that is no failure, a copy only after that of an added task.
module _ {S : Type 0} (serve : Request → S → S × Response) where
  abbrev pub restart_answer : S × Response → Result CopyError S
  restart_answer (s, Response.failure text) = err (refused text)
  restart_answer (s, other) = ok s

  abbrev pub copy_answer : S × Response → Result CopyError S
  copy_answer (s, Response.added_task response) = ok s
  copy_answer (s, Response.failure text) = err (refused text)
  copy_answer (s, other) = err unexpected_response

  unfoldable pub send_each :
      (S × Response → Result CopyError S) → List Request → S → Result CopyError S
  send_each answer [] s = ok s
  send_each answer (request ∷ requests) s = do
    s' ← answer (serve request s)
    send_each answer requests s'
