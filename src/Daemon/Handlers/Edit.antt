-- ===== src/Daemon/Handlers/Edit.antt =====
-- message_handler/edit.rs.
pub mod Circles
pub mod Locks
use pueue.Base.{
  ℕ, zero, suc, ◌+◌, String, Bool, true, false, not, ◌&&◌, ◌||◌, Option, none, some, List, [], ◌∷◌,
  ◌++◌, get, update, contains, contains_key, is_empty, keep, length, ◌==◌, nat_ord, if◌then◌else◌,
}
use pueue.Task.{Task, TaskStatus, locked, is_queued, is_stashed, is_locked_status}
use pueue.State.{Tasks}
use pueue.Message.{EditableTask, editable, Response, Text, Piece, lit, num, ids}
use pueue.Daemon.Os.{Os, Outcome, finished, panicked, ◌>>=◌}
use pueue.Daemon.Internal.{InternalState, with_tasks, change_status}
use pueue.Daemon.Links.{drop_links, add_links, dependencies_of}
use pueue.Daemon.Responses.{save_then}

-- What the search has visited, and the path to where it stands.
pub record Search : Type 0 where
  pub visited : List ℕ
  pub path : List ℕ

-- `path.pop()`.
unfoldable pub pop : List ℕ → List ℕ
pop [] = []
pop (x ∷ []) = []
pop (x ∷ y ∷ ys) = x ∷ pop (y ∷ ys)

-- The loop over dependencies, for the search from one of them.
unfoldable pub search_each :
    (ℕ → Search → Option (Bool × Search)) → List ℕ → Search → Option (Bool × Search)
search_each from [] st = some (false, st)
search_each from (dep_id ∷ deps) st = elim (from dep_id st) [
  | none ↦ none
  | some (true, st') ↦ some (true, st')
  | some (false, st') ↦ search_each from deps st'
]

abbrev pub leave : Option (Bool × Search) → Option (Bool × Search)
leave (some (false, st)) = some (false, record st { path = pop st.path })
leave other = other

-- `dfs`, with fuel for its depth: `none` is a deeper recursion.
unfoldable pub dfs : ℕ → Tasks → ℕ → ℕ → Search → Option (Bool × Search)
unfolding search_each pop
dfs zero tasks current_id target_id st = none
dfs (suc fuel) tasks current_id target_id st =
    let inside : Search = record {
      visited = current_id ∷ st.visited;
      path = st.path ++ current_id ∷ [];
    } in
    let deeper = leave (
      search_each (λ id st'. dfs fuel tasks id target_id st')
        (dependencies_of (get current_id tasks)) inside) in
    if current_id == target_id && not (is_empty st.path)
    then some (true, st)
    else if contains st.visited current_id
    then some (false, st)
    else deeper

abbrev pub dfs_fuel : Tasks → ℕ
dfs_fuel tasks = length tasks + 2

-- `none` is a search that does not end, and `some []` stands for `Ok(())`.
unfoldable pub check_circular_dependency : Tasks → ℕ → List ℕ → Option (List ℕ)
unfolding dfs
check_circular_dependency tasks task_id [] = some []
check_circular_dependency tasks task_id (dep_id ∷ deps) =
    let rest = check_circular_dependency tasks task_id deps in
    elim (dfs (dfs_fuel tasks) tasks dep_id task_id (record { visited = []; path = [] })) [
      | none ↦ none
      | some (true, st) ↦ some (st.path ++ task_id ∷ [])
      | some (false, _) ↦ rest
    ]

unfoldable pub edit_request_loop :
    InternalState → List ℕ → List EditableTask → InternalState × Response
unfolding change_status
edit_request_loop s [] editables = (s, Response.edit editables)
edit_request_loop s (task_id ∷ task_ids) editables = elim (get task_id s.tasks) [
  | none ↦ (s, Response.failure (lit "No task with this id." ∷ []))
  | some task ↦
      if not (is_queued task) && not (is_stashed task)
      then (s, Response.failure (lit "You can only edit a queued/stashed task" ∷ []))
      else edit_request_loop (change_status s task_id (locked task.status)) task_ids
          (editables ++ editable task ∷ [])
]

unfoldable pub edit_request : InternalState → List ℕ → InternalState × Response
unfolding edit_request_loop
edit_request s task_ids = edit_request_loop s task_ids []

abbrev pub no_longer_locked : ℕ → Response
no_longer_locked id = Response.failure (lit "Task " ∷ num id ∷ lit " is no longer locked." ∷ [])

-- The validation of one edited task: a failure response, or `none`. It panics where the search for
-- a circle does not end.
unfoldable pub validate_edit : Tasks → EditableTask → Outcome (Option Response)
unfolding check_circular_dependency
validate_edit tasks e = elim (get e.id tasks) [
  | none ↦ finished (some (Response.failure (lit "Task to edit has gone away: " ∷ num e.id ∷ [])))
  | some task ↦
      let not_found = keep (λ id. not (contains_key id tasks)) e.dependencies in
      let circular : Outcome (Option Response) =
        elim (check_circular_dependency tasks e.id e.dependencies) [
          | none ↦ panicked
          | some [] ↦ finished none
          | some (x ∷ path) ↦ finished (
              some (
                Response.failure (
                  lit "Circular dependency detected: task "
                  ∷ num e.id
                  ∷ lit " -> ["
                  ∷ ids (x ∷ path)
                  ∷ lit "]"
                  ∷ [])))
        ] in
      if not (is_locked_status task.status)
      then finished (some (no_longer_locked e.id))
      else if not (is_empty not_found)
      then finished (
          some (
            Response.failure (
              lit "Task "
              ∷ num e.id
              ∷ lit " has invalid dependencies: task(s) ["
              ∷ ids not_found
              ∷ lit "] not found"
              ∷ [])))
      else if contains e.dependencies e.id
      then finished
          (some (Response.failure (lit "Task " ∷ num e.id ∷ lit " cannot depend on itself" ∷ [])))
      else circular
]

unfoldable pub validate_all : Tasks → List EditableTask → Outcome (Option Response)
unfolding validate_edit
validate_all tasks [] = finished none
validate_all tasks (e ∷ es) = elim (validate_edit tasks e) [
  | panicked ↦ panicked
  | finished (some response) ↦ finished (some response)
  | finished none ↦ validate_all tasks es
]

-- The ids of the first list that the second lacks.
abbrev pub lacking : List ℕ → List ℕ → List ℕ
lacking xs ys = keep (λ id. not (contains ys id)) xs

abbrev pub edited : Os → EditableTask → TaskStatus → Task → Task
edited os e status task = record task {
  status = status;
  original_command = e.original_command;
  command = os.insert_alias e.original_command;
  path = e.path;
  label = e.label;
  priority = e.priority;
  dependencies = e.dependencies;
}

-- The update of a locked task, and of the links of its old and new dependencies.
unfoldable pub apply_edit : Os → EditableTask → TaskStatus → List ℕ → Tasks → Tasks
unfolding drop_links add_links
apply_edit os e status old_dependencies tasks =
    add_links e.id (lacking e.dependencies old_dependencies) (
      drop_links e.id (lacking old_dependencies e.dependencies)
        (update e.id (edited os e status) tasks))

unfoldable pub apply_edits :
    Os → InternalState → List EditableTask → InternalState × Option Response
unfolding apply_edit
apply_edits os s [] = (s, none)
apply_edits os s (e ∷ es) = elim (get e.id s.tasks) [
  | none ↦ apply_edits os s es
  | some task ↦ elim task.status [
    | locked status ↦
        apply_edits os (with_tasks s (apply_edit os e status task.dependencies s.tasks)) es
    | _ ↦ (s, some (no_longer_locked e.id))
  ]
]

unfoldable pub edit : Os → InternalState → List EditableTask → Outcome (InternalState × Response)
unfolding validate_all apply_edits save_then
edit os s editables = validate_all s.tasks editables >>= elim [
  | some response ↦ finished (s, response)
  | none ↦
      let (s', refused) = apply_edits os s editables in
      finished (elim refused [
        | some response ↦ (s', response)
        | none ↦ save_then os s' (Response.success (lit "All tasks have been updated" ∷ []))
      ])
]

-- The loop of `edit_restore`: the state, and the complaints joined by line breaks.
unfoldable pub edit_restore_loop : InternalState → List ℕ → Text → InternalState × Text
unfolding change_status
edit_restore_loop s [] complaints = (s, complaints)
edit_restore_loop s (task_id ∷ task_ids) complaints = elim (get task_id s.tasks) [
  | none ↦
      edit_restore_loop s task_ids
        (complaints ++ (lit "\nNo task with id " ∷ num task_id ∷ lit "! Cannot be unlocked." ∷ []))
  | some task ↦ elim task.status [
    | locked status ↦ edit_restore_loop (change_status s task_id status) task_ids complaints
    | _ ↦
        edit_restore_loop s task_ids (
          complaints
          ++ (lit "\nTask " ∷ num task_id ∷ lit " isn't locked! Cannot be unlocked" ∷ []))
  ]
]

abbrev pub restored_response : List ℕ → Text → Response
restored_response task_ids [] = Response.success (
    lit "The requested task ids have been restored their previous state: ["
    ∷ ids task_ids
    ∷ lit "]"
    ∷ [])
restored_response task_ids (piece ∷ text) =
    Response.failure (lit "Some tasks couldn't be unlocked:" ∷ piece ∷ text)

unfoldable pub edit_restore : InternalState → List ℕ → InternalState × Response
unfolding edit_restore_loop
edit_restore s task_ids =
    let (s', complaints) = edit_restore_loop s task_ids [] in
    (s', restored_response task_ids complaints)
