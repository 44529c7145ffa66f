-- ===== src/Client/Archive.antt =====
-- pueue/src/client/commands/archive.rs.
pub mod Removable
use pueue.Base.{
  ℕ, zero, suc, String, Bool, true, false, not, ◌&&◌, ◌||◌, Option, none, some, List, [], ◌∷◌, ◌++◌,
  OrdMap, keys, values, get, insert, remove, contains_key, keep, any_of, contains, is_empty, length,
  nat_ord, text_ord, Result, ok, err, stuck, if◌then◌else◌,
}
use pueue.Base.Results.{◌>>=◌}
use pueue.Task.{
  Task, is_done, is_queued_status, is_stashed_status, is_done_status, is_locked_status,
}
use pueue.State.{State, Tasks, FilteredTasks, filter_tasks}
use pueue.Message.{AddRequest, Request, Response, GroupRequest, Text, AddedTaskResponse}
use pueue.Client.Query.Selection.{archive_group}

abbrev pub is_removable_status : Task → Bool
is_removable_status task =
    is_queued_status task.status
    || (is_stashed_status task.status
        || (is_done_status task.status || is_locked_status task.status))

abbrev pub blocks : ℕ → List ℕ → Task → Bool
blocks task_id targets task =
    contains task.dependencies task_id && (not (is_done task) && not (contains targets task.id))

unfoldable pub has_blocking_dependant : ℕ → Tasks → List ℕ → Bool
has_blocking_dependant task_id tasks targets = any_of (blocks task_id targets) (values tasks)

-- The entries of the ids that exist, as a map.
unfoldable pub collect_tasks : Tasks → List ℕ → Tasks
collect_tasks tasks [] = []
collect_tasks tasks (id ∷ ids) =
    let rest = collect_tasks tasks ids in
    elim (get id tasks) [ none ↦ rest | some task ↦ insert id task rest ]

-- The tasks of a suitable status, and the ids of the others.
unfoldable pub split_by_status : Tasks → Tasks × List ℕ
split_by_status [] = ([], [])
split_by_status ((id, task) ∷ m) =
    let (status_ok, blocked_ids) = split_by_status m in
    if is_removable_status task
    then ((id, task) ∷ status_ok, blocked_ids)
    else (status_ok, id ∷ blocked_ids)

unfoldable pub remove_each : List ℕ → Tasks × List ℕ → Tasks × List ℕ
remove_each [] (archivable, blocked_ids) = (archivable, blocked_ids)
remove_each (id ∷ ids) (archivable, blocked_ids) =
    if contains_key id archivable
    then remove_each ids (remove id archivable, blocked_ids ++ (id ∷ []))
    else remove_each ids (archivable, blocked_ids)

abbrev pub to_remove : Tasks → Tasks → List ℕ
to_remove tasks archivable =
    keep (λ id. has_blocking_dependant id tasks (keys archivable)) (keys archivable)

-- The loop that takes out what others still need, with fuel for its rounds.
unfoldable pub drop_blocked : ℕ → Tasks → Tasks × List ℕ → Option (Tasks × List ℕ)
unfolding has_blocking_dependant remove_each
drop_blocked zero tasks (archivable, blocked_ids) = none
drop_blocked (suc fuel) tasks (archivable, blocked_ids) =
    let ids = to_remove tasks archivable in
    let rest = drop_blocked fuel tasks (remove_each ids (archivable, blocked_ids)) in
    if is_empty ids then some (archivable, blocked_ids) else rest

unfoldable pub status_ok_of : State → List ℕ → Tasks × List ℕ
unfolding collect_tasks split_by_status
status_ok_of state task_ids =
    let filtered = filter_tasks state (λ task. true) (some task_ids) in
    split_by_status (collect_tasks state.tasks filtered.matching_ids)

-- The tasks to archive, and the ids that are skipped.
unfoldable pub archivable_tasks : State → List ℕ → Option (Tasks × List ℕ)
unfolding status_ok_of drop_blocked
archivable_tasks state task_ids =
    let (status_ok, blocked_ids) = status_ok_of state task_ids in
    drop_blocked (suc (length status_ok)) state.tasks (status_ok, blocked_ids)

-- The errors, and the end of the program where the user does not confirm.
pub data ArchiveError : Type 0 where
  not_found : List ℕ → ArchiveError
  all_skipped : List ℕ → ArchiveError
  refused : Text → ArchiveError
  unexpected : Response → ArchiveError
  aborted : ArchiveError

abbrev pub archive_request : Task → AddRequest
archive_request task = record {
  command = task.original_command;
  path = task.path;
  envs = task.envs;
  start_immediately = false;
  stashed = true;
  group = archive_group;
  enqueue_at = none;
  dependencies = [];
  priority = some task.priority;
  label = task.label;
}

-- The daemon as the client sees it: a state that a request changes, and a response.
module _ {S : Type 0} (serve : Request → S → S × Response) where
  abbrev pub group_answer : S × Response → Result ArchiveError S
  group_answer (s, Response.success text) = ok s
  group_answer (s, Response.group groups) = ok s
  group_answer (s, Response.failure text) = err (refused text)
  group_answer (s, other) = err (unexpected other)

  unfoldable pub ensure_group : State → S → Result ArchiveError S
  ensure_group state s =
      if contains_key archive_group state.groups
      then ok s
      else group_answer (serve (Request.group (GroupRequest.add archive_group none)) s)

  abbrev pub add_answer : S × Response → Result ArchiveError S
  add_answer (s, Response.added_task response) = ok s
  add_answer (s, Response.failure text) = err (refused text)
  add_answer (s, other) = err (unexpected other)

  -- The copies, one request each.
  unfoldable pub add_copies : List Task → S → Result ArchiveError S
  add_copies [] s = ok s
  add_copies (task ∷ tasks) s = do
    s' ← add_answer (serve (Request.add (archive_request task)) s)
    add_copies tasks s'

  abbrev pub ids_of : List Task → List ℕ
  ids_of [] = []
  ids_of (task ∷ tasks) = task.id ∷ ids_of tasks

  -- The removal of the originals, for which the user is asked once more.
  abbrev pub remove_originals : Bool → List Task → S → Result ArchiveError (S × Response)
  remove_originals confirmed tasks s =
      if confirmed then ok (serve (Request.remove (ids_of tasks)) s) else err aborted

  abbrev pub archive_found :
      (confirmed confirmed_removal : Bool)
      → State
      → List Task
      → S
      → Result ArchiveError (S × Response)
  unfolding ensure_group add_copies
  archive_found confirmed confirmed_removal state tasks s = do
    grouped ← (if confirmed then ensure_group state s else err aborted)
    copied ← add_copies tasks grouped
    remove_originals confirmed_removal tasks copied

  abbrev pub none_found : List ℕ → List ℕ → ArchiveError
  none_found missing blocked_ids =
      if is_empty missing then all_skipped blocked_ids else not_found missing

  -- `archive` with ids, from the state that the daemon has answered: the response to the removal of
  -- the originals, or what ended the command before. The Booleans are the answers of the user, true
  -- where none is asked for.
  unfoldable pub archive :
      (confirmed confirmed_removal : Bool) → State → List ℕ → S → Result ArchiveError (S × Response)
  unfolding archivable_tasks
  archive confirmed confirmed_removal state task_ids s =
      let missing = (filter_tasks state (λ task. true) (some task_ids)).non_matching_ids in
      elim (archivable_tasks state task_ids) [
        | none ↦ stuck
        | some ([], blocked_ids) ↦ err (none_found missing blocked_ids)
        | some (entry ∷ entries, blocked_ids) ↦
            archive_found confirmed confirmed_removal state (values (entry ∷ entries)) s
      ]
