-- ===== src/Daemon/Handlers/Add.antt =====
-- message_handler/add.rs.
pub mod Linked
use pueue.Base.{
  ℕ, String, ℤ, pos, Bool, true, false, not, ◌||◌, Option, none, some, List, [], ◌∷◌, is_some,
  is_empty, get, contains_key, keep, ltb, sort_by, ◌==◌, nat_ord, text_ord, if◌then◌else◌,
}
use pueue.Task.{Task, TaskStatus, queued, stashed}
use pueue.Task
use pueue.State.{Group, GroupStatus, Tasks}
use pueue.Message.{AddRequest, Response, TaskSelection, lit, ids}
use pueue.Daemon.Os.{Os, Settings, Outcome, finished, panicked, ◌>>=◌}
use pueue.Daemon.Internal.{InternalState, with_tasks, add_task, save}
use pueue.Daemon.Links.{add_links}
use pueue.Daemon.Process.Start.{start}
use pueue.Daemon.Responses.{ensure_group_exists, save_failure}
use pueue.Daemon.TaskHandler.{is_paused_group}

-- `dedup` of a sorted vector.
unfoldable pub dedup_after : ℕ → List ℕ → List ℕ
dedup_after x [] = []
dedup_after x (y ∷ ys) = let rest = dedup_after y ys in if x == y then rest else y ∷ rest

unfoldable pub dedup : List ℕ → List ℕ
unfolding dedup_after
dedup [] = []
dedup (x ∷ xs) = x ∷ dedup_after x xs

abbrev pub missing_ids : Tasks → List ℕ → List ℕ
missing_ids tasks = keep (λ id. not (contains_key id tasks))

abbrev pub start_status : ℕ → AddRequest → TaskStatus
start_status now message =
    if message.stashed || is_some message.enqueue_at then stashed message.enqueue_at else queued now

abbrev pub priority_or_zero : Option ℤ → ℤ
priority_or_zero none = pos 0
priority_or_zero (some priority) = priority

-- The task before it has an id.
unfoldable pub build_task : Os → ℕ → AddRequest → Task
unfolding dedup sort_by
build_task os now message =
    record (Task.new now message.command message.path message.envs message.group
      (start_status now message) (dedup (sort_by ltb message.dependencies))
      (priority_or_zero message.priority) message.label) {
        command = os.insert_alias message.command;
      }

-- The state with the new task and its links.
unfoldable pub insert_task : InternalState → Task → InternalState × ℕ
unfolding add_task add_links
insert_task s task =
    let (s', task_id) = add_task s task in
    (with_tasks s' (add_links task_id task.dependencies s'.tasks), task_id)

abbrev pub added : InternalState → AddRequest → ℕ → Response
added s message task_id = Response.added_task (record {
  task_id = task_id;
  enqueue_at = message.enqueue_at;
  group_is_paused = is_paused_group (get message.group s.groups);
})

unfoldable pub add_and_start :
    Os → Settings → InternalState → AddRequest → Outcome (InternalState × Response)
unfolding build_task insert_task save start
add_and_start os settings s message =
    let (s1, task_id) = insert_task s (build_task os (os.now s.trace) message) in
    let (s2, written) = save os s1 in
    if not written
    then finished (s2, save_failure)
    else if message.start_immediately
    then (start os settings s2 (TaskSelection.task_ids (task_id ∷ [])) >>= λ s3.
        finished (s3, added s message task_id))
    else finished (s2, added s message task_id)

unfoldable pub add : Os → Settings → InternalState → AddRequest → Outcome (InternalState × Response)
unfolding ensure_group_exists add_and_start
add os settings s message = elim (ensure_group_exists s.groups message.group) [
  | some response ↦ finished (s, response)
  | none ↦
      let not_found = missing_ids s.tasks message.dependencies in
      if is_empty not_found
      then add_and_start os settings s message
      else finished (
        s,
        Response.failure (
            lit "Unable to setup dependencies : task(s) ["
            ∷ ids not_found
            ∷ lit "] not found"
            ∷ []),
      )
]
