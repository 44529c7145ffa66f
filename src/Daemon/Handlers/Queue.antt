-- ===== src/Daemon/Handlers/Queue.antt =====
-- message_handler/enqueue.rs and message_handler/stash.rs.
use pueue.Base.{
  ℕ, Bool, true, ◌&&◌, ◌||◌, Option, none, some, [], ◌∷◌, map_values, contains, ◌==◌, nat_ord,
  text_ord, if◌then◌else◌,
}
use pueue.Task.{
  Task, TaskStatus, stashed, queued, is_queued_status, is_stashed_status, is_locked_status,
  is_scheduled_status,
}
use pueue.State.{State, Tasks}
use pueue.Message.{TaskSelection, EnqueueRequest, StashRequest, Response, lit, time}
use pueue.Daemon.Os.{Os}
use pueue.Daemon.Internal.{InternalState, with_tasks}
use pueue.Daemon.Responses.{task_action_response_helper}

abbrev pub is_selected : TaskSelection → ℕ → Task → Bool
is_selected (TaskSelection.task_ids ids) id task = contains ids id
is_selected (TaskSelection.group name) id task = task.group == name
is_selected TaskSelection.all id task = true

-- The loop over the selected tasks whose status passes the test.
unfoldable pub set_selected : TaskSelection → (TaskStatus → Bool) → TaskStatus → Tasks → Tasks
set_selected selection test status = map_values (λ id (task : Task).
    if is_selected selection id task && test task.status
    then record task { status = status }
    else task)

abbrev pub is_enqueuable : TaskStatus → Bool
is_enqueuable status = is_stashed_status status || is_locked_status status

abbrev pub enqueued_status : ℕ → Option ℕ → TaskStatus
enqueued_status now none = queued now
enqueued_status now (some at) = stashed (some at)

abbrev pub was_enqueued : Option ℕ → Task → Bool
was_enqueued none task = is_queued_status task.status
was_enqueued (some at) task = is_scheduled_status task.status

abbrev pub enqueue_response : TaskSelection → Option ℕ → State → Response
enqueue_response (TaskSelection.task_ids ids) (some at) s =
    task_action_response_helper (lit "Stashed tasks will be enqueued at " ∷ time at ∷ []) ids
      (was_enqueued (some at)) s
enqueue_response (TaskSelection.group name) (some at) s =
    Response.success
      (lit "Enqueue stashed tasks of group " ∷ lit name ∷ lit " at " ∷ time at ∷ lit "." ∷ [])
enqueue_response TaskSelection.all (some at) s =
    Response.success (lit "Enqueue all stashed tasks at " ∷ time at ∷ lit "." ∷ [])
enqueue_response (TaskSelection.task_ids ids) none s =
    task_action_response_helper (lit "Stashed tasks have been enqueued" ∷ []) ids
      (was_enqueued none) s
enqueue_response (TaskSelection.group name) none s =
    Response.success
      (lit "All stashed tasks of group \"" ∷ lit name ∷ lit "\" have been enqueued." ∷ [])
enqueue_response TaskSelection.all none s =
    Response.success (lit "All stashed tasks have been enqueued." ∷ [])

unfoldable pub enqueue : Os → InternalState → EnqueueRequest → InternalState × Response
unfolding set_selected
enqueue os s message =
    let status = enqueued_status (os.now s.trace) message.enqueue_at in
    let s' = with_tasks s (set_selected message.tasks is_enqueuable status s.tasks) in
    (s', enqueue_response message.tasks message.enqueue_at s'.inner)

abbrev pub is_stashable : TaskStatus → Bool
is_stashable status = is_queued_status status || is_locked_status status

abbrev pub stash_response : TaskSelection → Option ℕ → State → Response
stash_response (TaskSelection.task_ids ids) (some at) s =
    task_action_response_helper (lit "Stashed tasks will be enqueued at " ∷ time at ∷ []) ids
      (λ task. is_enqueuable task.status) s
stash_response (TaskSelection.group name) (some at) s =
    Response.success
      (lit "Enqueue stashed tasks of group " ∷ lit name ∷ lit " at " ∷ time at ∷ lit "." ∷ [])
stash_response TaskSelection.all (some at) s =
    Response.success (lit "Enqueue all stashed tasks at " ∷ time at ∷ lit "." ∷ [])
stash_response (TaskSelection.task_ids ids) none s =
    task_action_response_helper (lit "Stashed tasks have been enqueued" ∷ []) ids
      (λ task. is_enqueuable task.status) s
stash_response (TaskSelection.group name) none s =
    Response.success
      (lit "All queued tasks of group \"" ∷ lit name ∷ lit "\" have been stashd." ∷ [])
stash_response TaskSelection.all none s =
    Response.success (lit "All queued tasks have been stashed." ∷ [])

unfoldable pub stash : InternalState → StashRequest → InternalState × Response
unfolding set_selected
stash s message =
    let status = stashed message.enqueue_at in
    let s' = with_tasks s (set_selected message.tasks is_stashable status s.tasks) in
    (s', stash_response message.tasks message.enqueue_at s'.inner)
