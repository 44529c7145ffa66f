-- ===== src/Daemon/Responses.antt =====
-- pueue/src/daemon/network/response_helper.rs, and `ok_or_failure_message` of
-- pueue/src/daemon/network/message_handler/mod.rs. The text of an I/O error is left out of a message.
use pueue.Base.{
  ℕ, String, Bool, Option, none, some, List, [], ◌∷◌, ◌++◌, is_empty, keys, contains_key, text_ord,
  if◌then◌else◌,
}
use pueue.Task.{Task}
use pueue.State.{State, FilteredTasks, filter_tasks, Groups}
use pueue.Message.{Response, Text, lit, ids, names}
use pueue.Daemon.Os.{Os}
use pueue.Daemon.Internal.{InternalState, save}

abbrev pub no_group : Groups → String → Response
no_group groups group = Response.failure (
    lit "Group " ∷ lit group ∷ lit " doesn't exists. Use one of these: " ∷ names (keys groups) ∷ [])

-- `some` is the failure response.
unfoldable pub ensure_group_exists : Groups → String → Option Response
ensure_group_exists groups group =
    if contains_key group groups then none else some (no_group groups group)

unfoldable pub compile_task_response : Text → FilteredTasks → Response
compile_task_response message filtered =
    let mismatch = lit "The command failed for tasks: " ∷ ids filtered.non_matching_ids ∷ [] in
    let done = message ++ (lit ": " ∷ ids filtered.matching_ids ∷ []) in
    if is_empty filtered.non_matching_ids
    then Response.success done
    else if is_empty filtered.matching_ids
    then Response.failure mismatch
    else Response.success (done ++ (lit "\n" ∷ mismatch))

unfoldable pub task_action_response_helper : Text → List ℕ → (Task → Bool) → State → Response
unfolding compile_task_response
task_action_response_helper message task_ids filter s =
    compile_task_response message (filter_tasks s filter (some task_ids))

abbrev pub save_failure : Response
save_failure = Response.failure (lit "Failed to save state. This is a bug" ∷ [])

-- `ok_or_save_state_failure!(state.save(settings))`, and the response where it succeeds.
unfoldable pub save_then : Os → InternalState → Response → InternalState × Response
unfolding save
save_then os s response =
    let (s', written) = save os s in (s', if written then response else save_failure)
