-- ===== src/Daemon/Handlers/Control.antt =====
-- message_handler/kill.rs, pause.rs, start.rs, restart.rs and env.rs.
pub mod Pausing
pub mod Forcing
use pueue.Base.{
  ℕ, String, Bool, true, false, not, ◌||◌, Option, none, some, List, [], ◌∷◌, map, get, update,
  insert, remove, contains_key, is_some, nat_ord, text_ord, if◌then◌else◌,
}
use pueue.Task.{
  Task, TaskStatus, stashed, queued, is_running, is_done, is_queued, is_stashed, is_running_status,
  is_paused_status, is_queued_status, is_stashed_status,
}
use pueue.State.{State, Groups}
use pueue.Message.{
  KillRequest, PauseRequest, StartRequest, RestartRequest, TaskToRestart, EnvRequest, TaskSelection,
  Signal, Response, Text, Piece, lit, num,
}
use pueue.Daemon.Os.{Os, Settings, Outcome, finished, ◌>>=◌, for_all}
use pueue.Daemon.Internal.{InternalState, with_tasks}
use pueue.Daemon.Process.Kill.{kill}
use pueue.Daemon.Process.Pause.{pause}
use pueue.Daemon.Process.Start.{start}
use pueue.Daemon.Responses.{ensure_group_exists, task_action_response_helper, save_then}

-- A selected group has to exist.
abbrev pub check_selection : Groups → TaskSelection → Option Response
check_selection groups (TaskSelection.group name) = ensure_group_exists groups name
check_selection groups _ = none

-- The display of a signal is the longest of its serialisations.
abbrev pub signal_name : Signal → String
signal_name Signal.sig_int = "sigint"
signal_name Signal.sig_kill = "sigkill"
signal_name Signal.sig_term = "sigterm"
signal_name Signal.sig_cont = "sigcont"
signal_name Signal.sig_stop = "sigstop"

abbrev pub kill_response : State → TaskSelection → Option Signal → Response
kill_response s (TaskSelection.task_ids ids) signal =
    task_action_response_helper (lit "Tasks are being killed" ∷ []) ids is_running s
kill_response s (TaskSelection.group name) (some signal) = Response.success (
    lit "Sending signal "
    ∷ lit (signal_name signal)
    ∷ lit " to all running tasks of group "
    ∷ lit name
    ∷ lit "."
    ∷ [])
kill_response s TaskSelection.all (some signal) =
    Response.success
      (lit "Sending signal " ∷ lit (signal_name signal) ∷ lit " to all running tasks." ∷ [])
kill_response s (TaskSelection.group name) none = Response.success (
    lit "All tasks of group \""
    ∷ lit name
    ∷ lit "\" are being killed. The group will also be paused!!!"
    ∷ [])
kill_response s TaskSelection.all none =
    Response.success (lit "All tasks are being killed. All groups will be paused!!!" ∷ [])

-- `if let Response::Success(_) = response`.
abbrev pub is_success_text : Response → Bool
is_success_text (Response.success _) = true
is_success_text _ = false

unfoldable pub kill_request : Os → InternalState → KillRequest → InternalState × Response
unfolding ensure_group_exists task_action_response_helper kill
kill_request os s message = elim (check_selection s.groups message.tasks) [
  | some response ↦ (s, response)
  | none ↦
      let response = kill_response s.inner message.tasks message.signal in
      let s' = kill os s message.tasks true message.signal in
      (if is_success_text response then s' else s, response)
]

abbrev pub pause_response : State → TaskSelection → Response
pause_response s (TaskSelection.task_ids ids) =
    task_action_response_helper (lit "Tasks have been paused" ∷ []) ids
      (λ task. is_running_status task.status) s
pause_response s (TaskSelection.group name) =
    Response.success (lit "Group \"" ∷ lit name ∷ lit "\" is being paused." ∷ [])
pause_response s TaskSelection.all = Response.success (lit "All groups are being paused." ∷ [])

unfoldable pub pause_request :
    Os → InternalState → PauseRequest → Outcome (InternalState × Response)
unfolding ensure_group_exists task_action_response_helper pause
pause_request os s message = elim (check_selection s.groups message.tasks) [
  | some response ↦ finished (s, response)
  | none ↦
      let response = pause_response s.inner message.tasks in
      let run = pause os s message.tasks message.wait >>= λ s'. finished (s', response) in
      if is_success_text response then run else finished (s, response)
]

abbrev pub is_startable : Task → Bool
is_startable task =
    is_paused_status task.status || (is_queued_status task.status || is_stashed_status task.status)

abbrev pub start_response : State → TaskSelection → Response
start_response s (TaskSelection.task_ids ids) =
    task_action_response_helper (lit "Tasks have been started/resumed" ∷ []) ids is_startable s
start_response s (TaskSelection.group name) =
    Response.success (lit "Group \"" ∷ lit name ∷ lit "\" is being resumed." ∷ [])
start_response s TaskSelection.all = Response.success (lit "All groups are being resumed." ∷ [])

unfoldable pub start_request :
    Os → Settings → InternalState → StartRequest → Outcome (InternalState × Response)
unfolding ensure_group_exists task_action_response_helper start
start_request os settings s message = elim (check_selection s.groups message.tasks) [
  | some response ↦ finished (s, response)
  | none ↦
      let response = start_response s.inner message.tasks in
      let run = start os settings s message.tasks >>= λ s'. finished (s', response) in
      if is_success_text response then run else finished (s, response)
]

-- The write into a finished task that is restarted in place.
abbrev pub restarted : Os → ℕ → Bool → TaskToRestart → Task → Task
restarted os now is_stashed_anew to_restart task = record task {
  status = if is_stashed_anew then stashed none else queued now;
  original_command = to_restart.original_command;
  command = os.insert_alias to_restart.original_command;
  path = to_restart.path;
  label = to_restart.label;
  priority = to_restart.priority;
}

unfoldable pub restart : Os → Bool → InternalState → TaskToRestart → InternalState
restart os is_stashed_anew s to_restart =
    let now = os.now s.trace in
    with_tasks s (
      update to_restart.task_id
        (λ (task : Task).
          if is_done task then restarted os now is_stashed_anew to_restart task else task)
        s.tasks)

unfoldable pub restart_multiple :
    Os → Settings → InternalState → RestartRequest → Outcome (InternalState × Response)
unfolding task_action_response_helper restart start
restart_multiple os settings s message =
    let task_ids = map (λ (t : TaskToRestart). t.task_id) message.tasks in
    let response =
      task_action_response_helper (lit "Tasks has restarted" ∷ []) task_ids is_done s.inner in
    let s' = for_all message.tasks (restart os message.stashed) s in
    let run =
      start os settings s' (TaskSelection.task_ids task_ids) >>= λ s''. finished (s'', response) in
    if message.start_immediately then run else finished (s', response)

abbrev pub no_task : ℕ → Response
no_task task_id = Response.failure (lit "No task with id " ∷ num task_id ∷ [])

abbrev pub not_editable : Response
not_editable = Response.failure (lit "You can only edit stashed or queued tasks" ∷ [])

-- What `env` does to the state before it is saved, and the response.
unfoldable pub env_change : InternalState → EnvRequest → InternalState × Response
env_change s (EnvRequest.set task_id key value) = elim (get task_id s.tasks) [
  | none ↦ (s, no_task task_id)
  | some task ↦ if not (is_queued task || is_stashed task) then (s, not_editable) else (
    with_tasks s
        (update task_id (λ (t : Task). record t { envs = insert key value t.envs }) s.tasks),
    Response.success (lit "Environment variable set." ∷ []),
  )
]
env_change s (EnvRequest.unset task_id key) = elim (get task_id s.tasks) [
  | none ↦ (s, no_task task_id)
  | some task ↦ if not (is_queued task || is_stashed task) then (s, not_editable) else (
    with_tasks s (update task_id (λ (t : Task). record t { envs = remove key t.envs }) s.tasks),
    (if contains_key key task.envs
        then Response.success (lit "Environment variable unset." ∷ [])
        else Response.failure
            (lit "No environment variable with key '" ∷ lit key ∷ lit "' found." ∷ [])),
  )
]
env_change s (EnvRequest.list task_id) = elim (get task_id s.tasks) [
  | none ↦ (s, no_task task_id)
  | some task ↦ (s, Response.env_vars (record { task_id = task_id; envs = task.envs }))
]

unfoldable pub env : Os → InternalState → EnvRequest → InternalState × Response
unfolding env_change save_then
env os s message =
    let (s', response) = env_change s message in
    let saved = save_then os s' response in
    if is_success_text response then saved else (s', response)
