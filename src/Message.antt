-- ===== src/Message.antt =====
-- pueue_lib/src/message: what a client asks of the daemon, and what the daemon answers.
-- A text is kept as its pieces, with the numbers that `format!` prints into it.
use pueue.Base.{ℕ, String, ℤ, Bool, true, false, Option, List, OrdMap}
use pueue.Task.{Task}
use pueue.State.{State, Groups}

pub data Piece : Type 0 where
  lit : String → Piece
  num : ℕ → Piece
  -- Numbers joined by ", ".
  ids : List ℕ → Piece
  -- The debug print of a list of names.
  names : List String → Piece
  -- `format_datetime` of a time.
  time : ℕ → Piece

abbrev pub Text : Type 0
Text = List Piece

pub record EditableTask : Type 0 where
  pub id : ℕ
  pub original_command : String
  pub path : String
  pub label : Option String
  pub priority : ℤ
  pub dependencies : List ℕ

-- `EditableTask::from`.
unfoldable pub editable : Task → EditableTask
editable task = record {
  id = task.id;
  original_command = task.original_command;
  path = task.path;
  label = task.label;
  priority = task.priority;
  dependencies = task.dependencies;
}

-- `EditableTask::into_task`.
unfoldable pub into_task : EditableTask → Task → Task
into_task e task = record task {
  original_command = e.original_command;
  path = e.path;
  label = e.label;
  priority = e.priority;
  dependencies = e.dependencies;
}

pub data TaskSelection : Type 0 where
  task_ids : List ℕ → TaskSelection
  group : String → TaskSelection
  all : TaskSelection

pub record AddRequest : Type 0 where
  pub command : String
  pub path : String
  pub envs : OrdMap String String
  pub start_immediately : Bool
  pub stashed : Bool
  pub group : String
  pub enqueue_at : Option ℕ
  pub dependencies : List ℕ
  pub priority : Option ℤ
  pub label : Option String

pub record SwitchRequest : Type 0 where
  pub task_ids_1 : List ℕ
  pub task_ids_2 : List ℕ

pub record StashRequest : Type 0 where
  pub tasks : TaskSelection
  pub enqueue_at : Option ℕ

pub record EnqueueRequest : Type 0 where
  pub tasks : TaskSelection
  pub enqueue_at : Option ℕ

pub record StartRequest : Type 0 where
  pub tasks : TaskSelection

pub record TaskToRestart : Type 0 where
  pub task_id : ℕ
  pub original_command : String
  pub path : String
  pub label : Option String
  pub priority : ℤ

pub record RestartRequest : Type 0 where
  pub tasks : List TaskToRestart
  pub start_immediately : Bool
  pub stashed : Bool

pub record PauseRequest : Type 0 where
  pub tasks : TaskSelection
  pub wait : Bool

pub data Signal : Type 0 where
  sig_int sig_kill sig_term sig_cont sig_stop : Signal

pub record KillRequest : Type 0 where
  pub tasks : TaskSelection
  pub signal : Option Signal

pub record SendRequest : Type 0 where
  pub task_id : ℕ
  pub input : String

pub data EnvRequest : Type 0 where
  set : (task_id : ℕ) (key value : String) → EnvRequest
  unset : (task_id : ℕ) (key : String) → EnvRequest
  list : (task_id : ℕ) → EnvRequest

pub data GroupRequest : Type 0 where
  add : (name : String) (parallel_tasks : Option ℕ) → GroupRequest
  remove : String → GroupRequest
  list : GroupRequest

pub data ResetTarget : Type 0 where
  all : ResetTarget
  groups : List String → ResetTarget

pub record CleanRequest : Type 0 where
  pub successful_only : Bool
  pub group : Option String

pub data ShutdownRequest : Type 0 where
  emergency graceful : ShutdownRequest

pub record ParallelRequest : Type 0 where
  pub parallel_tasks : ℕ
  pub group : String

pub record StreamRequest : Type 0 where
  pub tasks : TaskSelection
  pub lines : Option ℕ

pub record LogRequest : Type 0 where
  pub tasks : TaskSelection
  pub send_logs : Bool
  pub lines : Option ℕ

pub data Request : Type 0 where
  add : AddRequest → Request
  remove : List ℕ → Request
  switch : SwitchRequest → Request
  stash : StashRequest → Request
  enqueue : EnqueueRequest → Request
  start : StartRequest → Request
  restart : RestartRequest → Request
  pause : PauseRequest → Request
  kill : KillRequest → Request
  send : SendRequest → Request
  edit_request edit_restore : List ℕ → Request
  edited_tasks : List EditableTask → Request
  env : EnvRequest → Request
  group : GroupRequest → Request
  parallel : ParallelRequest → Request
  status : Request
  log : LogRequest → Request
  stream : StreamRequest → Request
  reset : ResetTarget → Request
  clean : CleanRequest → Request
  daemon_shutdown : ShutdownRequest → Request

pub record AddedTaskResponse : Type 0 where
  pub task_id : ℕ
  pub enqueue_at : Option ℕ
  pub group_is_paused : Bool

pub record TaskLogResponse : Type 0 where
  pub task : Task
  pub output_complete : Bool
  pub output : Option (List ℕ)

pub record EnvListResponse : Type 0 where
  pub task_id : ℕ
  pub envs : OrdMap String String

pub data Response : Type 0 where
  added_task : AddedTaskResponse → Response
  edit : List EditableTask → Response
  status : State → Response
  log : OrdMap ℕ TaskLogResponse → Response
  group : Groups → Response
  env_vars : EnvListResponse → Response
  stream : OrdMap ℕ String → Response
  success : Text → Response
  failure : Text → Response
  close : Response

-- `Response::success`.
abbrev pub is_success : Response → Bool
is_success (added_task _) = true
is_success (Response.success _) = true
is_success _ = false
