-- ===== src/Task.antt =====
-- pueue_lib/src/task.rs. Times are seconds on the daemon's clock; texts and paths are strings; the
-- environment, a `HashMap`, is a map in the order of its keys.
use pueue.Base.{ℕ, String, ℤ, Bool, true, false, ◌||◌, Option, none, some, List, [], OrdMap}

pub data TaskResult : Type 0 where
  success : TaskResult
  failed : ℤ → TaskResult
  failed_to_spawn : String → TaskResult
  killed : TaskResult
  errored : TaskResult
  dependency_failed : TaskResult

pub data TaskStatus : Type 0 where
  locked : (previous_status : TaskStatus) → TaskStatus
  stashed : (enqueue_at : Option ℕ) → TaskStatus
  queued : (enqueued_at : ℕ) → TaskStatus
  running : (enqueued_at start : ℕ) → TaskStatus
  paused : (enqueued_at start : ℕ) → TaskStatus
  done : (enqueued_at start end : ℕ) (result : TaskResult) → TaskStatus

pub record Task : Type 0 where
  pub id : ℕ
  pub created_at : ℕ
  pub original_command : String
  pub command : String
  pub path : String
  pub envs : OrdMap String String
  pub group : String
  pub dependencies : List ℕ
  pub dependents : List ℕ
  pub priority : ℤ
  pub label : Option String
  pub status : TaskStatus

-- `Task::new`. `created_at` is the time of the call.
unfoldable pub new :
    (now : ℕ) (original_command path : String) (envs : OrdMap String String) (group : String)
    (starting_status : TaskStatus) (dependencies : List ℕ) (priority : ℤ) (label : Option String)
    → Task
new now original_command path envs group starting_status dependencies priority label = record {
  id = 0;
  created_at = now;
  original_command = original_command;
  command = original_command;
  path = path;
  envs = envs;
  group = group;
  dependencies = dependencies;
  dependents = [];
  priority = priority;
  label = label;
  status = starting_status;
}

-- The tests of a status by its constructor.
abbrev pub is_queued_status : TaskStatus → Bool
is_queued_status (queued _) = true
is_queued_status _ = false

abbrev pub is_running_status : TaskStatus → Bool
is_running_status (running _ _) = true
is_running_status _ = false

abbrev pub is_paused_status : TaskStatus → Bool
is_paused_status (paused _ _) = true
is_paused_status _ = false

abbrev pub is_done_status : TaskStatus → Bool
is_done_status (done _ _ _ _) = true
is_done_status _ = false

abbrev pub is_stashed_status : TaskStatus → Bool
is_stashed_status (stashed _) = true
is_stashed_status _ = false

abbrev pub is_locked_status : TaskStatus → Bool
is_locked_status (locked _) = true
is_locked_status _ = false

abbrev pub is_scheduled_status : TaskStatus → Bool
is_scheduled_status (stashed (some _)) = true
is_scheduled_status _ = false

abbrev pub is_successful_status : TaskStatus → Bool
is_successful_status (done _ _ _ success) = true
is_successful_status _ = false

abbrev pub start_and_end_of : TaskStatus → Option ℕ × Option ℕ
start_and_end_of (running _ start) = (some start, none)
start_and_end_of (paused _ start) = (some start, none)
start_and_end_of (done _ start end _) = (some start, some end)
start_and_end_of _ = (none, none)

abbrev pub start_and_end : Task → Option ℕ × Option ℕ
start_and_end task = start_and_end_of task.status

-- Whether the task has a process that the daemon manages.
abbrev pub is_running : Task → Bool
is_running task = is_running_status task.status || is_paused_status task.status

abbrev pub is_paused : Task → Bool
is_paused task = is_paused_status task.status

abbrev pub is_done : Task → Bool
is_done task = is_done_status task.status

abbrev pub failed_status : TaskStatus → Bool
failed_status (done _ _ _ success) = false
failed_status (done _ _ _ _) = true
failed_status _ = false

abbrev pub has_failed : Task → Bool
has_failed task = failed_status task.status

abbrev pub is_stashed : Task → Bool
is_stashed task = is_stashed_status task.status

abbrev pub is_queued : Task → Bool
is_queued task = is_queued_status task.status || is_scheduled_status task.status
