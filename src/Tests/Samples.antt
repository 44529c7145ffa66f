-- ===== src/Tests/Samples.antt =====
-- A small daemon for the tests: four tasks in the default group, with two workers at most.
use pueue.Daemon.Links.Consistent.{IsLinked}
use pueue.Base.{
  get, arith, IsAscending, ℕ, pos, true, false, none, some, List, [], ◌∷◌, length, inl, ◌==◌,
  nat_ord, if◌then◌else◌,
}
use pueue.Task.{Task, TaskStatus, queued, running, done, success}
use pueue.State.{State, Group, GroupStatus, Tasks}
use pueue.Daemon.Os.{Os, Settings, exited, still_running, Outcome, finished, panicked}
use pueue.Daemon.Internal.{InternalState}

-- The clock is the number of effects so far; the child with the handle 7 has exited.
abbrev pub os : Os
os = record {
  now = λ trace. length trace;
  save_succeeds = λ _. true;
  log_files_open = λ _ _. true;
  shell_command_renders = λ _. true;
  spawn = λ trace _ _ _. inl (length trace);
  signal_succeeds = λ _ _ _. true;
  try_wait = λ _ child. if child == 7 then exited else still_running;
  wait_succeeds = λ _ _. true;
  exit_code = λ _. some (pos 0);
  spawn_callback = λ _ _ _. none;
  input_succeeds = λ _ _ _. true;
  log_content = λ _ _. some (97 ∷ 10 ∷ 98 ∷ 10 ∷ 99 ∷ 10 ∷ []);
  compress = λ bytes. bytes;
  insert_alias = λ command. command;
  show_number = λ _. "n";
}

abbrev pub settings : Settings
settings = record { pause_group_on_failure = true; pause_all_on_failure = false; callback = none }

abbrev pub task : ℕ → TaskStatus → (dependencies dependents : List ℕ) → Task
task id status dependencies dependents = record {
  id = id;
  created_at = 0;
  original_command = "true";
  command = "true";
  path = "/";
  envs = [];
  group = "default";
  dependencies = dependencies;
  dependents = dependents;
  priority = pos 0;
  label = none;
  status = status;
}

-- Task 1 depends on the finished task 0, task 2 on the queued task 1; task 3 runs.
abbrev pub tasks : Tasks
tasks =
    (0, task 0 (done 0 0 0 success) [] (1 ∷ []))
    ∷ (1, task 1 (queued 0) (0 ∷ []) (2 ∷ []))
    ∷ (2, task 2 (queued 0) (1 ∷ []) [])
    ∷ (3, task 3 (running 0 0) [] [])
    ∷ []

abbrev pub group : Group
group = record { status = GroupStatus.running; parallel_tasks = 2 }

abbrev pub inner : State
inner = record { tasks = tasks; groups = ("default", group) ∷ [] }

abbrev pub daemon : InternalState
daemon = record {
  inner = inner;
  shutdown = none;
  children = ("default", (0, (3, 7)) ∷ []) ∷ [];
  callbacks = [];
  trace = [];
}

-- The result of a run, where it ends.
abbrev pub result_or {ℓ} : {A : Type ℓ} → A → Outcome A → A
result_or a (finished b) = b
result_or a panicked = a

pub daemon-IsAscending : IsAscending daemon.tasks
daemon-IsAscending = (omega arith, (omega arith, (omega arith, (omega arith, tt))))

pub daemon-IsLinked : IsLinked daemon.tasks
unfolding get
daemon-IsLinked a b there = (λ m. ground arith, λ m. ground arith)
