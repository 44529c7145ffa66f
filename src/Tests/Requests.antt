-- ===== src/Tests/Requests.antt =====
-- Tests of the filters of pueue_lib/src/state.rs and of the handlers edit.rs, group.rs, pause.rs,
-- start.rs and switch.rs.
use pueue.Base.{
  ◌⊎◌, ℕ, String, ◌≡◌, refl, ◌⊎◌, inl, inr, Bool, true, false, not, Option, none, some, List, [],
  ◌∷◌, arith, get, In, keep, contains_key, nat_ord, text_ord,
}
use pueue.Daemon.Links.{dependencies_of}
use pueue.Daemon.Handlers.Switch.{switch_pair}
use pueue.Daemon.Handlers.Switch.Swap.{switch_pair-depends_on_itself}
use pueue.Task.{queued, Task, stashed, is_running_status}
use pueue.State.Filter.{accepts}
use pueue.State.{Tasks}
use pueue.Message.{EditableTask, GroupRequest, Response, TaskSelection}
use pueue.Daemon.Os.{finished, panicked}
use pueue.Daemon.Workers.{has_child}
use pueue.Daemon.Internal.{InternalState, with_tasks}
use pueue.Daemon.Process.Kill.{save_or_shutdown}
use pueue.Daemon.Handlers.Edit.Circles.{Reaches, check_circular_dependency-found}
use pueue.Daemon.Handlers.Edit.{
  check_circular_dependency, edit_request, edit_restore, restored_response,
}
use pueue.Daemon.Handlers.Edit.Locks.{edit_restore-edit_request}
use pueue.Daemon.Handlers.Groups.{group}
use pueue.Daemon.Handlers.Groups.Laws.{HasPools, group-HasPools}
use pueue.Daemon.Handlers.Control.{pause_request, start_request, is_success_text}
use pueue.Daemon.Handlers.Control.Pausing.{pausing, pause_request-panics, pause_request-finishes}
use pueue.Daemon.Handlers.Control.Forcing.{start_request-stashed}
use pueue.Tests.Samples.{os, settings, daemon, task}

-- Tasks 1 and 2 are queued.
abbrev edited : InternalState × Response
edited = edit_request daemon (1 ∷ 2 ∷ [])

abbrev editables_of : Response → List EditableTask
editables_of (Response.edit editables) = editables
editables_of _ = []

edit_1_2 : edit_request daemon (1 ∷ 2 ∷ []) ≡ (edited.0, Response.edit (editables_of edited.1))
unfolding edit_request get pueue.Base.update
edit_1_2 = refl

edit_restore-edit_request_example :
    ((k : ℕ) → get k (edit_restore edited.0 (1 ∷ 2 ∷ [])).0.tasks ≡ get k daemon.tasks)
    × ((edit_restore edited.0 (1 ∷ 2 ∷ [])).1 ≡ restored_response (1 ∷ 2 ∷ []) [])
edit_restore-edit_request_example =
    edit_restore-edit_request daemon edited.0 (1 ∷ 2 ∷ []) (editables_of edited.1) edit_1_2

daemon-HasPools : HasPools daemon
unfolding get
daemon-HasPools g = ground arith

group-HasPools_example : HasPools (group os daemon (GroupRequest.add "gpu" (some 1))).0
group-HasPools_example = group-HasPools os daemon (GroupRequest.add "gpu" (some 1)) daemon-HasPools

-- Task 3 runs and task 9 does not exist.
task_3_runs : accepts daemon.inner (λ t. is_running_status t.status) 3 ≡ true
unfolding get
task_3_runs = refl

task_9_missing : contains_key 9 daemon.tasks ≡ false
unfolding get
task_9_missing = refl

pause_request-panics_example : pause_request os daemon (pausing (3 ∷ 9 ∷ [])) ≡ panicked
pause_request-panics_example =
    pause_request-panics os daemon (3 ∷ 9 ∷ []) 3 9 (inl refl) task_3_runs (inr (inl refl))
      task_9_missing

all_exist : (id : ℕ) → In id (3 ∷ 0 ∷ []) → contains_key id daemon.tasks ≡ true
unfolding get
all_exist id m = ground arith

pause_request-finishes_example :
    (s' : InternalState) × (r : Response) × (pause_request os daemon (pausing (3 ∷ 0 ∷ []))
      ≡ finished (s', r))
pause_request-finishes_example = pause_request-finishes os daemon (3 ∷ 0 ∷ []) all_exist

abbrev stashed_task : Task
stashed_task = task 0 (stashed none) [] []

abbrev idle : InternalState
idle = with_tasks daemon ((0, stashed_task) ∷ [])

stashed_here : get 0 idle.tasks ≡ some stashed_task
unfolding get
stashed_here = refl

no_child : has_child idle.children 0 ≡ false
unfolding has_child pueue.Base.any_of
no_child = refl

start_request-stashed_example :
    (r : Response) × (start_request os settings idle
        (record { tasks = TaskSelection.task_ids (0 ∷ []) })
      ≡ finished (save_or_shutdown os idle, r))
    × (is_success_text r ≡ true)
start_request-stashed_example =
    start_request-stashed os settings idle 0 stashed_task none stashed_here refl no_child

-- Task 1 depends on task 0, and is switched with it.
abbrev first : Task
first = task 0 (queued 0) [] (1 ∷ [])

abbrev second : Task
second = task 1 (queued 0) (0 ∷ []) []

abbrev pair : Tasks
pair = (0, first) ∷ (1, second) ∷ []

first_here : get 0 pair ≡ some first
unfolding get
first_here = refl

second_here : get 1 pair ≡ some second
unfolding get
second_here = refl

switch_pair-depends_on_itself_example :
    (tasks' : Tasks) × (switch_pair pair 0 1 ≡ finished tasks')
    × In 0 (dependencies_of (get 0 tasks'))
switch_pair-depends_on_itself_example =
    switch_pair-depends_on_itself pair 0 1 first second refl first_here second_here refl (inl refl)
      (λ m. ground (arith, m)) (λ m. m)

-- Task 0 may not depend on task 1, which depends on it.
circle_of_pair : check_circular_dependency pair 0 (1 ∷ []) ≡ some (1 ∷ 0 ∷ [])
unfolding check_circular_dependency get pueue.Base.contains
circle_of_pair = refl

check_circular_dependency-found_example : (d : ℕ) × In d (1 ∷ []) × ((d ≡ 0) ⊎ Reaches pair d 0)
check_circular_dependency-found_example =
    check_circular_dependency-found pair 0 (1 ∷ []) 1 (0 ∷ []) circle_of_pair
