-- ===== src/Tests/Commands.antt =====
-- The requests of the client's commands at concrete inputs.
use pueue.Base.{◌≡◌, refl, none, some, [], ◌∷◌, ok, err, true, false, get, insert, contains}
use pueue.Task.{Task, TaskStatus}
use pueue.State.{filter_tasks}
use pueue.Message.{Request, TaskSelection}
use pueue.Client.Requests.{request, reverse, reset, kill}
use pueue.Client.Copies.{restart, copy, add_like, no_ids}
use pueue.Tests.Samples.{inner, task}

five_reversed :
    reverse (1 ∷ 2 ∷ 3 ∷ 4 ∷ 5 ∷ [])
    ≡ request (Request.switch (record { task_ids_1 = 1 ∷ 2 ∷ []; task_ids_2 = 5 ∷ 4 ∷ [] }))
unfolding reverse
five_reversed = refl

-- Task 3 runs, and the user does not confirm.
reset_refused : reset inner false false [] ≡ none
unfolding reset contains
reset_refused = refl

default_killed :
    kill true [] none false none
    ≡ some (Request.kill (record { tasks = TaskSelection.group "default"; signal = none }))
default_killed = refl

nothing_restarted : restart false inner [] false none false false false false none ≡ err no_ids
unfolding restart
nothing_restarted = refl

-- A copy of task 3, twice, in another group; task 9 does not exist.
abbrev task_3 : Task
task_3 = task 3 (TaskStatus.running 0 0) [] []

copied_twice :
    copy inner (3 ∷ 9 ∷ []) false true (some "gpu") none 2
    ≡ ok (add_like false false "gpu" task_3 ∷ add_like false false "gpu" task_3 ∷ [])
unfolding copy get filter_tasks insert
copied_twice = refl
