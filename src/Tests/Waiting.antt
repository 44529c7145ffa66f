-- ===== src/Tests/Waiting.antt =====
-- The client's `wait` at concrete inputs.
use pueue.Base.{◌≡◌, refl, inl, inr, some, List, [], ◌∷◌, get, insert, remove, keep, contains}
use pueue.Task.{TaskResult, queued, running, done, success}
use pueue.State.{State}
use pueue.Message.{TaskSelection}
use pueue.Client.Wait.{WaitTargetStatus, all_reached, exit_1, get_tasks, wait}
use pueue.Client.Wait.Covered.{IsSettled}
use pueue.Client.Wait.Settled.{wait-IsSettled}
use pueue.Tests.Samples.{task}

-- The first of two tasks is removed while the second one runs; a third one is added.
abbrev state_1 : State
state_1 = record {
  tasks = (0, task 0 (queued 0) [] []) ∷ (1, task 1 (running 0 0) [] []) ∷ [];
  groups = [];
}

abbrev state_2 : State
state_2 = record {
  tasks = (1, task 1 (done 0 0 5 success) [] []) ∷ (2, task 2 (queued 0) [] []) ∷ [];
  groups = [];
}

abbrev state_3 : State
state_3 = record {
  tasks = (1, task 1 (done 0 0 5 success) [] []) ∷ (2, task 2 (done 0 5 7 success) [] []) ∷ [];
  groups = [];
}

abbrev states : List State
states = state_1 ∷ state_2 ∷ state_3 ∷ []

waited :
    wait (some WaitTargetStatus.done) (TaskSelection.group "default") states
    ≡ some (all_reached, [])
unfolding wait get_tasks keep get contains insert remove
waited = refl

failed_exit :
    wait (some WaitTargetStatus.success) TaskSelection.all (
      record { tasks = (0, task 0 (done 0 0 5 TaskResult.killed) [] []) ∷ []; groups = [] }
      ∷ states)
    ≡ some (exit_1, states)
unfolding wait get_tasks get contains insert
failed_exit = refl

wait-IsSettled_example : IsSettled WaitTargetStatus.done (TaskSelection.group "default") states 2
unfolding get_tasks keep
wait-IsSettled_example =
    wait-IsSettled WaitTargetStatus.done (TaskSelection.group "default") states state_2
      (task 2 (queued 0) [] []) waited (inr (inl refl)) (inr (inl refl))
