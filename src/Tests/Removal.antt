-- ===== src/Tests/Removal.antt =====
-- Tests of message_handler/remove.rs and message_handler/clean.rs.
use pueue.Base.{
  ℕ, zero, suc, ◌+◌, ◌-◌, ◌≤◌, ◌<◌, String, ◌≡◌, refl, ◌⊎◌, inl, inr, Bool, true, false, Option,
  none, some, List, [], ◌∷◌, arith, get, In, length, is_some, nat_ord, text_ord,
}
use pueue.Task.{Task, queued, done, success}
use pueue.Message.{Response, CleanRequest}
use pueue.Daemon.Os.{Outcome, finished}
use pueue.Daemon.Internal.{InternalState, unfinished}
use pueue.Daemon.Internal.Removable.{IsRanked}
use pueue.Daemon.Links.Consistent.{IsLinked}
use pueue.Daemon.Handlers.Remove.{remove, clean}
use pueue.Daemon.Handlers.Remove.Safety.{remove-keeps_dependencies}
use pueue.Daemon.Handlers.Remove.Linked.{remove-IsLinked, remove-returns, clean-IsLinked}
use pueue.Tests.Samples.{os, daemon, task, daemon-IsLinked, result_or}

abbrev nothing : InternalState × Response
nothing = (daemon, Response.failure [])

-- Task 0 has finished, but task 1 still needs it.
abbrev refused : InternalState × Response
refused = result_or nothing (remove os daemon (0 ∷ []))

remove_0 : remove os daemon (0 ∷ []) ≡ finished (refused.0, refused.1)
unfolding remove get pueue.State.filter_tasks pueue.Daemon.Internal.is_task_removable
    pueue.Base.all_of pueue.Base.contains
remove_0 = refl

abbrev task_1 : Task
task_1 = task 1 (queued 0) (0 ∷ []) (2 ∷ [])

task_1_stays : get 1 refused.0.tasks ≡ some task_1
unfolding remove get pueue.State.filter_tasks pueue.Daemon.Internal.is_task_removable
    pueue.Base.all_of pueue.Base.contains pueue.Daemon.Responses.save_then pueue.Daemon.Os.for_all
    pueue.Base.keep
task_1_stays = refl

task_0_here : get 0 daemon.tasks ≡ some (task 0 (done 0 0 0 success) [] (1 ∷ []))
unfolding get
task_0_here = refl

remove-keeps_dependencies_example : is_some (get 0 refused.0.tasks) ≡ true
remove-keeps_dependencies_example =
    remove-keeps_dependencies os daemon refused.0 (0 ∷ []) refused.1 daemon-IsLinked remove_0 1 0
      task_1 (task 0 (done 0 0 0 success) [] (1 ∷ [])) task_1_stays refl (inl refl) task_0_here

-- Tasks 1 and 2 go together.
abbrev two_gone : InternalState × Response
two_gone = result_or nothing (remove os daemon (1 ∷ 2 ∷ []))

remove_1_2 : remove os daemon (1 ∷ 2 ∷ []) ≡ finished (two_gone.0, two_gone.1)
unfolding remove get pueue.State.filter_tasks pueue.Daemon.Internal.is_task_removable
    pueue.Base.all_of pueue.Base.contains
remove_1_2 = refl

remove-IsLinked_example : IsLinked two_gone.0.tasks
remove-IsLinked_example =
    remove-IsLinked os daemon two_gone.0 (1 ∷ 2 ∷ []) two_gone.1 remove_1_2 daemon-IsLinked

abbrev rank : ℕ → ℕ
rank id = 4 - id

daemon-IsRanked : IsRanked daemon.tasks rank
unfolding get unfinished
daemon-IsRanked a b w = ground arith

remove-returns_example :
    (s' : InternalState) × (r : Response) × (remove os daemon (1 ∷ 2 ∷ []) ≡ finished (s', r))
remove-returns_example =
    remove-returns os daemon (1 ∷ 2 ∷ []) rank daemon-IsRanked (λ id. omega arith)

abbrev all_finished : CleanRequest
all_finished = record { successful_only = false; group = none }

abbrev cleaned : InternalState × Response
cleaned = result_or nothing (clean os daemon all_finished)

clean_all : clean os daemon all_finished ≡ finished (cleaned.0, cleaned.1)
unfolding clean get pueue.Daemon.Os.for_each pueue.State.filter_tasks
    pueue.Daemon.Internal.is_task_removable pueue.Base.all_of pueue.Base.contains
clean_all = refl

clean-IsLinked_example : IsLinked cleaned.0.tasks
clean-IsLinked_example =
    clean-IsLinked os daemon cleaned.0 all_finished cleaned.1 clean_all daemon-IsLinked
