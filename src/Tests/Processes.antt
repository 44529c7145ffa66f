-- ===== src/Tests/Processes.antt =====
-- Tests of the shutdown, finish.rs and the rounds of task_handler.rs.
use pueue.Base.{
  ℕ, ◌≡◌, refl, inl, true, false, some, [], ◌∷◌, pos, get, In, any_of, nat_ord, text_ord,
}
use pueue.Task.{Task, done, queued, stashed, failed}
use pueue.State.{Tasks}
use pueue.Message.{ShutdownRequest}
use pueue.Daemon.Os.{Child, finished, killed_child}
use pueue.Daemon.Workers.{get_child, all_task_ids}
use pueue.Daemon.Internal.{InternalState, with_tasks}
use pueue.Daemon.Process.Kill.{initiate_shutdown}
use pueue.Daemon.Process.Kill.Shutdown.{initiate_shutdown-kills}
use pueue.Daemon.Process.Finish.{FinishedWorker, finish_one}
use pueue.Daemon.Process.Finish.Results.{IsConcluded, finish_one-IsConcluded}
use pueue.Daemon.TaskHandler.{
  failed_at, is_paused_group, enqueue_delayed_tasks, check_failed_dependencies,
}
use pueue.Daemon.TaskHandler.Delayed.{Enqueues, enqueue_delayed_tasks-Enqueues}
use pueue.Daemon.TaskHandler.Failures.{failed_with, check_failed_dependencies-fails}
use pueue.Tests.Samples.{os, settings, daemon, task, result_or}

running_3 : In 3 (all_task_ids daemon.children)
unfolding all_task_ids
running_3 = inl refl

initiate_shutdown-kills_example :
    (c : Child) × (get_child daemon.children 3 ≡ some c)
    × In (killed_child c) (initiate_shutdown os daemon ShutdownRequest.graceful).trace
initiate_shutdown-kills_example =
    initiate_shutdown-kills os daemon ShutdownRequest.graceful 3 refl running_3

abbrev worker : FinishedWorker
worker = record { task_id = 3; group = "default"; worker_id = 0; io_error = false }

abbrev after_finish : InternalState
after_finish = result_or daemon (finish_one os settings daemon worker)

finish_3 : finish_one os settings daemon worker ≡ finished after_finish
unfolding finish_one get
finish_3 = refl

finish_one-IsConcluded_example : IsConcluded os daemon after_finish worker
finish_one-IsConcluded_example =
    finish_one-IsConcluded os settings daemon after_finish worker finish_3

-- Task 1 waits for a task that failed.
abbrev broken_tasks : Tasks
broken_tasks =
    (0, task 0 (done 0 0 0 (failed (pos 1))) [] (1 ∷ [])) ∷ (1, task 1 (queued 0) (0 ∷ []) []) ∷ []

abbrev broken : InternalState
broken = with_tasks daemon broken_tasks

abbrev dependent : Task
dependent = task 1 (queued 0) (0 ∷ []) []

dependent_here : get 1 broken.tasks ≡ some dependent
unfolding get
dependent_here = refl

dependency_failed_here : any_of (failed_at broken.tasks) dependent.dependencies ≡ true
unfolding get any_of
dependency_failed_here = refl

group_open : is_paused_group (get "default" broken.groups) ≡ false
unfolding get
group_open = refl

check_failed_dependencies-fails_example :
    (now : ℕ) × (get 1 (check_failed_dependencies os settings broken).tasks
      ≡ some (failed_with dependent 0 now))
check_failed_dependencies-fails_example =
    check_failed_dependencies-fails os settings broken 1 0 dependent dependent_here refl
      dependency_failed_here group_open

-- Task 0 was due at the start of the clock.
abbrev delayed : InternalState
delayed = with_tasks daemon ((0, task 0 (stashed (some 0)) [] []) ∷ [])

enqueue_delayed_tasks-Enqueues_example :
    Enqueues 0 (get 0 delayed.tasks) (get 0 (enqueue_delayed_tasks os delayed).tasks)
enqueue_delayed_tasks-Enqueues_example = enqueue_delayed_tasks-Enqueues os delayed 0
