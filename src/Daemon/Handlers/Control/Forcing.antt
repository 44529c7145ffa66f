-- ===== src/Daemon/Handlers/Control/Forcing.antt =====
-- What a start request does to a stashed task (message_handler/start.rs, process_handler/start.rs).
use pueue.Base.{ℕ, ◌≡◌, refl, inl, true, false, Option, some, [], ◌∷◌, arith, get, nat_ord}
use pueue.Task.{Task, stashed}
use pueue.Message.{TaskSelection, Response, lit}
use pueue.Daemon.Os.{Os, Settings, finished, for_each}
use pueue.Daemon.Workers.{has_child}
use pueue.Daemon.Internal.{InternalState}
use pueue.Daemon.Process.Kill.{save_or_shutdown}
use pueue.Daemon.Process.Spawn.{spawn_process}
use pueue.Daemon.Process.Start.{start, start_one}
use pueue.Daemon.Handlers.Control.{start_request, start_response, is_startable, is_success_text}
use pueue.Daemon.Handlers.Control.Pausing.{helper-success}

spawn_process-stashed :
    (os : Os) (settings : Settings) (s : InternalState) (id : ℕ) (task : Task) (at : Option ℕ)
    → get id s.tasks ≡ some task
    → task.status ≡ stashed at
    → spawn_process os settings s id ≡ finished s
unfolding spawn_process
spawn_process-stashed os settings s id task at found e = ground arith

start-stashed :
    (os : Os) (settings : Settings) (s : InternalState) (id : ℕ) (task : Task) (at : Option ℕ)
    → get id s.tasks ≡ some task
    → task.status ≡ stashed at
    → has_child s.children id ≡ false
    → start os settings s (TaskSelection.task_ids (id ∷ [])) ≡ finished (save_or_shutdown os s)
unfolding start start_one for_each
start-stashed os settings s id task at found e idle =
    ground (arith, spawn_process-stashed os settings s id task at found e)

-- A request to start one stashed task that has no process answers with a success, and the state is
-- only saved: the task stays stashed.
pub start_request-stashed :
    (os : Os) (settings : Settings) (s : InternalState) (id : ℕ) (task : Task) (at : Option ℕ)
    → get id s.tasks ≡ some task
    → task.status ≡ stashed at
    → has_child s.children id ≡ false
    → (r : Response) × (start_request os settings s
          (record { tasks = TaskSelection.task_ids (id ∷ []) })
        ≡ finished (save_or_shutdown os s, r))
      × (is_success_text r ≡ true)
unfolding start_request
start_request-stashed os settings s id task at found e idle =
    let good =
      helper-success (lit "Tasks have been started/resumed" ∷ []) (id ∷ []) is_startable s.inner id
        (inl refl) (ground arith) in
    (
      start_response s.inner (TaskSelection.task_ids (id ∷ [])),
      ground (arith, start-stashed os settings s id task at found e idle),
      good,
    )
