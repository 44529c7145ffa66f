-- ===== src/Daemon/Handlers/Control/Pausing.antt =====
-- When the handler of a pause request returns (message_handler/pause.rs), for task ids.
use pueue.Base.{
  ℕ, ◌≡◌, refl, sym, subst, inl, inr, Bool, true, false, some, List, [], ◌∷◌, arith, In, keep-In,
  is_empty, contains_key, nat_ord, text_ord, Bool-cases,
}
use pueue.Task.{Task, is_running_status}
use pueue.State.{State, FilteredTasks, filter_tasks}
use pueue.State.Filter.{accepts, filter_tasks-keep}
use pueue.Message.{TaskSelection, PauseRequest, Response, Text, lit}
use pueue.Daemon.Os.{Os, finished, panicked}
use pueue.Daemon.Internal.{InternalState}
use pueue.Daemon.Process.Pause.{pause, pause_targets}
use pueue.Daemon.Process.Kill.{save_or_shutdown}
use pueue.Daemon.Process.Pause.Effects.{pause_all-finishes, pause_all-panics}
use pueue.Daemon.Responses.{compile_task_response, task_action_response_helper}
use pueue.Daemon.Handlers.Control.{pause_request, pause_response, is_success_text}

compile-success :
    (message : Text) (filtered : FilteredTasks)
    → is_empty filtered.matching_ids ≡ false
    → is_success_text (compile_task_response message filtered) ≡ true
unfolding compile_task_response
compile-success message filtered e = ground arith

In-not_empty : (a : ℕ) (xs : List ℕ) → In a xs → is_empty xs ≡ false
In-not_empty a [] m = absurd m
In-not_empty a (x ∷ xs) m = refl

-- One matching id makes the response a success.
pub helper-success :
    (message : Text) (ids : List ℕ) (condition : Task → Bool) (s : State) (id : ℕ)
    → In id ids
    → accepts s condition id ≡ true
    → is_success_text (task_action_response_helper message ids condition s) ≡ true
unfolding task_action_response_helper
helper-success message ids condition s id m e =
    compile-success message (filter_tasks s condition (some ids)) (
      In-not_empty id (filter_tasks s condition (some ids)).matching_ids (
        subst (In id) (sym (filter_tasks-keep s condition (some ids)).0)
          (keep-In (accepts s condition) id ids m e)))

abbrev pub pausing : List ℕ → PauseRequest
pausing ids = record { tasks = TaskSelection.task_ids ids; wait = false }

pause-panics :
    (os : Os) (s : InternalState) (ids : List ℕ) (missing : ℕ)
    → In missing ids
    → contains_key missing s.tasks ≡ false
    → pause os s (TaskSelection.task_ids ids) false ≡ panicked
unfolding pause pause_targets
pause-panics os s ids missing m e = ground (arith, pause_all-panics os ids s missing m e)

pause-finishes :
    (os : Os) (s : InternalState) (ids : List ℕ)
    → ((id : ℕ) → In id ids → contains_key id s.tasks ≡ true)
    → (s' : InternalState) × (pause os s (TaskSelection.task_ids ids) false ≡ finished s')
unfolding pause pause_targets
pause-finishes os s ids exist =
    let (t, e) = pause_all-finishes os ids s exist in (save_or_shutdown os t, ground arith)

-- A request to pause task ids at once panics if one id is of a running task and one of no task.
pub pause_request-panics :
    (os : Os) (s : InternalState) (ids : List ℕ) (active missing : ℕ)
    → In active ids
    → accepts s.inner (λ task. is_running_status task.status) active ≡ true
    → In missing ids
    → contains_key missing s.tasks ≡ false
    → pause_request os s (pausing ids) ≡ panicked
unfolding pause_request
pause_request-panics os s ids active missing m e k absent = ground (
  arith,
  helper-success (lit "Tasks have been paused" ∷ []) ids (λ task. is_running_status task.status)
      s.inner active m e,
  pause-panics os s ids missing k absent,
)

-- A request to pause task ids at once returns if each id is of a task.
pub pause_request-finishes :
    (os : Os) (s : InternalState) (ids : List ℕ)
    → ((id : ℕ) → In id ids → contains_key id s.tasks ≡ true)
    → (s' : InternalState) × (r : Response) × (pause_request os s (pausing ids) ≡ finished (s', r))
unfolding pause_request
pause_request-finishes os s ids exist =
    let (t, e) = pause-finishes os s ids exist in
    let response = pause_response s.inner (TaskSelection.task_ids ids) in
    elim (Bool-cases (is_success_text response)) [
      | inl good ↦ (t, response, ground arith)
      | inr bad ↦ (s, response, ground arith)
    ]
