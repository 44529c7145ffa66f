-- ===== src/Daemon/Process/Pause/Effects.antt =====
-- When `pause` of process_handler/pause.rs returns, for a selection of task ids.
use pueue.Base.{
  ℕ, ◌≡◌, refl, ◌∙◌, ap, inl, inr, true, false, List, [], ◌∷◌, arith, get, get-update, In,
  contains_key, nat_ord, Option-cases,
}
use pueue.Task.{Task, TaskStatus, running, paused}
use pueue.Daemon.Os.{Os, finished, panicked, ◌>>=◌, for_each, ProcessAction}
use pueue.Daemon.Internal.{InternalState, change_status}
use pueue.Daemon.Process.Signals.{perform_action, send_signal_to_child}
use pueue.Daemon.Process.Pause.{pause_one, pause_status, pause_process}

perform_action-tasks :
    (os : Os) (s : InternalState) (id : ℕ) (action : ProcessAction)
    → (perform_action os s id action).0.tasks ≡ s.tasks
unfolding perform_action send_signal_to_child
perform_action-tasks os s id action = ground arith

-- The same ids have tasks.
abbrev SameIds : InternalState → InternalState → Type 0
SameIds s t = (k : ℕ) → contains_key k t.tasks ≡ contains_key k s.tasks

pause_process-SameIds :
    (os : Os) (s : InternalState) (id at start : ℕ) → SameIds s (pause_process os s id at start)
unfolding change_status
pause_process-SameIds os s id at start k = ground (
  arith,
  perform_action-tasks os s id ProcessAction.pause,
  get-update k id (λ (task : Task). record task { status = paused at start })
      (perform_action os s id ProcessAction.pause).0.tasks,
)

pause_status-SameIds :
    (os : Os) (s : InternalState) (id : ℕ) (status : TaskStatus)
    → SameIds s (pause_status os s id status)
unfolding pause_status
pause_status-SameIds os s id (running at start) = pause_process-SameIds os s id at start
pause_status-SameIds os s id (paused at start) = pause_process-SameIds os s id at start
pause_status-SameIds os s id other = λ k. refl

pause_one-finishes :
    (os : Os) (s : InternalState) (id : ℕ)
    → contains_key id s.tasks ≡ true
    → (s' : InternalState) × (pause_one os s id ≡ finished s') × SameIds s s'
unfolding pause_one
pause_one-finishes os s id e = elim (Option-cases (get id s.tasks)) [
  | inl absent ↦ absurd (ground arith)
  | inr (task, found) ↦
      (pause_status os s id task.status, ground arith, pause_status-SameIds os s id task.status)
]

-- The pause of the processes of tasks that all exist returns.
pub pause_all-finishes :
    (os : Os) (ids : List ℕ) (s : InternalState)
    → ((id : ℕ) → In id ids → contains_key id s.tasks ≡ true)
    → (s' : InternalState) × (for_each ids (pause_one os) s ≡ finished s')
unfolding for_each
pause_all-finishes os [] s exist = (s, refl)
pause_all-finishes os (id ∷ ids) s exist =
    let (t, first, same) = pause_one-finishes os s id (exist id (inl refl)) in
    let (s', rest) = pause_all-finishes os ids t (λ k m. same k ∙ exist k (inr m)) in
    (s', ap (λ r. r >>= for_each ids (pause_one os)) first ∙ rest)

-- It panics at an id that no task has, whatever comes before it.
pub pause_all-panics :
    (os : Os) (ids : List ℕ) (s : InternalState) (id : ℕ)
    → In id ids
    → contains_key id s.tasks ≡ false
    → for_each ids (pause_one os) s ≡ panicked
unfolding for_each pause_one
pause_all-panics os [] s id m e = absurd m
pause_all-panics os (i ∷ ids) s id (inl here) e = ground arith
pause_all-panics os (i ∷ ids) s id (inr m) e = elim (Option-cases (get i s.tasks)) [
  | inl absent ↦ ground arith
  | inr (task, found) ↦
      let (t, first, same) = pause_one-finishes os s i (ground arith) in
      ap (λ r. r >>= for_each ids (pause_one os)) first
      ∙ pause_all-panics os ids t id m (same id ∙ e)
]
