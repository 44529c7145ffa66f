-- ===== src/Daemon/Callbacks.antt =====
-- pueue/src/daemon/callbacks.rs. The rendering of the template and its variables is left to the
-- template engine: `Os.spawn_callback` is the child of a callback that was rendered and spawned.
use pueue.Base.{Bool, true, false, none, some, [], ◌∷◌, ◌++◌, keep}
use pueue.Task.{Task}
use pueue.Daemon.Os.{Os, Settings, called_back, Wait, still_running}
use pueue.Daemon.Internal.{InternalState, log_effect}

unfoldable pub spawn_callback : Os → Settings → InternalState → Task → InternalState
spawn_callback os settings s task = elim settings.callback [
  | none ↦ s
  | some template_string ↦ elim (os.spawn_callback s.trace template_string task) [
    | none ↦ s
    | some child ↦
        log_effect (called_back task) (record s { callbacks = s.callbacks ++ child ∷ [] })
  ]
]

abbrev pub is_waiting : Wait → Bool
is_waiting still_running = true
is_waiting _ = false

-- Finished and failed callbacks are taken out, from the last to the first.
unfoldable pub check_callbacks : Os → InternalState → InternalState
check_callbacks os s = record s {
  callbacks = keep (λ child. is_waiting (os.try_wait s.trace child)) s.callbacks;
}
