-- ===== src/Daemon/Process/Signals.antt =====
-- Signals to the child of a task: `perform_action` of process_handler/mod.rs, and
-- `send_internal_signal` and `kill_task` of process_handler/kill.rs.
use pueue.Base.{ℕ, Bool, true, false, none, some, if◌then◌else◌}
use pueue.Message.{Signal}
use pueue.Daemon.Os.{
  Os, Child, UnixSignal, ProcessAction, signalled, signal_refused, killed_child, signal_of_action,
  signal_from_internal,
}
use pueue.Daemon.Workers.{get_child}
use pueue.Daemon.Internal.{InternalState, log_effect}

-- The state after the attempt, and whether the signal was sent.
unfoldable pub send_signal_to_child : Os → InternalState → UnixSignal → Child → InternalState × Bool
send_signal_to_child os s signal child =
    if os.signal_succeeds s.trace signal child
    then (log_effect (signalled signal child) s, true)
    else (log_effect (signal_refused signal child) s, false)

-- Both failures, a refused signal (`Err`) and a task without a child (`Ok(false)`), are `false` here:
-- every caller treats them alike.
unfoldable pub perform_action : Os → InternalState → ℕ → ProcessAction → InternalState × Bool
unfolding send_signal_to_child signal_of_action
perform_action os s id action = elim (get_child s.children id) [
  | none ↦ (s, false)
  | some child ↦ send_signal_to_child os s (signal_of_action action) child
]

unfoldable pub send_internal_signal : Os → InternalState → ℕ → Signal → InternalState
unfolding send_signal_to_child signal_from_internal
send_internal_signal os s task_id signal = elim (get_child s.children task_id) [
  | none ↦ s
  | some child ↦ (send_signal_to_child os s (signal_from_internal signal) child).0
]

-- A kill that the system refuses is only logged.
unfoldable pub kill_task : InternalState → ℕ → InternalState
kill_task s task_id = elim (get_child s.children task_id) [
  | none ↦ s
  | some child ↦ log_effect (killed_child child) s
]
