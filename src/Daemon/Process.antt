-- ===== src/Daemon/Process.antt =====
-- pueue/src/daemon/process_handler: starting, pausing, killing and finishing tasks, and the shutdown.
pub mod Signals
pub mod Kill
pub mod Spares
pub mod Spawn
pub mod Start
pub mod Pause
pub mod Finish
