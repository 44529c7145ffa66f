-- ===== src/Daemon.antt =====
-- The daemon of pueue.
pub mod Os
pub mod LogFile
pub mod Workers
pub mod Internal
pub mod Links
pub mod Callbacks
pub mod Process
pub mod TaskHandler
pub mod Responses
pub mod Handlers
pub mod Connection
pub mod Ordered
pub mod Reachable
