-- ===== src/Daemon/Handlers.antt =====
-- The message handlers of the daemon (pueue/src/daemon/network/message_handler).
pub mod Remove
pub mod Add
pub mod Edit
pub mod Queue
pub mod Groups
pub mod Control
pub mod Switch
pub mod Output
