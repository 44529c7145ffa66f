-- ===== src/Network.antt =====
-- The protocol beneath all communication (pueue_lib/src/network), and the connections of the daemon
-- (pueue/src/daemon/network/socket/mod.rs).
pub mod Socket
pub mod Protocol
