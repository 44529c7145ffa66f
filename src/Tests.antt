-- ===== src/Tests.antt =====
-- Concrete inputs and tests of the modules for pueue_lib, pueue/src/daemon and pueue/src/client.
pub mod Samples
pub mod Sockets
pub mod Spawning
pub mod Removal
pub mod Adding
pub mod Processes
pub mod Requests
pub mod Client
pub mod Queries
pub mod Waiting
pub mod Commands
pub mod Network
pub mod Runs
