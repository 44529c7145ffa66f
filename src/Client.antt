-- ===== src/Client.antt =====
-- The client of pueue (pueue/src/client).
pub mod Numbers
pub mod TaskIds
pub mod Query
pub mod Archive
pub mod Wait
pub mod Requests
pub mod Copies
