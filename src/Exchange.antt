-- ===== src/Exchange.antt =====
-- The client and the server together: what src/client/client_v2.c sends, read by `respond` of
-- src/server/server.h.
mod Samples
mod Tests
pub mod Post
pub mod Get
pub mod Waiting
