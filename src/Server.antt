-- ===== src/Server.antt =====
-- The server's side of the bridge (server/core/).
pub mod Response
pub mod Client
