-- ===== src/Bridge.antt =====
-- The session bridge inside Blender, without Blender's own API (bridge/core/).
pub mod Queue
pub mod Outbox
pub mod Dispatch
pub mod Loop
pub mod Shutdown
pub mod Router
