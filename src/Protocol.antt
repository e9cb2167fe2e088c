-- ===== src/Protocol.antt =====
-- The wire protocol shared by server and bridge (protocol/).
pub mod Framing
pub mod Json
pub mod Envelope
