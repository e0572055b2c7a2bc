-- ===== src/Web.antt =====
-- apps/web: what the client works out of what the server sends.
pub mod Chat
pub mod PlayUi
pub mod Timeline
