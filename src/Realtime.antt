-- ===== src/Realtime.antt =====
-- apps/api/src/realtime: what stands between the sockets and the commands.
pub mod AvailableActions
pub mod Redis
pub mod Requests
pub mod Locks
pub mod Connections
pub mod ChatCache
pub mod Timers
pub mod Envelope
pub mod ReconnectState
pub mod Gateway
