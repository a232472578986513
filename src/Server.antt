-- ===== src/Server.antt =====
-- The server: pkg/server. One child for each of its parts.
pub mod Channels
pub mod Sessions
pub mod State
pub mod Broadcast
pub mod Config
pub mod Core
pub mod Control
pub mod Voice
pub mod Start
