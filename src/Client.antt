-- ===== src/Client.antt =====
-- Parts of the desktop client: pkg/client.
pub mod Jitter
pub mod Bookmarks
pub mod Control
pub mod Voice
pub mod Playback
pub mod Engine
pub mod Conversation
