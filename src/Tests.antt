-- ===== src/Tests.antt =====
-- Runs of the modelled code, and its theorems at concrete arguments.
pub mod Wire
pub mod Store
pub mod Server
pub mod Managers
pub mod Client
pub mod Speech
pub mod Engine
pub mod Start
pub mod Migrations
pub mod Bans
pub mod Conversation
