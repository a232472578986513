-- ===== src/Server/Control.antt =====
-- The handlers of the control plane: pkg/server/control.go. Each child has a few of them.
pub mod Membership
pub mod ChannelAdmin
pub mod Moderation
pub mod Transfer
pub mod Rights
pub mod Admission
pub mod Joins
pub mod Leaves
pub mod Authentication
pub mod Connection
pub mod Dispatch
