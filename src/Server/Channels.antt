-- ===== src/Server/Channels.antt =====
-- ChannelManager of pkg/server/channels.go: which sessions are in which voice channel. Each method
-- holds the manager's lock for its whole body, so a method is one step.
pub mod Invariant
pub mod Membership
use gospeak.Prelude.{
  ℕ, ◌+◌, Bool, true, false, List, [], ◌∷◌, Option, none, some, eqb, if◌then◌else◌, is_some, length,
  Map, keys, lookup, insert, delete, ℕ_eq, ℤ_eq, Int.ℤ, Int.pos,
}

pub record ChannelManager : Type 0 where
  pub members : Map ℤ (Map ℕ Bool)
  pub session_to_channel : Map ℕ ℤ

-- NewChannelManager
unfoldable pub new : ChannelManager
new = record { members = []; session_to_channel = [] }

-- delete(sessions, sessionID), and the channel's entry with it when that was the last session.
pub drop_member : ℤ → ℕ → Map ℤ (Map ℕ Bool) → Map ℤ (Map ℕ Bool)
drop_member current session_id members = elim (lookup current members) [
  | none ↦ members
  | some sessions ↦
      if eqb (length (delete session_id sessions)) 0
      then delete current members
      else insert current (delete session_id sessions) members
]

-- cm.members[channelID][sessionID] = true, the inner map made first if it is missing.
pub add_member : ℤ → ℕ → Map ℤ (Map ℕ Bool) → Map ℤ (Map ℕ Bool)
add_member channel_id session_id members = elim (lookup channel_id members) [
  | none ↦ insert channel_id (insert session_id true []) members
  | some sessions ↦ insert channel_id (insert session_id true sessions) members
]

-- Join returns the channel before, or 0.
unfoldable pub join : ℕ → ℤ → ChannelManager → ChannelManager × ℤ
unfolding drop_member add_member
join session_id channel_id cm = elim (lookup session_id cm.session_to_channel) [
  | none ↦ (
    record {
      members = add_member channel_id session_id cm.members;
      session_to_channel = insert session_id channel_id cm.session_to_channel;
    },
    pos 0,
  )
  | some current ↦ (
    record {
      members = add_member channel_id session_id (drop_member current session_id cm.members);
      session_to_channel = insert session_id channel_id cm.session_to_channel;
    },
    current,
  )
]

-- Leave returns the channel that was left, or 0.
unfoldable pub leave : ℕ → ChannelManager → ChannelManager × ℤ
unfolding drop_member
leave session_id cm = elim (lookup session_id cm.session_to_channel) [
  | none ↦ (cm, pos 0)
  | some current ↦ (
    record {
      members = drop_member current session_id cm.members;
      session_to_channel = delete session_id cm.session_to_channel;
    },
    current,
  )
]

-- Members
unfoldable pub members : ℤ → ChannelManager → List ℕ
members channel_id cm = elim (lookup channel_id cm.members) [
  | none ↦ []
  | some sessions ↦ keys sessions
]

-- ChannelOf: the channel of a session, or 0.
unfoldable pub channel_of : ℕ → ChannelManager → ℤ
channel_of session_id cm = elim (lookup session_id cm.session_to_channel) [
  | none ↦ pos 0
  | some c ↦ c
]

-- MembersCount
unfoldable pub members_count : ℤ → ChannelManager → ℕ
members_count channel_id cm = elim (lookup channel_id cm.members) [
  | none ↦ 0
  | some sessions ↦ length sessions
]
