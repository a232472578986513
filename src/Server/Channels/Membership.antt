-- ===== src/Server/Channels/Membership.antt =====
-- What the methods of the ChannelManager of pkg/server/channels.go tell and change.
use gospeak.Prelude.{
  ℕ, ◌+◌, ◌≡◌, refl, ◌∙◌, inl, inr, true, List, [], ◌∷◌, Option, none, some, arith, ◌==◌, eqb_iff,
  if◌then◌else◌, length, keys, lookup, delete, lookup-insert, lookup-delete, length-insert,
  length-delete, elem, elem-keys, ℕ_eq, ℤ_eq, Int.ℤ, Option-cases,
}
use gospeak.Server.Channels.{
  ChannelManager, new, drop_member, join, leave, members, channel_of, members_count,
}
use gospeak.Server.Channels.Invariant.{
  set_of, IsConsistent, new-IsConsistent, join-IsConsistent, leave-IsConsistent, set_of-add_member,
  set_of-drop_member, owns,
}

-- A call that changes the manager.
pub data Call : Type 0 where
  joins : ℕ → ℤ → Call
  leaves : ℕ → Call

unfoldable pub run : ChannelManager → List Call → ChannelManager
run cm [] = cm
run cm (joins sid cid ∷ calls) = run (join sid cid cm).0 calls
run cm (leaves sid ∷ calls) = run (leave sid cm).0 calls

run-IsConsistent :
    (cm : ChannelManager) (calls : List Call) → IsConsistent cm → IsConsistent (run cm calls)
unfolding run
run-IsConsistent cm [] h = h
run-IsConsistent cm (joins sid cid ∷ calls) h =
    run-IsConsistent (join sid cid cm).0 calls (join-IsConsistent sid cid cm h)
run-IsConsistent cm (leaves sid ∷ calls) h =
    run-IsConsistent (leave sid cm).0 calls (leave-IsConsistent sid cm h)

-- After any joins and leaves of a new manager, the two maps agree: a channel's set holds exactly
-- the sessions whose recorded channel it is, each once, and no channel is kept with an empty set.
pub run-new-IsConsistent : (calls : List Call) → IsConsistent (run new calls)
run-new-IsConsistent calls = run-IsConsistent new calls new-IsConsistent

members_count-set_of :
    (c : ℤ) (cm : ChannelManager) → members_count c cm ≡ length (set_of c cm.members)
unfolding members_count set_of
members_count-set_of c cm = ground arith

pub members-set_of : (c : ℤ) (cm : ChannelManager) → members c cm ≡ keys (set_of c cm.members)
unfolding members set_of
members-set_of c cm = ground arith

-- The abstract view: each session's channel, if it has one.
abbrev pub where_is : ChannelManager → ℕ → Option ℤ
where_is cm t = lookup t cm.session_to_channel

-- Members lists exactly the sessions whose recorded channel it is.
pub elem-members :
    (c : ℤ) (t : ℕ) (cm : ChannelManager)
    → IsConsistent cm
    → elem t (members c cm) ≡ owns c (where_is cm t)
elem-members c t cm h = rw (members-set_of c cm) (elem-keys t (set_of c cm.members) ∙ h.agree c t)

-- A join puts the session into the channel, leaves every other session where it was, and returns
-- the channel where the session was before, or 0.
pub join_lem :
    (sid : ℕ) (cid : ℤ) (cm : ChannelManager) (t : ℕ)
    → (where_is (join sid cid cm).0 t ≡ (if sid == t then some cid else where_is cm t))
      × ((join sid cid cm).1 ≡ channel_of sid cm)
unfolding join channel_of
join_lem sid cid cm t = elim (Option-cases (lookup sid cm.session_to_channel)) [
  | inl e ↦ rw (e, join, channel_of) (lookup-insert sid t cid cm.session_to_channel, refl)
  | inr (d, e) ↦ rw (e, join, channel_of) (lookup-insert sid t cid cm.session_to_channel, refl)
]

-- A leave takes the session out of its channel, leaves every other session where it was, and
-- returns the channel where the session was, or 0.
pub leave_lem :
    (sid : ℕ) (cm : ChannelManager) (t : ℕ)
    → (where_is (leave sid cm).0 t ≡ (if sid == t then none else where_is cm t))
      × ((leave sid cm).1 ≡ channel_of sid cm)
unfolding leave channel_of
leave_lem sid cm t = elim (Option-cases (lookup sid cm.session_to_channel)) [
  | inl e ↦ rw (e, leave, channel_of) (ground (arith, eqb_iff sid t), refl)
  | inr (d, e) ↦ rw (e, leave, channel_of) (lookup-delete sid t cm.session_to_channel, refl)
]

-- A join adds one to the count of the channel if the session was not in it, and nothing if it was;
-- it takes one off the channel that the session left, and leaves all other counts as they were.
pub members_count-join :
    (sid : ℕ) (cid : ℤ) (cm : ChannelManager) (c : ℤ)
    → IsConsistent cm
    → members_count c (join sid cid cm).0 + (if owns c (where_is cm sid) then 1 else 0)
      ≡ members_count c cm + (if cid == c then 1 else 0)
unfolding join
members_count-join sid cid cm c h = elim (Option-cases (lookup sid cm.session_to_channel)) [
  | inl e ↦
      rw (e, join)
        (ground (
          arith,
          h.agree c sid,
          members_count-set_of c cm,
          members_count-set_of c (join sid cid cm).0,
          set_of-add_member cid sid c cm.members,
          length-insert sid true (set_of c cm.members),
        ))
  | inr (d, e) ↦
      rw (e, join)
        (ground (
          arith,
          h.agree c sid,
          h.sets c,
          members_count-set_of c cm,
          members_count-set_of c (join sid cid cm).0,
          set_of-add_member cid sid c (drop_member d sid cm.members),
          set_of-drop_member d sid c cm.members,
          length-insert sid true (set_of c cm.members),
          length-insert sid true (delete sid (set_of c cm.members)),
          lookup-delete sid sid (set_of c cm.members),
          length-delete sid (set_of c cm.members),
        ))
]
