-- ===== src/Server/Control/Leaves.antt =====
-- What handleLeaveChannel of pkg/server/control.go leaves to clean up.
use gospeak.Prelude.{
  ℕ, ◌+◌, ltb, ◌≡◌, ap, ◌∙◌, ◌⊎◌, inl, inr, true, ◌∷◌, none, some, arith, ℤ_eq, text_eq, Int.ℤ,
  Int.pos, Int.ltb_ℤ, Bool-cases,
}
use gospeak.Model.{Session, Channel, Time}
use gospeak.Store.{DataStore, ok, Result-cases}
use gospeak.Server.Channels
use gospeak.Server.Sessions
use gospeak.Server.State.{Server}
use gospeak.Server.Broadcast.{cleanup_temp_channel, grace_period}
use gospeak.Server.Core.Frame.{quiet-broadcast_server_state, quiet-notify_left}
use gospeak.Server.Control.Membership.{notify_left, take_out, handle_leave_channel}

module _ {S : Type 0} (ds : DataStore S) where
  -- A channel that the store has, that is temporary, and that has no members.
  abbrev pub IsEmptied : ℤ → Server S → Type 0
  IsEmptied c s =
      (ch : Channel) × (ds.get_channel c s.store ≡ ok (some ch))
      × (ch.is_temp ≡ true)
      × (Channels.members_count c s.channels ≡ 0)

  cleanup_temp_channel-sleeping :
      (now : Time) (c : ℤ) (s : Server S)
      → (IsEmptied c s
          × ((cleanup_temp_channel ds now c s).sleeping ≡ (c, now + grace_period) ∷ s.sleeping))
        ⊎ ((¬ IsEmptied c s) × ((cleanup_temp_channel ds now c s).sleeping ≡ s.sleeping))
  unfolding cleanup_temp_channel
  cleanup_temp_channel-sleeping now c s = elim (Result-cases (ds.get_channel c s.store)) [
    | inl (x, e) ↦ inr ((λ (ch, f, temp, nobody). absurd (ground arith)), ground arith)
    | inr (none, e) ↦ inr ((λ (ch, f, temp, nobody). absurd (ground arith)), ground arith)
    | inr (some ch, e) ↦ elim (Bool-cases ch.is_temp) [
      | inr f ↦ inr ((λ (other, g, temp, nobody). absurd (ground arith)), ground arith)
      | inl f ↦ elim (Bool-cases (ltb 0 (Channels.members_count c s.channels))) [
        | inl g ↦ inr ((λ (other, k, temp, nobody). absurd (ground arith)), ground arith)
        | inr g ↦ inl ((ch, e, f, ground arith), ground arith)
      ]
    ]
  ]

  -- A session that leaves a channel lets a clean-up of that channel wait for the grace period, if the
  -- store has the channel, it is temporary and nobody is left in it; in every other case no clean-up
  -- is added.
  pub handle_leave_channel_lem :
      (now : Time) (sid : ℕ) (session : Session) (conn : ℕ) (s : Server S)
      → Sessions.get_snapshot sid s.sessions ≡ some session
      → let left = (Channels.leave session.id s.channels).1 in
        let s1 = record s { channels = (Channels.leave session.id s.channels).0 } in
        let after_ = (handle_leave_channel ds now sid conn s).sleeping in
        ((ltb_ℤ (pos 0) left ≡ true)
          × IsEmptied left s1
          × (after_ ≡ (left, now + grace_period) ∷ s.sleeping))
        ⊎ ((¬ ((ltb_ℤ (pos 0) left ≡ true) × IsEmptied left s1)) × (after_ ≡ s.sleeping))
  unfolding handle_leave_channel take_out
  handle_leave_channel_lem now sid session conn s e =
      let left = (Channels.leave session.id s.channels).1 in
      let s1 = (take_out session.id s).0 in
      let s2 = notify_left left session s1 in
      let told = quiet-notify_left left session s1 in
      let same_store : s2.store ≡ s.store = ap (λ k. k.store) told in
      let same_channels : s2.channels ≡ s1.channels = ap (λ k. k.channels) told in
      let same_sleeping : s2.sleeping ≡ s.sleeping = ap (λ k. k.sleeping) told in
      let shown = λ (s3 : Server S). ap (λ k. k.sleeping) (quiet-broadcast_server_state ds s3) in
      elim (Bool-cases (ltb_ℤ (pos 0) left)) [
        | inr f ↦ inr (
          (λ (nonzero, emptied). absurd (ground arith)),
          rw (e, f, handle_leave_channel) (shown s1),
        )
        | inl f ↦ elim (cleanup_temp_channel-sleeping now left s2) [
          | inl ((ch, g, temp, nobody), waits) ↦ inl (
            f,
            (ch, rw (← same_store) g, temp, rw (← same_channels) nobody),
            rw (e, f, handle_leave_channel)
                (shown _ ∙ waits ∙ ap (◌∷◌ (left, now + grace_period)) same_sleeping),
          )
          | inr (unmet, stays) ↦ inr (
            (λ (nonzero, (ch, g, temp, nobody)).
                unmet (ch, rw same_store g, temp, rw same_channels nobody)),
            rw (e, f, handle_leave_channel) (shown _ ∙ stays ∙ same_sleeping),
          )
        ]
      ]
