-- ===== src/Server/Core/Handlers.antt =====
-- The handlers of pkg/server/control.go as steps on sessions, channels and connections.
use gospeak.Prelude.{
  ℕ, ◌≡◌, refl, List, [], ◌∷◌, Option, none, some, arith, inl, inr, Text, ℕ_eq, ℤ_eq, Int.ℤ,
  Int.pos, Int.ltb_ℤ, Option-cases, Bool-cases,
}
use gospeak.Model.{Session, Channel, Time, delete_channel}
use gospeak.Rbac.{require_permission}
use gospeak.Store.{DataStore, ok, Result-cases}
use gospeak.Server.Channels
use gospeak.Server.Sessions
use gospeak.Server.Sessions.{SessionManager}
use gospeak.Server.State.{
  Server, UserStateUpdate, CreateChannelRequest, CreateTokenRequest, KickUserRequest,
  BanUserRequest,
}
use gospeak.Server.Broadcast.{send, send_error}
use gospeak.Server.Control.Membership.{
  is_full, move_session, take_out, join_channel, handle_join_channel, handle_leave_channel,
  handle_channel_list, handle_user_state, handle_chat_message,
}
use gospeak.Server.Control.ChannelAdmin.{
  check_sub_channel, check_create, store_channel, handle_create_channel, evict, drop_channel,
  handle_delete_channel,
}
use gospeak.Server.Control.Moderation.{
  handle_create_token, issue_token, handle_kick_user, handle_ban_user,
}
use gospeak.Server.Core.{
  Core, core, moved, taken_out, Step, moves, takes_out, sets_state, Steps, none_done, one_more,
}
use gospeak.Server.Core.Frame.{
  core-broadcast_to_channel, core-broadcast_server_state, core-send_server_state, core-notify_left,
  core-cleanup_temp_channel, core-disconnect, core-disconnect_user,
}

-- One state of the server follows another by steps of the core.
abbrev pub Leads : {S : Type 0} → Server S → Server S → Type 0
Leads s s' = Steps (core s) (core s')

pub one : {k l : Core} → Step k l → Steps k l
one step = one_more none_done step

core-join_channel :
    {S : Type 0} (ds : DataStore S) (conn : ℕ) (session : Session) (ch : Channel) (s : Server S)
    → core (join_channel ds conn session ch s) ≡ moved session.id ch.id (core s)
unfolding join_channel move_session moved
core-join_channel ds conn session ch s =
    elim (Bool-cases (ltb_ℤ (pos 0) (Channels.join session.id ch.id s.channels).1)) [
      | inl e ↦
          rw
            (
              e, core-broadcast_server_state, core-send_server_state, core-broadcast_to_channel,
              core-notify_left,
            )
            refl
      | inr e ↦
          rw (e, core-broadcast_server_state, core-send_server_state, core-broadcast_to_channel)
            refl
    ]

pub handle_join_channel-Leads :
    {S : Type 0} (ds : DataStore S) (sid : ℕ) (c : ℤ) (conn : ℕ) (s : Server S)
    → Leads s (handle_join_channel ds sid c conn s)
unfolding handle_join_channel send_error send
handle_join_channel-Leads ds sid c conn s =
    elim (Option-cases (Sessions.get_snapshot sid s.sessions)) [
      | inl e ↦ rw (e, handle_join_channel) none_done
      | inr (session, e) ↦ elim (Result-cases (ds.get_channel c s.store)) [
        | inl (x, f) ↦ rw (e, f, handle_join_channel) none_done
        | inr (found, f) ↦ joins session e found f
      ]
    ]
  where
    joins :
        (session : Session)
        → Sessions.get_snapshot sid s.sessions ≡ some session
        → (found : Option Channel) → ds.get_channel c s.store ≡ ok found
        → Leads s (handle_join_channel ds sid c conn s)
    joins session e none f = rw (e, f, handle_join_channel) none_done
    joins session e (some ch) f = elim (Bool-cases (is_full ch s)) [
      | inl g ↦ rw (e, f, g, handle_join_channel) none_done
      | inr g ↦
          rw (e, f, g, handle_join_channel, core-join_channel) (one (moves sid session ch.id e))
    ]

evict-Leads :
    {S : Type 0} (ds : DataStore S) (sids : List ℕ) (s t : Server S)
    → Leads s t
    → Leads s (evict ds sids t)
unfolding evict taken_out
evict-Leads ds [] s t steps = steps
evict-Leads ds (sid ∷ sids) s t steps = evict-Leads ds sids s _ (one_more steps (takes_out sid))

pub handle_leave_channel-Leads :
    {S : Type 0} (ds : DataStore S) (now : Time) (sid conn : ℕ) (s : Server S)
    → Leads s (handle_leave_channel ds now sid conn s)
unfolding handle_leave_channel send_error send take_out taken_out
handle_leave_channel-Leads ds now sid conn s =
    elim (Option-cases (Sessions.get_snapshot sid s.sessions)) [
      | inl e ↦ rw (e, handle_leave_channel) none_done
      | inr (session, e) ↦
          elim (Bool-cases (ltb_ℤ (pos 0) (Channels.leave session.id s.channels).1)) [
            | inl g ↦
                rw
                  (
                    e, g, handle_leave_channel, core-broadcast_server_state,
                    core-cleanup_temp_channel, core-notify_left,
                  )
                  (one (takes_out session.id))
            | inr g ↦
                rw (e, g, handle_leave_channel, core-broadcast_server_state)
                  (one (takes_out session.id))
          ]
    ]

pub handle_user_state-Leads :
    {S : Type 0} (ds : DataStore S) (sid : ℕ) (upd : UserStateUpdate) (s : Server S)
    → Leads s (handle_user_state ds sid upd s)
unfolding handle_user_state
handle_user_state-Leads ds sid upd s =
    rw (core-broadcast_server_state) (one (sets_state sid upd.muted upd.deafened))

pub core-handle_chat_message :
    {S : Type 0} (now : Time) (sid : ℕ) (t : Text) (s : Server S)
    → core (handle_chat_message now sid t s) ≡ core s
unfolding handle_chat_message
core-handle_chat_message now sid t s = grind (arith, core-broadcast_to_channel)

drop_channel-Leads :
    {S : Type 0} (ds : DataStore S) (c : ℤ) (conn : ℕ) (s : Server S)
    → Leads s (drop_channel ds c conn s)
unfolding drop_channel send_error send
drop_channel-Leads ds c conn s = elim (Result-cases (ds.delete_channel c s.store).0) [
  | inl (x, f) ↦ rw (f, drop_channel) none_done
  | inr (u, f) ↦
      rw (f, drop_channel, core-broadcast_server_state)
        (evict-Leads ds (Channels.members c s.channels) s
          (record s { store = (ds.delete_channel c s.store).1 }) none_done)
]

pub handle_delete_channel-Leads :
    {S : Type 0} (ds : DataStore S) (sid : ℕ) (c : ℤ) (conn : ℕ) (s : Server S)
    → Leads s (handle_delete_channel ds sid c conn s)
unfolding handle_delete_channel send_error send
handle_delete_channel-Leads ds sid c conn s =
    elim (Option-cases (Sessions.get_snapshot sid s.sessions)) [
      | inl e ↦ rw (e, handle_delete_channel) none_done
      | inr (session, e) ↦ elim (Option-cases (require_permission session.role delete_channel)) [
        | inl f ↦ rw (e, f, handle_delete_channel) (drop_channel-Leads ds c conn s)
        | inr (m, f) ↦ rw (e, f, handle_delete_channel) none_done
      ]
    ]

core-check_create :
    {S : Type 0} (ds : DataStore S) (now : Time) (session : Session) (req : CreateChannelRequest)
    (s : Server S)
    → core (check_create ds now session req s).1 ≡ core s
unfolding check_create check_sub_channel
core-check_create ds now session req s = ground arith

core-store_channel :
    {S : Type 0} (ds : DataStore S) (now : Time) (ch : Channel) (conn : ℕ) (s : Server S)
    → core (store_channel ds now ch conn s) ≡ core s
unfolding store_channel send_error send
core-store_channel ds now ch conn s = grind (arith, core-broadcast_server_state)

pub core-handle_create_channel :
    {S : Type 0} (ds : DataStore S) (now : Time) (sid : ℕ) (req : CreateChannelRequest) (conn : ℕ)
    (s : Server S)
    → core (handle_create_channel ds now sid req conn s) ≡ core s
unfolding handle_create_channel send_error send
core-handle_create_channel ds now sid req conn s =
    grind (arith, core-store_channel, core-check_create)

pub core-handle_create_token :
    {S : Type 0} (ds : DataStore S) (now : Time) (random : Option Text) (sha256 : Text → Text)
    (sid : ℕ) (req : CreateTokenRequest) (conn : ℕ) (s : Server S)
    → core (handle_create_token ds now random sha256 sid req conn s) ≡ core s
unfolding handle_create_token issue_token send_error send
core-handle_create_token ds now random sha256 sid req conn s = ground arith

pub core-handle_kick_user :
    {S : Type 0} (sid : ℕ) (req : KickUserRequest) (conn : ℕ) (s : Server S)
    → core (handle_kick_user sid req conn s) ≡ core s
unfolding handle_kick_user send_error send
core-handle_kick_user sid req conn s = grind (arith, core-disconnect)

pub core-handle_ban_user :
    {S : Type 0} (ds : DataStore S) (now : Time) (sid : ℕ) (req : BanUserRequest) (conn : ℕ)
    (s : Server S)
    → core (handle_ban_user ds now sid req conn s) ≡ core s
unfolding handle_ban_user send_error send
core-handle_ban_user ds now sid req conn s = grind (arith, core-disconnect_user)

pub core-handle_channel_list :
    {S : Type 0} (ds : DataStore S) (conn : ℕ) (s : Server S)
    → core (handle_channel_list ds conn s) ≡ core s
unfolding handle_channel_list send
core-handle_channel_list ds conn s = refl
