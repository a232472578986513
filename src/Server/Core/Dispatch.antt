-- ===== src/Server/Core/Dispatch.antt =====
-- handleMessage, and the parts of handleControlConn, of pkg/server/control.go as steps on sessions,
-- channels and connections.
use gospeak.Prelude.{
  ℕ, ◌≡◌, refl, Option, none, some, arith, inl, inr, Text, ℕ_eq, ℤ_eq, text_eq, Int.ℤ, Int.pos,
  Int.ltb_ℤ, Option-cases, Bool-cases, ◌==◌,
}
use gospeak.Model.{Role, Time, User, manage_roles, parse_role}
use gospeak.Rbac.{require_permission}
use gospeak.Store.{DataStore, Result-cases}
use gospeak.Server.Channels
use gospeak.Server.Sessions
use gospeak.Server.Sessions.{SessionManager}
use gospeak.Server.Config.{Yaml}
use gospeak.Server.State.{Server, ControlMessage, AuthRequest, SetUserRoleRequest}
use gospeak.Server.Broadcast.{send, send_error, remove_conn}
use gospeak.Server.Control.Moderation.{update_session_role, grant_role, handle_set_user_role}
use gospeak.Server.Control.Transfer.{handle_export_data, handle_import_channels}
use gospeak.Server.Control.Dispatch.{handle_message, case_of}
use gospeak.Server.Control.Connection.{
  Environment, count_failed_auth, close_conn, check_token, give_token, find_or_create, check_ban,
  authenticate, disconnected,
}
use gospeak.Server.Voice.{target}
use gospeak.Server.Core.{core, departed, sets_role, none_done}
use gospeak.Server.Core.Frame.{
  core-broadcast_to_channel, core-broadcast_server_state, core-cleanup_temp_channel,
}
use gospeak.Server.Core.Handlers.{
  Leads, one, handle_join_channel-Leads, handle_leave_channel-Leads, core-handle_channel_list,
  handle_user_state-Leads, core-handle_create_channel, handle_delete_channel-Leads,
  core-handle_create_token, core-handle_kick_user, core-handle_ban_user, core-handle_chat_message,
}

update_session_role-Leads :
    {S : Type 0} (ds : DataStore S) (u : ℤ) (role : Role) (s : Server S)
    → Leads s (update_session_role ds u role s)
unfolding update_session_role
update_session_role-Leads ds u role s =
    elim (Option-cases (Sessions.get_by_user_id_snapshot u s.sessions)) [
      | inl e ↦ rw (e, update_session_role) none_done
      | inr (target, e) ↦ rw (e, update_session_role) (one (sets_role target.id role))
    ]

grant_role-Leads :
    {S : Type 0} (ds : DataStore S) (u : ℤ) (role : Role) (conn : ℕ) (s : Server S)
    → Leads s (grant_role ds u role conn s)
unfolding grant_role send_error send
grant_role-Leads ds u role conn s = elim (Result-cases (ds.update_user_role u role s.store).0) [
  | inl (x, f) ↦ rw (f, grant_role) none_done
  | inr (x, f) ↦
      rw (f, grant_role, core-broadcast_server_state)
        (update_session_role-Leads ds u role
          (record s { store = (ds.update_user_role u role s.store).1 }))
]

handle_set_user_role-Leads :
    {S : Type 0} (ds : DataStore S) (sid : ℕ) (req : SetUserRoleRequest) (conn : ℕ) (s : Server S)
    → Leads s (handle_set_user_role ds sid req conn s)
unfolding handle_set_user_role send_error send
handle_set_user_role-Leads ds sid req conn s =
    elim (Option-cases (Sessions.get_snapshot sid s.sessions)) [
      | inl e ↦ rw (e, handle_set_user_role) none_done
      | inr (session, e) ↦ elim (Option-cases (require_permission session.role manage_roles)) [
        | inr (m, f) ↦ rw (e, f, handle_set_user_role) none_done
        | inl f ↦ elim (Bool-cases (req.target_user_id == session.user_id)) [
          | inl g ↦ rw (e, f, g, handle_set_user_role) none_done
          | inr g ↦ elim (Bool-cases (ltb_ℤ session.role (parse_role req.new_role))) [
            | inl h ↦ rw (e, f, g, h, handle_set_user_role) none_done
            | inr h ↦
                rw (e, f, g, h, handle_set_user_role)
                  (grant_role-Leads ds req.target_user_id (parse_role req.new_role) conn s)
          ]
        ]
      ]
    ]

core-handle_export_data :
    {S : Type 0} (ds : DataStore S) (yaml : Yaml) (sid : ℕ) (kind : Text) (conn : ℕ) (s : Server S)
    → core (handle_export_data ds yaml sid kind conn s) ≡ core s
unfolding handle_export_data send_error send
core-handle_export_data ds yaml sid kind conn s = ground arith

core-handle_import_channels :
    {S : Type 0} (ds : DataStore S) (yaml : Yaml) (now : Time) (sid : ℕ) (input : Text) (conn : ℕ)
    (s : Server S)
    → core (handle_import_channels ds yaml now sid input conn s) ≡ core s
unfolding handle_import_channels send_error send
core-handle_import_channels ds yaml now sid input conn s =
    grind (arith, core-broadcast_server_state)

pub core-authenticate :
    {S : Type 0} (ds : DataStore S) (env : Environment) (req : AuthRequest) (s : Server S)
    → core (authenticate ds env req s).1 ≡ core s
unfolding authenticate check_token find_or_create give_token count_failed_auth check_ban
core-authenticate ds env req s = ground arith

pub core-disconnected :
    {S : Type 0} (ds : DataStore S) (env : Environment) (conn sid : ℕ) (user : User) (s : Server S)
    → core (disconnected ds env conn sid user s) ≡ departed sid (core s)
unfolding disconnected close_conn remove_conn departed
core-disconnected ds env conn sid user s =
    elim (Bool-cases (ltb_ℤ (pos 0) (Channels.leave sid s.channels).1)) [
      | inl e ↦
          rw
            (
              e, disconnected, core-broadcast_server_state, core-cleanup_temp_channel,
              core-broadcast_to_channel,
            )
            refl
      | inr e ↦ rw (e, disconnected, core-broadcast_server_state) refl
    ]

-- `Leads`, not computed when two of them are compared.
Follows : {S : Type 0} → Server S → Server S → Type 0
Follows s s' = Leads s s'

leads : {S : Type 0} (s s' : Server S) → Leads s s' → Follows s s'
unfolding Follows
leads s s' steps = steps

unmoved : {S : Type 0} (s s' : Server S) → core s' ≡ core s → Follows s s'
unfolding Follows
unmoved s s' e = rw (e, Follows) none_done

case_of-Follows :
    {S : Type 0} {A : Type 0} (s : Server S) (o : Option A) (handle : A → Server S)
    (below : Server S)
    → ((a : A) → Follows s (handle a))
    → Follows s below
    → Follows s (case_of o handle below)
unfolding case_of
case_of-Follows s none handle below h b = b
case_of-Follows s (some a) handle below h b = h a

handle_message-Follows :
    {S : Type 0} (ds : DataStore S) (yaml : Yaml) (sha256 : Text → Text) (now : Time)
    (random : Option Text) (sid : ℕ) (msg : ControlMessage) (conn : ℕ) (s : Server S)
    → Follows s (handle_message ds yaml sha256 now random sid msg conn s)
unfolding handle_message send
handle_message-Follows ds yaml sha256 now random sid msg conn s =
    case_of-Follows s msg.join_channel_request _ _
      (λ c. leads s _ (handle_join_channel-Leads ds sid c conn s))
      (case_of-Follows s msg.leave_channel_request _ _
        (λ u. leads s _ (handle_leave_channel-Leads ds now sid conn s))
        (case_of-Follows s msg.channel_list_request _ _
          (λ u. unmoved s _ (core-handle_channel_list ds conn s))
          (case_of-Follows s msg.user_state_update _ _
            (λ upd. leads s _ (handle_user_state-Leads ds sid upd s))
            (case_of-Follows s msg.create_channel_req _ _
              (λ r. unmoved s _ (core-handle_create_channel ds now sid r conn s))
              (case_of-Follows s msg.delete_channel_req _ _
                (λ c. leads s _ (handle_delete_channel-Leads ds sid c conn s))
                (case_of-Follows s msg.create_token_req _ _
                  (λ r. unmoved s _ (core-handle_create_token ds now random sha256 sid r conn s))
                  (case_of-Follows s msg.kick_user_req _ _
                    (λ r. unmoved s _ (core-handle_kick_user sid r conn s))
                    (case_of-Follows s msg.ban_user_req _ _
                      (λ r. unmoved s _ (core-handle_ban_user ds now sid r conn s))
                      (case_of-Follows s msg.chat_msg _ _
                        (λ t. unmoved s _ (core-handle_chat_message now sid t s))
                        (case_of-Follows s msg.set_user_role_req _ _
                          (λ r. leads s _ (handle_set_user_role-Leads ds sid r conn s))
                          (case_of-Follows s msg.export_data_req _ _
                            (λ k. unmoved s _ (core-handle_export_data ds yaml sid k conn s))
                            (case_of-Follows s msg.import_channels_req _ _
                              (λ t.
                                unmoved s _ (core-handle_import_channels ds yaml now sid t conn s))
                              (case_of-Follows s msg.ping _ _ (λ t. unmoved s _ refl)
                                (unmoved s s refl))))))))))))))

pub handle_message-Leads :
    {S : Type 0} (ds : DataStore S) (yaml : Yaml) (sha256 : Text → Text) (now : Time)
    (random : Option Text) (sid : ℕ) (msg : ControlMessage) (conn : ℕ) (s : Server S)
    → Leads s (handle_message ds yaml sha256 now random sid msg conn s)
unfolding Follows
handle_message-Leads = handle_message-Follows
