-- ===== src/Server/Control/Dispatch.antt =====
-- handleMessage of pkg/server/control.go: one message of a client with a session.
use gospeak.Prelude.{ℕ, Option, none, some, Text}
use gospeak.Model.{Time}
use gospeak.Store.{DataStore}
use gospeak.Server.Config.{Yaml}
use gospeak.Server.State.{Server, ControlMessage, pong}
use gospeak.Server.Broadcast.{send}
use gospeak.Server.Control.Membership.{
  handle_join_channel, handle_leave_channel, handle_channel_list, handle_user_state,
  handle_chat_message,
}
use gospeak.Server.Control.ChannelAdmin.{handle_create_channel, handle_delete_channel}
use gospeak.Server.Control.Moderation.{
  handle_create_token, handle_kick_user, handle_ban_user, handle_set_user_role,
}
use gospeak.Server.Control.Transfer.{handle_export_data, handle_import_channels}

-- `case m != nil:` of a switch: the handler of the field if it is set, or the cases below.
unfoldable pub case_of {ℓ} : {A : Type 0} {B : Type ℓ} → Option A → (A → B) → B → B
case_of none handle below = below
case_of (some a) handle below = handle a

module _ {S : Type 0} (ds : DataStore S) (yaml : Yaml) (sha256 : Text → Text) where
  unfoldable pub handle_message : Time → Option Text → ℕ → ControlMessage → ℕ → Server S → Server S
  handle_message now random session_id msg conn s =
      case_of msg.join_channel_request (λ c. handle_join_channel ds session_id c conn s)
        (case_of msg.leave_channel_request (λ u. handle_leave_channel ds now session_id conn s)
          (case_of msg.channel_list_request (λ u. handle_channel_list ds conn s)
            (case_of msg.user_state_update (λ upd. handle_user_state ds session_id upd s)
              (case_of msg.create_channel_req
                (λ req. handle_create_channel ds now session_id req conn s)
                (case_of msg.delete_channel_req (λ c. handle_delete_channel ds session_id c conn s)
                  (case_of msg.create_token_req
                    (λ req. handle_create_token ds now random sha256 session_id req conn s)
                    (case_of msg.kick_user_req (λ req. handle_kick_user session_id req conn s)
                      (case_of msg.ban_user_req
                        (λ req. handle_ban_user ds now session_id req conn s)
                        (case_of msg.chat_msg (λ t. handle_chat_message now session_id t s)
                          (case_of msg.set_user_role_req
                            (λ req. handle_set_user_role ds session_id req conn s)
                            (case_of msg.export_data_req
                              (λ k. handle_export_data ds yaml session_id k conn s)
                              (case_of msg.import_channels_req
                                (λ t. handle_import_channels ds yaml now session_id t conn s)
                                (case_of msg.ping (λ t. send conn (pong t) s) s)))))))))))))
