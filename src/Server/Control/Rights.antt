-- ===== src/Server/Control/Rights.antt =====
-- Who may do what by the handlers of pkg/server/control.go.
use gospeak.Prelude.{
  ℕ, ◌≡◌, ◌≢◌, refl, sym, ap, ◌∙◌, ◌⊎◌, inl, inr, false, Option, some, arith, Text, ℤ_eq, Int.ℤ,
  Int.ltb_ℤ, Option-cases, Int.eqb_ℤ_iff, ◌++◌, text, text_eq,
}
use gospeak.Model.{
  Session, Role, role_admin, role_moderator, Permission, Time, create_channel, delete_channel,
  kick_user, ban_user, manage_tokens, manage_roles, parse_role,
}
use gospeak.Rbac.{require_permission, require_permission_iff}
use gospeak.Store.{DataStore, Result-cases}
use gospeak.Server.Sessions
use gospeak.Server.Sessions.Invariant.{IsValid, get_snapshot-update, get_by_user_id_snapshot-some}
use gospeak.Server.Config.{Yaml}
use gospeak.Server.State.{
  Server, CreateTokenRequest, KickUserRequest, BanUserRequest, SetUserRoleRequest,
}
use gospeak.Server.Broadcast.{send, send_error}
use gospeak.Server.Core.Frame.{core-broadcast_server_state}
use gospeak.Server.Control.ChannelAdmin.{handle_delete_channel}
use gospeak.Server.Control.Moderation.{
  handle_create_token, handle_kick_user, handle_ban_user, update_session_role, grant_role,
  handle_set_user_role,
}
use gospeak.Server.Control.Transfer.{handle_export_data, handle_import_channels}

-- The answer is an error with code 30, "permission denied", and nothing else happens.
pub IsRefusal : {S : Type 0} → ℕ → Server S → Server S → Type 0
IsRefusal conn s s' = (m : Text) × (s' ≡ send_error conn 30 m s)

denied :
    (role : Role) (perm : Permission)
    → role ≢ role_admin
    → (role ≢ role_moderator) ⊎ (perm ≢ kick_user)
    → (m : Text) × (require_permission role perm ≡ some m)
denied role perm a b = elim (Option-cases (require_permission role perm)) [
  | inl e ↦ absurd (ground (arith, require_permission_iff role perm))
  | inr (m, e) ↦ (m, e)
]

update_session_role-gives :
    {S : Type 0} (ds : DataStore S) (u : ℤ) (role : Role) (s : Server S) (t : ℕ) (old new : Session)
    → Sessions.get_snapshot t s.sessions ≡ some old
    → Sessions.get_snapshot t (update_session_role ds u role s).sessions ≡ some new
    → IsValid s.sessions
    → new.role ≢ old.role
    → (new.role ≡ role) × (old.user_id ≡ u)
unfolding update_session_role Sessions.update_role
update_session_role-gives ds u role s t old new e f v g =
    elim (Option-cases (Sessions.get_by_user_id_snapshot u s.sessions)) [
      | inl h ↦ absurd (ground arith)
      | inr (target, h) ↦
          let (found, its_user) = get_by_user_id_snapshot-some u s.sessions target v h in
          ground (
            arith,
            found,
            its_user,
            get_snapshot-update (λ ss. record ss { role = role }) target.id t s.sessions,
          )
    ]

grant_role-gives :
    {S : Type 0} (ds : DataStore S) (u : ℤ) (role : Role) (conn : ℕ) (s : Server S) (t : ℕ)
    (old new : Session)
    → IsValid s.sessions
    → Sessions.get_snapshot t s.sessions ≡ some old
    → Sessions.get_snapshot t (grant_role ds u role conn s).sessions ≡ some new
    → new.role ≢ old.role
    → (new.role ≡ role) × (old.user_id ≡ u)
unfolding grant_role send_error send
grant_role-gives ds u role conn s t old new v e f g =
    elim (Result-cases (ds.update_user_role u role s.store).0) [
      | inl (x, h) ↦ absurd (ground arith)
      | inr (x, h) ↦
          update_session_role-gives ds u role
            (record s { store = (ds.update_user_role u role s.store).1 }) t old new e
            (rw (h, grant_role)
                (sym
                  (ap (λ k. Sessions.get_snapshot t k.sessions) (core-broadcast_server_state ds _)))
              ∙ f)
            v g
    ]

module _ {S : Type 0} (ds : DataStore S) (yaml : Yaml) (sha256 : Text → Text) where
  -- A session whose role is not the admin's gets error 30 and changes nothing when it asks to delete
  -- a channel, to create a token, to ban a user, to set a role, or to export or import data.
  pub handlers_admin_only :
      (now : Time) (random : Option Text) (sid : ℕ) (session : Session) (conn : ℕ) (s : Server S)
      (c : ℤ) (tr : CreateTokenRequest) (br : BanUserRequest) (rr : SetUserRoleRequest)
      (kind input : Text)
      → Sessions.get_snapshot sid s.sessions ≡ some session
      → session.role ≢ role_admin
      → IsRefusal conn s (handle_delete_channel ds sid c conn s)
        × IsRefusal conn s (handle_create_token ds now random sha256 sid tr conn s)
        × IsRefusal conn s (handle_ban_user ds now sid br conn s)
        × IsRefusal conn s (handle_set_user_role ds sid rr conn s)
        × IsRefusal conn s (handle_export_data ds yaml sid kind conn s)
        × IsRefusal conn s (handle_import_channels ds yaml now sid input conn s)
  unfolding IsRefusal
  handlers_admin_only now random sid session conn s c tr br rr kind input e a =
      let no_kick : (p : Permission)
          → p ≢ kick_user
          → (m : Text) × (require_permission session.role p ≡ some m) =
        λ p q. denied session.role p a (inr q) in
      let (m1, e1) = no_kick delete_channel (λ x. cc) in
      let (m2, e2) = no_kick manage_tokens (λ x. cc) in
      let (m3, e3) = no_kick ban_user (λ x. cc) in
      let (m4, e4) = no_kick manage_roles (λ x. cc) in
      let (m5, e5) = no_kick create_channel (λ x. cc) in
      (
        (m1, unfold handle_delete_channel in rw (e, e1, handle_delete_channel) refl),
        (m2, unfold handle_create_token in rw (e, e2, handle_create_token) refl),
        (m3, unfold handle_ban_user in rw (e, e3, handle_ban_user) refl),
        (m4, unfold handle_set_user_role in rw (e, e4, handle_set_user_role) refl),
        (
          text "admin only: " ++ m5,
          unfold handle_export_data in rw (e, e5, handle_export_data) refl,
        ),
        (
          text "admin only: " ++ m5,
          unfold handle_import_channels in rw (e, e5, handle_import_channels) refl,
        ),
      )

module _ {S : Type 0} where
  -- A session that is neither the admin's nor a moderator's cannot kick.
  pub handle_kick_user_refused :
      (sid : ℕ) (session : Session) (conn : ℕ) (s : Server S) (req : KickUserRequest)
      → Sessions.get_snapshot sid s.sessions ≡ some session
      → session.role ≢ role_admin
      → session.role ≢ role_moderator
      → IsRefusal conn s (handle_kick_user sid req conn s)
  unfolding IsRefusal
  handle_kick_user_refused sid session conn s req e a b =
      let (m, f) = denied session.role kick_user a (inl b) in
      (m, unfold handle_kick_user in rw (e, f, handle_kick_user) refl)

module _ {S : Type 0} (ds : DataStore S) where
  -- If a request to set a role changes the role of a session, then the sender is an admin, the
  -- session is one of the user that the request names, who is not the sender's own user, and it gets
  -- the role that the request names, which is not above the sender's. The sessions are valid, as they
  -- are after any calls on their manager.
  pub handle_set_user_role-guards :
      (sid : ℕ) (req : SetUserRoleRequest) (conn : ℕ) (s : Server S) (t : ℕ) (old new : Session)
      → IsValid s.sessions
      → Sessions.get_snapshot t s.sessions ≡ some old
      → Sessions.get_snapshot t (handle_set_user_role ds sid req conn s).sessions ≡ some new
      → new.role ≢ old.role
      → (sender : Session) × (Sessions.get_snapshot sid s.sessions ≡ some sender)
        × (sender.role ≡ role_admin)
        × (old.user_id ≡ req.target_user_id)
        × (old.user_id ≢ sender.user_id)
        × (new.role ≡ parse_role req.new_role)
        × (ltb_ℤ sender.role new.role ≡ false)
  unfolding handle_set_user_role send_error send
  handle_set_user_role-guards sid req conn s t old new v e f g =
      elim (Option-cases (Sessions.get_snapshot sid s.sessions)) [
        | inl h ↦ absurd (ground arith)
        | inr (sender, h) ↦
            let (admin, named, other, given, below) : (sender.role ≡ role_admin)
                × (old.user_id ≡ req.target_user_id)
                × (req.target_user_id ≢ sender.user_id)
                × (new.role ≡ parse_role req.new_role)
                × (ltb_ℤ sender.role new.role ≡ false) =
              ground (
                arith,
                require_permission_iff sender.role manage_roles,
                eqb_ℤ_iff req.target_user_id sender.user_id,
                grant_role-gives ds req.target_user_id (parse_role req.new_role) conn s t old new v
                    e,
              ) in
            (sender, h, admin, named, (λ same. other (sym named ∙ same)), given, below)
      ]
