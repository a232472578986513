-- ===== src/Client/Engine/Requests/Commands.antt =====
-- The methods of the engine as commands of the user: pkg/client/engine.go.
use gospeak.Prelude.{
  subst, sym, ◌∙◌, ℕ, ◌≡◌, refl, Bool, true, ◌∷◌, Option, none, some, if◌then◌else◌, Text, ◌==◌,
  Int.ℤ, Int.pos, ℤ_eq, Option-cases, Bool-cases, inl, inr,
}
use gospeak.Client.Control.{Request, join_channel_request, leave_channel_request, chat_msg}
use gospeak.Client.Engine.{
  Engine, EngineError, not_connected, not_in_channel, not_sent, request_sent,
}
use gospeak.Client.Engine.Requests.{
  Method, send, send_request, enter, join_channel, leave_channel, create_channel_advanced,
  create_sub_channel, delete_channel, export_data, import_channels, create_token, send_chat,
  set_user_role, kick_user, ban_user,
}

-- The calls of the methods that return an error.
pub data Command : Type 0 where
  joins : ℤ → Command
  leaves : Command
  creates : Text → Text → ℤ → ℤ → Bool → Bool → Command
  creates_sub : ℤ → Text → Command
  deletes : ℤ → Command
  exports : Text → Command
  imports : Text → Command
  creates_token : Text → ℤ → ℤ → Command
  chats : Text → Command
  sets_role : ℤ → Text → Command
  kicks : ℤ → Text → Command
  bans : ℤ → Text → ℤ → Command

module _ {D F C : Type 0} (sends : Request → Bool) where
  unfoldable pub perform : Command → Method D F C
  unfolding join_channel leave_channel create_channel_advanced create_sub_channel delete_channel
      export_data import_channels create_token send_chat set_user_role kick_user ban_user
  perform (joins channel_id) e = join_channel sends channel_id e
  perform leaves e = leave_channel sends e
  perform (creates name about max parent temp subs) e =
      create_channel_advanced sends name about max parent temp subs e
  perform (creates_sub parent name) e = create_sub_channel sends parent name e
  perform (deletes channel_id) e = delete_channel sends channel_id e
  perform (exports kind) e = export_data sends kind e
  perform (imports yaml) e = import_channels sends yaml e
  perform (creates_token role max_uses seconds) e = create_token sends role max_uses seconds e
  perform (chats words) e = send_chat sends words e
  perform (sets_role user role) e = set_user_role sends user role e
  perform (kicks user reason) e = kick_user sends user reason e
  perform (bans user reason seconds) e = ban_user sends user reason seconds e

-- A method returned an error and has changed nothing, or it returned nil and has sent one request
-- over the connection.
pub data Answers {D F C : Type 0} (sends : Request → Bool) (e : Engine D F C)
    : Option EngineError × Engine D F C → Type 0 where
  failed : (why : EngineError) → Answers sends e (some why, e)
  sent :
      (conn : ℕ) (req : Request) (e' : Engine D F C)
      → e.control ≡ some conn
      → sends req ≡ true
      → e'.outputs ≡ request_sent req ∷ e.outputs
      → Answers sends e (none, e')

module _ {D F C : Type 0} (sends : Request → Bool) where
  send-Answers :
      (req : Request) (e : Engine D F C) (conn : ℕ)
      → e.control ≡ some conn
      → Answers sends e (send sends req e)
  unfolding send
  send-Answers req e conn h = elim (Bool-cases (sends req)) [
    | inl g ↦ rw (g, send) (sent conn req _ h g refl)
    | inr g ↦ rw (g, send) (failed not_sent)
  ]

  -- "if ctrl == nil"
  abbrev guarded :
      Engine D F C
      → Option EngineError × Engine D F C
      → Option ℕ
      → Option EngineError × Engine D F C
  guarded e r none = (some not_connected, e)
  guarded e r (some conn) = r

  guarded-Answers :
      (e : Engine D F C) (r : Option EngineError × Engine D F C)
      → ((conn : ℕ) → e.control ≡ some conn → Answers sends e r)
      → Answers sends e (guarded e r e.control)
  guarded-Answers e r h = elim (Option-cases e.control) [
    | inl g ↦ subst (λ c. Answers sends e (guarded e r c)) (sym g) (failed not_connected)
    | inr (conn, g) ↦ subst (λ c. Answers sends e (guarded e r c)) (sym g) (h conn g)
  ]

  send_request-Answers :
      (req : Request) (e : Engine D F C) → Answers sends e (send_request sends req e)
  unfolding send_request
  send_request-Answers req e = guarded-Answers e (send sends req e) (send-Answers req e)

  -- What is done after a request was sent does not touch what was sent.
  then-Answers :
      (e : Engine D F C) (f : Engine D F C → Engine D F C) {r : Option EngineError × Engine D F C}
      → ((x : Engine D F C) → (f x).outputs ≡ x.outputs)
      → Answers sends e r
      → Answers sends e (elim r.0 [ some why ↦ (some why, r.1) | none ↦ (none, f r.1) ])
  then-Answers e f keeps (failed why) = failed why
  then-Answers e f keeps (sent conn req e' h g o) = sent conn req (f e') h g (keeps e' ∙ o)

  -- The branch of SendChat for an open connection.
  abbrev chat : Text → Engine D F C → Option EngineError × Engine D F C
  chat words e =
      if e.channel_id == pos 0
      then (some not_in_channel, e)
      else send sends (chat_msg e.channel_id words) e

  chat-Answers :
      (words : Text) (e : Engine D F C) (conn : ℕ)
      → e.control ≡ some conn
      → Answers sends e (chat words e)
  chat-Answers words e conn h = elim (Bool-cases (e.channel_id == pos 0)) [
    | inl k ↦ rw k (failed not_in_channel)
    | inr k ↦ rw k (send-Answers (chat_msg e.channel_id words) e conn h)
  ]

  send_chat-Answers : (words : Text) (e : Engine D F C) → Answers sends e (send_chat sends words e)
  unfolding send_chat
  send_chat-Answers words e = guarded-Answers e (chat words e) (chat-Answers words e)

  -- Each method that asks the server for something either returns an error and changes nothing, or
  -- sends exactly one request, over the connection that is there, and returns nil.
  pub perform-Answers : (c : Command) (e : Engine D F C) → Answers sends e (perform sends c e)
  unfolding perform
  perform-Answers (joins x) e =
      then-Answers e (enter x) (λ y. unfold enter in refl)
        (send_request-Answers (join_channel_request x) e)
  perform-Answers leaves e =
      then-Answers e (λ y. record y { channel_id = pos 0 }) (λ y. refl)
        (send_request-Answers leave_channel_request e)
  perform-Answers (chats words) e = send_chat-Answers words e
  perform-Answers (creates name about max parent temp subs) e = send_request-Answers _ e
  perform-Answers (creates_sub parent name) e = send_request-Answers _ e
  perform-Answers (deletes x) e = send_request-Answers _ e
  perform-Answers (exports kind) e = send_request-Answers _ e
  perform-Answers (imports yaml) e = send_request-Answers _ e
  perform-Answers (creates_token role max_uses seconds) e = send_request-Answers _ e
  perform-Answers (sets_role user role) e = send_request-Answers _ e
  perform-Answers (kicks user reason) e = send_request-Answers _ e
  perform-Answers (bans user reason seconds) e = send_request-Answers _ e
