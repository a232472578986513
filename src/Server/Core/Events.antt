-- ===== src/Server/Core/Events.antt =====
-- All that the server's goroutines do to the shared state, as a sequence of events.
use gospeak.Prelude.{
  ℕ, ◌≡◌, refl, sym, ◌⊎◌, Bool, List, [], ◌∷◌, Option, none, some, arith, inl, inr, ltb, Text,
  length, Int.ℤ, Option-cases, Bool-cases,
}
use gospeak.Model.{Session, Role, Time, User, UdpAddr}
use gospeak.Protocol.{VoicePacket, voice_header_size, unmarshal_voice_packet}
use gospeak.Store.{DataStore}
use gospeak.Server.Channels
use gospeak.Server.Sessions
use gospeak.Server.Config.{Yaml}
use gospeak.Server.State.{Server, ControlMessage}
use gospeak.Server.Broadcast.{send, send_error, set_conn, wake_cleanup}
use gospeak.Server.Control.Dispatch.{handle_message}
use gospeak.Server.Control.Connection.{
  Environment, Stage, stop, next, open_conn, close_conn, authenticate, disconnected, admit,
  start_conn,
}
use gospeak.Server.Voice.{
  count_in, count_out, count_dropped, target, forward, check_source, claimed_channel, relay,
  voice_round,
}
use gospeak.Server.Core.{Core, core, sets_addr, arrives, departs, Steps, none_done, one_more}
use gospeak.Server.Core.Soundness.{IsSound, Steps-IsSound}
use gospeak.Server.Core.Frame.{core-wake_cleanup}
use gospeak.Server.Core.Handlers.{Leads, one}
use gospeak.Server.Core.Dispatch.{handle_message-Leads, core-authenticate, core-disconnected}

Stage-cases :
    {A : Type 0} (r : Stage A)
    → ((code : ℕ) × (msg : Text) × (r ≡ stop code msg)) ⊎ ((a : A) × (r ≡ next a))
Stage-cases (stop code msg) = inl (code, msg, refl)
Stage-cases (next a) = inr (a, refl)

core-forward :
    {S : Type 0} (delivers : UdpAddr → Bool) (ms : List ℕ) (sender : ℕ) (raw : Text) (s : Server S)
    → core (forward delivers ms sender raw s).1 ≡ core s
unfolding forward count_out
core-forward delivers [] sender raw s = refl
core-forward delivers (m ∷ ms) sender raw s = elim (Option-cases (target sender m s)) [
  | inl e ↦ rw (e, forward) (core-forward delivers ms sender raw s)
  | inr (addr, e) ↦ elim (Bool-cases (delivers addr)) [
    | inl f ↦ rw (e, f, forward) (core-forward delivers ms sender raw (count_out (length raw) s))
    | inr f ↦ rw (e, f, forward) (core-forward delivers ms sender raw s)
  ]
]

from : {k k' l : Core} → k' ≡ k → Steps k' l → Steps k l
from e steps = rw (sym e) steps

to : {k l l' : Core} → l' ≡ l → Steps k l → Steps k l'
to e steps = rw e steps

core-check_source :
    {S : Type 0} (sid : ℕ) (session : Session) (remote : UdpAddr) (s s1 : Server S)
    → check_source sid session remote s ≡ some s1
    → (core s1 ≡ core s)
      ⊎ (core s1
          ≡ record (core s) { sessions = Sessions.set_udp_addr sid (some remote) s.sessions })
unfolding check_source
core-check_source sid session remote s s1 e = ground arith

check_source-Leads :
    {S : Type 0} (sid : ℕ) (session : Session) (remote : UdpAddr) (s s1 : Server S)
    → check_source sid session remote s ≡ some s1
    → Leads s s1
check_source-Leads sid session remote s s1 e = elim (core-check_source sid session remote s s1 e) [
  | inl same ↦ rw same none_done
  | inr set ↦ rw set (one (sets_addr sid (some remote)))
]

relay-Leads :
    {S : Type 0} (delivers : UdpAddr → Bool) (pkt : VoicePacket) (remote : UdpAddr) (raw : Text)
    (s : Server S)
    → Leads s (relay delivers pkt remote raw s).1
unfolding relay count_dropped
relay-Leads delivers pkt remote raw s =
    elim (Option-cases (Sessions.get_snapshot pkt.session_id s.sessions)) [
      | inl e ↦ rw (e, relay) none_done
      | inr (session, e) ↦ elim (Option-cases (check_source pkt.session_id session remote s)) [
        | inl f ↦ rw (e, f, relay) none_done
        | inr (s1, f) ↦ elim (Bool-cases session.muted) [
          | inl g ↦ rw (e, f, g, relay) (check_source-Leads pkt.session_id session remote s s1 f)
          | inr g ↦ elim (Option-cases (claimed_channel pkt s1)) [
            | inl h ↦
                rw (e, f, g, h, relay) (check_source-Leads pkt.session_id session remote s s1 f)
            | inr (c, h) ↦
                rw (e, f, g, h, relay)
                  (to (core-forward delivers (Channels.members c s1.channels) pkt.session_id raw s1)
                    (check_source-Leads pkt.session_id session remote s s1 f))
          ]
        ]
      ]
    ]

admit-Leads :
    {S : Type 0} (ds : DataStore S) (env : Environment) (conn : ℕ) (user : User) (role : Role)
    (auto : Text) (s : Server S)
    → Leads s (admit ds env conn user role auto s).1
unfolding admit set_conn send
admit-Leads ds env conn user role auto s =
    elim (Option-cases (Sessions.create user.id user.username role env.draws s.sessions)) [
      | inl e ↦ rw (e, admit) none_done
      | inr ((sm, session), e) ↦ elim (Bool-cases env.answered) [
        | inl f ↦
            rw (e, f, admit) (one (arrives user.id user.username role env.draws sm session conn e))
        | inr f ↦
            rw (e, f, admit)
              (to (core-disconnected ds env conn session.id user _) (
                one_more (one (arrives user.id user.username role env.draws sm session conn e))
                  (departs session.id)))
      ]
    ]

start_conn-Leads :
    {S : Type 0} (ds : DataStore S) (env : Environment) (conn : ℕ) (first : Option ControlMessage)
    (s : Server S)
    → Leads s (start_conn ds env conn first s).1
unfolding start_conn open_conn close_conn send_error send
start_conn-Leads ds env conn none s = none_done
start_conn-Leads ds env conn (some msg) s = elim (Option-cases msg.auth_request) [
  | inl e ↦ rw (e, start_conn) none_done
  | inr (req, e) ↦ elim (Stage-cases (authenticate ds env req (open_conn s)).0) [
    | inl (code, text, f) ↦ rw (e, f, start_conn, core-authenticate) none_done
    | inr ((user, role, auto), f) ↦
        rw (e, f, start_conn)
          (from (core-authenticate ds env req (open_conn s))
            (admit-Leads ds env conn user role auto (authenticate ds env req (open_conn s)).1))
  ]
]

pub voice_round-Leads :
    {S : Type 0} (delivers : UdpAddr → Bool) (remote : UdpAddr) (raw : Text) (s : Server S)
    → Leads s (voice_round delivers remote raw s).1
unfolding voice_round count_in count_dropped
voice_round-Leads delivers remote raw s = elim (Bool-cases (ltb (length raw) voice_header_size)) [
  | inl e ↦ rw (e, voice_round) none_done
  | inr e ↦ elim (Option-cases (unmarshal_voice_packet raw)) [
    | inl f ↦ rw (e, f, voice_round) none_done
    | inr (pkt, f) ↦
        rw (e, f, voice_round) (relay-Leads delivers pkt remote raw (count_in (length raw) s))
  ]
]

-- What a goroutine of the server does in one turn.
pub data Event : Type 0 where
  -- a connection and its first message
  connects : Environment → ℕ → Option ControlMessage → Event
  -- a message of a session on its connection
  messages : Time → Option Text → ℕ → ControlMessage → ℕ → Event
  -- the end of the connection of a session and a user
  disconnects : Environment → ℕ → ℕ → User → Event
  -- a datagram, and the addresses to which a write succeeds
  datagram : (UdpAddr → Bool) → UdpAddr → Text → Event
  -- the end of the grace period of a channel
  wakes : ℤ → Event

module _ {S : Type 0} (ds : DataStore S) (yaml : Yaml) (sha256 : Text → Text) where
  unfoldable pub serve : Event → Server S → Server S
  serve (connects env conn first) s = (start_conn ds env conn first s).1
  serve (messages now random sid msg conn) s =
      handle_message ds yaml sha256 now random sid msg conn s
  serve (disconnects env conn sid user) s = disconnected ds env conn sid user s
  serve (datagram delivers remote raw) s = (voice_round delivers remote raw s).1
  serve (wakes c) s = wake_cleanup ds c s

  unfoldable pub serve_all : List Event → Server S → Server S
  serve_all [] s = s
  serve_all (e ∷ es) s = serve_all es (serve e s)

  serve-Leads : (e : Event) (s : Server S) → Leads s (serve e s)
  unfolding serve
  serve-Leads (connects env conn first) s = start_conn-Leads ds env conn first s
  serve-Leads (messages now random sid msg conn) s =
      handle_message-Leads ds yaml sha256 now random sid msg conn s
  serve-Leads (disconnects env conn sid user) s =
      rw (core-disconnected ds env conn sid user) (one (departs sid))
  serve-Leads (datagram delivers remote raw) s = voice_round-Leads delivers remote raw s
  serve-Leads (wakes c) s = rw (core-wake_cleanup ds c s) none_done

  -- Whatever the store does, and in whatever order connections, messages, disconnections, datagrams
  -- and clean-ups come: a server whose state is sound stays sound. That is, the channel manager's two
  -- maps agree, sessions stand under their own nonzero IDs, each session's recorded channel is the
  -- channel manager's, only sessions are members of channels, and exactly the sessions have a
  -- connection.
  pub serve_all-IsSound :
      (es : List Event) (s : Server S) → IsSound (core s) → IsSound (core (serve_all es s))
  unfolding serve_all
  serve_all-IsSound [] s v = v
  serve_all-IsSound (e ∷ es) s v =
      serve_all-IsSound es (serve e s) (Steps-IsSound (serve-Leads e s) v)
