-- ===== src/Client/Engine/Lifecycle.antt =====
-- The life of a client, whatever happens to it: pkg/client/engine.go.
use gospeak.Prelude.{ℕ, ◌≡◌, Bool, true, false, Option, some, Text, text, Int.ℤ, Int.pos}
use gospeak.Audio.Vad.{Float, Frame, Vad}
use gospeak.Server.State.{Message}
use gospeak.Client.Control.{Request}
use gospeak.Client.Playback.{Codec}
use gospeak.Client.Engine.{
  Engine, Dialed, begin_connect, finish_connect, handle_disconnect, disconnect, handle_event,
}
use gospeak.Client.Engine.Requests.{
  send, enter, enter_late, set_muted, set_deafened, set_vad_threshold,
}
use gospeak.Client.Engine.Requests.Commands.{Command, perform}
use gospeak.Client.Engine.Audio.{AudioOutcome, init_audio, capture_round, playback_round}
use gospeak.Client.Engine.Consistency.{is_connected}

-- What happens to an engine. Methods that send a request come back from it after anything else: with
-- what they found of the engine at their start, they send (sends_late), leave the channel, and enter
-- the channel that they asked for, which after the loss of the connection is a join that comes late.
-- Two calls of Connect that overlap are left out: a Connect comes back only while no other has
-- succeeded.
pub data Step (late : Bool) {D F C : Type 0} (e : Engine D F C) : Engine D F C → Type 0 where
  begins : Step late e (begin_connect e).1
  finishes :
      (conn : ℕ) (d : Dialed)
      → is_connected e.state ≡ false
      → Step late e (finish_connect conn d e).1
  receives : (msg : Message) → Step late e (handle_event msg e)
  loses : Step late e (handle_disconnect (text "connection lost") e)
  disconnects : Step late e (disconnect e)
  sends_late : (sends : Request → Bool) (req : Request) → Step late e (send sends req e).1
  leaves : Step late e (record e { channel_id = pos 0 })
  enters : (channel_id : ℤ) → is_connected e.state ≡ true → Step late e (enter channel_id e)
  enters_again :
      (channel_id : ℤ) → is_connected e.state ≡ true → Step late e (enter_late channel_id e)
  joins_late : (channel_id : ℤ) → late ≡ true → Step late e (enter_late channel_id e)
  commands : (sends : Request → Bool) (c : Command) → Step late e (perform sends c e).1
  mutes : (sends : Request → Bool) (muted : Bool) → Step late e (set_muted sends muted e)
  deafens : (sends : Request → Bool) (deafened : Bool) → Step late e (set_deafened sends deafened e)
  sets_threshold : (threshold : F) → Step late e (set_vad_threshold threshold e)
  starts_audio : (outcome : AudioOutcome C) → Step late e (init_audio outcome e)
  captures :
      (fl : Float F) (encode : C → Frame → Option Text × C) (pcm : Option Frame) (at next : ℕ)
      (e' : Engine D F C)
      → capture_round fl encode pcm at e ≡ some (next, e')
      → Step late e e'
  plays : (codec : Codec D) (e' : Engine D F C) → playback_round codec e ≡ some e' → Step late e e'

pub data Reach (late : Bool) {D F C : Type 0} (e : Engine D F C) : Engine D F C → Type 0 where
  here : Reach late e e
  next : {e1 e2 : Engine D F C} → Reach late e e1 → Step late e1 e2 → Reach late e e2
