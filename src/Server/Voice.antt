-- ===== src/Server/Voice.antt =====
-- The voice plane of pkg/server/voice.go: one round of voiceLoop for one datagram that was read.
pub mod Forwarding
pub mod Delivery
pub mod Stream
use gospeak.Prelude.{
  ℕ, suc, ◌+◌, Bool, true, false, ◌&&◌, ◌||◌, not, List, [], ◌∷◌, ◌++◌, Option, none, some, ◌==◌,
  eqb, eqb_text, if◌then◌else◌, ltb, Text, length, ℤ_eq, Int.ℤ, Int.pos,
}
use gospeak.Model.{Session, UdpAddr}
use gospeak.Protocol.{VoicePacket, voice_header_size, unmarshal_voice_packet}
use gospeak.Server.Channels
use gospeak.Server.Sessions
use gospeak.Server.State.{Server, Metrics}

-- A datagram that goes out: where to, and its bytes.
abbrev pub Datagram : Type 0
Datagram = UdpAddr × Text

-- net.IP.Equal takes an IPv4 address and its form ::ffff:a.b.c.d for the same.
unfoldable pub ip_equal : List ℕ → List ℕ → Bool
ip_equal a b =
    eqb_text a b
    || ((eqb (length a) 4 && eqb_text (0 ∷ 0 ∷ 0 ∷ 0 ∷ 0 ∷ 0 ∷ 0 ∷ 0 ∷ 0 ∷ 0 ∷ 255 ∷ 255 ∷ a) b)
        || (eqb (length b) 4 && eqb_text a (0 ∷ 0 ∷ 0 ∷ 0 ∷ 0 ∷ 0 ∷ 0 ∷ 0 ∷ 0 ∷ 0 ∷ 255 ∷ 255 ∷ b)))

unfoldable pub same_source : UdpAddr → UdpAddr → Bool
unfolding ip_equal
same_source a b = ip_equal a.ip b.ip && eqb a.port b.port

module _ {S : Type 0} where
  unfoldable pub count_dropped : Server S → Server S
  count_dropped s = record s {
    metrics = record (s.metrics) { voice_packets_dropped = suc s.metrics.voice_packets_dropped };
  }

  unfoldable pub count_in : ℕ → Server S → Server S
  count_in n s = record s {
    metrics = record (s.metrics) {
      voice_packets_in = suc s.metrics.voice_packets_in;
      voice_bytes_in = s.metrics.voice_bytes_in + n;
    };
  }

  unfoldable pub count_out : ℕ → Server S → Server S
  count_out n s = record s {
    metrics = record (s.metrics) {
      voice_packets_out = suc s.metrics.voice_packets_out;
      voice_bytes_out = s.metrics.voice_bytes_out + n;
    };
  }

  -- Where the loop over the members sends a packet for this one, if anywhere.
  unfoldable pub target : ℕ → ℕ → Server S → Option UdpAddr
  target sender member s =
      if eqb member sender then none else elim (Sessions.get_snapshot member s.sessions) [
        | none ↦ none
        | some session ↦ if session.deafened then none else session.udp_addr
      ]

  -- The loop over the members. `delivers` says whether a write to an address succeeds.
  unfoldable pub forward :
      (UdpAddr → Bool) → List ℕ → ℕ → Text → Server S → List Datagram × Server S
  unfolding target count_out
  forward delivers [] sender raw s = ([], s)
  forward delivers (member ∷ ms) sender raw s =
      let rest = forward delivers ms sender raw in
      elim (target sender member s) [
        | none ↦ rest s
        | some addr ↦
            if delivers addr
            then (let (out, s1) = rest (count_out (length raw) s) in ((addr, raw) ∷ out, s1))
            else rest s
      ]

  -- The first packet of a session registers its source; later ones must come from there.
  unfoldable pub check_source : ℕ → Session → UdpAddr → Server S → Option (Server S)
  unfolding same_source
  check_source session_id session remote s = elim session.udp_addr [
    | none ↦
        some (record s { sessions = Sessions.set_udp_addr session_id (some remote) s.sessions })
    | some addr ↦ if same_source addr remote then some s else none
  ]

  -- The sender's channel, if the packet names it.
  unfoldable pub claimed_channel : VoicePacket → Server S → Option ℤ
  claimed_channel pkt s =
      let actual = Channels.channel_of pkt.session_id s.channels in
      if actual == pos 0 || not (actual == pos pkt.channel_id) then none else some actual

  -- The round for a datagram that parses, from the look-up of the session on.
  unfoldable pub relay :
      (UdpAddr → Bool) → VoicePacket → UdpAddr → Text → Server S → List Datagram × Server S
  unfolding forward check_source claimed_channel count_dropped
  relay delivers pkt remote raw s = elim (Sessions.get_snapshot pkt.session_id s.sessions) [
    | none ↦ ([], count_dropped s)
    | some session ↦ elim (check_source pkt.session_id session remote s) [
      | none ↦ ([], s)
      | some s1 ↦ if session.muted then ([], count_dropped s1) else elim (claimed_channel pkt s1) [
        | none ↦ ([], count_dropped s1)
        | some channel_id ↦
            forward delivers (Channels.members channel_id s1.channels) pkt.session_id raw s1
      ]
    ]
  ]

  -- One round of voiceLoop: the datagrams that go out, and the new state.
  unfoldable pub voice_round :
      (UdpAddr → Bool) → UdpAddr → Text → Server S → List Datagram × Server S
  unfolding relay count_in count_dropped
  voice_round delivers remote raw s =
      if ltb (length raw) voice_header_size
      then ([], count_dropped s)
      else (let s1 = count_in (length raw) s in
          elim (unmarshal_voice_packet raw) [
            | none ↦ ([], count_dropped s1)
            | some pkt ↦ relay delivers pkt remote raw s1
          ])
