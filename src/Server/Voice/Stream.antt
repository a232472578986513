-- ===== src/Server/Voice/Stream.antt =====
-- A stream of packets of one session through the loop of pkg/server/voice.go.
use gospeak.Prelude.{
  ℕ, ◌≡◌, refl, ap, ◌∙◌, inl, inr, Bool, true, List, [], ◌∷◌, some, arith, eqb_iff, eqb_text_iff,
  Text, length, ℕ_eq, ℤ_eq, Int.pos, Option-cases, Bool-cases,
}
use gospeak.Model.{Session, UdpAddr}
use gospeak.Protocol.{VoicePacket, unmarshal_voice_packet}
use gospeak.Server.Channels
use gospeak.Server.Sessions
use gospeak.Server.Sessions.Invariant.{get_snapshot-update}
use gospeak.Server.State.{Server}
use gospeak.Server.Voice.{
  same_source, count_in, count_out, target, forward, check_source, voice_round,
}
use gospeak.Server.Voice.Forwarding.{MaySpeak, MayHear, check_source_lem}
use gospeak.Server.Voice.Delivery.{check_source_ok, claimed_channel_ok, relay_ok, round_ok}

same_source_refl : (a : UdpAddr) → same_source a a ≡ true
unfolding same_source
same_source_refl a = ground (arith, eqb_text_iff a.ip a.ip, eqb_iff a.port a.port)

module _ {S : Type 0} where
  -- Forwarding only counts.
  forward-keeps :
      (delivers : UdpAddr → Bool) (ms : List ℕ) (sender : ℕ) (raw : Text) (s : Server S)
      → ((forward delivers ms sender raw s).1.sessions ≡ s.sessions)
        × ((forward delivers ms sender raw s).1.channels ≡ s.channels)
  unfolding forward count_out
  forward-keeps delivers [] sender raw s = (refl, refl)
  forward-keeps delivers (m ∷ ms) sender raw s = elim (Option-cases (target sender m s)) [
    | inl skip ↦ rw (skip, forward) (forward-keeps delivers ms sender raw s)
    | inr (addr, hit) ↦ elim (Bool-cases (delivers addr)) [
      | inl good ↦
          rw (hit, good, forward) (forward-keeps delivers ms sender raw (count_out (length raw) s))
      | inr bad ↦ rw (hit, bad, forward) (forward-keeps delivers ms sender raw s)
    ]
  ]

  -- The sender's session after its source was checked.
  check_source-known :
      (sid : ℕ) (session : Session) (remote : UdpAddr) (s s1 : Server S)
      → Sessions.get_snapshot sid s.sessions ≡ some session
      → check_source sid session remote s ≡ some s1
      → (after : Session) × (Sessions.get_snapshot sid s1.sessions ≡ some after)
        × (after.muted ≡ session.muted)
        × ((a : UdpAddr) × (after.udp_addr ≡ some a) × (same_source a remote ≡ true))
  unfolding check_source Sessions.set_udp_addr
  check_source-known sid session remote s s1 known h = elim (Option-cases session.udp_addr) [
    | inl new_ ↦ (
      record session { udp_addr = some remote },
      ground (
        arith,
        eqb_iff sid sid,
        get_snapshot-update (λ w. record w { udp_addr = some remote }) sid sid s.sessions,
      ),
      refl,
      (remote, refl, same_source_refl remote),
    )
    | inr (a, old) ↦ (session, ground arith, refl, (a, old, ground arith))
  ]

  -- The state after a round whose packet goes out.
  round-state :
      (delivers : UdpAddr → Bool) (pkt : VoicePacket) (remote : UdpAddr) (raw : Text) (s : Server S)
      → unmarshal_voice_packet raw ≡ some pkt
      → (may : MaySpeak pkt remote s)
      → (s1 : Server S) × (check_source pkt.session_id may.session remote (count_in (length raw) s)
          ≡ some s1)
        × ((voice_round delivers remote raw s).1.sessions ≡ s1.sessions)
        × ((voice_round delivers remote raw s).1.channels ≡ s.channels)
  unfolding count_in
  round-state delivers pkt remote raw s good may =
      let counted = count_in (length raw) s in
      let (s1, came) = check_source_ok pkt.session_id may.session remote counted may.source in
      let (source, chans, others) =
        check_source_lem pkt.session_id may.session remote counted s1 came in
      let claim =
        claimed_channel_ok pkt s1 (ap (Channels.channel_of pkt.session_id) chans ∙ may.in_channel)
          may.channel_set in
      let named = pos pkt.channel_id in
      let (sess, chans1) =
        forward-keeps delivers (Channels.members named s1.channels) pkt.session_id raw s1 in
      let same =
        round_ok delivers pkt remote raw s good
        ∙ relay_ok delivers pkt remote raw counted s1 may.session named may.known came may.unmuted
            claim in
      (s1, came, ap (λ r. r.1.sessions) same ∙ sess, ap (λ r. r.1.channels) same ∙ chans1 ∙ chans)

  -- After a packet that could be sent and heard, the next one of the same session and channel can be.
  pub voice_round-next :
      (delivers : UdpAddr → Bool) (pkt pkt' : VoicePacket) (remote addr : UdpAddr) (raw : Text)
      (s : Server S)
      → unmarshal_voice_packet raw ≡ some pkt
      → pkt'.session_id ≡ pkt.session_id
      → pkt'.channel_id ≡ pkt.channel_id
      → MaySpeak pkt remote s
      → MayHear pkt addr s
      → MaySpeak pkt' remote (voice_round delivers remote raw s).1
        × MayHear pkt' addr (voice_round delivers remote raw s).1
  unfolding count_in
  voice_round-next delivers pkt pkt' remote addr raw s good e f may hear =
      let counted = count_in (length raw) s in
      let (s1, came, sess, chans) = round-state delivers pkt remote raw s good may in
      let (source, chans1, others) =
        check_source_lem pkt.session_id may.session remote counted s1 came in
      let (after, known, muted, there) =
        check_source-known pkt.session_id may.session remote counted s1 may.known came in
      (
        record {
          session = after;
          known = rw (sess, e) known;
          unmuted = muted ∙ may.unmuted;
          source = inr there;
          in_channel = rw (chans, e, f) may.in_channel;
          channel_set = rw f may.channel_set;
        },
        record {
          member = hear.member;
          listed = rw (chans, f) hear.listed;
          not_sender = rw e hear.not_sender;
          session = hear.session;
          known = rw sess (others hear.member hear.not_sender ∙ hear.known);
          undeafened = hear.undeafened;
          address = hear.address;
        },
      )
