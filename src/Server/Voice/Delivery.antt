-- ===== src/Server/Voice/Delivery.antt =====
-- That speech arrives: the other half of what the voice plane of pkg/server/voice.go does.
use gospeak.Prelude.{
  subst, All, ℕ, ◌≡◌, refl, sym, ap, ◌∙◌, ◌≢◌, ◌⊎◌, ◌≤◌, ◌<◌, inl, inr, Bool, true, false, List, [],
  ◌∷◌, ◌++◌, none, some, arith, eqb_iff, Text, length, elem, ℕ_eq, ℤ_eq, Int.ℤ, Int.pos,
  Int.eqb_ℤ_iff, Option-cases, Bool-cases, ◌==◌,
}
use gospeak.Model.{Session, UdpAddr}
use gospeak.Protocol.{VoicePacket, unmarshal_voice_packet}
use gospeak.Server.Channels
use gospeak.Server.Sessions
use gospeak.Server.State.{Server}
use gospeak.Server.Voice.{
  Datagram, same_source, count_in, count_out, target, forward, check_source, claimed_channel, relay,
  voice_round,
}
use gospeak.Server.Voice.Forwarding.{MaySpeak, MayHear, check_source_lem, voice_round-IsRelayed}

-- The datagram is one of those that go out.
abbrev pub GoesOut : Datagram → List Datagram → Type 0
GoesOut d out = (before : List Datagram) × (after : List Datagram) × (out ≡ before ++ (d ∷ after))

GoesOut-cons : (d c : Datagram) (out : List Datagram) → GoesOut d out → GoesOut d (c ∷ out)
GoesOut-cons d c out (before, after, e) = (c ∷ before, after, ap (◌∷◌ c) e)

none_of :
    {P : Datagram → Type 0} (out : List Datagram)
    → All P out
    → ((d : Datagram) → P d → ⊥)
    → out ≡ []
none_of [] h no_one = refl
none_of (d ∷ out) h no_one = absurd (no_one d h.0)

module _ {S : Type 0} where
  -- Counting does not change who is a target.
  target-count_out :
      (sender m n : ℕ) (s : Server S) → target sender m (count_out n s) ≡ target sender m s
  unfolding target count_out
  target-count_out sender m n s = refl

  forward-GoesOut :
      (delivers : UdpAddr → Bool) (ms : List ℕ) (sender m : ℕ) (raw : Text) (s : Server S)
      (addr : UdpAddr)
      → elem m ms ≡ true
      → target sender m s ≡ some addr
      → delivers addr ≡ true
      → GoesOut (addr, raw) (forward delivers ms sender raw s).0
  unfolding elem forward target
  forward-GoesOut delivers [] sender m raw s addr h t d = cc
  forward-GoesOut delivers (k ∷ ms) sender m raw s addr h t d = elim (Bool-cases (k == m)) [
    | inl same ↦
        let at_m : target sender k s ≡ some addr = ground (arith, eqb_iff k m) in
        rw (at_m, d, forward)
          ([], (forward delivers ms sender raw (count_out (length raw) s)).0, refl)
    | inr other ↦
        let later : elem m ms ≡ true = ground arith in
        elim (Option-cases (target sender k s)) [
          | inl skip ↦
              rw (skip, forward) (forward-GoesOut delivers ms sender m raw s addr later t d)
          | inr (a, hit) ↦ elim (Bool-cases (delivers a)) [
            | inr bad ↦
                rw (hit, bad, forward) (forward-GoesOut delivers ms sender m raw s addr later t d)
            | inl good ↦
                rw (hit, good, forward)
                  (GoesOut-cons (addr, raw) (a, raw) _
                    (forward-GoesOut delivers ms sender m raw (count_out (length raw) s) addr later
                      (target-count_out sender m (length raw) s ∙ t) d))
          ]
        ]
  ]

  pub check_source_ok :
      (sid : ℕ) (session : Session) (remote : UdpAddr) (s : Server S)
      → (session.udp_addr ≡ none)
        ⊎ ((a : UdpAddr) × (session.udp_addr ≡ some a) × (same_source a remote ≡ true))
      → (s1 : Server S) × (check_source sid session remote s ≡ some s1)
  unfolding check_source
  check_source_ok sid session remote s (inl new_) =
      (record s { sessions = Sessions.set_udp_addr sid (some remote) s.sessions }, ground arith)
  check_source_ok sid session remote s (inr (a, e, same)) = (s, ground arith)

  pub claimed_channel_ok :
      (pkt : VoicePacket) (s : Server S)
      → Channels.channel_of pkt.session_id s.channels ≡ pos pkt.channel_id
      → pkt.channel_id ≢ 0
      → claimed_channel pkt s ≡ some (pos pkt.channel_id)
  unfolding claimed_channel
  claimed_channel_ok pkt s e n = ground (
    arith,
    eqb_ℤ_iff (Channels.channel_of pkt.session_id s.channels) (pos 0),
    eqb_ℤ_iff (Channels.channel_of pkt.session_id s.channels) (pos pkt.channel_id),
  )

  target_ok :
      (sender m : ℕ) (s : Server S) (session : Session) (addr : UdpAddr)
      → m ≢ sender
      → Sessions.get_snapshot m s.sessions ≡ some session
      → session.deafened ≡ false
      → session.udp_addr ≡ some addr
      → target sender m s ≡ some addr
  unfolding target
  target_ok sender m s session addr n e f g = ground (arith, eqb_iff m sender)

  pub relay_ok :
      (delivers : UdpAddr → Bool) (pkt : VoicePacket) (remote : UdpAddr) (raw : Text)
      (s s1 : Server S) (session : Session) (c : ℤ)
      → Sessions.get_snapshot pkt.session_id s.sessions ≡ some session
      → check_source pkt.session_id session remote s ≡ some s1
      → session.muted ≡ false
      → claimed_channel pkt s1 ≡ some c
      → relay delivers pkt remote raw s
        ≡ forward delivers (Channels.members c s1.channels) pkt.session_id raw s1
  unfolding relay
  relay_ok delivers pkt remote raw s s1 session c known came loud claim =
      rw (known, came, loud, claim, relay) refl

  relay-GoesOut :
      (delivers : UdpAddr → Bool) (pkt : VoicePacket) (remote addr : UdpAddr) (raw : Text)
      (s : Server S)
      → MaySpeak pkt remote s
      → MayHear pkt addr s
      → delivers addr ≡ true
      → GoesOut (addr, raw) (relay delivers pkt remote raw s).0
  relay-GoesOut delivers pkt remote addr raw s may hear d =
      let (s1, came) = check_source_ok pkt.session_id may.session remote s may.source in
      let (source, chans, others) = check_source_lem pkt.session_id may.session remote s s1 came in
      let claim =
        claimed_channel_ok pkt s1 (ap (Channels.channel_of pkt.session_id) chans ∙ may.in_channel)
          may.channel_set in
      let named = pos pkt.channel_id in
      let hit =
        target_ok pkt.session_id hear.member s1 hear.session addr hear.not_sender
          (others hear.member hear.not_sender ∙ hear.known) hear.undeafened hear.address in
      subst (λ r. GoesOut (addr, raw) r.0)
        (sym (
          relay_ok delivers pkt remote raw s s1 may.session named may.known came may.unmuted claim))
        (forward-GoesOut delivers (Channels.members named s1.channels) pkt.session_id hear.member
          raw s1 addr (ap (λ c. elem hear.member (Channels.members named c)) chans ∙ hear.listed)
          hit d)

  pub round_ok :
      (delivers : UdpAddr → Bool) (pkt : VoicePacket) (remote : UdpAddr) (raw : Text) (s : Server S)
      → unmarshal_voice_packet raw ≡ some pkt
      → voice_round delivers remote raw s ≡ relay delivers pkt remote raw (count_in (length raw) s)
  unfolding voice_round unmarshal_voice_packet
  round_ok delivers pkt remote raw s good = ground arith

  -- A packet from one who may speak goes out, with its own bytes, to the address of every session
  -- that may hear it, if the write to that address succeeds.
  pub voice_round-GoesOut :
      (delivers : UdpAddr → Bool) (pkt : VoicePacket) (remote addr : UdpAddr) (raw : Text)
      (s : Server S)
      → unmarshal_voice_packet raw ≡ some pkt
      → MaySpeak pkt remote s
      → MayHear pkt addr s
      → delivers addr ≡ true
      → GoesOut (addr, raw) (voice_round delivers remote raw s).0
  unfolding count_in
  voice_round-GoesOut delivers pkt remote addr raw s good may hear d =
      let counted = count_in (length raw) s in
      let may1 : MaySpeak pkt remote counted = record {
        session = may.session;
        known = may.known;
        unmuted = may.unmuted;
        source = may.source;
        in_channel = may.in_channel;
        channel_set = may.channel_set;
      } in
      let hear1 : MayHear pkt addr counted = record {
        member = hear.member;
        listed = hear.listed;
        not_sender = hear.not_sender;
        session = hear.session;
        known = hear.known;
        undeafened = hear.undeafened;
        address = hear.address;
      } in
      subst (λ r. GoesOut (addr, raw) r.0) (sym (round_ok delivers pkt remote raw s good))
        (relay-GoesOut delivers pkt remote addr raw counted may1 hear1 d)

  -- A session in a channel whose ID needs more than 16 bits is heard by nobody: none of its packets
  -- goes out.
  pub voice_round_wide_channel :
      (delivers : UdpAddr → Bool) (remote : UdpAddr) (raw : Text) (s : Server S) (pkt : VoicePacket)
      (n : ℕ)
      → unmarshal_voice_packet raw ≡ some pkt
      → pkt.channel_id < 65536
      → Channels.channel_of pkt.session_id s.channels ≡ pos n
      → 65536 ≤ n
      → (voice_round delivers remote raw s).0 ≡ []
  voice_round_wide_channel delivers remote raw s pkt n good fits e wide =
      none_of (voice_round delivers remote raw s).0 (voice_round-IsRelayed delivers remote raw s)
        (λ d h. elsewhere h.0 h.1 h.2.1)
    where
      elsewhere : (p : VoicePacket) → unmarshal_voice_packet raw ≡ some p → MaySpeak p remote s → ⊥
      elsewhere p same may =
          let one : some p ≡ some pkt = sym same ∙ good in
          let there : Channels.channel_of p.session_id s.channels ≡ pos p.channel_id =
            may.in_channel in
          ground arith
