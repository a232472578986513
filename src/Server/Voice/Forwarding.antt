-- ===== src/Server/Voice/Forwarding.antt =====
-- Who hears whom: what the voice plane of pkg/server/voice.go sends out.
use gospeak.Prelude.{
  ℕ, ◌≡◌, refl, sym, ◌∙◌, ◌≢◌, ◌⊎◌, inl, inr, Bool, true, false, List, [], ◌∷◌, none, some, arith,
  eqb_iff, ltb, Text, length, elem, elem_head, All, All-imp, ℕ_eq, ℤ_eq, Int.ℤ, Int.pos,
  Int.eqb_ℤ_iff, Option-cases, Bool-cases,
}
use gospeak.Model.{Session, UdpAddr}
use gospeak.Protocol.{VoicePacket, voice_header_size, unmarshal_voice_packet}
use gospeak.Server.Channels
use gospeak.Server.Sessions
use gospeak.Server.Sessions.Invariant.{get_snapshot-update}
use gospeak.Server.State.{Server}
use gospeak.Server.Voice.{
  Datagram, same_source, count_in, count_out, target, forward, check_source, claimed_channel, relay,
  voice_round,
}

module _ {S : Type 0} where
  -- A datagram of the loop carries the packet to the address of a member that is a target.
  abbrev pub IsSent : List ℕ → ℕ → Text → Server S → Datagram → Type 0
  IsSent ms sender raw s d =
      (d.1 ≡ raw) × ((m : ℕ) × (elem m ms ≡ true) × (target sender m s ≡ some d.0))

  IsSent-cons :
      (m : ℕ) (ms : List ℕ) (sender : ℕ) (raw : Text) (s : Server S) (d : Datagram)
      → IsSent ms sender raw s d
      → IsSent (m ∷ ms) sender raw s d
  unfolding elem
  IsSent-cons m ms sender raw s d (same, (k, at_k, hit)) = (same, (k, ground arith, hit))

  forward_lem :
      (delivers : UdpAddr → Bool) (ms : List ℕ) (sender : ℕ) (raw : Text) (s : Server S)
      → All (IsSent ms sender raw s) (forward delivers ms sender raw s).0
  unfolding forward target
  forward_lem delivers [] sender raw s = tt
  forward_lem delivers (m ∷ ms) sender raw s = elim (Option-cases (target sender m s)) [
    | inl skip ↦
        rw (skip, forward)
          (All-imp (IsSent ms sender raw s) (IsSent (m ∷ ms) sender raw s) _
            (IsSent-cons m ms sender raw s) (forward_lem delivers ms sender raw s))
    | inr (addr, hit) ↦ elim (Bool-cases (delivers addr)) [
      | inl good ↦
          rw (hit, good, forward)
            (
              (refl, (m, elem_head m ms, hit)),
              All-imp (IsSent ms sender raw s) (IsSent (m ∷ ms) sender raw s) _
                  (IsSent-cons m ms sender raw s)
                  (forward_lem delivers ms sender raw (count_out (length raw) s)),
            )
      | inr bad ↦
          rw (hit, bad, forward)
            (All-imp (IsSent ms sender raw s) (IsSent (m ∷ ms) sender raw s) _
              (IsSent-cons m ms sender raw s) (forward_lem delivers ms sender raw s))
    ]
  ]

  -- What has to hold of a sender for its packet to be forwarded: a session that is not muted, an
  -- address that is the packet's source or not yet known, and the channel that the packet names.
  pub record MaySpeak (pkt : VoicePacket) (remote : UdpAddr) (s : Server S) : Type 0 where
    pub session : Session
    pub known : Sessions.get_snapshot pkt.session_id s.sessions ≡ some session
    pub unmuted : session.muted ≡ false
    pub source :
        (session.udp_addr ≡ none)
        ⊎ ((a : UdpAddr) × (session.udp_addr ≡ some a) × (same_source a remote ≡ true))
    pub in_channel : Channels.channel_of pkt.session_id s.channels ≡ pos pkt.channel_id
    pub channel_set : pkt.channel_id ≢ 0

  -- What has to hold of a member to receive it: another session of the same channel that is not
  -- deafened, at its address.
  pub record MayHear (pkt : VoicePacket) (addr : UdpAddr) (s : Server S) : Type 0 where
    pub member : ℕ
    pub listed : elem member (Channels.members (pos pkt.channel_id) s.channels) ≡ true
    pub not_sender : member ≢ pkt.session_id
    pub session : Session
    pub known : Sessions.get_snapshot member s.sessions ≡ some session
    pub undeafened : session.deafened ≡ false
    pub address : session.udp_addr ≡ some addr

  target_lem :
      (sender m : ℕ) (s : Server S) (addr : UdpAddr)
      → target sender m s ≡ some addr
      → (m ≢ sender)
        × ((session : Session) × (Sessions.get_snapshot m s.sessions ≡ some session)
            × (session.deafened ≡ false)
            × (session.udp_addr ≡ some addr))
  unfolding target
  target_lem sender m s addr h = elim (Option-cases (Sessions.get_snapshot m s.sessions)) [
    | inl gone ↦ absurd (ground (arith, eqb_iff m sender))
    | inr (session, e) ↦ (ground arith, (session, ground arith, ground arith, ground arith))
  ]

  claimed_channel_lem :
      (pkt : VoicePacket) (s : Server S) (c : ℤ)
      → claimed_channel pkt s ≡ some c
      → (Channels.channel_of pkt.session_id s.channels ≡ pos pkt.channel_id)
        × (c ≡ pos pkt.channel_id)
        × (pkt.channel_id ≢ 0)
  unfolding claimed_channel
  claimed_channel_lem pkt s c h = ground (
    arith,
    eqb_ℤ_iff (Channels.channel_of pkt.session_id s.channels) (pos 0),
    eqb_ℤ_iff (Channels.channel_of pkt.session_id s.channels) (pos pkt.channel_id),
  )

  pub check_source_lem :
      (sid : ℕ) (session : Session) (remote : UdpAddr) (s s1 : Server S)
      → check_source sid session remote s ≡ some s1
      → ((session.udp_addr ≡ none)
          ⊎ ((a : UdpAddr) × (session.udp_addr ≡ some a) × (same_source a remote ≡ true)))
        × (s1.channels ≡ s.channels)
        × ((t : ℕ)
            → t ≢ sid
            → Sessions.get_snapshot t s1.sessions ≡ Sessions.get_snapshot t s.sessions)
  unfolding check_source Sessions.set_udp_addr
  check_source_lem sid session remote s s1 h = elim (Option-cases session.udp_addr) [
    | inl new_ ↦ (
      inl new_,
      ground arith,
      λ t other. ground (
        arith,
        eqb_iff sid t,
        get_snapshot-update (λ w. record w { udp_addr = some remote }) sid t s.sessions,
      ),
    )
    | inr (a, old) ↦ (inr (a, old, ground arith), ground arith, λ t other. ground arith)
  ]

  -- A datagram that goes out for a packet: the packet's bytes, from one who may speak, to one who
  -- may hear.
  abbrev pub IsRelayed : VoicePacket → UdpAddr → Text → Server S → Datagram → Type 0
  IsRelayed pkt remote raw s d = (d.1 ≡ raw) × MaySpeak pkt remote s × MayHear pkt d.0 s

  relay_lem :
      (delivers : UdpAddr → Bool) (pkt : VoicePacket) (remote : UdpAddr) (raw : Text) (s : Server S)
      → All (IsRelayed pkt remote raw s) (relay delivers pkt remote raw s).0
  unfolding relay
  relay_lem delivers pkt remote raw s =
      elim (Option-cases (Sessions.get_snapshot pkt.session_id s.sessions)) [
        | inl gone ↦ rw (gone, relay) tt
        | inr (session, known) ↦
            elim (Option-cases (check_source pkt.session_id session remote s)) [
              | inl away ↦ rw (known, away, relay) tt
              | inr (s1, came) ↦ elim (Bool-cases session.muted) [
                | inl quiet ↦ rw (known, came, quiet, relay) tt
                | inr loud ↦ elim (Option-cases (claimed_channel pkt s1)) [
                  | inl wrong ↦ rw (known, came, loud, wrong, relay) tt
                  | inr (c, claim) ↦
                      rw (known, came, loud, claim, relay)
                        (All-imp _ (IsRelayed pkt remote raw s) _
                          (sent_lem session known loud s1 came c claim)
                          (forward_lem delivers (Channels.members c s1.channels) pkt.session_id raw
                            s1))
                ]
              ]
            ]
      ]
    where
      sent_lem :
          (session : Session)
          → Sessions.get_snapshot pkt.session_id s.sessions ≡ some session
          → session.muted ≡ false
          → (s1 : Server S) → check_source pkt.session_id session remote s ≡ some s1
          → (c : ℤ) → claimed_channel pkt s1 ≡ some c
          → (d : Datagram) → IsSent (Channels.members c s1.channels) pkt.session_id raw s1 d
          → IsRelayed pkt remote raw s d
      sent_lem session known loud s1 came c claim d (same, (m, at_m, hit)) =
          let (source, chans, others) = check_source_lem pkt.session_id session remote s s1 came in
          let (where_, named, nonzero) = claimed_channel_lem pkt s1 c claim in
          let (not_self, (tsession, tknown, hears, addr)) =
            target_lem pkt.session_id m s1 d.0 hit in
          (
            same,
            record {
              session = session;
              known = known;
              unmuted = loud;
              source = source;
              in_channel = rw (← chans) where_;
              channel_set = nonzero;
            },
            record {
              member = m;
              listed = rw (← chans, ← named) at_m;
              not_sender = not_self;
              session = tsession;
              known = sym (others m not_self) ∙ tknown;
              undeafened = hears;
              address = addr;
            },
          )

  -- Whatever datagram arrives from whatever source: what goes out for it are its own bytes, they are
  -- a voice packet, its sender may speak (it has a session that is not muted, whose address is the
  -- source or is not yet known, and it is in the channel that the packet names), and each receiver
  -- may hear it (another session listed in that channel, not deafened, at its own address).
  pub voice_round-IsRelayed :
      (delivers : UdpAddr → Bool) (remote : UdpAddr) (raw : Text) (s : Server S)
      → All
          (λ d.
            (pkt : VoicePacket) × (unmarshal_voice_packet raw ≡ some pkt)
            × IsRelayed pkt remote raw s d)
          (voice_round delivers remote raw s).0
  unfolding voice_round
  voice_round-IsRelayed delivers remote raw s =
      elim (Bool-cases (ltb (length raw) voice_header_size)) [
        | inl short ↦ rw (short, voice_round) tt
        | inr long ↦ elim (Option-cases (unmarshal_voice_packet raw)) [
          | inl bad ↦ rw (long, bad, voice_round) tt
          | inr (pkt, good) ↦
              rw (long, good, voice_round)
                (All-imp (IsRelayed pkt remote raw (count_in (length raw) s)) _ _
                  (λ d h. (pkt, refl, counted pkt d h))
                  (relay_lem delivers pkt remote raw (count_in (length raw) s)))
        ]
      ]
    where
      counted :
          (pkt : VoicePacket) (d : Datagram)
          → IsRelayed pkt remote raw (count_in (length raw) s) d
          → IsRelayed pkt remote raw s d
      counted pkt d (same, m, h) = (
        same,
        record {
          session = m.session;
          known = m.known;
          unmuted = m.unmuted;
          source = m.source;
          in_channel = m.in_channel;
          channel_set = m.channel_set;
        },
        record {
          member = h.member;
          listed = h.listed;
          not_sender = h.not_sender;
          session = h.session;
          known = h.known;
          undeafened = h.undeafened;
          address = h.address;
        },
      )

  -- A packet of a session whose address is registered, from any other source, sends nothing out and
  -- leaves the sessions and the channels as they were.
  pub voice_round_hijack :
      (delivers : UdpAddr → Bool) (remote a : UdpAddr) (raw : Text) (s : Server S)
      (pkt : VoicePacket) (session : Session)
      → unmarshal_voice_packet raw ≡ some pkt
      → Sessions.get_snapshot pkt.session_id s.sessions ≡ some session
      → session.udp_addr ≡ some a
      → same_source a remote ≡ false
      → ((voice_round delivers remote raw s).0 ≡ [])
        × ((voice_round delivers remote raw s).1.sessions ≡ s.sessions)
        × ((voice_round delivers remote raw s).1.channels ≡ s.channels)
  unfolding voice_round
  voice_round_hijack delivers remote a raw s pkt session good known at_a other = ground arith
