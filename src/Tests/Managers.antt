-- ===== src/Tests/Managers.antt =====
-- The channel and session managers and the voice plane at concrete arguments.
use gospeak.Prelude.{
  inl, ◌≡◌, refl, true, false, List, [], ◌∷◌, none, some, arith, Text, text, All, elem, lookup,
  insert, ℤ_eq, ℕ_eq, Int.pos,
}
use gospeak.Model.{Session, UdpAddr, role_user}
use gospeak.Protocol.{VoicePacket, unmarshal_voice_packet}
use gospeak.Server.Channels
use gospeak.Server.Channels.{ChannelManager}
use gospeak.Server.Channels.Invariant.{IsConsistent}
use gospeak.Server.Channels.Membership.{
  run-new-IsConsistent, members_count-join, elem-members, join_lem, leave_lem, where_is, joins,
  leaves,
}
use gospeak.Server.Channels.Membership as Membership
use gospeak.Server.Sessions
use gospeak.Server.Sessions.Invariant.{
  IsValid, run-new-IsValid, creates, removes, sets_channel, updates_role, create_lem, pick_id_total,
}
use gospeak.Server.Sessions.Invariant as Calls
use gospeak.Server.State.{Server}
use gospeak.Server.Voice.{voice_round}
use gospeak.Server.Voice.Forwarding.{IsRelayed, voice_round-IsRelayed}
use gospeak.Server.Voice.Delivery.{GoesOut, voice_round-GoesOut, voice_round_wide_channel}
use gospeak.Tests.Server.{started}

abbrev moves : List Membership.Call
moves = joins 7 (pos 1) ∷ joins 8 (pos 1) ∷ joins 7 (pos 2) ∷ leaves 8 ∷ []

run-new-IsConsistent_example : IsConsistent (Membership.run Channels.new moves)
run-new-IsConsistent_example = run-new-IsConsistent moves

abbrev pub two : ChannelManager
two = Membership.run Channels.new (joins 7 (pos 1) ∷ joins 8 (pos 1) ∷ [])

run-new-IsValid_example : IsValid (
    Calls.run Sessions.new (
      creates (pos 1) (text "ann") role_user (0 ∷ 7 ∷ [])
      ∷ creates (pos 2) (text "bob") role_user (7 ∷ 8 ∷ [])
      ∷ sets_channel 7 (pos 1)
      ∷ updates_role 8 (pos 2)
      ∷ removes 7
      ∷ []))
run-new-IsValid_example = run-new-IsValid (
    creates (pos 1) (text "ann") role_user (0 ∷ 7 ∷ [])
    ∷ creates (pos 2) (text "bob") role_user (7 ∷ 8 ∷ [])
    ∷ sets_channel 7 (pos 1)
    ∷ updates_role 8 (pos 2)
    ∷ removes 7
    ∷ [])

abbrev pub ann : Session
ann = record {
  id = 7;
  user_id = pos 1;
  username = text "ann";
  role = role_user;
  channel_id = pos 0;
  udp_addr = none;
  muted = false;
  deafened = false;
}

abbrev pub home : UdpAddr
home = record { ip = 10 ∷ 0 ∷ 0 ∷ 1 ∷ []; port = 4000 }

abbrev pub elsewhere : UdpAddr
elsewhere = record { ip = 10 ∷ 0 ∷ 0 ∷ 2 ∷ []; port = 4000 }

abbrev pub bob : Session
bob = record ann { id = 8; user_id = pos 2; udp_addr = some home; channel_id = pos 1 }

-- ann and bob are in channel 1, and bob's address is registered.
abbrev pub talking : {S : Type 0} → Server S → Server S
talking s = record s {
  sessions = record { sessions = (7, record ann { channel_id = pos 1 }) ∷ (8, bob) ∷ [] };
  channels = two;
}

abbrev from_ann : Text
from_ann = 0 ∷ 0 ∷ 0 ∷ 7 ∷ 0 ∷ 0 ∷ 0 ∷ 1 ∷ 0 ∷ 0 ∷ 0 ∷ 0 ∷ 0 ∷ 1 ∷ 42 ∷ []

voice_round-IsRelayed_example :
    All
      (λ d.
        (pkt : VoicePacket) × (unmarshal_voice_packet from_ann ≡ some pkt)
        × IsRelayed pkt elsewhere from_ann (talking started) d)
      (voice_round (λ a. true) elsewhere from_ann (talking started)).0
voice_round-IsRelayed_example =
    voice_round-IsRelayed (λ a. true) elsewhere from_ann (talking started)

abbrev pub of_ann : VoicePacket
of_ann = record { session_id = 7; seq_num = 1; timestamp = 0; channel_id = 1; payload = 42 ∷ [] }

-- bob hears ann.
voice_round-GoesOut_example :
    GoesOut (home, from_ann) (voice_round (λ a. true) elsewhere from_ann (talking started)).0
unfolding unmarshal_voice_packet Sessions.get_snapshot lookup Channels.channel_of Membership.run
    Channels.join Channels.new insert elem Channels.members
voice_round-GoesOut_example =
    voice_round-GoesOut (λ a. true) of_ann elsewhere home from_ann (talking started) refl
      (record {
        session = record ann { channel_id = pos 1 };
        known = refl;
        unmuted = refl;
        source = inl refl;
        in_channel = refl;
        channel_set = omega arith;
      })
      (record {
        member = 8;
        listed = refl;
        not_sender = omega arith;
        session = bob;
        known = refl;
        undeafened = refl;
        address = refl;
      })
      refl

-- ann is in a channel with a large ID.
abbrev far_away : {S : Type 0} → Server S → Server S
far_away s = record (talking s) { channels = (Channels.join 7 (pos 65_537) two).0 }

voice_round_wide_channel_example :
    (voice_round (λ a. true) elsewhere from_ann (far_away started)).0 ≡ []
unfolding unmarshal_voice_packet lookup Channels.channel_of Channels.join Membership.run
    Channels.new insert
voice_round_wide_channel_example =
    voice_round_wide_channel (λ a. true) elsewhere from_ann (far_away started) of_ann 65_537 refl
      (omega arith) refl (omega arith)
