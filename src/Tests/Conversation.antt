-- ===== src/Tests/Conversation.antt =====
-- ann speaks to bob, at concrete arguments.
use gospeak.Prelude.{◌≡◌, refl, inl, true, [], arith, lookup, insert, elem, ℕ_eq, ℤ_eq, Int.pos}
use gospeak.Server.Channels
use gospeak.Server.Channels.Membership as Membership
use gospeak.Server.Sessions
use gospeak.Client.Jitter
use gospeak.Client.Voice
use gospeak.Client.Voice.{VoiceClient}
use gospeak.Client.Playback.{find_speaker}
use gospeak.Client.Playback.Delivery.{listen, speak, decoded}
use gospeak.Client.Conversation.{Reaches, conversation}
use gospeak.Tests.Server.{started}
use gospeak.Tests.Managers.{ann, bob, home, elsewhere, talking, of_ann}
use gospeak.Tests.Speech.{open_cipher, open_cipher-IsAead, counting, speaker, words}

-- The numbers of the packets wrap around.
conversation_example :
    Reaches (λ a. true) elsewhere home (speak words speaker) (talking started)
    × (listen counting open_cipher (speak words speaker) (Voice.new 8 open_cipher) []
        ≡ decoded counting words 0)
unfolding Voice.new find_speaker Sessions.get_snapshot lookup Channels.channel_of Membership.run
    Channels.join Channels.new insert elem Channels.members
conversation_example =
    conversation (λ a. true) elsewhere home counting words speaker (Voice.new 8 open_cipher)
      (talking started) [] (record { decoder = 0; jitter_buf = Jitter.new }) open_cipher-IsAead
      (omega arith) (omega arith) refl
      (record {
        pkt = of_ann;
        of_session = refl;
        of_channel = refl;
        speaks = record {
          session = record ann { channel_id = pos 1 };
          known = refl;
          unmuted = refl;
          source = inl refl;
          in_channel = refl;
          channel_set = omega arith;
        };
        hears = record {
          member = 8;
          listed = refl;
          not_sender = omega arith;
          session = bob;
          known = refl;
          undeafened = refl;
          address = refl;
        };
      })
      refl (refl, inl refl)
