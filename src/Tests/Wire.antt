-- ===== src/Tests/Wire.antt =====
-- Packets, frames, keys, names and texts at concrete arguments.
use gospeak.Prelude.{◌≡◌, refl, sym, ◌↔◌, ◌⊎◌, ℕ, [], ◌∷◌, ◌++◌, none, some, arith, Text, All, ◌∷◌}
use gospeak.Utf8.{runes, sanitize_text}
use gospeak.Utf8.Sanitize.{sanitize_text-NotControl, NotControl}
use gospeak.Model.{role_moderator, role_admin, kick_user}
use gospeak.Rbac.{require_permission, require_permission_iff}
use gospeak.Protocol.{
  VoicePacket, marshal, unmarshal_voice_packet, write_control_message, read_control_message, ok,
}
use gospeak.Protocol.Packets.{unmarshal-marshal, marshal-unmarshal}
use gospeak.Protocol.Frames.{read-write}

abbrev packet : VoicePacket
packet = record {
  session_id = 7;
  seq_num = 4_294_967_295;
  timestamp = 960;
  channel_id = 513;
  payload = 1 ∷ 2 ∷ [];
}

unmarshal-marshal_example : unmarshal_voice_packet (marshal packet) ≡ some packet
unmarshal-marshal_example = unmarshal-marshal packet (record {
  session_id_fits = omega arith;
  seq_num_fits = omega arith;
  timestamp_fits = omega arith;
  channel_id_fits = omega arith;
})

abbrev wire : Text
wire = 0 ∷ 0 ∷ 0 ∷ 7 ∷ 255 ∷ 255 ∷ 255 ∷ 255 ∷ 0 ∷ 0 ∷ 3 ∷ 192 ∷ 2 ∷ 1 ∷ 1 ∷ 2 ∷ []

marshal-unmarshal_example : marshal packet ≡ wire
unfolding unmarshal_voice_packet
marshal-unmarshal_example =
    marshal-unmarshal wire packet
      (
        omega arith,
        (
          omega arith,
          (
            omega arith,
            (
              omega arith,
              (
                omega arith,
                (
                  omega arith,
                  (
                    omega arith,
                    (
                      omega arith,
                      (
                        omega arith,
                        (
                          omega arith,
                          (
                            omega arith,
                            (
                              omega arith,
                              (omega arith, (omega arith, (omega arith, (omega arith, tt)))),
                            ),
                          ),
                        ),
                      ),
                    ),
                  ),
                ),
              ),
            ),
          ),
        ),
      )
      refl

-- A codec that stands for JSON: a message is its own text.
read-write_example :
    read_control_message some ((0 ∷ 0 ∷ 0 ∷ 2 ∷ 104 ∷ 105 ∷ []) ++ (9 ∷ []))
    ≡ (ok (104 ∷ 105 ∷ []), 9 ∷ [])
unfolding write_control_message
read-write_example =
    read-write some some (104 ∷ 105 ∷ []) (0 ∷ 0 ∷ 0 ∷ 2 ∷ 104 ∷ 105 ∷ []) (9 ∷ []) (λ m s e. sym e)
      refl

abbrev session_number : ℕ
session_number = 3

abbrev sequence_number : ℕ
sequence_number = 4_294_967_295

sanitize_text-NotControl_example : All NotControl (runes (sanitize_text (104 ∷ 10 ∷ 255 ∷ [])))
sanitize_text-NotControl_example = sanitize_text-NotControl (104 ∷ 10 ∷ 255 ∷ [])

require_permission_iff_example : (require_permission role_moderator kick_user ≡ none) ↔ (
    (role_moderator ≡ role_admin) ⊎ ((role_moderator ≡ role_moderator) × (kick_user ≡ kick_user)))
require_permission_iff_example = require_permission_iff role_moderator kick_user
