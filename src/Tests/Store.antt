-- ===== src/Tests/Store.antt =====
-- The in-memory store at concrete arguments.
use gospeak.Prelude.{
  ◌≡◌, refl, ◌↔◌, ◌⊎◌, ◌≤◌, suc, ◌+◌, true, false, List, [], ◌∷◌, some, arith, text, lookup, insert,
  text_eq, eqb_text, ℤ_eq, Int.pos, Int.negsuc, Int.ltb_ℤ,
}
use gospeak.Model.{
  Channel, User, role_user, role_admin, role_moderator, validate_username, role_valid, is_exhausted,
}
use gospeak.Store.{ok}
use gospeak.Store.Memory.{
  MemoryStore, MemoryToken, new_memory, create_user_mem, create_token, validate_token,
  token_is_exhausted,
}
use gospeak.Store.Memory.Tokens.{
  validate_token_iff, accepted_uses, accepted_uses-le, as_token, is_exhausted_cases,
}
use gospeak.Store.Memory.Calls.{
  IsValid, Call, creates_user, updates_user_role, creates_channel, deletes_channel, creates_token,
  validates_token, creates_ban, step, run, run-new_memory-IsValid,
}

abbrev lobby : Channel
lobby = record {
  id = pos 0;
  name = text "Lobby";
  description = [];
  max_users = pos 10;
  parent_id = pos 0;
  is_temp = false;
  allow_sub_channels = true;
  created_at = 0;
}

abbrev calls : List Call
calls =
    creates_user 5 (text "ann") role_admin
    ∷ creates_channel 6 lobby
    ∷ creates_token 7 (text "h") role_moderator (pos 0) (pos 1) (pos 2) 100
    ∷ validates_token 8 (text "h")
    ∷ creates_ban 9 (pos 1) [] (text "spam") (pos 1) 20
    ∷ updates_user_role (pos 1) role_user
    ∷ deletes_channel (pos 1)
    ∷ []

run-new_memory-IsValid_example : IsValid (run new_memory calls)
run-new_memory-IsValid_example = run-new_memory-IsValid calls

-- A store with a user, a channel and a token that may be used twice.
abbrev ann : User
ann = record { id = pos 1; username = text "ann"; role = role_admin; created_at = 5 }

abbrev ticket : MemoryToken
ticket = record {
  id = 1;
  hash = text "h";
  role = role_moderator;
  channel_scope = pos 0;
  created_by = pos 1;
  max_uses = pos 2;
  use_count = 0;
  expires_at = 100;
  created_at = 7;
}

abbrev town : MemoryStore
town = run new_memory (
    creates_user 5 (text "ann") role_admin
    ∷ creates_token 7 (text "h") role_moderator (pos 0) (pos 1) (pos 2) 100
    ∷ [])

town-IsValid : IsValid town
town-IsValid = run-new_memory-IsValid _

abbrev first_channel : Channel
first_channel = record lobby { id = pos 1; created_at = 6 }

validate_token_iff_example : ((validate_token 8 (text "h") town).0 ≡ ok role_moderator) ↔ (
    (t : MemoryToken) × (lookup (text "h") town.tokens_by_hash ≡ some t)
    × (t.role ≡ role_moderator)
    × ((t.expires_at ≡ 0) ⊎ (8 ≤ t.expires_at))
    × ((ltb_ℤ (pos 0) t.max_uses ≡ false) ⊎ (ltb_ℤ (pos t.use_count) t.max_uses ≡ true)))
validate_token_iff_example = validate_token_iff 8 (text "h") town role_moderator

accepted_uses-le_example :
    accepted_uses (8 ∷ 9 ∷ 10 ∷ 200 ∷ []) (text "h") town + ticket.use_count ≤ suc 1
unfolding run step new_memory create_user_mem create_token role_valid lookup insert
    validate_username eqb_text
accepted_uses-le_example =
    accepted_uses-le (8 ∷ 9 ∷ 10 ∷ 200 ∷ []) (text "h") town ticket 1 refl refl (omega arith)

is_exhausted_cases_example :
    ((token_is_exhausted (record ticket { max_uses = negsuc 0 })
        ≡ is_exhausted (as_token (record ticket { max_uses = negsuc 0 })))
      × (ltb_ℤ (negsuc 0) (pos 0) ≡ false))
    ⊎ ((token_is_exhausted (record ticket { max_uses = negsuc 0 }) ≡ false)
        × (is_exhausted (as_token (record ticket { max_uses = negsuc 0 })) ≡ true)
        × (ltb_ℤ (negsuc 0) (pos 0) ≡ true))
is_exhausted_cases_example = is_exhausted_cases (record ticket { max_uses = negsuc 0 })
