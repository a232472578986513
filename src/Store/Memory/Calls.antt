-- ===== src/Store/Memory/Calls.antt =====
-- Sequences of calls on the store of pkg/store/memory.go.
use gospeak.Prelude.{◌≡◌, refl, List, [], ◌∷◌, Text, lookup, Int.ℤ, ℤ_eq, ℕ_eq, text_eq, arith}
use gospeak.Model.{Role, Channel, Time}
use gospeak.Store.Memory.{
  MemoryStore, new_memory, add_user, create_user_mem, update_role_mem, create_channel,
  delete_channel, get_channel, create_token, validate_token, create_ban,
}
use gospeak.Store.Memory.Users.{UsersValid, update_role-UsersValid}
use gospeak.Store.Memory.Lookups.{create_user-UsersValid}
use gospeak.Store.Memory.Channels.{
  ChannelsValid, create_channel-ChannelsValid, delete_channel-ChannelsValid,
}
use gospeak.Store.Memory.Tokens.{BansBelow, create_ban-BansBelow}

-- Users, channels and bans are as the other methods need them.
pub record IsValid (s : MemoryStore) : Type 0 where
  pub users : UsersValid s
  pub channels : ChannelsValid s
  pub bans : BansBelow s

-- A call of a method that changes the store.
pub data Call : Type 0 where
  creates_user : Time → Text → Role → Call
  updates_user_role : ℤ → Role → Call
  creates_channel : Time → Channel → Call
  deletes_channel : ℤ → Call
  creates_token : Time → Text → Role → ℤ → ℤ → ℤ → Time → Call
  validates_token : Time → Text → Call
  creates_ban : Time → ℤ → Text → Text → ℤ → Time → Call

unfoldable pub step : MemoryStore → Call → MemoryStore
step s (creates_user now name role) = (create_user_mem now name role s).1
step s (updates_user_role user_id role) = (update_role_mem user_id role s).1
step s (creates_channel now ch) = (create_channel now ch s).1
step s (deletes_channel id) = (delete_channel id s).1
step s (creates_token now hash role scope by max_uses ends) =
    (create_token now hash role scope by max_uses ends s).1
step s (validates_token now hash) = (validate_token now hash s).1
step s (creates_ban now user_id ip reason by ends) = (create_ban now user_id ip reason by ends s).1

unfoldable pub run : MemoryStore → List Call → MemoryStore
run s [] = s
run s (c ∷ cs) = run (step s c) cs

SameUsers : MemoryStore → MemoryStore → Type 0
SameUsers s t =
    (t.heap ≡ s.heap)
    × (t.users_by_id ≡ s.users_by_id)
    × (t.users_by_username ≡ s.users_by_username)
    × (t.next_user_id ≡ s.next_user_id)

SameChannels : MemoryStore → MemoryStore → Type 0
SameChannels s t = (t.channels_by_id ≡ s.channels_by_id) × (t.next_channel_id ≡ s.next_channel_id)

SameBans : MemoryStore → MemoryStore → Type 0
SameBans s t = (t.bans_by_id ≡ s.bans_by_id) × (t.next_ban_id ≡ s.next_ban_id)

same-UsersValid : (s t : MemoryStore) → SameUsers s t → UsersValid s → UsersValid t
unfolding SameUsers
same-UsersValid s t (heap, ids, names, next) v = record {
  user_at = rw (heap, ids, names, next) v.user_at;
  by_id = rw (heap, ids) v.by_id;
  by_name = rw (heap, names) v.by_name;
}

same-ChannelsValid : (s t : MemoryStore) → SameChannels s t → ChannelsValid s → ChannelsValid t
unfolding SameChannels get_channel
same-ChannelsValid s t (chs, next) v = record { channel_at = rw (chs, next) v.channel_at }

same-BansBelow : (s t : MemoryStore) → SameBans s t → BansBelow s → BansBelow t
unfolding SameBans
same-BansBelow s t (bans, next) v = rw (bans, next) v

step-UsersValid : (s : MemoryStore) (call : Call) → UsersValid s → UsersValid (step s call)
unfolding step SameUsers create_channel delete_channel create_token validate_token create_ban
step-UsersValid s (creates_user now name role) v = create_user-UsersValid now name role s v
step-UsersValid s (updates_user_role i role) v = update_role-UsersValid i role s v
step-UsersValid s (creates_channel now ch) v =
    same-UsersValid s (create_channel now ch s).1 (ground arith) v
step-UsersValid s (deletes_channel i) v = same-UsersValid s (delete_channel i s).1 (ground arith) v
step-UsersValid s (creates_token now hash role a b c ends) v =
    same-UsersValid s (create_token now hash role a b c ends s).1 (ground arith) v
step-UsersValid s (validates_token now hash) v =
    same-UsersValid s (validate_token now hash s).1 (ground arith) v
step-UsersValid s (creates_ban now i ip reason by ends) v =
    same-UsersValid s (create_ban now i ip reason by ends s).1 (ground arith) v

step-ChannelsValid : (s : MemoryStore) (call : Call) → ChannelsValid s → ChannelsValid (step s call)
unfolding step SameChannels create_user_mem add_user update_role_mem create_token validate_token
    create_ban
step-ChannelsValid s (creates_user now name role) v =
    same-ChannelsValid s (create_user_mem now name role s).1 (ground arith) v
step-ChannelsValid s (updates_user_role i role) v =
    same-ChannelsValid s (update_role_mem i role s).1 (ground arith) v
step-ChannelsValid s (creates_channel now ch) v = create_channel-ChannelsValid now ch s v
step-ChannelsValid s (deletes_channel i) v = delete_channel-ChannelsValid i s v
step-ChannelsValid s (creates_token now hash role a b c ends) v =
    same-ChannelsValid s (create_token now hash role a b c ends s).1 (ground arith) v
step-ChannelsValid s (validates_token now hash) v =
    same-ChannelsValid s (validate_token now hash s).1 (ground arith) v
step-ChannelsValid s (creates_ban now i ip reason by ends) v =
    same-ChannelsValid s (create_ban now i ip reason by ends s).1 (ground arith) v

step-BansBelow : (s : MemoryStore) (call : Call) → BansBelow s → BansBelow (step s call)
unfolding step SameBans create_user_mem add_user update_role_mem create_channel delete_channel
    create_token validate_token
step-BansBelow s (creates_user now name role) v =
    same-BansBelow s (create_user_mem now name role s).1 (ground arith) v
step-BansBelow s (updates_user_role i role) v =
    same-BansBelow s (update_role_mem i role s).1 (ground arith) v
step-BansBelow s (creates_channel now ch) v =
    same-BansBelow s (create_channel now ch s).1 (ground arith) v
step-BansBelow s (deletes_channel i) v = same-BansBelow s (delete_channel i s).1 (ground arith) v
step-BansBelow s (creates_token now hash role a b c ends) v =
    same-BansBelow s (create_token now hash role a b c ends s).1 (ground arith) v
step-BansBelow s (validates_token now hash) v =
    same-BansBelow s (validate_token now hash s).1 (ground arith) v
step-BansBelow s (creates_ban now i ip reason by ends) v =
    create_ban-BansBelow now i ip reason by ends s v

step-IsValid : (s : MemoryStore) (call : Call) → IsValid s → IsValid (step s call)
step-IsValid s call v = record {
  users = step-UsersValid s call v.users;
  channels = step-ChannelsValid s call v.channels;
  bans = step-BansBelow s call v.bans;
}

run-IsValid : (s : MemoryStore) (calls : List Call) → IsValid s → IsValid (run s calls)
unfolding run
run-IsValid s [] v = v
run-IsValid s (c ∷ cs) v = run-IsValid (step s c) cs (step-IsValid s c v)

pub new_memory-IsValid : IsValid new_memory
unfolding new_memory get_channel lookup
new_memory-IsValid = record {
  users = record {
    user_at = λ p u e. absurd (ground arith);
    by_id = λ i p e. absurd (ground arith);
    by_name = λ n p e. absurd (ground arith);
  };
  channels = record { channel_at = λ i ch e. absurd (ground arith) };
  bans = λ n le. refl;
}

-- After any calls on a new store: the two maps of users lead to the same objects, each under its own
-- name and its own ID, with a valid name and a valid role; every channel is valid and stands under
-- its own ID; and no channel or ban has an ID that is still to be given.
pub run-new_memory-IsValid : (calls : List Call) → IsValid (run new_memory calls)
run-new_memory-IsValid calls = run-IsValid new_memory calls new_memory-IsValid
