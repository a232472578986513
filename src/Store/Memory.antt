-- ===== src/Store/Memory.antt =====
-- MemoryStore of pkg/store/memory.go. Each method holds the store's lock, so a method is one step.
-- The two maps of users share the objects that they point to: a pointer is an address in `heap`.
pub mod Users
pub mod Lookups
pub mod Channels
pub mod Tokens
pub mod Calls
use gospeak.Prelude.{
  ℕ, suc, Bool, true, false, not, ◌&&◌, ◌||◌, List, [], ◌∷◌, Option, none, some, ◌==◌, eqb,
  if◌then◌else◌, is_some, ltb, Map, keys, values, lookup, insert, delete, Text, ℕ_eq, ℤ_eq, text_eq,
  Int.ℤ, Int.pos, Int.ltb_ℤ,
}
use gospeak.Model.{
  Role, role_valid, User, Channel, Ban, Time, is_zero, after, validate_username, validate,
  invalid_role,
}
use gospeak.Store.Sorting.{sort}
use gospeak.Store.{
  Error, Result, ok, err, create_user, username_taken, update_user_role, invalid_channel,
  token_taken, invalid_token, token_expired, token_exhausted, DataStore,
}

pub record MemoryToken : Type 0 where
  pub id : ℕ
  pub hash : Text
  pub role : Role
  pub channel_scope : ℤ
  pub created_by : ℤ
  pub max_uses : ℤ
  pub use_count : ℕ
  pub expires_at : Time
  pub created_at : Time

pub record MemoryStore : Type 0 where
  pub next_user_id : ℕ
  pub next_channel_id : ℕ
  pub next_token_id : ℕ
  pub next_ban_id : ℕ
  pub heap : Map ℕ User
  pub users_by_id : Map ℤ ℕ
  pub users_by_username : Map Text ℕ
  pub channels_by_id : Map ℤ Channel
  pub tokens_by_hash : Map Text MemoryToken
  pub bans_by_id : Map ℤ Ban

-- NewMemory and NewMemoryWithClock; the clock is an argument of the methods.
unfoldable pub new_memory : MemoryStore
new_memory = record {
  next_user_id = 1;
  next_channel_id = 1;
  next_token_id = 1;
  next_ban_id = 1;
  heap = [];
  users_by_id = [];
  users_by_username = [];
  channels_by_id = [];
  tokens_by_hash = [];
  bans_by_id = [];
}

-- The object that a pointer of a map stands for.
abbrev pub deref : MemoryStore → Option ℕ → Option User
deref s none = none
deref s (some p) = lookup p s.heap

-- `user := &model.User{…}`: a new object, whose address is new with the counter of users.
pub add_user : Time → Text → Role → MemoryStore → Result User × MemoryStore
add_user now username role s =
    let n = s.next_user_id in
    let user : User = record { id = pos n; username = username; role = role; created_at = now } in
    (
      ok user,
      record s {
        next_user_id = suc n;
        heap = insert n user s.heap;
        users_by_id = insert (pos n) n s.users_by_id;
        users_by_username = insert username n s.users_by_username;
      },
    )

-- CreateUser
unfoldable pub create_user_mem : Time → Text → Role → MemoryStore → Result User × MemoryStore
unfolding add_user
create_user_mem now username role s = elim (validate_username username) [
  | some e ↦ (err (create_user e), s)
  | none ↦
      if not (role_valid role)
      then (err (create_user invalid_role), s)
      else if is_some (lookup username s.users_by_username)
      then (err username_taken, s)
      else add_user now username role s
]

unfoldable pub get_user_by_username : Text → MemoryStore → Option User
get_user_by_username username s = deref s (lookup username s.users_by_username)

unfoldable pub get_user_by_id : ℤ → MemoryStore → Option User
get_user_by_id id s = deref s (lookup id s.users_by_id)

-- `user.Role = role`, through the pointer.
pub set_role : Role → ℕ → Map ℕ User → Map ℕ User
set_role role p heap = elim (lookup p heap) [
  | none ↦ heap
  | some u ↦ insert p (record u { role = role }) heap
]

-- UpdateUserRole
unfoldable pub update_role_mem : ℤ → Role → MemoryStore → Result (Unit {0}) × MemoryStore
unfolding set_role
update_role_mem user_id role s =
    if not (role_valid role)
    then (err (update_user_role invalid_role), s)
    else elim (lookup user_id s.users_by_id) [
      | none ↦ (ok tt, s)
      | some p ↦ (ok tt, record s { heap = set_role role p s.heap })
    ]

-- The loop of ListUsers: what each pointer of the map stands for.
deref_all : MemoryStore → Map ℤ ℕ → List User
deref_all s [] = []
deref_all s ((i, p) ∷ m) = elim (lookup p s.heap) [
  | none ↦ deref_all s m
  | some u ↦ u ∷ deref_all s m
]

abbrev pub user_less : User → User → Bool
user_less u v = ltb_ℤ u.id v.id

unfoldable pub list_users : MemoryStore → List User
unfolding deref_all
list_users s = sort user_less (deref_all s s.users_by_id)

-- CreateChannel: the stored channel is the argument with its ID and its time of creation.
unfoldable pub create_channel : Time → Channel → MemoryStore → Result Channel × MemoryStore
create_channel now channel s = elim (validate channel) [
  | some e ↦ (err (invalid_channel e), s)
  | none ↦
      let ch = record channel { id = pos s.next_channel_id; created_at = now } in
      (
        ok ch,
        record s {
          next_channel_id = suc s.next_channel_id;
          channels_by_id = insert (pos s.next_channel_id) ch s.channels_by_id;
        },
      )
]

unfoldable pub delete_channel : ℤ → MemoryStore → Result (Unit {0}) × MemoryStore
delete_channel id s = (ok tt, record s { channels_by_id = delete id s.channels_by_id })

-- The order of ListChannels.
abbrev pub channel_less : Channel → Channel → Bool
channel_less c d =
    if c.parent_id == d.parent_id then ltb_ℤ c.id d.id else ltb_ℤ c.parent_id d.parent_id

unfoldable pub list_channels : MemoryStore → List Channel
list_channels s = sort channel_less (values s.channels_by_id)

unfoldable pub get_channel : ℤ → MemoryStore → Option Channel
get_channel id s = lookup id s.channels_by_id

-- The loop of GetChannelByNameAndParent.
find_channel : Text → ℤ → List Channel → Option Channel
find_channel name parent_id [] = none
find_channel name parent_id (ch ∷ chs) =
    if ch.name == name && ch.parent_id == parent_id
    then some ch
    else find_channel name parent_id chs

unfoldable pub get_channel_by_name_and_parent : Text → ℤ → MemoryStore → Option Channel
unfolding find_channel
get_channel_by_name_and_parent name parent_id s =
    find_channel name parent_id (values s.channels_by_id)

unfoldable pub has_tokens : MemoryStore → Bool
has_tokens s = elim s.tokens_by_hash [ [] ↦ false | t ∷ ts ↦ true ]

unfoldable pub create_token :
    Time → Text → Role → ℤ → ℤ → ℤ → Time → MemoryStore → Result (Unit {0}) × MemoryStore
create_token now hash role channel_scope created_by max_uses expires_at s =
    if is_some (lookup hash s.tokens_by_hash) then (err token_taken, s) else (
      ok tt,
      record s {
        next_token_id = suc s.next_token_id;
        tokens_by_hash =
            insert hash
              (record {
                id = s.next_token_id;
                hash = hash;
                role = role;
                channel_scope = channel_scope;
                created_by = created_by;
                max_uses = max_uses;
                use_count = 0;
                expires_at = expires_at;
                created_at = now;
              })
              s.tokens_by_hash;
      },
    )

-- The two refusals of ValidateToken for a token that is there.
abbrev pub token_is_expired : Time → MemoryToken → Bool
token_is_expired now t = not (is_zero t.expires_at) && after now t.expires_at

abbrev pub token_is_exhausted : MemoryToken → Bool
token_is_exhausted t = ltb_ℤ (pos 0) t.max_uses && not (ltb_ℤ (pos t.use_count) t.max_uses)

unfoldable pub validate_token : Time → Text → MemoryStore → Result Role × MemoryStore
validate_token now hash s = elim (lookup hash s.tokens_by_hash) [
  | none ↦ (err invalid_token, s)
  | some t ↦
      if token_is_expired now t
      then (err token_expired, s)
      else if token_is_exhausted t
      then (err token_exhausted, s)
      else (
        ok t.role,
        record s {
          tokens_by_hash = insert hash (record t { use_count = suc t.use_count }) s.tokens_by_hash;
        },
      )
]

unfoldable pub create_ban :
    Time → ℤ → Text → Text → ℤ → Time → MemoryStore → Result (Unit {0}) × MemoryStore
create_ban now user_id ip reason banned_by expires_at s = (
  ok tt,
  record s {
    next_ban_id = suc s.next_ban_id;
    bans_by_id =
        insert (pos s.next_ban_id)
          (record {
            id = pos s.next_ban_id;
            user_id = user_id;
            ip = ip;
            reason = reason;
            banned_by = banned_by;
            expires_at = expires_at;
            created_at = now;
          })
          s.bans_by_id;
  },
)

-- The test of a ban in the loop of IsUserBanned.
abbrev pub ban_applies : Time → ℤ → Ban → Bool
ban_applies now user_id b = b.user_id == user_id && (is_zero b.expires_at || after b.expires_at now)

any_ban : Time → ℤ → List Ban → Bool
any_ban now user_id [] = false
any_ban now user_id (b ∷ bs) = ban_applies now user_id b || any_ban now user_id bs

unfoldable pub is_user_banned : Time → ℤ → MemoryStore → Bool
unfolding any_ban
is_user_banned now user_id s = any_ban now user_id (values s.bans_by_id)

-- The compile-time check at the end of memory.go: *MemoryStore implements DataStore.
unfoldable pub memory_store : DataStore MemoryStore
memory_store = record {
  create_user = create_user_mem;
  get_user_by_username = λ n s. ok (get_user_by_username n s);
  get_user_by_id = λ i s. ok (get_user_by_id i s);
  update_user_role = update_role_mem;
  list_users = λ s. ok (list_users s);
  create_channel = create_channel;
  delete_channel = delete_channel;
  list_channels = λ s. ok (list_channels s);
  get_channel = λ i s. ok (get_channel i s);
  get_channel_by_name_and_parent = λ n p s. ok (get_channel_by_name_and_parent n p s);
  has_tokens = λ s. ok (has_tokens s);
  create_token = create_token;
  validate_token = validate_token;
  create_ban = create_ban;
  is_user_banned = λ now i s. ok (is_user_banned now i s);
}
