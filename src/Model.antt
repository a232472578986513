-- ===== src/Model.antt =====
-- The domain types of pkg/model/model.go and their validation. A Go `int` or `int64` is a ℤ, a
-- string is its bytes, and a time.Time is the number of nanoseconds since the zero Time.
pub mod Username
use gospeak.Prelude.{
  ℕ, ◌≡◌, ◌↔◌, Bool, true, false, ◌&&◌, ◌||◌, not, List, [], ◌∷◌, Option, none, some, arith, ltb,
  leb, eqb, if◌then◌else◌, Text, text, length, Eq, ◌==◌, ℤ_eq, text_eq, Int.ℤ, Int.pos, Int.negsuc,
  Int.ltb_ℤ,
}
use gospeak.Utf8.{runes, rune_count, trim_space}

-- `type Role int`: any integer, of which three are recognised.
abbrev pub Role : Type 0
Role = ℤ

abbrev pub role_user : Role
role_user = pos 0

abbrev pub role_moderator : Role
role_moderator = pos 1

abbrev pub role_admin : Role
role_admin = pos 2

-- Role.String
unfoldable pub role_string : Role → Text
role_string r =
    if r == role_user
    then text "user"
    else if r == role_moderator
    then text "moderator"
    else if r == role_admin
    then text "admin"
    else text "unknown"

unfoldable pub parse_role : Text → Role
parse_role s =
    if s == text "admin"
    then role_admin
    else if s == text "moderator"
    then role_moderator
    else role_user

-- Role.Valid
unfoldable pub role_valid : Role → Bool
role_valid r = not (ltb_ℤ r role_user) && not (ltb_ℤ role_admin r)

pub data Permission : Type 0 where
  create_channel delete_channel kick_user ban_user manage_tokens edit_channel : Permission
  manage_roles : Permission

abbrev permission_code : Permission → ℕ
permission_code create_channel = 0
permission_code delete_channel = 1
permission_code kick_user = 2
permission_code ban_user = 3
permission_code manage_tokens = 4
permission_code edit_channel = 5
permission_code manage_roles = 6

abbrev pub permission_beq : Permission → Permission → Bool
permission_beq p q = eqb (permission_code p) (permission_code q)

pub permission_beq_iff : (p q : Permission) → (permission_beq p q ≡ true) ↔ (p ≡ q)
permission_beq_iff p q = ground arith

instance abbrev pub permission_eq : Eq Permission
permission_eq = record { beq = permission_beq; beq_iff = permission_beq_iff }

-- The errors that model.go declares.
pub data Error : Type 0 where
  username_empty username_too_long username_invalid_chars invalid_role : Error
  channel_name_empty channel_name_too_long channel_desc_too_long : Error
  channel_max_users channel_parent_id : Error

abbrev pub max_username_length : ℕ
max_username_length = 32

-- The test in the loop of ValidateUsername, negated: the rune is allowed.
unfoldable pub is_name_rune : ℕ → Bool
is_name_rune r =
    (leb b'a' r && leb r b'z')
    || ((leb b'A' r && leb r b'Z') || ((leb b'0' r && leb r b'9') || (eqb r b'_' || eqb r b'-')))

-- The loop of ValidateUsername.
unfoldable pub check_runes : List ℕ → Option Error
unfolding is_name_rune
check_runes [] = none
check_runes (r ∷ rs) = if is_name_rune r then check_runes rs else some username_invalid_chars

unfoldable pub validate_username : Text → Option Error
unfolding check_runes runes
validate_username name =
    if eqb (length name) 0
    then some username_empty
    else if ltb max_username_length (length name)
    then some username_too_long
    else check_runes (runes name)

abbrev pub Time : Type 0
Time = ℕ

-- Time.IsZero and Time.After
abbrev pub is_zero : Time → Bool
is_zero t = eqb t 0

abbrev pub after : Time → Time → Bool
after t u = ltb u t

pub record User : Type 0 where
  pub id : ℤ
  pub username : Text
  pub role : Role
  pub created_at : Time

abbrev pub max_channel_name_length : ℕ
max_channel_name_length = 64

abbrev pub max_channel_desc_length : ℕ
max_channel_desc_length = 256

abbrev pub max_channel_users : ℕ
max_channel_users = 256

pub record Channel : Type 0 where
  pub id : ℤ
  pub name : Text
  pub description : Text
  pub max_users : ℤ
  pub parent_id : ℤ
  pub is_temp : Bool
  pub allow_sub_channels : Bool
  pub created_at : Time

-- NewChannel
unfoldable pub new_channel : Channel
new_channel = record {
  id = pos 0;
  name = text "Lobby";
  description = text "Default voice channel";
  max_users = pos 0;
  parent_id = pos 0;
  is_temp = false;
  allow_sub_channels = false;
  created_at = 0;
}

-- Channel.Validate
unfoldable pub validate : Channel → Option Error
validate ch =
    if eqb (length (trim_space ch.name)) 0
    then some channel_name_empty
    else if ltb max_channel_name_length (rune_count ch.name)
    then some channel_name_too_long
    else if ltb max_channel_desc_length (rune_count ch.description)
    then some channel_desc_too_long
    else if ltb_ℤ ch.max_users (pos 0) || ltb_ℤ (pos max_channel_users) ch.max_users
    then some channel_max_users
    else if ltb_ℤ ch.parent_id (pos 0)
    then some channel_parent_id
    else none

pub record Token : Type 0 where
  pub id : ℤ
  pub value : Text
  pub hash : Text
  pub role : Role
  pub channel_scope : ℤ
  pub created_by : ℤ
  pub max_uses : ℤ
  pub use_count : ℤ
  pub expires_at : Time
  pub created_at : Time

-- Token.IsExpired, at the time `now`
unfoldable pub is_expired : Token → Time → Bool
is_expired t now = if is_zero t.expires_at then false else after now t.expires_at

-- Token.IsExhausted
unfoldable pub is_exhausted : Token → Bool
is_exhausted t = if t.max_uses == pos 0 then false else not (ltb_ℤ t.use_count t.max_uses)

pub record Ban : Type 0 where
  pub id : ℤ
  pub user_id : ℤ
  pub ip : Text
  pub reason : Text
  pub banned_by : ℤ
  pub expires_at : Time
  pub created_at : Time

-- A net.UDPAddr: the bytes of the IP and the port.
pub record UdpAddr : Type 0 where
  pub ip : List ℕ
  pub port : ℕ

pub record Session : Type 0 where
  pub id : ℕ
  pub user_id : ℤ
  pub username : Text
  pub role : Role
  pub channel_id : ℤ
  pub udp_addr : Option UdpAddr
  pub muted : Bool
  pub deafened : Bool
