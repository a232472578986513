-- ===== src/Server/Sessions.antt =====
-- SessionManager of pkg/server/session.go: the sessions of the connected clients. Each method holds
-- the manager's lock, so a method is one step; a snapshot is the session's value.
pub mod Invariant
use gospeak.Prelude.{
  ℕ, Bool, true, false, not, ◌&&◌, List, [], ◌∷◌, Option, none, some, ◌==◌, eqb, if◌then◌else◌,
  is_some, length, Map, lookup, insert, delete, Text, ℕ_eq, ℤ_eq, Int.ℤ, Int.pos,
}
use gospeak.Model.{Session, Role, UdpAddr}

pub record SessionManager : Type 0 where
  pub sessions : Map ℕ Session

-- NewSessionManager
unfoldable pub new : SessionManager
new = record { sessions = [] }

-- The loop of Create over the words that crypto/rand delivers: the first that is not 0 and is no
-- session's ID. `none` means that the words ran out first.
unfoldable pub pick_id : List ℕ → Map ℕ Session → Option ℕ
pick_id [] sessions = none
pick_id (id ∷ draws) sessions =
    if not (eqb id 0) && not (is_some (lookup id sessions)) then some id else pick_id draws sessions

unfoldable pub create :
    ℤ → Text → Role → List ℕ → SessionManager → Option (SessionManager × Session)
create user_id username role draws sm = elim (pick_id draws sm.sessions) [
  | none ↦ none
  | some id ↦
      let sess : Session = record {
        id = id;
        user_id = user_id;
        username = username;
        role = role;
        channel_id = pos 0;
        udp_addr = none;
        muted = false;
        deafened = false;
      } in
      some (record { sessions = insert id sess sm.sessions }, sess)
]

-- GetSnapshot
unfoldable pub get_snapshot : ℕ → SessionManager → Option Session
get_snapshot id sm = lookup id sm.sessions

-- The loop of GetByUserIDSnapshot.
unfoldable pub find_user : ℤ → Map ℕ Session → Option Session
find_user user_id [] = none
find_user user_id ((k, s) ∷ m) = if s.user_id == user_id then some s else find_user user_id m

-- GetByUserIDSnapshot
unfoldable pub get_by_user_id_snapshot : ℤ → SessionManager → Option Session
unfolding find_user
get_by_user_id_snapshot user_id sm = find_user user_id sm.sessions

unfoldable pub remove : ℕ → SessionManager → SessionManager
remove id sm = record { sessions = delete id sm.sessions }

-- `if s, ok := sm.sessions[id]; ok { … }`, with what the braces do to the session.
unfoldable pub update : (Session → Session) → ℕ → SessionManager → SessionManager
update f id sm = elim (lookup id sm.sessions) [
  | none ↦ sm
  | some s ↦ record { sessions = insert id (f s) sm.sessions }
]

unfoldable pub set_udp_addr : ℕ → Option UdpAddr → SessionManager → SessionManager
unfolding update
set_udp_addr id addr = update (λ s. record s { udp_addr = addr }) id

unfoldable pub update_user_state : ℕ → Bool → Bool → SessionManager → SessionManager
unfolding update
update_user_state id muted deafened =
    update (λ s. record s { muted = muted; deafened = deafened }) id

unfoldable pub set_channel : ℕ → ℤ → SessionManager → SessionManager
unfolding update
set_channel id channel_id = update (λ s. record s { channel_id = channel_id }) id

unfoldable pub update_role : ℕ → Role → SessionManager → SessionManager
unfolding update
update_role id role = update (λ s. record s { role = role }) id

-- Count
unfoldable pub count : SessionManager → ℕ
count sm = length sm.sessions
