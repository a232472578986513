-- ===== src/Server/Core.antt =====
-- The part of the server's state that sessions and channels share, and the steps by which the
-- goroutines of pkg/server change it: the ChannelManager, the SessionManager and the connections of
-- the ControlHandler.
pub mod Soundness
pub mod Frame
pub mod Handlers
pub mod Dispatch
pub mod Events
use gospeak.Prelude.{
  ℕ, ◌≡◌, Bool, List, Option, some, none, Text, Map, insert, delete, ℕ_eq, Int.ℤ, Int.pos,
}
use gospeak.Model.{Session, Role, UdpAddr}
use gospeak.Server.Channels
use gospeak.Server.Channels.{ChannelManager}
use gospeak.Server.Sessions
use gospeak.Server.Sessions.{SessionManager}
use gospeak.Server.State.{Server}

pub record Core : Type 0 where
  pub channels : ChannelManager
  pub sessions : SessionManager
  pub conn_map : Map ℕ ℕ

abbrev pub core : {S : Type 0} → Server S → Core
core s = record { channels = s.channels; sessions = s.sessions; conn_map = s.conn_map }

-- A session joins a channel.
unfoldable pub moved : ℕ → ℤ → Core → Core
moved sid cid k = record k {
  channels = (Channels.join sid cid k.channels).0;
  sessions = Sessions.set_channel sid cid k.sessions;
}

-- A session is taken out of its channel.
unfoldable pub taken_out : ℕ → Core → Core
taken_out sid k = record k {
  channels = (Channels.leave sid k.channels).0;
  sessions = Sessions.set_channel sid (pos 0) k.sessions;
}

-- A session ends.
unfoldable pub departed : ℕ → Core → Core
departed sid k = record {
  channels = (Channels.leave sid k.channels).0;
  sessions = Sessions.remove sid k.sessions;
  conn_map = delete sid k.conn_map;
}

pub data Step (k : Core) : Core → Type 0 where
  moves :
      (sid : ℕ) (session : Session) (cid : ℤ)
      → Sessions.get_snapshot sid k.sessions ≡ some session
      → Step k (moved session.id cid k)
  takes_out : (sid : ℕ) → Step k (taken_out sid k)
  sets_state :
      (sid : ℕ) (muted deafened : Bool)
      → Step k (record k { sessions = Sessions.update_user_state sid muted deafened k.sessions })
  sets_role :
      (sid : ℕ) (role : Role)
      → Step k (record k { sessions = Sessions.update_role sid role k.sessions })
  sets_addr :
      (sid : ℕ) (addr : Option UdpAddr)
      → Step k (record k { sessions = Sessions.set_udp_addr sid addr k.sessions })
  arrives :
      (u : ℤ) (name : Text) (role : Role) (draws : List ℕ) (sm : SessionManager) (session : Session)
      (conn : ℕ)
      → Sessions.create u name role draws k.sessions ≡ some (sm, session)
      → Step k (record k { sessions = sm; conn_map = insert session.id conn k.conn_map })
  departs : (sid : ℕ) → Step k (departed sid k)

pub data Steps (k : Core) : Core → Type 0 where
  none_done : Steps k k
  one_more : {l m : Core} → Steps k l → Step l m → Steps k m
