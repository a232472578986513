-- ===== src/Server/Control/Joins.antt =====
-- How full a channel gets by joins, whose goroutines share the managers: handleJoinChannel of
-- pkg/server/control.go.
use gospeak.Prelude.{
  ℕ_eq, List, All, elem, Int.eqb_ℤ_iff, ◌≢◌, ℕ, ◌≡◌, false, [], ◌∷◌, ℤ_eq, text_eq, Int.pos,
}
use gospeak.Model.{Session, Channel}
use gospeak.Store.{DataStore}
use gospeak.Server.Channels
use gospeak.Server.Channels.{ChannelManager}
use gospeak.Server.State.{Server}
use gospeak.Server.Control.Membership.{join_channel}

-- Joins of one channel behind their checks, of connections with their sessions, one after the other.
unfoldable pub join_all :
    {S : Type 0} → DataStore S → Channel → List (ℕ × Session) → Server S → Server S
join_all ds ch [] s = s
join_all ds ch ((conn, session) ∷ joins) s =
    join_all ds ch joins (join_channel ds conn session ch s)

-- Sessions that are different and not in the channel.
abbrev pub AreNew : Channel → List (ℕ × Session) → ChannelManager → Type 0
AreNew ch [] cm = Unit
AreNew ch ((conn, session) ∷ joins) cm =
    (elem session.id (Channels.members ch.id cm) ≡ false)
    × All (λ later. later.1.id ≢ session.id) joins
    × AreNew ch joins cm
