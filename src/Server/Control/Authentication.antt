-- ===== src/Server/Control/Authentication.antt =====
-- Who gets past the authentication of handleControlConn (pkg/server/control.go).
use gospeak.Prelude.{◌≡◌, ◌⊎◌, [], none, some, Text, ℤ_eq, text_eq}
use gospeak.Model.{User, Role}
use gospeak.Store.{DataStore, ok}
use gospeak.Server.State.{Server, AuthRequest}
use gospeak.Server.Control.Connection.{Environment}

module _ {S : Type 0} (ds : DataStore S) where
  -- The user, role and new token of one who authenticates with a role, by a look at the store and,
  -- if the name is new, by making the user.
  abbrev pub IsEntrant : Environment → AuthRequest → Role → S → User → Role → Text → Type 0
  IsEntrant env req given st user role auto =
      ((ds.get_user_by_username req.username st ≡ ok (some user))
        × (role ≡ user.role)
        × (auto ≡ []))
      ⊎ ((ds.get_user_by_username req.username st ≡ ok none)
          × ((ds.create_user env.now req.username given st).0 ≡ ok user)
          × (role ≡ given))
