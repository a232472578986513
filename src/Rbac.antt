-- ===== src/Rbac.antt =====
-- Role-based access control: pkg/rbac/rbac.go.
use gospeak.Prelude.{
  ◌≡◌, ◌⊎◌, ◌↔◌, ◌++◌, Bool, true, false, [], ◌∷◌, Option, none, some, arith, if◌then◌else◌, Text,
  text, Map, lookup, ℤ_eq, Int.pos, Int.negsuc,
}
use gospeak.Model.{
  Role, role_user, role_moderator, role_admin, Permission, permission_eq, create_channel,
  delete_channel, kick_user, ban_user, manage_tokens, edit_channel, manage_roles,
}

permission_matrix : Map Role (Map Permission Bool)
permission_matrix =
    (
      role_admin,
      (create_channel, true)
          ∷ (delete_channel, true)
          ∷ (kick_user, true)
          ∷ (ban_user, true)
          ∷ (manage_tokens, true)
          ∷ (edit_channel, true)
          ∷ (manage_roles, true)
          ∷ [],
    )
    ∷ (role_moderator, (kick_user, true) ∷ [])
    ∷ (role_user, [])
    ∷ []

-- A missing key of a `map[Permission]bool` reads as false.
granted : Permission → Map Permission Bool → Bool
granted perm perms = elim (lookup perm perms) [ none ↦ false | some b ↦ b ]

unfoldable pub has_permission : Role → Permission → Bool
unfolding permission_matrix granted lookup
has_permission role perm = elim (lookup role permission_matrix) [
  | none ↦ false
  | some perms ↦ granted perm perms
]

perm_name : Permission → Text
perm_name create_channel = text "create_channel"
perm_name delete_channel = text "delete_channel"
perm_name kick_user = text "kick_user"
perm_name ban_user = text "ban_user"
perm_name manage_tokens = text "manage_tokens"
perm_name edit_channel = text "edit_channel"
perm_name manage_roles = text "manage_roles"

-- The message of a refusal; `none` is the empty string of the source.
unfoldable pub require_permission : Role → Permission → Option Text
unfolding perm_name
require_permission role perm =
    if has_permission role perm
    then none
    else some (text "permission denied: " ++ (perm_name perm ++ text " requires higher role"))

has_permission_cases :
    (role : Role) (perm : Permission)
    → (has_permission role perm ≡ true)
      ↔ ((role ≡ role_admin) ⊎ ((role ≡ role_moderator) × (perm ≡ kick_user)))
unfolding has_permission
has_permission_cases (pos n) perm = ground arith
has_permission_cases (negsuc n) perm = ground arith

-- An action is let through exactly for the admin, and for the moderator if it is a kick; every
-- other role, recognised or not, is refused.
pub require_permission_iff :
    (role : Role) (perm : Permission)
    → (require_permission role perm ≡ none)
      ↔ ((role ≡ role_admin) ⊎ ((role ≡ role_moderator) × (perm ≡ kick_user)))
unfolding require_permission
require_permission_iff role perm = ground (arith, has_permission_cases role perm)
