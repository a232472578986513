-- ===== src/Store/Memory/Lookups.antt =====
-- How the user methods of pkg/store/memory.go see one another's effects.
use gospeak.Prelude.{
  ℕ, ◌≡◌, ◌↔◌, inl, inr, true, none, some, arith, eqb_iff, eqb_text_iff, lookup, lookup-insert,
  Text, ℕ_eq, ℤ_eq, text_eq, Int.ℤ, Int.pos, Int.eqb_ℤ_iff, Option-cases, Bool-cases,
}
use gospeak.Model.{Role, role_valid, User, Time, validate_username}
use gospeak.Store.{ok}
use gospeak.Store.Memory.{
  MemoryStore, add_user, create_user_mem, get_user_by_username, get_user_by_id, update_role_mem,
}
use gospeak.Store.Memory.Users.{UsersValid, set_role_lem, add_user-UsersValid}

-- CreateUser keeps the maps of users in agreement.
pub create_user-UsersValid :
    (now : Time) (n : Text) (r : Role) (s : MemoryStore)
    → UsersValid s
    → UsersValid (create_user_mem now n r s).1
unfolding create_user_mem
create_user-UsersValid now n r s v = elim (Option-cases (validate_username n)) [
  | inr (e, bad) ↦ rw (bad, create_user_mem) v
  | inl okn ↦ elim (Bool-cases (role_valid r)) [
    | inr bad ↦ rw (okn, bad, create_user_mem) v
    | inl okr ↦ elim (Option-cases (lookup n s.users_by_username)) [
      | inl fresh ↦
          rw (okn, okr, fresh, create_user_mem) (add_user-UsersValid now n r s v okn okr fresh)
      | inr (p, taken) ↦ rw (okn, okr, taken, create_user_mem) v
    ]
  ]
]

by_username_some :
    (n : Text) (u : User) (s : MemoryStore)
    → get_user_by_username n s ≡ some u
    → (p : ℕ) × (lookup n s.users_by_username ≡ some p) × (lookup p s.heap ≡ some u)
unfolding get_user_by_username
by_username_some n u s e = elim (Option-cases (lookup n s.users_by_username)) [
  | inl gone ↦ absurd (ground arith)
  | inr (p, found) ↦ (p, found, ground arith)
]

by_id_some :
    (i : ℤ) (u : User) (s : MemoryStore)
    → get_user_by_id i s ≡ some u
    → (p : ℕ) × (lookup i s.users_by_id ≡ some p) × (lookup p s.heap ≡ some u)
unfolding get_user_by_id
by_id_some i u s e = elim (Option-cases (lookup i s.users_by_id)) [
  | inl gone ↦ absurd (ground arith)
  | inr (p, found) ↦ (p, found, ground arith)
]

-- In a valid store a user is found by a name exactly when it has that name and is found by its ID.
pub get_user_by_username_iff :
    (n : Text) (u : User) (s : MemoryStore)
    → UsersValid s
    → (get_user_by_username n s ≡ some u) ↔ ((u.username ≡ n) × (get_user_by_id u.id s ≡ some u))
get_user_by_username_iff n u s v = (
  λ e.
      let (p, found, at_p) = by_username_some n u s e in
      let (w, at_w, name) = v.by_name n p found in
      (ground arith, unfold get_user_by_id in ground (arith, v.user_at p u at_p)),
  λ h.
      let (p, found, at_p) = by_id_some u.id u s h.1 in
      unfold get_user_by_username in ground (arith, v.user_at p u at_p),
)

-- A change of role is seen by the name too, since both maps lead to the same object; nothing else
-- of the user changes.
pub get_user_by_username-update_role :
    (i : ℤ) (r : Role) (u : User) (s : MemoryStore)
    → UsersValid s
    → role_valid r ≡ true
    → get_user_by_id i s ≡ some u
    → get_user_by_username u.username (update_role_mem i r s).1 ≡ some (record u { role = r })
unfolding update_role_mem get_user_by_username
get_user_by_username-update_role i r u s v good h =
    let (p, found, at_p) = by_id_some i u s h in
    rw (good, found, update_role_mem)
      (ground (arith, eqb_iff p p, set_role_lem r p p s.heap u at_p, v.user_at p u at_p))

-- A user that CreateUser returns has the name and the role that were asked for, a valid name, and an
-- ID and a name that no user had; it is found by both from then on.
pub create_user_lem :
    (now : Time) (n : Text) (r : Role) (u : User) (s s' : MemoryStore)
    → UsersValid s
    → create_user_mem now n r s ≡ (ok u, s')
    → (u.username ≡ n)
      × (u.role ≡ r)
      × (validate_username n ≡ none)
      × (get_user_by_username n s ≡ none)
      × (get_user_by_id u.id s ≡ none)
      × (get_user_by_username n s' ≡ some u)
      × (get_user_by_id u.id s' ≡ some u)
unfolding create_user_mem add_user get_user_by_username get_user_by_id
create_user_lem now n r u s s' v e = ground (
  arith,
  eqb_iff s.next_user_id s.next_user_id,
  eqb_ℤ_iff u.id u.id,
  eqb_text_iff n n,
  lookup-insert s.next_user_id s.next_user_id u s.heap,
  lookup-insert u.id u.id s.next_user_id s.users_by_id,
  lookup-insert n n s.next_user_id s.users_by_username,
  none_at,
)
  where
    none_at : lookup (pos s.next_user_id) s.users_by_id ≡ none
    none_at = elim (Option-cases (lookup (pos s.next_user_id) s.users_by_id)) [
      | inl gone ↦ gone
      | inr (p, found) ↦ elim (Option-cases (lookup p s.heap)) [
        | inl gone ↦ absurd (ground (arith, v.by_id (pos s.next_user_id) p found))
        | inr (w, at_p) ↦
            absurd (ground (arith, v.by_id (pos s.next_user_id) p found, v.user_at p w at_p))
      ]
    ]
