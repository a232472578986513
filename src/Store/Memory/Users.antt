-- ===== src/Store/Memory/Users.antt =====
-- The users of pkg/store/memory.go: two maps over shared objects.
use gospeak.Prelude.{
  ℕ, ◌<◌, ◌≡◌, inl, inr, true, none, some, arith, ◌==◌, eqb_iff, eqb_text_iff, if◌then◌else◌,
  is_some, Map, lookup, insert, lookup-insert, Text, ℕ_eq, ℤ_eq, text_eq, Int.ℤ, Int.pos,
  Int.eqb_ℤ_iff, Option-cases, Bool-cases,
}
use gospeak.Model.{Role, role_valid, User, Time, validate_username}
use gospeak.Store.Memory.{MemoryStore, add_user, set_role, update_role_mem}

-- The maps and the objects agree: every pointer of a map leads to the user of that key, both maps
-- have every user, the addresses are below the counter, and names and roles are valid.
pub record UsersValid (s : MemoryStore) : Type 0 where
  pub user_at :
      (p : ℕ) (u : User)
      → lookup p s.heap ≡ some u
      → (u.id ≡ pos p)
        × (p < s.next_user_id)
        × (lookup (pos p) s.users_by_id ≡ some p)
        × (lookup u.username s.users_by_username ≡ some p)
        × (role_valid u.role ≡ true)
        × (validate_username u.username ≡ none)
  pub by_id :
      (i : ℤ) (p : ℕ)
      → lookup i s.users_by_id ≡ some p
      → (i ≡ pos p) × (is_some (lookup p s.heap) ≡ true)
  pub by_name :
      (n : Text) (p : ℕ)
      → lookup n s.users_by_username ≡ some p
      → (u : User) × (lookup p s.heap ≡ some u) × (u.username ≡ n)

pub add_user-UsersValid :
    (now : Time) (n : Text) (r : Role) (s : MemoryStore)
    → UsersValid s
    → validate_username n ≡ none
    → role_valid r ≡ true
    → lookup n s.users_by_username ≡ none
    → UsersValid (add_user now n r s).1
unfolding add_user
add_user-UsersValid now n r s v okn okr fresh = record {
  user_at = λ p u e. ground (
    arith,
    eqb_iff s.next_user_id p,
    eqb_ℤ_iff (pos s.next_user_id) (pos p),
    eqb_text_iff n u.username,
    lookup-insert s.next_user_id p
        (record { id = pos s.next_user_id; username = n; role = r; created_at = now }) s.heap,
    lookup-insert (pos s.next_user_id) (pos p) s.next_user_id s.users_by_id,
    lookup-insert n u.username s.next_user_id s.users_by_username,
    v.user_at p u,
  );
  by_id = λ i p e. ground (
    arith,
    eqb_iff s.next_user_id p,
    eqb_ℤ_iff (pos s.next_user_id) i,
    lookup-insert s.next_user_id p
        (record { id = pos s.next_user_id; username = n; role = r; created_at = now }) s.heap,
    lookup-insert (pos s.next_user_id) i s.next_user_id s.users_by_id,
    v.by_id i p,
  );
  by_name = λ m p e. elim (Bool-cases (n == m)) [
    | inl same ↦ (
      record { id = pos s.next_user_id; username = n; role = r; created_at = now },
      ground (arith, added p, added_name m),
      ground (arith, eqb_text_iff n m),
    )
    | inr other ↦
        let (u, at_p, name) = v.by_name m p (ground (arith, added_name m)) in
        (u, ground (arith, added p, eqb_iff s.next_user_id p, v.user_at p u at_p), name)
  ];
}
  where
    added :
        (p : ℕ)
        → lookup p (
            insert s.next_user_id
              (record { id = pos s.next_user_id; username = n; role = r; created_at = now })
              s.heap)
          ≡ (if s.next_user_id == p
              then some
                  (record { id = pos s.next_user_id; username = n; role = r; created_at = now })
              else lookup p s.heap)
    added p = lookup-insert s.next_user_id p _ s.heap

    added_name :
        (m : Text)
        → lookup m (insert n s.next_user_id s.users_by_username)
          ≡ (if n == m then some s.next_user_id else lookup m s.users_by_username)
    added_name m = lookup-insert n m s.next_user_id s.users_by_username

pub set_role_lem :
    (r : Role) (p q : ℕ) (h : Map ℕ User) (u : User)
    → lookup p h ≡ some u
    → lookup q (set_role r p h) ≡ (if p == q then some (record u { role = r }) else lookup q h)
unfolding set_role
set_role_lem r p q h u e = rw (e, set_role) (lookup-insert p q (record u { role = r }) h)

pub update_role-UsersValid :
    (i : ℤ) (r : Role) (s : MemoryStore) → UsersValid s → UsersValid (update_role_mem i r s).1
unfolding update_role_mem
update_role-UsersValid i r s v = elim (Bool-cases (role_valid r)) [
  | inr bad ↦ rw bad v
  | inl good ↦ elim (Option-cases (lookup i s.users_by_id)) [
    | inl gone ↦ rw (good, gone, update_role_mem) v
    | inr (p, found) ↦ elim (Option-cases (lookup p s.heap)) [
      | inl dangling ↦ absurd (ground (arith, v.by_id i p found))
      | inr (u, at_p) ↦
          rw (good, found, update_role_mem)
            (record {
              user_at = λ q w e. ground (
                arith,
                eqb_iff p q,
                set_role_lem r p q s.heap u at_p,
                v.user_at q w,
                v.user_at p u at_p,
              );
              by_id = λ j q e.
                  ground (arith, eqb_iff p q, set_role_lem r p q s.heap u at_p, v.by_id j q e);
              by_name = λ n q e. elim (Bool-cases (p == q)) [
                | inl same ↦ (
                  record u { role = r },
                  ground (arith, set_role_lem r p q s.heap u at_p),
                  ground (arith, eqb_iff p q, v.by_name n q e),
                )
                | inr other ↦
                    let (w, at_q, name) = v.by_name n q e in
                    (w, ground (arith, set_role_lem r p q s.heap u at_p), name)
              ];
            })
    ]
  ]
]
