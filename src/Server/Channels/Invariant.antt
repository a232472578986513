-- ===== src/Server/Channels/Invariant.antt =====
-- How the two maps of the ChannelManager of pkg/server/channels.go belong together.
use gospeak.Prelude.{
  ℕ, ◌≡◌, refl, ◌≢◌, inl, inr, Bool, true, false, [], ◌∷◌, Option, none, some, arith, ◌==◌,
  if◌then◌else◌, is_some, length, Map, lookup, insert, delete, lookup-insert, lookup-delete,
  delete-nil, insert-ne-nil, IsMap, insert-IsMap, delete-IsMap, ℕ_eq, ℤ_eq, Int.ℤ, Int.eqb_ℤ_iff,
  Option-cases, Bool-cases,
}
use gospeak.Server.Channels.{ChannelManager, new, drop_member, add_member, join, leave}

-- cm.members[c], where a missing entry reads as the empty set.
unfoldable pub set_of : ℤ → Map ℤ (Map ℕ Bool) → Map ℕ Bool
set_of c m = elim (lookup c m) [ none ↦ [] | some ss ↦ ss ]

set_of-some :
    (c : ℤ) (m : Map ℤ (Map ℕ Bool)) (ss : Map ℕ Bool) → lookup c m ≡ some ss → set_of c m ≡ ss
unfolding set_of
set_of-some c m ss e = rw (e, set_of)

set_of-none : (c : ℤ) (m : Map ℤ (Map ℕ Bool)) → lookup c m ≡ none → set_of c m ≡ []
unfolding set_of
set_of-none c m e = rw (e, set_of)

set_of-insert :
    (cid c : ℤ) (ss : Map ℕ Bool) (m : Map ℤ (Map ℕ Bool))
    → set_of c (insert cid ss m) ≡ (if cid == c then ss else set_of c m)
unfolding set_of
set_of-insert cid c ss m = ground (arith, lookup-insert cid c ss m)

set_of-delete :
    (cid c : ℤ) (m : Map ℤ (Map ℕ Bool))
    → set_of c (delete cid m) ≡ (if cid == c then [] else set_of c m)
unfolding set_of
set_of-delete cid c m = ground (arith, lookup-delete cid c m)

empty_of_length : (ss : Map ℕ Bool) → length ss ≡ 0 → ss ≡ []
empty_of_length [] h = refl
empty_of_length (x ∷ ss) h = ground arith

pub set_of-add_member :
    (cid : ℤ) (sid : ℕ) (c : ℤ) (m : Map ℤ (Map ℕ Bool))
    → set_of c (add_member cid sid m)
      ≡ (if cid == c then insert sid true (set_of c m) else set_of c m)
unfolding add_member
set_of-add_member cid sid c m = elim (Option-cases (lookup cid m)) [
  | inl e ↦
      rw (e, add_member)
        (ground
          (arith, eqb_ℤ_iff cid c, set_of-insert cid c (insert sid true []) m, set_of-none cid m))
  | inr (ss, e) ↦
      rw (e, add_member)
        (ground (
          arith,
          eqb_ℤ_iff cid c,
          set_of-insert cid c (insert sid true ss) m,
          set_of-some cid m ss,
        ))
]

pub set_of-drop_member :
    (cid : ℤ) (sid : ℕ) (c : ℤ) (m : Map ℤ (Map ℕ Bool))
    → set_of c (drop_member cid sid m) ≡ (if cid == c then delete sid (set_of c m) else set_of c m)
unfolding drop_member
set_of-drop_member cid sid c m = elim (Option-cases (lookup cid m)) [
  | inl e ↦
      rw (e, drop_member)
        (ground (arith, eqb_ℤ_iff cid c, set_of-none cid m, delete-nil {V = Bool} sid))
  | inr (ss, e) ↦
      rw (e, drop_member)
        (ground (
          arith,
          eqb_ℤ_iff cid c,
          set_of-insert cid c (delete sid ss) m,
          set_of-delete cid c m,
          set_of-some cid m ss,
          empty_of_length (delete sid ss),
        ))
]

-- No channel is kept with an empty set.
abbrev pub NoEmpty : Map ℤ (Map ℕ Bool) → Type 0
NoEmpty m = (c : ℤ) → lookup c m ≢ some []

add_member-NoEmpty :
    (cid : ℤ) (sid : ℕ) (m : Map ℤ (Map ℕ Bool)) → NoEmpty m → NoEmpty (add_member cid sid m)
unfolding add_member
add_member-NoEmpty cid sid m h c = elim (Option-cases (lookup cid m)) [
  | inl e ↦
      rw (e, add_member)
        (ground (
          arith,
          h c,
          lookup-insert cid c (insert sid true []) m,
          insert-ne-nil {V = Bool} sid true [],
        ))
  | inr (ss, e) ↦
      rw (e, add_member)
        (ground (
          arith,
          h c,
          lookup-insert cid c (insert sid true ss) m,
          insert-ne-nil {V = Bool} sid true ss,
        ))
]

drop_member-NoEmpty :
    (cid : ℤ) (sid : ℕ) (m : Map ℤ (Map ℕ Bool)) → NoEmpty m → NoEmpty (drop_member cid sid m)
unfolding drop_member
drop_member-NoEmpty cid sid m h c = elim (Option-cases (lookup cid m)) [
  | inl e ↦ rw (e, drop_member) (h c)
  | inr (ss, e) ↦
      rw (e, drop_member)
        (ground (arith, h c, lookup-insert cid c (delete sid ss) m, lookup-delete cid c m))
]

-- A session's recorded channel is this one.
abbrev pub owns : ℤ → Option ℤ → Bool
owns c none = false
owns c (some d) = d == c

-- A channel's set holds exactly the sessions whose recorded channel it is, each once, and no
-- channel is kept with an empty set.
pub record IsConsistent (cm : ChannelManager) : Type 0 where
  pub agree :
      (c : ℤ) (t : ℕ)
      → is_some (lookup t (set_of c cm.members)) ≡ owns c (lookup t cm.session_to_channel)
  pub sets : (c : ℤ) → IsMap (set_of c cm.members)
  pub no_empty : NoEmpty cm.members

pub new-IsConsistent : IsConsistent new
unfolding new set_of lookup
new-IsConsistent = record { agree = λ c t. refl; sets = λ c. tt; no_empty = λ c e. cc }

add_member-sets :
    (cid : ℤ) (sid : ℕ) (m : Map ℤ (Map ℕ Bool))
    → ((c : ℤ) → IsMap (set_of c m))
    → (c : ℤ) → IsMap (set_of c (add_member cid sid m))
add_member-sets cid sid m h c = rw (set_of-add_member cid sid c m) (elim (Bool-cases (cid == c)) [
  | inl e ↦ rw e (insert-IsMap sid true (set_of c m) (h c))
  | inr e ↦ rw e (h c)
])

drop_member-sets :
    (cid : ℤ) (sid : ℕ) (m : Map ℤ (Map ℕ Bool))
    → ((c : ℤ) → IsMap (set_of c m))
    → (c : ℤ) → IsMap (set_of c (drop_member cid sid m))
drop_member-sets cid sid m h c = rw (set_of-drop_member cid sid c m) (elim (Bool-cases (cid == c)) [
  | inl e ↦ rw e (delete-IsMap sid (set_of c m) (h c))
  | inr e ↦ rw e (h c)
])

leave-agree :
    (sid : ℕ) (cm : ChannelManager)
    → IsConsistent cm
    → (c : ℤ) (t : ℕ)
    → is_some (lookup t (set_of c (leave sid cm).0.members))
      ≡ owns c (lookup t (leave sid cm).0.session_to_channel)
unfolding leave
leave-agree sid cm h c t = elim (Option-cases (lookup sid cm.session_to_channel)) [
  | inl e ↦ rw (e, leave) (h.agree c t)
  | inr (d, e) ↦
      rw (e, leave)
        (ground (
          arith,
          h.agree c t,
          set_of-drop_member d sid c cm.members,
          lookup-delete sid t (set_of c cm.members),
          lookup-delete sid t cm.session_to_channel,
        ))
]

join-agree :
    (sid : ℕ) (cid : ℤ) (cm : ChannelManager)
    → IsConsistent cm
    → (c : ℤ) (t : ℕ)
    → is_some (lookup t (set_of c (join sid cid cm).0.members))
      ≡ owns c (lookup t (join sid cid cm).0.session_to_channel)
unfolding join
join-agree sid cid cm h c t = elim (Option-cases (lookup sid cm.session_to_channel)) [
  | inl e ↦
      rw (e, join)
        (ground (
          arith,
          h.agree c t,
          set_of-add_member cid sid c cm.members,
          lookup-insert sid t true (set_of c cm.members),
          lookup-insert sid t cid cm.session_to_channel,
        ))
  | inr (d, e) ↦
      rw (e, join)
        (ground (
          arith,
          h.agree c t,
          set_of-add_member cid sid c (drop_member d sid cm.members),
          set_of-drop_member d sid c cm.members,
          lookup-insert sid t true (set_of c cm.members),
          lookup-insert sid t true (delete sid (set_of c cm.members)),
          lookup-delete sid t (set_of c cm.members),
          lookup-insert sid t cid cm.session_to_channel,
        ))
]

pub leave-IsConsistent :
    (sid : ℕ) (cm : ChannelManager) → IsConsistent cm → IsConsistent (leave sid cm).0
unfolding leave
leave-IsConsistent sid cm h = elim (Option-cases (lookup sid cm.session_to_channel)) [
  | inl e ↦ rw (e, leave) h
  | inr (d, e) ↦
      let agree' = leave-agree sid cm h in
      rw (e, leave)
        (record {
          agree = rw (e, leave) at agree';
          sets = drop_member-sets d sid cm.members h.sets;
          no_empty = drop_member-NoEmpty d sid cm.members h.no_empty;
        })
]

pub join-IsConsistent :
    (sid : ℕ) (cid : ℤ) (cm : ChannelManager) → IsConsistent cm → IsConsistent (join sid cid cm).0
unfolding join
join-IsConsistent sid cid cm h = elim (Option-cases (lookup sid cm.session_to_channel)) [
  | inl e ↦
      let agree' = join-agree sid cid cm h in
      rw (e, join)
        (record {
          agree = rw (e, join) at agree';
          sets = add_member-sets cid sid cm.members h.sets;
          no_empty = add_member-NoEmpty cid sid cm.members h.no_empty;
        })
  | inr (d, e) ↦
      let agree' = join-agree sid cid cm h in
      rw (e, join)
        (record {
          agree = rw (e, join) at agree';
          sets = add_member-sets cid sid _ (drop_member-sets d sid cm.members h.sets);
          no_empty = add_member-NoEmpty cid sid _ (drop_member-NoEmpty d sid cm.members h.no_empty);
        })
]
