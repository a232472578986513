-- ===== src/Server/Sessions/Invariant.antt =====
-- The sessions and their IDs in the SessionManager of pkg/server/session.go.
use mathlib.Core.Option
use gospeak.Prelude.{
  ℕ, ◌≡◌, refl, ◌≢◌, inl, inr, Bool, true, false, List, [], ◌∷◌, Option, none, some, arith, ◌==◌,
  eqb_iff, if◌then◌else◌, is_some, Map, lookup, lookup-insert, lookup-delete, IsMap, insert-IsMap,
  delete-IsMap, elem, Text, ℕ_eq, Int.ℤ, Int.pos, Option-cases, Bool-cases, ℤ_eq, Int.eqb_ℤ_iff,
  sym, ap, ◌∙◌,
}
use gospeak.Model.{Session, Role, UdpAddr}
use gospeak.Server.Sessions.{
  SessionManager, find_user, get_by_user_id_snapshot, new, pick_id, create, get_snapshot, remove,
  update, set_udp_addr, update_user_state, set_channel, update_role,
}

pick_id-some :
    (draws : List ℕ) (m : Map ℕ Session) (id : ℕ)
    → pick_id draws m ≡ some id
    → (id ≢ 0) × (lookup id m ≡ none)
unfolding pick_id
pick_id-some [] m id e = cc
pick_id-some (d ∷ draws) m id e = ground (arith, pick_id-some draws m id)

-- The loop of Create ends as soon as a random word is neither 0 nor a session's ID.
pub pick_id_total :
    (draws : List ℕ) (m : Map ℕ Session) (d : ℕ)
    → elem d draws ≡ true
    → d ≢ 0
    → lookup d m ≡ none
    → is_some (pick_id draws m) ≡ true
unfolding pick_id elem
pick_id_total [] m d h z f = cc
pick_id_total (x ∷ draws) m d h z f = ground (arith, pick_id_total draws m d)

-- A created session has a new, nonzero ID and the user's data, is neither muted nor deafened, is in
-- no channel and has no address; every other session is as before.
pub create_lem :
    (user_id : ℤ) (username : Text) (role : Role) (draws : List ℕ) (sm sm' : SessionManager)
    (s : Session) (t : ℕ)
    → create user_id username role draws sm ≡ some (sm', s)
    → (s.id ≢ 0)
      × (get_snapshot s.id sm ≡ none)
      × (get_snapshot t sm' ≡ (if s.id == t then some s else get_snapshot t sm))
      × (s.user_id ≡ user_id)
      × (s.username ≡ username)
      × (s.role ≡ role)
      × (s.channel_id ≡ pos 0)
      × (s.udp_addr ≡ none)
      × (s.muted ≡ false)
      × (s.deafened ≡ false)
unfolding create get_snapshot
create_lem user_id username role draws sm sm' s t h =
    ground (arith, pick_id-some draws sm.sessions s.id, lookup-insert s.id t s sm.sessions)

-- An update of a session changes that session only, by the given function.
pub get_snapshot-update :
    (f : Session → Session) (id t : ℕ) (sm : SessionManager)
    → get_snapshot t (update f id sm)
      ≡ (if id == t then Option.map f (get_snapshot t sm) else get_snapshot t sm)
unfolding get_snapshot update
get_snapshot-update f id t sm = elim (Option-cases (lookup id sm.sessions)) [
  | inl e ↦ rw (e, update) (ground (arith, eqb_iff id t))
  | inr (s, e) ↦ rw (e, update) (ground (arith, eqb_iff id t, lookup-insert id t (f s) sm.sessions))
]

pub get_snapshot-remove :
    (id t : ℕ) (sm : SessionManager)
    → get_snapshot t (remove id sm) ≡ (if id == t then none else get_snapshot t sm)
unfolding get_snapshot remove
get_snapshot-remove id t sm = lookup-delete id t sm.sessions

pub record IsValid (sm : SessionManager) : Type 0 where
  pub own_id : (k : ℕ) (s : Session) → get_snapshot k sm ≡ some s → (s.id ≡ k) × (k ≢ 0)
  pub one_each : IsMap sm.sessions

find_user-some :
    (u : ℤ) (m : Map ℕ Session) (s : Session)
    → IsMap m
    → find_user u m ≡ some s
    → (s.user_id ≡ u) × ((k : ℕ) × (lookup k m ≡ some s))
unfolding find_user lookup
find_user-some u [] s h e = cc
find_user-some u ((k, a) ∷ m) s h e = elim (Bool-cases (a.user_id == u)) [
  | inl f ↦
      let same : a ≡ s = ground arith in
      (
        ap (λ x. x.user_id) (sym same) ∙ (eqb_ℤ_iff a.user_id u).0 f,
        (k, rw ((eqb_iff k k).1 refl) (ap some same)),
      )
  | inr f ↦
      let (its_user, (j, at_j)) = find_user-some u m s h.1 (ground arith) in
      (its_user, (j, ground (arith, eqb_iff k j)))
]

-- GetByUserIDSnapshot gives a session of that user, which stands under its own ID.
pub get_by_user_id_snapshot-some :
    (u : ℤ) (sm : SessionManager) (s : Session)
    → IsValid sm
    → get_by_user_id_snapshot u sm ≡ some s
    → (get_snapshot s.id sm ≡ some s) × (s.user_id ≡ u)
unfolding get_by_user_id_snapshot get_snapshot
get_by_user_id_snapshot-some u sm s v e =
    let (its_user, (k, at_k)) = find_user-some u sm.sessions s v.one_each e in
    (ap (λ j. lookup j sm.sessions) (v.own_id k s at_k).0 ∙ at_k, its_user)

-- A call that changes the manager.
pub data Call : Type 0 where
  creates : ℤ → Text → Role → List ℕ → Call
  removes : ℕ → Call
  sets_udp_addr : ℕ → Option UdpAddr → Call
  updates_user_state : ℕ → Bool → Bool → Call
  sets_channel : ℕ → ℤ → Call
  updates_role : ℕ → Role → Call

abbrev pub created : SessionManager → Option (SessionManager × Session) → SessionManager
created sm none = sm
created sm (some (sm', s)) = sm'

unfoldable pub step : SessionManager → Call → SessionManager
step sm (creates u n r draws) = created sm (create u n r draws sm)
step sm (removes id) = remove id sm
step sm (sets_udp_addr id addr) = set_udp_addr id addr sm
step sm (updates_user_state id m d) = update_user_state id m d sm
step sm (sets_channel id c) = set_channel id c sm
step sm (updates_role id r) = update_role id r sm

pub update-IsValid :
    (f : Session → Session) (id : ℕ) (sm : SessionManager)
    → ((s : Session) → (f s).id ≡ s.id)
    → IsValid sm
    → IsValid (update f id sm)
update-IsValid f id sm same v = record {
  own_id = λ k s e. elim (Option-cases (get_snapshot k sm)) [
    | inl n ↦ absurd (ground (arith, get_snapshot-update f id k sm))
    | inr (s', e') ↦ ground (arith, get_snapshot-update f id k sm, v.own_id k s' e', same s')
  ];
  one_each = elim (Option-cases (lookup id sm.sessions)) [
    | inl e ↦ unfold update in rw (e, update) v.one_each
    | inr (s, e) ↦ unfold update in rw (e, update) (insert-IsMap id (f s) sm.sessions v.one_each)
  ];
}

pub remove-IsValid : (id : ℕ) (sm : SessionManager) → IsValid sm → IsValid (remove id sm)
remove-IsValid id sm v = record {
  own_id = λ k s e. ground (arith, get_snapshot-remove id k sm, v.own_id k s);
  one_each = unfold remove in delete-IsMap id sm.sessions v.one_each;
}

pub create-IsValid :
    (u : ℤ) (n : Text) (r : Role) (draws : List ℕ) (sm sm' : SessionManager) (s : Session)
    → create u n r draws sm ≡ some (sm', s)
    → IsValid sm
    → IsValid sm'
create-IsValid u n r draws sm sm' s h v = record {
  own_id =
      λ k s' e. ground (arith, create_lem u n r draws sm sm' s k h, eqb_iff s.id k, v.own_id k s');
  one_each = unfold create in ground (arith, h, insert-IsMap s.id s sm.sessions v.one_each);
}

step-IsValid : (sm : SessionManager) (c : Call) → IsValid sm → IsValid (step sm c)
unfolding step set_udp_addr update_user_state set_channel update_role
step-IsValid sm (creates u n r draws) v = elim (Option-cases (create u n r draws sm)) [
  | inl e ↦ rw e v
  | inr ((sm', s), e) ↦ rw e (create-IsValid u n r draws sm sm' s e v)
]
step-IsValid sm (removes id) v = remove-IsValid id sm v
step-IsValid sm (sets_udp_addr id addr) v = update-IsValid _ id sm (λ s. refl) v
step-IsValid sm (updates_user_state id m d) v = update-IsValid _ id sm (λ s. refl) v
step-IsValid sm (sets_channel id c) v = update-IsValid _ id sm (λ s. refl) v
step-IsValid sm (updates_role id r) v = update-IsValid _ id sm (λ s. refl) v

unfoldable pub run : SessionManager → List Call → SessionManager
run sm [] = sm
run sm (c ∷ cs) = run (step sm c) cs

run-IsValid : (sm : SessionManager) (cs : List Call) → IsValid sm → IsValid (run sm cs)
unfolding run
run-IsValid sm [] v = v
run-IsValid sm (c ∷ cs) v = run-IsValid (step sm c) cs (step-IsValid sm c v)

pub new-IsValid : IsValid new
unfolding new get_snapshot lookup
new-IsValid = record { own_id = λ k s e. cc; one_each = tt }

-- After any calls on a new manager, every session stands under its own ID, once, and no ID is 0.
pub run-new-IsValid : (cs : List Call) → IsValid (run new cs)
run-new-IsValid cs = run-IsValid new cs new-IsValid
