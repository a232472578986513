-- ===== src/Server/Core/Soundness.antt =====
-- What the steps on sessions and channels of pkg/server keep.
use gospeak.Prelude.{
  ℕ, ◌≡◌, refl, inl, inr, true, List, [], none, some, arith, eqb_iff, is_some, Text, lookup, insert,
  lookup-insert, lookup-delete, ℕ_eq, Int.ℤ, Int.pos, Option-cases,
}
use gospeak.Model.{Session, Role}
use gospeak.Server.Channels
use gospeak.Server.Channels.Invariant
use gospeak.Server.Channels.Membership.{where_is, join_lem, leave_lem}
use gospeak.Server.Sessions
use gospeak.Server.Sessions.Invariant.{
  IsValid, update-IsValid, remove-IsValid, create-IsValid, new-IsValid, create_lem,
  get_snapshot-update, get_snapshot-remove,
}
use gospeak.Server.Core.{
  Core, moved, taken_out, departed, Step, moves, takes_out, sets_state, sets_role, sets_addr,
  arrives, departs, Steps, none_done, one_more,
}

-- The two managers are right by themselves; a session's own channel is the manager's; only sessions
-- are members of channels; and exactly the sessions have a connection.
pub record IsSound (k : Core) : Type 0 where
  pub channels_ok : Invariant.IsConsistent k.channels
  pub sessions_ok : IsValid k.sessions
  pub agree :
      (t : ℕ) (ss : Session)
      → Sessions.get_snapshot t k.sessions ≡ some ss
      → ss.channel_id ≡ Channels.channel_of t k.channels
  pub live :
      (t : ℕ) (c : ℤ)
      → where_is k.channels t ≡ some c
      → is_some (Sessions.get_snapshot t k.sessions) ≡ true
  pub connected :
      (t : ℕ) → is_some (lookup t k.conn_map) ≡ is_some (Sessions.get_snapshot t k.sessions)

channel_of-where_is :
    (t : ℕ) (cm : Channels.ChannelManager)
    → Channels.channel_of t cm ≡ elim (where_is cm t) [ none ↦ pos 0 | some c ↦ c ]
unfolding Channels.channel_of
channel_of-where_is t cm = ground arith

-- An update of sessions that keeps their IDs and channels.
updated-IsSound :
    (f : Session → Session) (sid : ℕ) (k : Core)
    → ((ss : Session) → ((f ss).id ≡ ss.id) × ((f ss).channel_id ≡ ss.channel_id))
    → IsSound k
    → IsSound (record k { sessions = Sessions.update f sid k.sessions })
updated-IsSound f sid k same v = record {
  channels_ok = v.channels_ok;
  sessions_ok = update-IsValid f sid k.sessions (λ ss. (same ss).0) v.sessions_ok;
  agree = λ t ss e. elim (Option-cases (Sessions.get_snapshot t k.sessions)) [
    | inl gone ↦ absurd (ground (arith, get_snapshot-update f sid t k.sessions))
    | inr (old, at_t) ↦
        ground (arith, get_snapshot-update f sid t k.sessions, same old, v.agree t old at_t)
  ];
  live = λ t c e. ground (arith, get_snapshot-update f sid t k.sessions, v.live t c e);
  connected = λ t. ground (arith, get_snapshot-update f sid t k.sessions, v.connected t);
}

moved-IsSound :
    (sid : ℕ) (session : Session) (cid : ℤ) (k : Core)
    → Sessions.get_snapshot sid k.sessions ≡ some session
    → IsSound k
    → IsSound (moved session.id cid k)
unfolding moved Sessions.set_channel
moved-IsSound sid session cid k at_sid v = record {
  channels_ok = Invariant.join-IsConsistent session.id cid k.channels v.channels_ok;
  sessions_ok = update-IsValid set session.id k.sessions (λ ss. refl) v.sessions_ok;
  agree = λ t ss e. elim (Option-cases (Sessions.get_snapshot t k.sessions)) [
    | inl gone ↦ absurd (ground (arith, get_snapshot-update set session.id t k.sessions))
    | inr (old, at_t) ↦ ground (
      arith,
      get_snapshot-update set session.id t k.sessions,
      join_lem session.id cid k.channels t,
      channel_of-where_is t k.channels,
      channel_of-where_is t (Channels.join session.id cid k.channels).0,
      v.agree t old at_t,
    )
  ];
  live = λ t c e. ground (
    arith,
    get_snapshot-update set session.id t k.sessions,
    join_lem session.id cid k.channels t,
    v.live t c,
    v.sessions_ok.own_id sid session at_sid,
    eqb_iff session.id t,
  );
  connected = λ t. ground (arith, get_snapshot-update set session.id t k.sessions, v.connected t);
}
  where
    set : Session → Session
    set ss = record ss { channel_id = cid }

taken_out-IsSound : (sid : ℕ) (k : Core) → IsSound k → IsSound (taken_out sid k)
unfolding taken_out Sessions.set_channel
taken_out-IsSound sid k v = record {
  channels_ok = Invariant.leave-IsConsistent sid k.channels v.channels_ok;
  sessions_ok = update-IsValid set sid k.sessions (λ ss. refl) v.sessions_ok;
  agree = λ t ss e. elim (Option-cases (Sessions.get_snapshot t k.sessions)) [
    | inl gone ↦ absurd (ground (arith, get_snapshot-update set sid t k.sessions))
    | inr (old, at_t) ↦ ground (
      arith,
      get_snapshot-update set sid t k.sessions,
      leave_lem sid k.channels t,
      channel_of-where_is t k.channels,
      channel_of-where_is t (Channels.leave sid k.channels).0,
      v.agree t old at_t,
    )
  ];
  live = λ t c e.
      ground
        (arith, get_snapshot-update set sid t k.sessions, leave_lem sid k.channels t, v.live t c);
  connected = λ t. ground (arith, get_snapshot-update set sid t k.sessions, v.connected t);
}
  where
    set : Session → Session
    set ss = record ss { channel_id = pos 0 }

departed-IsSound : (sid : ℕ) (k : Core) → IsSound k → IsSound (departed sid k)
unfolding departed
departed-IsSound sid k v = record {
  channels_ok = Invariant.leave-IsConsistent sid k.channels v.channels_ok;
  sessions_ok = remove-IsValid sid k.sessions v.sessions_ok;
  agree = λ t ss e. ground (
    arith,
    get_snapshot-remove sid t k.sessions,
    leave_lem sid k.channels t,
    channel_of-where_is t k.channels,
    channel_of-where_is t (Channels.leave sid k.channels).0,
    v.agree t ss,
  );
  live = λ t c e.
      ground (arith, get_snapshot-remove sid t k.sessions, leave_lem sid k.channels t, v.live t c);
  connected = λ t.
      ground (
        arith,
        get_snapshot-remove sid t k.sessions,
        lookup-delete sid t k.conn_map,
        v.connected t,
      );
}

arrived-IsSound :
    (u : ℤ) (name : Text) (role : Role) (draws : List ℕ) (sm : Sessions.SessionManager)
    (session : Session) (conn : ℕ) (k : Core)
    → Sessions.create u name role draws k.sessions ≡ some (sm, session)
    → IsSound k
    → IsSound (record k { sessions = sm; conn_map = insert session.id conn k.conn_map })
arrived-IsSound u name role draws sm session conn k made v = record {
  channels_ok = v.channels_ok;
  sessions_ok = create-IsValid u name role draws k.sessions sm session made v.sessions_ok;
  agree = λ t ss e. elim (Option-cases (where_is k.channels t)) [
    | inl n ↦ ground (
      arith,
      create_lem u name role draws k.sessions sm session t made,
      v.agree t ss,
      channel_of-where_is t k.channels,
      eqb_iff session.id t,
    )
    | inr (c, w) ↦ ground (
      arith,
      create_lem u name role draws k.sessions sm session t made,
      v.agree t ss,
      v.live t c w,
      eqb_iff session.id t,
    )
  ];
  live = λ t c e.
      ground (arith, create_lem u name role draws k.sessions sm session t made, v.live t c e);
  connected = λ t. ground (
    arith,
    create_lem u name role draws k.sessions sm session t made,
    lookup-insert session.id t conn k.conn_map,
    v.connected t,
  );
}

Step-IsSound : {k l : Core} → Step k l → IsSound k → IsSound l
unfolding Sessions.update_user_state Sessions.update_role Sessions.set_udp_addr
Step-IsSound {k} (moves sid session cid at_sid) v = moved-IsSound sid session cid k at_sid v
Step-IsSound {k} (takes_out sid) v = taken_out-IsSound sid k v
Step-IsSound {k} (sets_state sid m d) v = updated-IsSound _ sid k (λ ss. (refl, refl)) v
Step-IsSound {k} (sets_role sid role) v = updated-IsSound _ sid k (λ ss. (refl, refl)) v
Step-IsSound {k} (sets_addr sid addr) v = updated-IsSound _ sid k (λ ss. (refl, refl)) v
Step-IsSound {k} (arrives u name role draws sm session conn made) v =
    arrived-IsSound u name role draws sm session conn k made v
Step-IsSound {k} (departs sid) v = departed-IsSound sid k v

pub Steps-IsSound : {k l : Core} → Steps k l → IsSound k → IsSound l
Steps-IsSound none_done v = v
Steps-IsSound (one_more more last) v = Step-IsSound last (Steps-IsSound more v)

abbrev pub empty : Core
empty = record { channels = Channels.new; sessions = Sessions.new; conn_map = [] }

pub empty-IsSound : IsSound empty
unfolding Channels.new Sessions.new Sessions.get_snapshot lookup
empty-IsSound = record {
  channels_ok = Invariant.new-IsConsistent;
  sessions_ok = new-IsValid;
  agree = λ t ss e. absurd (ground arith);
  live = λ t c e. absurd (ground arith);
  connected = λ t. refl;
}
