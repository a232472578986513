-- ===== src/Server/Config/Import.antt =====
-- What an import of channels leaves: pkg/server/config.go.
use gospeak.Prelude.{Option, ℤ_eq, inl, inr, none, some, Text, Int.ℤ, Int.pos}
use gospeak.Model.{Channel, Time}
use gospeak.Store.{DataStore, Result, ok, err, Result-cases}
use gospeak.Server.Config.{
  ChannelYaml, channel_yaml, ChannelYamls, nil, cons, Yaml, ensure_channel, ensure_channels,
  import_all, configured_channel, import_channels_from_yaml,
}

module _ {S : Type 0} (ds : DataStore S) (now : Time) (Holds : S → Type 0)
    (kept : (ch : Channel) (s : S) → Holds s → Holds (ds.create_channel now ch s).1) where
  -- The steps of ensureChannel after its look-up and after its creation, over what it does with the
  -- sub-channels.
  abbrev Rest : Type 0
  Rest = ℤ → S → Result (Unit {0}) × S

  abbrev after_create : Rest → Result Channel × S → Result (Unit {0}) × S
  after_create rest r = elim r.0 [ err e ↦ (err e, r.1) | ok channel ↦ rest channel.id r.1 ]

  abbrev after_look : Rest → Channel → S → Result (Option Channel) → Result (Unit {0}) × S
  after_look rest ch s r = elim r [
    | err e ↦ (err e, s)
    | ok found ↦ elim found [
      | some existing ↦ rest existing.id s
      | none ↦ after_create rest (ds.create_channel now ch s)
    ]
  ]

  after_create-Holds :
      (rest : Rest) (made : Result Channel) (s : S)
      → ((id : ℤ) (t : S) → Holds t → Holds (rest id t).1)
      → Holds s
      → Holds (after_create rest (made, s)).1
  after_create-Holds rest (err e) s keep h = h
  after_create-Holds rest (ok channel) s keep h = keep channel.id s h

  after_look-Holds :
      (rest : Rest) (ch : Channel) (s : S) (r : Result (Option Channel))
      → ((id : ℤ) (t : S) → Holds t → Holds (rest id t).1)
      → Holds s
      → Holds (after_look rest ch s r).1
  after_look-Holds rest ch s (err e) keep h = h
  after_look-Holds rest ch s (ok (some existing)) keep h = keep existing.id s h
  after_look-Holds rest ch s (ok none) keep h =
      let (made, s1) = ds.create_channel now ch s in
      after_create-Holds rest made s1 keep (kept ch s h)

  -- The loop over the sub-channels after one of them.
  abbrev after_one : Rest → ℤ → Result (Unit {0}) × S → Result (Unit {0}) × S
  after_one rest parent_id r = elim r.0 [ err e ↦ (err e, r.1) | ok u ↦ rest parent_id r.1 ]

  after_one-Holds :
      (rest : Rest) (parent_id : ℤ) (r : Result (Unit {0}) × S)
      → ((id : ℤ) (t : S) → Holds t → Holds (rest id t).1)
      → Holds r.1
      → Holds (after_one rest parent_id r).1
  after_one-Holds rest parent_id (err e, s) keep h = h
  after_one-Holds rest parent_id (ok u, s) keep h = keep parent_id s h

  mutual
    unfolding ensure_channel

    ensure_channel-Holds :
        (c : ChannelYaml) (parent_id : ℤ) (s : S)
        → Holds s
        → Holds (ensure_channel ds now c parent_id s).1
    ensure_channel-Holds (channel_yaml name about max allow subs) parent_id s h =
        after_look-Holds (ensure_channels ds now subs)
          (configured_channel name about max allow parent_id) s
          (ds.get_channel_by_name_and_parent name parent_id s)
          (λ id t k. ensure_channels-Holds subs id t k) h

    ensure_channels-Holds :
        (cs : ChannelYamls) (parent_id : ℤ) (s : S)
        → Holds s
        → Holds (ensure_channels ds now cs parent_id s).1
    ensure_channels-Holds nil parent_id s h = h
    ensure_channels-Holds (cons c cs) parent_id s h =
        after_one-Holds (ensure_channels ds now cs) parent_id (ensure_channel ds now c parent_id s)
          (λ id t k. ensure_channels-Holds cs id t k) (ensure_channel-Holds c parent_id s h)

  import_all-Holds : (cs : ChannelYamls) (s : S) → Holds s → Holds (import_all ds now cs s)
  unfolding import_all
  import_all-Holds nil s h = h
  import_all-Holds (cons c cs) s h =
      import_all-Holds cs (ensure_channel ds now c (pos 0) s).1 (ensure_channel-Holds c (pos 0) s h)

  -- What every creation of a channel keeps, an import keeps.
  pub import_channels-Holds :
      (yaml : Yaml) (input : Text) (s : S)
      → Holds s
      → Holds (import_channels_from_yaml ds now yaml input s).1
  unfolding import_channels_from_yaml
  import_channels-Holds yaml input s h = elim (Result-cases (yaml.unmarshal_channels input)) [
    | inl (x, e) ↦ rw (e, import_channels_from_yaml) h
    | inr (cfg, e) ↦ rw (e, import_channels_from_yaml) (import_all-Holds cfg s h)
  ]
