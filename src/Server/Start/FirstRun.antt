-- ===== src/Server/Start/FirstRun.antt =====
-- What the server of pkg/server/run.go finds and leaves in an in-memory store when it starts.
use gospeak.Prelude.{
  eqb, suc, length, ◌≡◌, ◌≢◌, refl, sym, ap, ◌∙◌, inl, inr, true, false, List, [], ◌∷◌, Option,
  none, some, arith, Text, Map, lookup, insert, insert-ne-nil, values, ℤ_eq, text_eq, eqb_text_iff,
  Int.pos, Option-cases, Bool-cases,
}
use gospeak.Model.{Channel, Time, role_admin, new_channel, validate}
use gospeak.Utf8.{trim_space, rune_count}
use gospeak.Crypto.{generate_token, hash_token, hex}
use gospeak.Store.{Result, ok}
use gospeak.Store.Sorting.{sort, sort-eq-nil}
use gospeak.Store.Memory.{
  MemoryStore, MemoryToken, memory_store, create_channel, list_channels, has_tokens, create_token,
  validate_token, channel_less,
}
use gospeak.Server.Config.{Yaml}
use gospeak.Server.Config.Import.{import_channels-Holds}
use gospeak.Server.State.{Server}
use gospeak.Server.Start.{
  Startup, StartError, ensure_admin_token, ensure_lobby, load_channels, prepare,
}

-- There is a channel, and the tokens are these.
abbrev Stocked : Map Text MemoryToken → MemoryStore → Type 0
Stocked tokens st = (st.channels_by_id ≢ []) × (st.tokens_by_hash ≡ tokens)

create_channel-Stocked :
    (now : Time) (tokens : Map Text MemoryToken) (ch : Channel) (st : MemoryStore)
    → Stocked tokens st
    → Stocked tokens (create_channel now ch st).1
unfolding create_channel
create_channel-Stocked now tokens ch st (some_, same) = elim (Option-cases (validate ch)) [
  | inr (why, e) ↦ rw (e, create_channel) (some_, same)
  | inl e ↦
      rw (e, create_channel) (insert-ne-nil (pos st.next_channel_id) _ st.channels_by_id, same)
]

new_channel-valid : validate new_channel ≡ none
unfolding validate new_channel trim_space rune_count
new_channel-valid = refl

values-nil : {K V : Type 0} (m : Map K V) → values m ≡ [] → m ≡ []
values-nil [] h = refl
values-nil (x ∷ m) h = cc

list_channels-nil : (st : MemoryStore) → list_channels st ≡ [] → st.channels_by_id ≡ []
unfolding list_channels
list_channels-nil st h =
    values-nil st.channels_by_id (sort-eq-nil channel_less (values st.channels_by_id) h)

list_channels-empty : (st : MemoryStore) → st.channels_by_id ≡ [] → list_channels st ≡ []
unfolding list_channels sort
list_channels-empty st h = ap (λ m. sort channel_less (values m)) h

lobby-created :
    (now : Time) (st : MemoryStore)
    → create_channel now new_channel st ≡ (
        let lobby = record new_channel { id = pos st.next_channel_id; created_at = now } in
        (
          ok lobby,
          record st {
            next_channel_id = suc st.next_channel_id;
            channels_by_id = insert (pos st.next_channel_id) lobby st.channels_by_id;
          },
        ))
unfolding create_channel
lobby-created now st = rw (new_channel-valid, create_channel) refl

-- The lobby is created, or there was a channel.
ensure_lobby-Stocked :
    (now : Time) (st : MemoryStore)
    → ((ensure_lobby memory_store now st).0 ≡ none)
      × Stocked st.tokens_by_hash (ensure_lobby memory_store now st).1
unfolding ensure_lobby memory_store
ensure_lobby-Stocked now st = go (list_channels st) refl
  where
    go :
        (chs : List Channel)
        → list_channels st ≡ chs
        → ((ensure_lobby memory_store now st).0 ≡ none)
          × Stocked st.tokens_by_hash (ensure_lobby memory_store now st).1
    go [] e =
        rw (e, lobby-created now st, ensure_lobby)
          (refl, (insert-ne-nil (pos st.next_channel_id) _ st.channels_by_id, refl))
    go (ch ∷ chs) e =
        rw (e, ensure_lobby) (refl, ((λ z. let none_ = list_channels-empty st z in cc), refl))

load_channels-Stocked :
    (yaml : Yaml) (now : Time) (up : Startup) (tokens : Map Text MemoryToken) (st : MemoryStore)
    → Stocked tokens st
    → Stocked tokens (load_channels memory_store yaml now up st)
unfolding load_channels memory_store
load_channels-Stocked yaml now up tokens st h =
    elim (Bool-cases (eqb (length up.channels_file) 0)) [
      | inl e ↦ rw (e, load_channels) h
      | inr e ↦ elim (Option-cases up.file) [
        | inl f ↦ rw (e, f, load_channels) h
        | inr (input, f) ↦
            rw (e, f, load_channels)
              (import_channels-Holds memory_store now (Stocked tokens)
                (create_channel-Stocked now tokens) yaml input st h)
      ]
    ]

has_tokens-nil : (st : MemoryStore) → st.tokens_by_hash ≡ [] → has_tokens st ≡ false
unfolding has_tokens
has_tokens-nil st h = rw h refl

-- The token of an administrator that an empty table takes in.
abbrev with_admin : Time → Text → MemoryStore → Result (Unit {0}) × MemoryStore
with_admin now hash st = create_token now hash role_admin (pos 0) (pos 0) (pos 0) 0 st

with_admin-ok :
    (now : Time) (hash : Text) (st : MemoryStore)
    → st.tokens_by_hash ≡ []
    → (with_admin now hash st).0 ≡ ok tt
unfolding create_token lookup
with_admin-ok now hash st h = rw h refl

with_admin-accepted :
    (now later : Time) (hash : Text) (st : MemoryStore)
    → st.tokens_by_hash ≡ []
    → ((validate_token later hash (with_admin now hash st).1).0 ≡ ok role_admin)
      × (has_tokens (with_admin now hash st).1 ≡ true)
      × ((with_admin now hash st).1.channels_by_id ≡ st.channels_by_id)
unfolding create_token lookup insert validate_token has_tokens
with_admin-accepted now later hash st h = rw h (ground (arith, eqb_text_iff hash hash))

module _ (sha256 : Text → Text) where
  -- The admin token of the first run, and what becomes of a store that has tokens.
  ensure_admin_token-first :
      (now : Time) (bytes : Text) (st : MemoryStore)
      → st.tokens_by_hash ≡ []
      → ensure_admin_token memory_store sha256 now (some bytes) st ≡ (
        (none, some (hex bytes)),
        (create_token now
            (hash_token sha256 (hex bytes))
            role_admin
            (pos 0)
            (pos 0)
            (pos 0)
            0
            st).1,
      )
  unfolding ensure_admin_token memory_store generate_token
  ensure_admin_token-first now bytes st h =
      rw
        (
          has_tokens-nil st h,
          with_admin-ok now (hash_token sha256 (hex bytes)) st h,
          ensure_admin_token,
        )
        refl

  ensure_admin_token-later :
      (now : Time) (random : Option Text) (st : MemoryStore)
      → has_tokens st ≡ true
      → ensure_admin_token memory_store sha256 now random st ≡ ((none, none), st)
  unfolding ensure_admin_token memory_store
  ensure_admin_token-later now random st h = rw (h, ensure_admin_token) refl

  -- The store when the admin token is looked for.
  abbrev loaded : Yaml → Time → Startup → Server MemoryStore → MemoryStore
  loaded yaml now up s =
      load_channels memory_store yaml now up (ensure_lobby memory_store now s.store).1

  loaded-Stocked :
      (yaml : Yaml) (now : Time) (up : Startup) (s : Server MemoryStore)
      → Stocked s.store.tokens_by_hash (loaded yaml now up s)
  loaded-Stocked yaml now up s =
      load_channels-Stocked yaml now up s.store.tokens_by_hash _
        (ensure_lobby-Stocked now s.store).1

  prepare-loaded :
      (yaml : Yaml) (now : Time) (up : Startup) (key : Text) (s : Server MemoryStore)
      → up.voice_key ≡ some key
      → prepare memory_store sha256 yaml now up s ≡ (
          let (said, st) =
            ensure_admin_token memory_store sha256 now up.random (loaded yaml now up s) in
          (said, record s { voice_key = key; store = st }))
  unfolding prepare
  prepare-loaded yaml now up key s h = rw (h, (ensure_lobby-Stocked now s.store).0, prepare) refl

  prepare-admin :
      (yaml : Yaml) (now : Time) (up : Startup) (key : Text) (s : Server MemoryStore)
      (r : (Option StartError × Option Text) × MemoryStore)
      → up.voice_key ≡ some key
      → ensure_admin_token memory_store sha256 now up.random (loaded yaml now up s) ≡ r
      → prepare memory_store sha256 yaml now up s ≡ (r.0, record s { voice_key = key; store = r.1 })
  prepare-admin yaml now up key s r h e =
      prepare-loaded yaml now up key s h
      ∙ ap (λ x. (x.0, record s { voice_key = key; store = x.1 })) e

  -- The first start over an in-memory store without tokens, when randomness is there, fails nowhere,
  -- prints a new token, which the store that it leaves accepts at any time, with the administrator's
  -- role, and leaves at least one channel.
  pub prepare_first :
      (yaml : Yaml) (now later : Time) (up : Startup) (key bytes : Text) (s : Server MemoryStore)
      → up.voice_key ≡ some key
      → up.random ≡ some bytes
      → s.store.tokens_by_hash ≡ []
      → let (said, started) = prepare memory_store sha256 yaml now up s in
        (said ≡ (none, some (hex bytes)))
        × ((validate_token later (hash_token sha256 (hex bytes)) started.store).0 ≡ ok role_admin)
        × (has_tokens started.store ≡ true)
        × (list_channels started.store ≢ [])
  prepare_first yaml now later up key bytes s h k empty =
      let st = loaded yaml now up s in
      let (some_, same) = loaded-Stocked yaml now up s in
      let admin = with_admin-accepted now later (hash_token sha256 (hex bytes)) st (same ∙ empty) in
      let made =
        ap (λ b. ensure_admin_token memory_store sha256 now b st) k
        ∙ ensure_admin_token-first now bytes st (same ∙ empty) in
      rw (prepare-admin yaml now up key s _ h made)
        (refl, admin.0, admin.1, λ z. some_ (sym admin.2 ∙ list_channels-nil _ z))

  loaded-has_tokens :
      (yaml : Yaml) (now : Time) (up : Startup) (s : Server MemoryStore)
      → has_tokens s.store ≡ true
      → has_tokens (loaded yaml now up s) ≡ true
  unfolding has_tokens
  loaded-has_tokens yaml now up s h = rw (loaded-Stocked yaml now up s).1 h

  -- A start over a store that has a token fails nowhere, prints no token, keeps the tokens as they
  -- are, and leaves at least one channel.
  pub prepare_later :
      (yaml : Yaml) (now : Time) (up : Startup) (key : Text) (s : Server MemoryStore)
      → up.voice_key ≡ some key
      → has_tokens s.store ≡ true
      → let (said, started) = prepare memory_store sha256 yaml now up s in
        (said ≡ (none, none))
        × (started.store.tokens_by_hash ≡ s.store.tokens_by_hash)
        × (list_channels started.store ≢ [])
  prepare_later yaml now up key s h tokens =
      let st = loaded yaml now up s in
      let (some_, same) = loaded-Stocked yaml now up s in
      let kept =
        ensure_admin_token-later now up.random st (loaded-has_tokens yaml now up s tokens) in
      rw (prepare-admin yaml now up key s _ h kept)
        (refl, same, λ z. some_ (list_channels-nil st z))
