-- ===== src/Server/Start.antt =====
-- The start of the server, up to its listeners: Run and ensureAdminToken of pkg/server/run.go.
pub mod FirstRun
use gospeak.Prelude.{
  ℕ, Bool, true, false, List, [], ◌∷◌, Option, none, some, eqb, if◌then◌else◌, Text, length, Int.ℤ,
  Int.pos,
}
use gospeak.Model.{Channel, Time, role_admin, new_channel}
use gospeak.Crypto.{generate_token, hash_token}
use gospeak.Store.{DataStore, Error, Result, ok, err}
use gospeak.Server.Config.{Yaml, import_channels_from_yaml}
use gospeak.Server.State.{Server}

-- The errors by which Run returns.
pub data StartError : Type 0 where
  no_voice_key no_random : StartError
  no_lobby tokens_unknown token_not_stored : Error → StartError

-- What the start reads from outside: the bytes of GenerateKey and of GenerateToken, and the file of
-- channels, each none at an error, and the path of that file.
pub record Startup : Type 0 where
  pub voice_key : Option Text
  pub random : Option Text
  pub channels_file : Text
  pub file : Option Text

module _ {S : Type 0} (ds : DataStore S) where
  -- An error of ListChannels is passed over, and reads as no channels.
  unfoldable pub ensure_lobby : Time → S → Option StartError × S
  ensure_lobby now st =
      let create : Option StartError × S =
        (let (made, st1) = ds.create_channel now new_channel st in
          (elim made [ err e ↦ some (no_lobby e) | ok ch ↦ none ], st1)) in
      elim (ds.list_channels st) [ err e ↦ create | ok [] ↦ create | ok (ch ∷ chs) ↦ (none, st) ]

  -- LoadChannelsFromYAML, if a file is configured; its error is logged.
  unfoldable pub load_channels : Yaml → Time → Startup → S → S
  load_channels yaml now up st = if eqb (length up.channels_file) 0 then st else elim up.file [
    | none ↦ st
    | some input ↦ (import_channels_from_yaml ds now yaml input st).1
  ]

module _ {S : Type 0} (ds : DataStore S) (sha256 : Text → Text) where
  -- ensureAdminToken: the error or none, the token that is printed, and the store.
  unfoldable pub ensure_admin_token : Time → Option Text → S → (Option StartError × Option Text) × S
  ensure_admin_token now random st = elim (ds.has_tokens st) [
    | err e ↦ ((some (tokens_unknown e), none), st)
    | ok true ↦ ((none, none), st)
    | ok false ↦ elim (generate_token random) [
      | none ↦ ((some no_random, none), st)
      | some token ↦
          let (stored, st1) =
            ds.create_token now (hash_token sha256 token) role_admin (pos 0) (pos 0) (pos 0) 0 st in
          elim stored [
            | err e ↦ ((some (token_not_stored e), none), st1)
            | ok u ↦ ((none, some token), st1)
          ]
    ]
  ]

  -- Run up to StartControl: the error or none, the token that is printed, and the server.
  unfoldable pub prepare :
      Yaml → Time → Startup → Server S → (Option StartError × Option Text) × Server S
  unfolding ensure_lobby load_channels ensure_admin_token
  prepare yaml now up s = elim up.voice_key [
    | none ↦ ((some no_voice_key, none), s)
    | some key ↦
        let (error, st1) = ensure_lobby ds now s.store in
        elim error [
          | some why ↦ ((some why, none), record s { voice_key = key; store = st1 })
          | none ↦
              let (said, st2) =
                ensure_admin_token now up.random (load_channels ds yaml now up st1) in
              (said, record s { voice_key = key; store = st2 })
        ]
  ]
