-- ===== src/Server/Config.antt =====
-- Channels and users as YAML: pkg/server/config.go. The YAML library and the layout of times are
-- parameters.
pub mod Import
use gospeak.Prelude.{
  ℕ, zero, suc, ◌+◌, Bool, false, not, ◌&&◌, List, [], ◌∷◌, none, some, ◌==◌, if◌then◌else◌, Text,
  length, ℤ_eq, Int.ℤ, Int.pos,
}
use gospeak.Model.{Channel, User, Time, role_string}
use gospeak.Store.{DataStore, Result, ok, err}

-- ChannelYAML: the name, the description, the limit, whether sub-channels are allowed, and the
-- nested channels.
mutual
  pub data ChannelYaml : Type 0 where
    channel_yaml : Text → Text → ℤ → Bool → ChannelYamls → ChannelYaml

  pub data ChannelYamls : Type 0 where
    nil : ChannelYamls
    cons : ChannelYaml → ChannelYamls → ChannelYamls

pub record UserYaml : Type 0 where
  pub id : ℤ
  pub username : Text
  pub role : Text
  pub created_at : Text

pub record Yaml : Type 0 where
  pub unmarshal_channels : Text → Result ChannelYamls
  pub marshal_channels : ChannelYamls → Result Text
  pub marshal_users : List UserYaml → Result Text
  pub format_time : Time → Text

unfoldable mutual
  pub count_channels : ChannelYamls → ℕ
  count_channels nil = 0
  count_channels (cons c cs) = suc (count_sub c + count_channels cs)

  pub count_sub : ChannelYaml → ℕ
  count_sub (channel_yaml name description max_users allow subs) = count_channels subs

-- The channel that ensureChannel makes of an entry under a parent.
unfoldable pub configured_channel : Text → Text → ℤ → Bool → ℤ → Channel
configured_channel name description max_users allow parent_id = record {
  id = pos 0;
  name = name;
  description = description;
  max_users = max_users;
  parent_id = parent_id;
  is_temp = false;
  allow_sub_channels = allow;
  created_at = 0;
}

module _ {S : Type 0} (ds : DataStore S) (now : Time) where
  unfoldable mutual
    unfolding configured_channel

    -- ensureChannel
    pub ensure_channel : ChannelYaml → ℤ → S → Result (Unit {0}) × S
    ensure_channel (channel_yaml name description max_users allow subs) parent_id s =
        elim (ds.get_channel_by_name_and_parent name parent_id s) [
          | err e ↦ (err e, s)
          | ok found ↦ elim found [
            | some existing ↦ ensure_channels subs existing.id s
            | none ↦
                let (made, s1) =
                  ds.create_channel now
                    (configured_channel name description max_users allow parent_id) s in
                elim made [ err e ↦ (err e, s1) | ok channel ↦ ensure_channels subs channel.id s1 ]
          ]
        ]

    -- The loop of ensureChannel over the sub-channels, which stops at an error.
    pub ensure_channels : ChannelYamls → ℤ → S → Result (Unit {0}) × S
    ensure_channels nil parent_id s = (ok tt, s)
    ensure_channels (cons c cs) parent_id s =
        let (done, s1) = ensure_channel c parent_id s in
        elim done [ err e ↦ (err e, s1) | ok u ↦ ensure_channels cs parent_id s1 ]

  -- The loop of ImportChannelsFromYAML, which logs an error and goes on.
  pub import_all : ChannelYamls → S → S
  unfolding ensure_channel
  import_all nil s = s
  import_all (cons c cs) s = import_all cs (ensure_channel c (pos 0) s).1

  unfoldable pub import_channels_from_yaml : Yaml → Text → S → Result (Unit {0}) × S
  unfolding import_all
  import_channels_from_yaml yaml input s = elim (yaml.unmarshal_channels input) [
    | err e ↦ (err e, s)
    | ok cfg ↦ (ok tt, import_all cfg s)
  ]

-- The loop of buildChannelTree, over what it calls for the sub-channels of a channel.
unfoldable pub tree_entries : (ℤ → ChannelYamls) → List Channel → ℤ → ChannelYamls
tree_entries below [] parent_id = nil
tree_entries below (ch ∷ chs) parent_id =
    if ch.parent_id == parent_id && not ch.is_temp
    then cons (channel_yaml ch.name ch.description ch.max_users ch.allow_sub_channels (below ch.id))
        (tree_entries below chs parent_id)
    else tree_entries below chs parent_id

-- buildChannelTree, to the given depth.
unfoldable pub build_channel_tree : ℕ → List Channel → ℤ → ChannelYamls
unfolding tree_entries
build_channel_tree zero channels parent_id = nil
build_channel_tree (suc depth) channels parent_id =
    tree_entries (build_channel_tree depth channels) channels parent_id

user_yamls : (Time → Text) → List User → List UserYaml
user_yamls format [] = []
user_yamls format (u ∷ us) =
    record {
      id = u.id;
      username = u.username;
      role = role_string u.role;
      created_at = format u.created_at;
    }
    ∷ user_yamls format us

module _ {S : Type 0} (ds : DataStore S) (yaml : Yaml) where
  -- ExportChannelsYAML: no channel is nested deeper than there are channels.
  unfoldable pub export_channels_yaml : S → Result Text
  unfolding build_channel_tree
  export_channels_yaml s = elim (ds.list_channels s) [
    | err e ↦ err e
    | ok channels ↦
        yaml.marshal_channels (build_channel_tree (suc (length channels)) channels (pos 0))
  ]

  unfoldable pub export_users_yaml : S → Result Text
  unfolding user_yamls
  export_users_yaml s = elim (ds.list_users s) [
    | err e ↦ err e
    | ok users ↦ yaml.marshal_users (user_yamls yaml.format_time users)
  ]
