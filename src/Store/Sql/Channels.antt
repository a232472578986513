-- ===== src/Store/Sql/Channels.antt =====
-- Channels in the database: pkg/store/store.go.
use gospeak.Prelude.{
  Bool, true, false, not, List, [], ◌∷◌, Option, none, some, Text, text, ◌++◌, ◌==◌, ℤ_eq, Int.ℤ,
  Int.pos,
}
use gospeak.Model.{Channel, Time, validate}
use gospeak.Store.{Result, ok, err, invalid_channel, failed}
use gospeak.Store.Sql.{
  Value, integer, txt, Reply, done, bad, Row, Database, Scanned, no_rows, row, row_error, scan_row,
  first_row, all_rows, checked,
}

-- A channel as it is scanned, with the text of its time.
abbrev pub Columns : Type 0
Columns = Channel × Text

unfoldable pub scan_channel : Row → Option Columns
scan_channel
      (integer id
        ∷ txt name
        ∷ txt description
        ∷ integer max_users
        ∷ integer parent_id
        ∷ integer is_temp
        ∷ integer allow_sub
        ∷ txt created_at
        ∷ []) =
    some (
      record {
        id = id;
        name = name;
        description = description;
        max_users = max_users;
        parent_id = parent_id;
        is_temp = not (is_temp == pos 0);
        allow_sub_channels = not (allow_sub == pos 0);
        created_at = 0;
      },
      created_at,
    )
scan_channel other = none

abbrev flag : Bool → Value
flag true = integer (pos 1)
flag false = integer (pos 0)

module _ {B : Type 0} (db : Database B) where
  unfoldable pub parse_channel : Columns → Reply Channel
  parse_channel (ch, created_at) = elim (db.parse_time created_at) [
    | bad e ↦ bad e
    | done at ↦ done (record ch { created_at = at })
  ]

  -- CreateChannel: the channel with its ID and time, which the method writes into its argument.
  unfoldable pub create_channel_sql : Time → Channel → B → Result Channel × B
  create_channel_sql now ch b = elim (validate ch) [
    | some e ↦ (err (invalid_channel e), b)
    | none ↦
        let (reply, b1) =
          db.exec now
            (text
              "INSERT INTO channels (name, description, max_users, parent_id, is_temp, allow_sub_channels) VALUES (?, ?, ?, ?, ?, ?)")
            (txt ch.name
              ∷ txt ch.description
              ∷ integer ch.max_users
              ∷ integer ch.parent_id
              ∷ flag ch.is_temp
              ∷ flag ch.allow_sub_channels
              ∷ [])
            b in
        elim reply [
          | bad e ↦ (err (failed (text "store: create channel: " ++ e)), b1)
          | done id ↦ (ok (record ch { id = id; created_at = now }), b1)
        ]
  ]

  -- DeleteChannel
  unfoldable pub delete_channel_sql : Time → ℤ → B → Result (Unit {0}) × B
  unfolding checked
  delete_channel_sql now id b =
      checked (text "store: delete channel: ")
        (db.exec now (text "DELETE FROM channels WHERE id = ?") (integer id ∷ []) b)

  -- The common end of GetChannel and GetChannelByNameAndParent.
  unfoldable pub found_channel : Text → Scanned Columns → Result (Option Channel)
  unfolding parse_channel
  found_channel context no_rows = ok none
  found_channel context (row_error e) = err (failed (context ++ e))
  found_channel context (row columns) = elim (parse_channel columns) [
    | bad e ↦ err (failed (context ++ e))
    | done ch ↦ ok (some ch)
  ]

  unfoldable pub get_channel_sql : ℤ → B → Result (Option Channel)
  unfolding first_row scan_channel found_channel
  get_channel_sql id b = found_channel (text "store: get channel: ") (
      first_row db.scan_error scan_channel (
        db.query
          (text
            "SELECT id, name, description, max_users, parent_id, is_temp, allow_sub_channels, created_at FROM channels WHERE id = ?")
          (integer id ∷ []) b))

  unfoldable pub get_channel_by_name_and_parent_sql : Text → ℤ → B → Result (Option Channel)
  unfolding first_row scan_channel found_channel
  get_channel_by_name_and_parent_sql name parent_id b =
      found_channel (text "store: get channel by name: ") (
        first_row db.scan_error scan_channel (
          db.query
            (text
              "SELECT id, name, description, max_users, parent_id, is_temp, allow_sub_channels, created_at FROM channels WHERE name = ? AND parent_id = ?")
            (txt name ∷ integer parent_id ∷ []) b))

  -- A row of ListChannels.
  read_channel : Row → Reply Channel
  unfolding scan_row scan_channel parse_channel
  read_channel r = elim (scan_row db.scan_error (scan_channel r) r) [
    | bad e ↦ bad e
    | done columns ↦ parse_channel columns
  ]

  unfoldable pub list_channels_sql : B → Result (List Channel)
  unfolding all_rows read_channel
  list_channels_sql b =
      elim (db.query
        (text
          "SELECT id, name, description, max_users, parent_id, is_temp, allow_sub_channels, created_at FROM channels ORDER BY parent_id, id")
        [] b) [
          | bad e ↦ err (failed (text "store: list channels: " ++ e))
          | done rows ↦ elim (all_rows read_channel rows) [
            | bad e ↦ err (failed (text "store: scan channel: " ++ e))
            | done channels ↦ ok channels
          ]
        ]
