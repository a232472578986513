-- ===== src/Server/Control/Transfer.antt =====
-- Export and import of YAML: handlers of pkg/server/control.go.
use gospeak.Prelude.{
  ℕ, true, false, ◌++◌, Option, none, some, ◌==◌, if◌then◌else◌, Text, text, text_eq,
}
use gospeak.Model.{Time, create_channel}
use gospeak.Rbac.{require_permission}
use gospeak.Store.{DataStore, Result, ok, err, error_text}
use gospeak.Server.Sessions
use gospeak.Server.Config.{Yaml, import_channels_from_yaml, export_channels_yaml, export_users_yaml}
use gospeak.Server.State.{Server, export_data_response, import_channels_response}
use gospeak.Server.Broadcast.{send, send_error, broadcast_server_state}

module _ {S : Type 0} (ds : DataStore S) (yaml : Yaml) where
  -- What is exported for a type of data; `none` is an unknown type.
  unfoldable pub exported : Text → Server S → Option (Result Text)
  exported kind s =
      if kind == text "channels"
      then some (export_channels_yaml ds yaml s.store)
      else if kind == text "users"
      then some (export_users_yaml ds yaml s.store)
      else none

  unfoldable pub handle_export_data : ℕ → Text → ℕ → Server S → Server S
  unfolding exported
  handle_export_data session_id kind conn s = elim (Sessions.get_snapshot session_id s.sessions) [
    | none ↦ send_error conn 3 (text "session not found") s
    | some session ↦ elim (require_permission session.role create_channel) [
      | some msg ↦ send_error conn 30 (text "admin only: " ++ msg) s
      | none ↦ elim (exported kind s) [
        | none ↦ send_error conn 31 (text "unknown export type: " ++ kind) s
        | some result ↦ elim result [
          | err e ↦ send_error conn 31 (text "export failed: " ++ error_text e) s
          | ok output ↦ send conn (export_data_response kind output) s
        ]
      ]
    ]
  ]

  unfoldable pub handle_import_channels : Time → ℕ → Text → ℕ → Server S → Server S
  handle_import_channels now session_id input conn s =
      elim (Sessions.get_snapshot session_id s.sessions) [
        | none ↦ send_error conn 3 (text "session not found") s
        | some session ↦ elim (require_permission session.role create_channel) [
          | some msg ↦ send_error conn 30 (text "admin only: " ++ msg) s
          | none ↦
              let (done, st) = import_channels_from_yaml ds now yaml input s.store in
              let s1 = record s { store = st } in
              elim done [
                | err e ↦
                    send conn
                      (import_channels_response false (text "import failed: " ++ error_text e)) s1
                | ok u ↦ broadcast_server_state ds (
                    send conn
                      (import_channels_response true (text "channels imported successfully")) s1)
              ]
        ]
      ]
