-- ===== src/Store.antt =====
-- The persistence interface of pkg/store/interface.go, and below it the in-memory store.
pub mod Sorting
pub mod Memory
pub mod Sql
use gospeak.Prelude.{◌≡◌, refl, ◌⊎◌, inl, inr, Bool, Option, List, Text, text, ◌++◌, Int.ℤ}
use gospeak.Model.{Role, User, Channel, Time}
use gospeak.Model

-- The errors of the stores, by their texts; `failed` is an error of the backend.
pub data Error : Type 0 where
  create_user : Model.Error → Error
  username_taken : Error
  update_user_role : Model.Error → Error
  invalid_channel : Model.Error → Error
  token_taken invalid_token token_expired token_exhausted : Error
  failed : Text → Error

pub data Result (A : Type 0) : Type 0 where
  ok : A → Result A
  err : Error → Result A

-- The texts of the errors that model.go declares.
abbrev pub model_error_text : Model.Error → Text
model_error_text Model.username_empty = text "username must not be empty"
model_error_text Model.username_too_long = text "username must not exceed 32 characters"
model_error_text Model.username_invalid_chars =
    text "username must contain only alphanumeric characters, underscores, or hyphens"
model_error_text Model.invalid_role =
    text "invalid role: must be user (0), moderator (1), or admin (2)"
model_error_text Model.channel_name_empty = text "channel name must not be empty"
model_error_text Model.channel_name_too_long = text "channel name too long"
model_error_text Model.channel_desc_too_long = text "channel description too long"
model_error_text Model.channel_max_users = text "channel max users out of range"
model_error_text Model.channel_parent_id = text "channel parent id out of range"

-- err.Error()
unfoldable pub error_text : Error → Text
error_text (create_user e) = text "store: create user: " ++ model_error_text e
error_text username_taken =
    text "store: create user: constraint failed: UNIQUE constraint failed: users.username"
error_text (update_user_role e) = text "store: update user role: " ++ model_error_text e
error_text (invalid_channel e) = model_error_text e
error_text token_taken =
    text "store: create token: constraint failed: UNIQUE constraint failed: tokens.hash"
error_text invalid_token = text "store: invalid token"
error_text token_expired = text "store: token expired"
error_text token_exhausted = text "store: token exhausted"
error_text (failed t) = t

-- DataStore, over the type of its states. A method takes the time where the implementations read
-- the clock, and gives its results and the new state.
pub record DataStore (S : Type 0) : Type 0 where
  pub create_user : Time → Text → Role → S → Result User × S
  pub get_user_by_username : Text → S → Result (Option User)
  pub get_user_by_id : ℤ → S → Result (Option User)
  pub update_user_role : ℤ → Role → S → Result (Unit {0}) × S
  pub list_users : S → Result (List User)
  pub create_channel : Time → Channel → S → Result Channel × S
  pub delete_channel : ℤ → S → Result (Unit {0}) × S
  pub list_channels : S → Result (List Channel)
  pub get_channel : ℤ → S → Result (Option Channel)
  pub get_channel_by_name_and_parent : Text → ℤ → S → Result (Option Channel)
  pub has_tokens : S → Result Bool
  pub create_token : Time → Text → Role → ℤ → ℤ → ℤ → Time → S → Result (Unit {0}) × S
  pub validate_token : Time → Text → S → Result Role × S
  pub create_ban : Time → ℤ → Text → Text → ℤ → Time → S → Result (Unit {0}) × S
  pub is_user_banned : Time → ℤ → S → Result Bool

pub Result-cases :
    {A : Type 0} (r : Result A) → ((x : Error) × (r ≡ err x)) ⊎ ((a : A) × (r ≡ ok a))
Result-cases (err x) = inl (x, refl)
Result-cases (ok a) = inr (a, refl)
