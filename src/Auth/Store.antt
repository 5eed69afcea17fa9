-- ===== src/Auth/Store.antt =====
-- The tables of internal/auth, with the generated queries (users.sql.go, sessions.sql.go and
-- password_resets.sql.go of internal/db/gen). Only the columns that the service uses are kept.
use toko_api.Prelude.{
  ℕ, ℤ, Bool, true, false, not, ◌&&◌, ◌||◌, Option, none, some, List, [], ◌∷◌, ◌==◌, if◌then◌else◌,
  Text, text_eq, is_some,
}

pub record User : Type 0 where
  pub id : ℕ
  pub email : Text
  pub password_hash : Text

-- `refresh_token` holds the hash of the token.
pub record Session : Type 0 where
  pub id : ℕ
  pub user_id : ℕ
  pub refresh_token : Text
  pub expires_at : ℤ

pub record PasswordReset : Type 0 where
  pub user_id : ℕ
  pub token : Text
  pub expires_at : ℤ
  pub used_at : Option ℤ

pub record Tables : Type 0 where
  pub users : List User
  pub sessions : List Session
  pub resets : List PasswordReset
  pub next_id : ℕ

pub data Query : Type 0 where
  get_user_by_email create_session get_session delete_session rotate_session get_reset
        update_password use_reset delete_user_sessions delete_user_resets :
      Query

unfoldable pub find_user : Text → List User → Option User
find_user email [] = none
find_user email (u ∷ us) = if text_eq u.email email then some u else find_user email us

unfoldable pub has_user : ℕ → List User → Bool
has_user id [] = false
has_user id (u ∷ us) = let rest = has_user id us in if u.id == id then true else rest

unfoldable pub set_password : ℕ → Text → List User → List User
set_password id hash [] = []
set_password id hash (u ∷ us) =
    (if u.id == id then record u { password_hash = hash } else u) ∷ set_password id hash us

unfoldable pub find_session : Text → List Session → Option Session
find_session token [] = none
find_session token (s ∷ ss) =
    if text_eq s.refresh_token token then some s else find_session token ss

-- Another session than the one with the id has the token.
unfoldable pub is_taken : ℕ → Text → List Session → Bool
is_taken id token [] = false
is_taken id token (s ∷ ss) =
    (not (s.id == id) && text_eq s.refresh_token token) || is_taken id token ss

-- `RotateSessionToken`, for an id that is there
unfoldable pub rotate_rows : ℕ → Text → ℤ → List Session → List Session
rotate_rows id token expires [] = []
rotate_rows id token expires (s ∷ ss) =
    (if s.id == id then record s { refresh_token = token; expires_at = expires } else s)
    ∷ rotate_rows id token expires ss

-- `DeleteSessionByToken`
unfoldable pub delete_token : Text → List Session → List Session
delete_token token [] = []
delete_token token (s ∷ ss) =
    let rest = delete_token token ss in if text_eq s.refresh_token token then rest else s ∷ rest

-- `DeleteSessionsByUser`
unfoldable pub delete_sessions_of : ℕ → List Session → List Session
delete_sessions_of user [] = []
delete_sessions_of user (s ∷ ss) =
    let rest = delete_sessions_of user ss in if s.user_id == user then rest else s ∷ rest

unfoldable pub find_reset : Text → List PasswordReset → Option PasswordReset
find_reset token [] = none
find_reset token (r ∷ rs) = if text_eq r.token token then some r else find_reset token rs

-- `UsePasswordReset`
unfoldable pub use_token : ℤ → Text → List PasswordReset → List PasswordReset
use_token now token [] = []
use_token now token (r ∷ rs) =
    (if text_eq r.token token
      then (if is_some r.used_at then r else record r { used_at = some now })
      else r)
    ∷ use_token now token rs

-- `DeletePasswordResetsByUser`
unfoldable pub delete_resets_of : ℕ → List PasswordReset → List PasswordReset
delete_resets_of user [] = []
delete_resets_of user (r ∷ rs) =
    let rest = delete_resets_of user rs in if r.user_id == user then rest else r ∷ rest
