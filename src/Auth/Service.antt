-- ===== src/Auth/Service.antt =====
-- `Login`, `Logout`, `Refresh` and `Reset` of internal/auth/service.go. The hash of a token, the password
-- hashes, the random tokens and the signed access tokens are parameters.
use toko_api.Prelude.{
  ℕ, suc, ◌+◌, ℤ, Bool, false, not, ◌||◌, Option, none, some, [], ◌∷◌, ◌++◌, ◌+ℤ◌, ltb, ltb_ℤ,
  if◌then◌else◌, Text, is_empty, is_some, to_lower, trim_space,
}
use toko_api.Auth.Store.{
  Session, PasswordReset, Tables, Query, get_user_by_email, create_session, get_session,
  delete_session, rotate_session, get_reset, update_password, use_reset, delete_user_sessions,
  delete_user_resets, find_user, has_user, set_password, find_session, is_taken, rotate_rows,
  delete_token, delete_sessions_of, find_reset, use_token, delete_resets_of,
}

pub data Error : Type 0 where
  invalid_credentials unauthorized invalid_token weak_password internal : Error

-- the tokens of a login or a refresh, and when they expire
pub record Tokens : Type 0 where
  pub user_id : ℕ
  pub access_token : Text
  pub refresh_token : Text
  pub access_expiry : ℤ
  pub refresh_expiry : ℤ

pub data Result : Type 0 where
  issued : Tokens → Result
  refused : Error → Result

pub record Env : Type 0 where
  pub now : ℤ
  pub access_ttl : ℤ
  pub refresh_ttl : ℤ
  pub hash_token : Text → Text
  pub matches : Text → Text → Bool
  pub create_hash : Text → Option Text
  pub random : Option Text
  pub sign : ℕ → Option Text
  pub fault : Query → Bool

-- `len` of a string, which counts the bytes of its UTF-8 form
unfoldable pub byte_length : Text → ℕ
byte_length [] = 0
byte_length (c ∷ t) =
    (if ltb c 128 then 1 else if ltb c 2048 then 2 else if ltb c 65536 then 3 else 4)
    + byte_length t

module _ (v : Env) where
  abbrev tokens_of : ℕ → Text → Text → Result
  tokens_of user access token = issued (record {
    user_id = user;
    access_token = access;
    refresh_token = token;
    access_expiry = v.now +ℤ v.access_ttl;
    refresh_expiry = v.now +ℤ v.refresh_ttl;
  })

  -- the rows with a new session; `none` where the insertion fails, also by the unique index
  abbrev insert_session : ℕ → Text → Tables → Option Tables
  insert_session user token db =
      let hashed = v.hash_token token in
      if v.fault create_session || is_some (find_session hashed db.sessions)
      then none
      else some (record db {
        sessions =
            db.sessions
            ++ record {
              id = db.next_id;
              user_id = user;
              refresh_token = hashed;
              expires_at = v.now +ℤ v.refresh_ttl;
            }
              ∷ [];
        next_id = suc db.next_id;
      })

  -- `generateRefreshToken` and what follows it in `Login`
  unfoldable pub open_session : ℕ → Text → Tables → Result × Tables
  open_session user access db = elim v.random [
    | none ↦ (refused internal, db)
    | some token ↦ elim (insert_session user token db) [
      | none ↦ (refused internal, db)
      | some db' ↦ (tokens_of user access token, db')
    ]
  ]

  -- `Login`
  unfoldable pub login : Text → Text → Tables → Result × Tables
  unfolding open_session
  login email password db =
      let normalized = trim_space (to_lower email) in
      if is_empty normalized || is_empty password || v.fault get_user_by_email
      then (refused invalid_credentials, db)
      else elim (find_user normalized db.users) [
        | none ↦ (refused invalid_credentials, db)
        | some u ↦
            if not (v.matches password u.password_hash)
            then (refused invalid_credentials, db)
            else elim (v.sign u.id) [
              | none ↦ (refused internal, db)
              | some access ↦ open_session u.id access db
            ]
      ]

  abbrev pub revoke : Text → Tables → Tables
  revoke hashed db =
      if v.fault delete_session
      then db
      else record db { sessions = delete_token hashed db.sessions }

  -- `Logout`; true where it returns an error
  unfoldable pub logout : Text → Tables → Bool × Tables
  logout refresh_token db =
      let token = trim_space refresh_token in
      if is_empty token
      then (false, db)
      else (v.fault delete_session, revoke (v.hash_token token) db)

  abbrev pub rotate_to : ℕ → Text → Tables → Tables
  rotate_to id hashed db = record db {
    sessions = rotate_rows id hashed (v.now +ℤ v.refresh_ttl) db.sessions;
  }

  -- `rotateSessionToken` and what follows it in `Refresh`
  unfoldable pub rotate : Session → Text → Text → Tables → Result × Tables
  rotate s hashed access db = elim v.random [
    | none ↦ (refused internal, revoke hashed db)
    | some token ↦
        let fresh = v.hash_token token in
        if v.fault rotate_session || is_taken s.id fresh db.sessions
        then (refused internal, revoke hashed db)
        else (tokens_of s.user_id access token, rotate_to s.id fresh db)
  ]

  -- `Refresh` for the session found
  unfoldable pub refresh_session : Session → Text → Tables → Result × Tables
  unfolding rotate
  refresh_session s hashed db =
      if ltb_ℤ s.expires_at v.now
      then (refused unauthorized, revoke hashed db)
      else elim (v.sign s.user_id) [
        | none ↦ (refused internal, db)
        | some access ↦ rotate s hashed access db
      ]

  -- `Refresh`
  unfoldable pub refresh : Text → Tables → Result × Tables
  unfolding refresh_session
  refresh refresh_token db =
      let token = trim_space refresh_token in
      let hashed = v.hash_token token in
      if is_empty token || v.fault get_session
      then (refused unauthorized, db)
      else elim (find_session hashed db.sessions) [
        | none ↦ (refused unauthorized, db)
        | some s ↦ refresh_session s hashed db
      ]

  abbrev drop_resets : ℕ → Tables → Option Error × Tables
  drop_resets user db =
      if v.fault delete_user_resets
      then (some internal, db)
      else (none, record db { resets = delete_resets_of user db.resets })

  abbrev drop_sessions : ℕ → Tables → Option Error × Tables
  drop_sessions user db =
      if v.fault delete_user_sessions
      then (some internal, db)
      else drop_resets user (record db { sessions = delete_sessions_of user db.sessions })

  abbrev mark_used : PasswordReset → Tables → Option Error × Tables
  mark_used r db =
      if v.fault use_reset
      then (some internal, db)
      else drop_sessions r.user_id (record db { resets = use_token v.now r.token db.resets })

  -- the four writes of `Reset`, each of which ends it where it fails
  unfoldable pub apply_reset : PasswordReset → Text → Tables → Option Error × Tables
  apply_reset r hash db =
      if v.fault update_password || not (has_user r.user_id db.users)
      then (some internal, db)
      else mark_used r (record db { users = set_password r.user_id hash db.users })

  -- `Reset`
  unfoldable pub reset : Text → Text → Tables → Option Error × Tables
  unfolding apply_reset byte_length
  reset token password db =
      let trimmed = trim_space token in
      if is_empty trimmed
      then (some invalid_token, db)
      else if ltb (byte_length password) 8
      then (some weak_password, db)
      else if v.fault get_reset
      then (some invalid_token, db)
      else elim (find_reset trimmed db.resets) [
        | none ↦ (some invalid_token, db)
        | some r ↦
            if is_some r.used_at || ltb_ℤ r.expires_at v.now
            then (some invalid_token, db)
            else elim (v.create_hash password) [
              | none ↦ (some internal, db)
              | some hash ↦ apply_reset r hash db
            ]
      ]
