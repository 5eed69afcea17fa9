-- ===== src/Auth/Rotation.antt =====
-- Which sessions and refresh tokens are left by `Refresh` and `Reset` of internal/auth/service.go.
use toko_api.Prelude.{
  ℕ, ℤ, ◌≡◌, refl, sym, ◌∙◌, ap, false, none, some, List, [], ◌∷◌, ◌==◌, Text, text_eq,
  eq_of_text_eq, trim_space, All, arith, Bool-cases, inl, inr,
}
use toko_api.Auth.Store.{
  Session, PasswordReset, Tables, find_session, rotate_rows, delete_sessions_of, find_reset,
}
use toko_api.Auth.Service.{
  Env, unauthorized, Tokens, issued, refused, rotate, refresh_session, refresh, apply_reset, reset,
}

-- The unique index on the tokens of the sessions.
abbrev pub Distinct : List Session → Type 0
Distinct [] = Unit
Distinct (s ∷ ss) = (find_session s.refresh_token ss ≡ none) × Distinct ss

rotate_rows-absent :
    (id : ℕ) (new old : Text) (expires : ℤ) (ss : List Session)
    → text_eq new old ≡ false
    → find_session old ss ≡ none
    → find_session old (rotate_rows id new expires ss) ≡ none
unfolding rotate_rows find_session
rotate_rows-absent id new old expires [] differ e = refl
rotate_rows-absent id new old expires (s ∷ ss) differ e =
    ground (arith, differ, e, rotate_rows-absent id new old expires ss differ)

find_session-rotate_rows :
    (new old : Text) (expires : ℤ) (ss : List Session) (s : Session)
    → text_eq new old ≡ false
    → Distinct ss
    → find_session old ss ≡ some s
    → find_session old (rotate_rows s.id new expires ss) ≡ none
unfolding rotate_rows find_session
find_session-rotate_rows new old expires [] s differ u e = cc
find_session-rotate_rows new old expires (x ∷ ss) s differ (alone, u) e =
    elim (Bool-cases (text_eq x.refresh_token old)) [
      | inl same ↦
          let gone : find_session old ss ≡ none =
            ap (λ t. find_session t ss) (sym (eq_of_text_eq x.refresh_token old same)) ∙ alone in
          ground (arith, same, e, differ, rotate_rows-absent s.id new old expires ss differ gone)
      | inr other ↦
          ground (arith, other, e, differ, find_session-rotate_rows new old expires ss s differ u)
    ]

delete_sessions_of-All :
    (user : ℕ) (ss : List Session)
    → All (λ s. (s.user_id == user) ≡ false) (delete_sessions_of user ss)
unfolding delete_sessions_of
delete_sessions_of-All user [] = tt
delete_sessions_of-All user (s ∷ ss) = elim (Bool-cases (s.user_id == user)) [
  | inl own ↦ rw own (delete_sessions_of-All user ss)
  | inr other ↦ rw other (other, delete_sessions_of-All user ss)
]

module _ (v : Env) where
  gone_after :
      (old : Text) (db : Tables) (t : Tokens)
      → Distinct db.sessions
      → (refresh v old db).0 ≡ issued t
      → text_eq (v.hash_token t.refresh_token) (v.hash_token (trim_space old)) ≡ false
      → find_session (v.hash_token (trim_space old)) (refresh v old db).1.sessions ≡ none
  unfolding refresh refresh_session rotate
  gone_after old db t u e differ = grind (arith, find_session-rotate_rows)

  refresh-unknown :
      (old : Text) (db : Tables)
      → find_session (v.hash_token (trim_space old)) db.sessions ≡ none
      → refresh v old db ≡ (refused unauthorized, db)
  unfolding refresh
  refresh-unknown old db e = ground (arith, e)

  -- A reset without an error leaves no session of the user whose token it was.
  pub reset-signs_out :
      (token password : Text) (db : Tables) (r : PasswordReset)
      → find_reset (trim_space token) db.resets ≡ some r
      → (reset v token password db).0 ≡ none
      → All (λ s. (s.user_id == r.user_id) ≡ false) (reset v token password db).1.sessions
  unfolding reset apply_reset
  reset-signs_out token password db r found e = grind (arith, delete_sessions_of-All)

-- A refresh that issued tokens is the last one with its refresh token, where the new token hashes to
-- another value and the hash of the old one stays the same: each later one is refused and changes nothing.
pub refresh-rotates :
    (v v' : Env) (old : Text) (db : Tables) (t : Tokens)
    → Distinct db.sessions
    → (refresh v old db).0 ≡ issued t
    → text_eq (v.hash_token t.refresh_token) (v.hash_token (trim_space old)) ≡ false
    → v'.hash_token (trim_space old) ≡ v.hash_token (trim_space old)
    → refresh v' old (refresh v old db).1 ≡ (refused unauthorized, (refresh v old db).1)
refresh-rotates v v' old db t u e differ same =
    refresh-unknown v' old (refresh v old db).1 (
      ap (λ h. find_session h (refresh v old db).1.sessions) same
      ∙ gone_after v old db t u e differ)
