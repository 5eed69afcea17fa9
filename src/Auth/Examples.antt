-- ===== src/Auth/Examples.antt =====
-- The theorems on internal/auth/service.go at concrete tables.
use toko_api.Prelude.{
  pos, ◌≡◌, refl, true, false, none, some, [], ◌∷◌, ◌==◌, ◌++◌, ◌+ℤ◌, codes, text_eq, trim_space,
  All,
}
use toko_api.Auth.Store.{Tables, find_session, is_taken, has_user, find_reset}
use toko_api.Auth.Service.{
  Env, unauthorized, Tokens, issued, refused, byte_length, rotate, refresh_session, refresh,
  apply_reset, reset,
}
use toko_api.Auth.Rotation.{Distinct, refresh-rotates, reset-signs_out}

abbrev env : Env
env = record {
  now = pos 100;
  access_ttl = pos 10;
  refresh_ttl = pos 50;
  hash_token = λ t. codes "h" ++ t;
  matches = λ p h. true;
  create_hash = λ p. some p;
  random = some (codes "new");
  sign = λ user. some (codes "jwt");
  fault = λ q. false;
}

abbrev tables : Tables
tables = record {
  users = record { id = 7; email = codes "a@b.c"; password_hash = codes "x" } ∷ [];
  sessions =
      record { id = 1; user_id = 7; refresh_token = codes "hold"; expires_at = pos 120 }
      ∷ record { id = 2; user_id = 8; refresh_token = codes "hother"; expires_at = pos 120 }
      ∷ [];
  resets = record { user_id = 7; token = codes "reset"; expires_at = pos 120; used_at = none } ∷ [];
  next_id = 3;
}

abbrev tokens : Tokens
tokens = record {
  user_id = 7;
  access_token = codes "jwt";
  refresh_token = codes "new";
  access_expiry = pos 110;
  refresh_expiry = pos 150;
}

sessions_Distinct : Distinct tables.sessions
unfolding find_session text_eq
sessions_Distinct = (refl, (refl, tt))

refreshed : (refresh env (codes "old") tables).0 ≡ issued tokens
unfolding refresh refresh_session rotate find_session is_taken text_eq trim_space ◌+ℤ◌
refreshed = refl

fresh_token : text_eq (codes "hnew") (env.hash_token (trim_space (codes "old"))) ≡ false
unfolding text_eq trim_space
fresh_token = refl

refresh-rotates_example :
    let db' = (refresh env (codes "old") tables).1 in
    refresh env (codes "old") db' ≡ (refused unauthorized, db')
refresh-rotates_example =
    refresh-rotates env env (codes "old") tables tokens sessions_Distinct refreshed fresh_token refl

found_reset :
    find_reset (trim_space (codes "reset")) tables.resets
    ≡ some (record { user_id = 7; token = codes "reset"; expires_at = pos 120; used_at = none })
unfolding find_reset text_eq trim_space
found_reset = refl

succeeded : (reset env (codes "reset") (codes "password") tables).0 ≡ none
unfolding reset apply_reset byte_length find_reset has_user text_eq trim_space
succeeded = refl

reset-signs_out_example :
    All
      (λ s. (s.user_id == 7) ≡ false)
      (reset env (codes "reset") (codes "password") tables).1.sessions
reset-signs_out_example =
    reset-signs_out env (codes "reset") (codes "password") tables
      (record { user_id = 7; token = codes "reset"; expires_at = pos 120; used_at = none })
      found_reset succeeded
