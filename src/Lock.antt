-- ===== src/Lock.antt =====
-- internal/lock/redislock.go: a lock in Redis, one key that expires. A token is a number, since
-- `uuid.NewString` never gives one twice; instants are nanoseconds.
pub mod Exclusion
mod Examples
use toko_api.Prelude.{
  ℕ, ◌+◌, Bool, true, false, ◌&&◌, Option, none, some, List, [], ◌∷◌, ◌==◌, ltb, if◌then◌else◌,
}

-- the value of the key and its expiry
pub record Lease : Type 0 where
  pub token : ℕ
  pub expires : ℕ

-- `if ttl <= 0 { ttl = 30 * time.Second }`, with 0 for a lifetime that is not positive
abbrev pub positive_ttl : ℕ → ℕ
positive_ttl ttl = if ttl == 0 then 30000000000 else ttl

-- The key holds a lease that has not expired.
abbrev pub is_live : ℕ → Option Lease → Bool
is_live now none = false
is_live now (some l) = ltb now l.expires

-- One attempt of `WithLock`: `SetNX`, with the lease that it takes.
unfoldable pub acquire : ℕ → ℕ → ℕ → Option Lease → Option Lease × Option Lease
acquire now token ttl key = if is_live now key then (none, key) else (
  some (record { token = token; expires = now + positive_ttl ttl }),
  some (record { token = token; expires = now + positive_ttl ttl }),
)

abbrev has_token : ℕ → Option Lease → Bool
has_token token none = false
has_token token (some l) = l.token == token

-- the script of `release`: the key is deleted if it holds the token
unfoldable pub run_script : ℕ → ℕ → Option Lease → Option Lease
run_script now token key = if is_live now key && has_token token key then none else key

-- How `Eval` ends: the script was run, though its answer may be lost; the error is "unknown command", and
-- then whether the `Del` after it fails; or there is another error, without a run.
pub data Eval : Type 0 where
  ran failed : Eval
  unknown_command : Bool → Eval

-- `release`
unfoldable pub release : Eval → ℕ → ℕ → Option Lease → Option Lease
unfolding run_script
release ran now token key = run_script now token key
release failed now token key = key
release (unknown_command del_fails) now token key = if del_fails then key else none

-- The loop of `WithLock`, one attempt at each of the given instants: the lease, or `none` where the
-- context ends before one is free.
unfoldable pub wait_for : List ℕ → ℕ → ℕ → Option Lease → Option Lease × Option Lease
wait_for [] token ttl key = (none, key)
wait_for (now ∷ later) token ttl key =
    let (lease, key') = acquire now token ttl key in
    let rest = wait_for later token ttl key' in elim lease [ none ↦ rest | some l ↦ (some l, key') ]
