-- ===== src/Resilience/Client.antt =====
-- `HTTPClient.Do` of internal/resilience/httpwrap.go. What the network, the clock and the context do in
-- an attempt is given: the attempt's instants, the reply, and whether the context ends in the wait that
-- follows.
use toko_api.Prelude.{
  ℕ, zero, suc, ◌+◌, Bool, true, false, Option, none, some, ltb, ◌==◌, if◌then◌else◌,
}
use toko_api.Resilience.Floats.{Floats}
use toko_api.Resilience.Breaker.{Breaker, new_breaker, allow, report}

pub data Reply : Type 0 where
  response : ℕ → Reply
  failure : Reply

pub record Attempt : Type 0 where
  pub asked_at : ℕ
  pub replied_at : ℕ
  pub reply : Reply
  pub is_canceled : Bool

pub data Error : Type 0 where
  breaker_open server_error transport canceled unreadable_body : Error

pub data Verdict : Type 0 where
  answered : ℕ → Verdict
  failed : Error → Verdict

-- the outcome, the number of requests sent, and the breaker afterwards
pub record Outcome (B : Type 0) : Type 0 where
  pub verdict : Verdict
  pub sent : ℕ
  pub breaker : B

-- an answer that is not an error of the server
abbrev pub accepted : Reply → Option ℕ
accepted (response status) = if ltb status 500 then some status else none
accepted failure = none

abbrev pub error_of : Reply → Error
error_of (response status) = server_error
error_of failure = transport

module _ (fl : Floats) where
  -- The loop, with the attempts that are left and the number of the next one; the last error is the one
  -- that the loop ends with. `env n` is what happens in attempt n.
  unfoldable pub attempts : (ℕ → Attempt) → ℕ → ℕ → Breaker fl.Float → Outcome (Breaker fl.Float)
  attempts env zero attempt b = record { verdict = failed transport; sent = 0; breaker = b }
  attempts env (suc left) attempt b =
      let a = env attempt in
      let (granted, b') = allow fl b a.asked_at in
      let b'' = report fl b' a.replied_at false in
      let rest = attempts env left (attempt + 1) b'' in
      if granted
      then elim (accepted a.reply) [
        | some status ↦ record {
          verdict = answered status;
          sent = 1;
          breaker = report fl b' a.replied_at true;
        }
        | none ↦
            if left == 0
            then record { verdict = failed (error_of a.reply); sent = 1; breaker = b'' }
            else if a.is_canceled
            then record { verdict = failed canceled; sent = 1; breaker = b'' }
            else record { verdict = rest.verdict; sent = rest.sent + 1; breaker = rest.breaker }
      ]
      else record { verdict = failed breaker_open; sent = 0; breaker = b' }

  -- `if maxAttempts <= 0 { maxAttempts = 1 }`
  abbrev pub at_least_once : ℕ → ℕ
  at_least_once max_attempts = if max_attempts == 0 then 1 else max_attempts

  -- the breaker of a client without one
  abbrev pub default_breaker : Breaker fl.Float
  default_breaker = new_breaker fl 1 fl.one 1000000000

  abbrev pub own_or_default : Option (Breaker fl.Float) → Breaker fl.Float
  own_or_default none = default_breaker
  own_or_default (some b) = b

  -- a fallback answers every failure but that of the body and the end of the context
  abbrev pub with_fallback : Option (Error → Verdict) → Verdict → Verdict
  with_fallback none v = v
  with_fallback (some fallback) (answered status) = answered status
  with_fallback (some fallback) (failed canceled) = failed canceled
  with_fallback (some fallback) (failed e) = fallback e

  -- `Do` of a client with a configured `http.Client`
  unfoldable pub do_request :
      Option (Breaker fl.Float)
      → ℕ
      → Option (Error → Verdict)
      → Bool
      → (ℕ → Attempt)
      → Outcome (Breaker fl.Float)
  unfolding attempts
  do_request breaker max_attempts fallback body_fails env =
      let b = own_or_default breaker in
      if body_fails
      then record { verdict = failed unreadable_body; sent = 0; breaker = b }
      else let o = attempts env (at_least_once max_attempts) 1 b in
        record o { verdict = with_fallback fallback o.verdict }
