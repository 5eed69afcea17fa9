-- ===== src/Resilience/Retries.antt =====
-- How often `HTTPClient.Do` of internal/resilience/httpwrap.go sends a request, and with what result.
use toko_api.Prelude.{
  ℕ, zero, suc, ◌+◌, ◌≤◌, ◌<◌, ◌≡◌, Bool, true, false, Option, none, some, arith, Option-cases, inl,
  inr,
}
use toko_api.Resilience.Floats.{Floats}
use toko_api.Resilience.Breaker.{
  Breaker, open_circuit, new_breaker, allow, report, review, change_state,
}
use toko_api.Resilience.Client.{
  Reply, response, failure, Attempt, breaker_open, answered, failed, accepted, attempts,
  at_least_once, default_breaker, own_or_default, do_request,
}

module _ (fl : Floats) where
  attempts-sent :
      (env : ℕ → Attempt) (left attempt : ℕ) (b : Breaker fl.Float)
      → (attempts fl env left attempt b).sent ≤ left
  unfolding attempts
  attempts-sent env zero attempt b = omega arith
  attempts-sent env (suc left) attempt b = ground (
    arith,
    attempts-sent env left (attempt + 1)
        (report fl (allow fl b (env attempt).asked_at).1 (env attempt).replied_at false),
  )

  -- the request of attempt n was answered with the status
  abbrev pub LastAnswered : (ℕ → Attempt) → ℕ → ℕ → ℕ → Type 0
  LastAnswered env attempt sent status =
      (status < 500) × (n : ℕ) × (n + 1 ≡ attempt + sent) × ((env n).reply ≡ response status)

  accepted-response :
      (r : Reply) (status : ℕ) → accepted r ≡ some status → (status < 500) × (r ≡ response status)
  accepted-response (response t) status h = ground arith
  accepted-response failure status h = cc

  attempts-answered :
      (env : ℕ → Attempt) (left attempt : ℕ) (b : Breaker fl.Float) (status : ℕ)
      → (attempts fl env left attempt b).verdict ≡ answered status
      → LastAnswered env attempt (attempts fl env left attempt b).sent status
  unfolding attempts
  attempts-answered env zero attempt b status h = cc
  attempts-answered env (suc left) attempt b status h =
      let a = env attempt in
      let next = report fl (allow fl b a.asked_at).1 a.replied_at false in
      elim (Option-cases (accepted a.reply)) [
        | inr (status', e) ↦ (
          ground (arith, accepted-response a.reply status' e),
          attempt,
          ground arith,
          ground (arith, accepted-response a.reply status' e),
        )
        | inl e ↦
            let (small, n, at, reply) =
              attempts-answered env left (attempt + 1) next status (ground arith) in
            (small, n, ground arith, reply)
      ]

  -- An answer of a client without fallback is the reply to the last request that was sent, and is below
  -- 500: errors of the server are not passed on as answers, all other statuses are, without a retry.
  pub do_request-answered :
      (breaker : Option (Breaker fl.Float)) (max_attempts : ℕ) (body_fails : Bool)
      (env : ℕ → Attempt) (status : ℕ)
      → (do_request fl breaker max_attempts none body_fails env).verdict ≡ answered status
      → LastAnswered env 1 (do_request fl breaker max_attempts none body_fails env).sent status
  unfolding do_request
  do_request-answered breaker max_attempts false env status h =
      attempts-answered env (at_least_once fl max_attempts) 1 (own_or_default fl breaker) status h
  do_request-answered breaker max_attempts true env status h = cc

  -- The default breaker opens at the first failure.
  default_breaker-trips :
      (asked replied : ℕ)
      → let (granted, b) = allow fl (default_breaker fl) asked in
        let b' = report fl b replied false in
        (granted ≡ true)
        × (b'.state ≡ open_circuit)
        × (b'.opened_at ≡ replied)
        × (b'.open_for ≡ 1000000000)
  unfolding new_breaker allow report review change_state
  default_breaker-trips asked replied = ground (
    arith,
    fl.one_positive,
    fl.one_at_most,
    fl.all_reach fl.one 1 fl.one_nan fl.one_positive fl.one_at_most (omega arith),
  )

  -- a second attempt that is asked for before the breaker has cooled off
  attempts-second :
      (env : ℕ → Attempt) (left : ℕ) (b : Breaker fl.Float)
      → let (granted, b') = allow fl b (env 1).asked_at in
        let b'' = report fl b' (env 1).replied_at false in
        granted ≡ true
        → accepted (env 1).reply ≡ none
        → (env 1).is_canceled ≡ false
        → (allow fl b'' (env 2).asked_at).0 ≡ false
        → let o = attempts fl env (suc (suc left)) 1 b in
          (o.verdict ≡ failed breaker_open) × (o.sent ≡ 1)
  unfolding attempts
  attempts-second env left b granted refused lasts cooling = ground arith

  refuses :
      (b : Breaker fl.Float) (now : ℕ)
      → b.state ≡ open_circuit
      → now < b.opened_at + b.open_for
      → (allow fl b now).0 ≡ false
  unfolding allow
  refuses b now e h = ground arith

  -- A client without a breaker of its own gets one that opens at the first failure. So a second attempt
  -- within a second of the first reply is not made, however many attempts are allowed: the request ends
  -- with ErrOpenCircuit after it was sent once.
  pub do_request-no_breaker :
      (max_attempts : ℕ) (env : ℕ → Attempt)
      → 1 < max_attempts
      → accepted (env 1).reply ≡ none
      → (env 1).is_canceled ≡ false
      → (env 2).asked_at < (env 1).replied_at + 1000000000
      → let o = do_request fl none max_attempts none false env in
        (o.verdict ≡ failed breaker_open) × (o.sent ≡ 1)
  unfolding do_request
  do_request-no_breaker (suc (suc left)) env h refused lasts early =
      let (granted, opened, at, for) = default_breaker-trips (env 1).asked_at (env 1).replied_at in
      let b =
        report fl (allow fl (default_breaker fl) (env 1).asked_at).1 (env 1).replied_at false in
      let cooling = refuses b (env 2).asked_at opened (omega (arith, at, for)) in
      ground (arith, attempts-second env left (default_breaker fl) granted refused lasts cooling)
  do_request-no_breaker (suc zero) env h refused lasts early = absurd (omega arith)
  do_request-no_breaker zero env h refused lasts early = absurd (omega arith)
