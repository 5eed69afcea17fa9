-- ===== src/Resilience/Breaker.antt =====
-- The circuit breaker of internal/resilience/circuit.go. Instants and durations are nanoseconds. The
-- counters are natural numbers: Counters bounds them, so the `int` fields do not overflow. The metrics of
-- the transitions are kept as a list.
use toko_api.Prelude.{
  ℕ, ◌+◌, ◌*◌, ◌/◌, Bool, true, false, List, [], ◌∷◌, ◌++◌, ltb, leb, ◌==◌, if◌then◌else◌,
}
use toko_api.Resilience.Floats.{Floats}

pub data State : Type 0 where
  closed open_circuit half_open : State

pub record Breaker (F : Type 0) : Type 0 where
  pub state : State
  pub failures : ℕ
  pub successes : ℕ
  pub min_requests : ℕ
  pub failure_ratio : F
  pub opened_at : ℕ
  pub open_for : ℕ
  pub transitions : List (State × State)

unfoldable pub same_state : State → State → Bool
same_state closed closed = true
same_state open_circuit open_circuit = true
same_state half_open half_open = true
same_state _ _ = false

abbrev opened_at_of : State → ℕ → ℕ → ℕ
opened_at_of open_circuit now old = now
opened_at_of closed now old = 0
opened_at_of half_open now old = old

module _ (fl : Floats) where
  -- the ratio that `NewBreaker` takes
  abbrev pub clamp_ratio : fl.Float → fl.Float
  clamp_ratio r = if fl.is_nonpositive r then fl.half else if fl.exceeds_one r then fl.one else r

  -- `NewBreaker`; an argument that is not positive is 0 here.
  unfoldable pub new_breaker : ℕ → fl.Float → ℕ → Breaker fl.Float
  new_breaker min_requests failure_ratio open_for = record {
    state = closed;
    failures = 0;
    successes = 0;
    min_requests = if min_requests == 0 then 1 else min_requests;
    failure_ratio = clamp_ratio failure_ratio;
    opened_at = 0;
    open_for = if open_for == 0 then 30000000000 else open_for;
    transitions = [];
  }

  -- `changeStateLocked`
  unfoldable pub change_state : Breaker fl.Float → ℕ → State → Breaker fl.Float
  unfolding same_state
  change_state b now next = if same_state b.state next then b else record b {
    state = next;
    failures = 0;
    successes = 0;
    opened_at = opened_at_of next now b.opened_at;
    transitions = b.transitions ++ (b.state, next) ∷ [];
  }

  allow_in : State → Breaker fl.Float → ℕ → Bool × Breaker fl.Float
  unfolding change_state
  allow_in open_circuit b now =
      if leb (b.opened_at + b.open_for) now
      then (true, change_state b now half_open)
      else (false, b)
  allow_in _ b now = (true, b)

  -- `Allow`
  unfoldable pub allow : Breaker fl.Float → ℕ → Bool × Breaker fl.Float
  unfolding allow_in
  allow b now = allow_in b.state b now

  -- one more request is counted
  abbrev pub counted : Breaker fl.Float → Bool → Breaker fl.Float
  counted b success =
      if success
      then record b { successes = b.successes + 1 }
      else record b { failures = b.failures + 1 }

  abbrev pub total : Breaker fl.Float → ℕ
  total b = b.failures + b.successes

  -- the thresholds of `Report`; half of a counter is rounded up
  unfoldable pub review : Breaker fl.Float → ℕ → Breaker fl.Float
  unfolding change_state
  review b now =
      if ltb (total b) b.min_requests
      then b
      else if fl.reaches b.failure_ratio b.failures (total b)
      then change_state b now open_circuit
      else if ltb (b.min_requests * 2) (total b)
      then record b { successes = (b.successes + 1) / 2; failures = (b.failures + 1) / 2 }
      else b

  report_in : State → Breaker fl.Float → ℕ → Bool → Breaker fl.Float
  unfolding review
  report_in open_circuit b now success = b
  report_in half_open b now success = change_state b now (if success then closed else open_circuit)
  report_in closed b now success = review (counted b success) now

  -- `Report`
  unfoldable pub report : Breaker fl.Float → ℕ → Bool → Breaker fl.Float
  unfolding report_in
  report b now success = report_in b.state b now success
