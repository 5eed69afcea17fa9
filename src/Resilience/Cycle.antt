-- ===== src/Resilience/Cycle.antt =====
-- When the breaker of internal/resilience/circuit.go opens, and how it recovers.
use toko_api.Prelude.{
  ℕ, ◌+◌, ◌<◌, ◌≡◌, refl, true, false, arith, List, [], ◌∷◌, ◌++◌, All, ◌∙◌, length, sym,
  Bool-cases, inl, inr,
}
use mathlib.Core.Path.{subst}
use toko_api.Resilience.Floats.{Floats}
use toko_api.Resilience.Breaker.{
  State, closed, open_circuit, half_open, Breaker, new_breaker, clamp_ratio, change_state,
  same_state, allow, report, review, counted,
}
use toko_api.Resilience.Counters.{Call, allow_at, report_at, apply, run}

-- The transitions of a breaker.
pub data Moves : State × State → Type 0 where
  trip : Moves (closed, open_circuit)
  probe : Moves (open_circuit, half_open)
  recover : Moves (half_open, closed)
  relapse : Moves (half_open, open_circuit)

All-snoc :
    (xs : List (State × State)) (x : State × State)
    → All Moves xs
    → Moves x
    → All Moves (xs ++ x ∷ [])
All-snoc [] x a h = (h, tt)
All-snoc (y ∷ xs) x a h = (a.0, All-snoc xs x a.1 h)

module _ (fl : Floats) where
  -- The transitions so far are those of the cycle.
  abbrev Cycles : Breaker fl.Float → Type 0
  Cycles b = All Moves b.transitions

  change_state-Cycles :
      (b : Breaker fl.Float) (now : ℕ) (next : State)
      → Moves (b.state, next)
      → Cycles b
      → Cycles (change_state fl b now next)
  unfolding change_state
  change_state-Cycles b now next m a = elim (Bool-cases (same_state b.state next)) [
    | inl same ↦ rw same a
    | inr new ↦ rw new (All-snoc b.transitions (b.state, next) a m)
  ]

  -- the move out of a state
  Moves-from :
      (b : Breaker fl.Float) (s next : State)
      → b.state ≡ s
      → Moves (s, next)
      → Moves (b.state, next)
  Moves-from b s next e m = subst (λ (x : State). Moves (x, next)) (sym e) m

  apply-Cycles :
      (b : Breaker fl.Float) (c : Call) (s : State) → b.state ≡ s → Cycles b → Cycles (apply fl b c)
  unfolding apply allow report review
  apply-Cycles b (allow_at now) open_circuit e a =
      ground
        (arith, change_state-Cycles b now half_open (Moves-from b open_circuit half_open e probe) a)
  apply-Cycles b (allow_at now) s e a = ground arith
  apply-Cycles b (report_at now success) open_circuit e a = ground arith
  apply-Cycles b (report_at now true) half_open e a =
      ground (arith, change_state-Cycles b now closed (Moves-from b half_open closed e recover) a)
  apply-Cycles b (report_at now false) half_open e a = ground (
    arith,
    change_state-Cycles b now open_circuit (Moves-from b half_open open_circuit e relapse) a,
  )
  apply-Cycles b (report_at now success) closed e a = ground (
    arith,
    change_state-Cycles (counted fl b success) now open_circuit
        (Moves-from (counted fl b success) closed open_circuit (ground arith) trip),
  )

  run-Cycles : (cs : List Call) (b : Breaker fl.Float) → Cycles b → Cycles (run fl b cs)
  unfolding run
  run-Cycles [] b a = a
  run-Cycles (c ∷ cs) b a = run-Cycles cs (apply fl b c) (apply-Cycles b c b.state refl a)

  -- Every transition of a new breaker is one of the cycle: closed to open, open to half-open, and from
  -- there to closed or back to open.
  pub new_breaker-Cycles :
      (min_requests open_for : ℕ) (ratio : fl.Float) (cs : List Call)
      → All Moves (run fl (new_breaker fl min_requests ratio open_for) cs).transitions
  unfolding new_breaker
  new_breaker-Cycles min_requests open_for ratio cs = run-Cycles cs _ tt

-- One failure after the other, at the given instants.
abbrev pub failures_at : List ℕ → List Call
failures_at [] = []
failures_at (t ∷ ts) = report_at t false ∷ failures_at ts

module _ (fl : Floats) where
  -- closed, after `n` failures and no success
  record IsFailing (b : Breaker fl.Float) (m n : ℕ) (r : fl.Float) : Type 0 where
    pub is_closed : b.state ≡ closed
    pub same_min : b.min_requests ≡ m
    pub failed : b.failures ≡ n
    pub no_success : b.successes ≡ 0
    pub same_ratio : b.failure_ratio ≡ r

  report-IsFailing :
      (b : Breaker fl.Float) (m n now : ℕ) (r : fl.Float)
      → IsFailing b m n r
      → n + 1 < m
      → IsFailing (report fl b now false) m (n + 1) r
  unfolding report review
  report-IsFailing b m n now r f h = ground arith

  run-IsFailing :
      (ts : List ℕ) (b : Breaker fl.Float) (m n : ℕ) (r : fl.Float)
      → IsFailing b m n r
      → n + length ts < m
      → IsFailing (run fl b (failures_at ts)) m (n + length ts) r
  unfolding run apply
  run-IsFailing [] b m n r f h = ground arith
  run-IsFailing (t ∷ ts) b m n r f h =
      let rest =
        run-IsFailing ts (report fl b t false) m (n + 1) r
          (report-IsFailing b m n t r f (omega arith)) (omega arith) in
      record {
        is_closed = rest.is_closed;
        same_min = rest.same_min;
        failed = rest.failed ∙ omega arith;
        no_success = rest.no_success;
        same_ratio = rest.same_ratio;
      }

  report-trips :
      (b : Breaker fl.Float) (m n now : ℕ) (r : fl.Float)
      → IsFailing b m n r
      → n + 1 ≡ m
      → fl.reaches r m m ≡ true
      → ((report fl b now false).state ≡ open_circuit) × ((report fl b now false).opened_at ≡ now)
  unfolding report review change_state
  report-trips b m n now r f h full =
      let all : b.failures + 1 ≡ m = omega arith in
      let sum : b.failures + 1 + b.successes ≡ m = omega arith in
      let reached : fl.reaches b.failure_ratio (b.failures + 1) (b.failures + 1 + b.successes)
          ≡ true =
        cc (all, sum, f.same_ratio, full) in
      ground arith

  clamp_ratio-reached :
      (m : ℕ) (ratio : fl.Float)
      → fl.is_nan ratio ≡ false
      → 0 < m
      → fl.reaches (clamp_ratio fl ratio) m m ≡ true
  clamp_ratio-reached m ratio number some_request = ground (
    arith,
    fl.all_reach fl.half m fl.half_nan fl.half_positive fl.half_at_most some_request,
    fl.all_reach fl.one m fl.one_nan fl.one_positive fl.one_at_most some_request,
    fl.all_reach ratio m number,
  )

  -- Failures alone, from the start: the breaker stays closed until there are as many of them as the
  -- minimum number of requests, which is positive, and the last of these opens it at its instant, for
  -- every ratio but NaN.
  pub new_breaker-trips :
      (m open_for last : ℕ) (ratio : fl.Float) (ts : List ℕ)
      → fl.is_nan ratio ≡ false
      → length ts + 1 ≡ m
      → let b = run fl (new_breaker fl m ratio open_for) (failures_at ts) in
        (b.state ≡ closed)
        × ((report fl b last false).state ≡ open_circuit)
        × ((report fl b last false).opened_at ≡ last)
  unfolding new_breaker
  new_breaker-trips m open_for last ratio ts number h =
      let f =
        run-IsFailing ts (new_breaker fl m ratio open_for) m 0 (clamp_ratio fl ratio) (ground arith)
          (omega arith) in
      let full = clamp_ratio-reached m ratio number (omega arith) in
      let (trips, at) =
        report-trips (run fl (new_breaker fl m ratio open_for) (failures_at ts)) m (0 + length ts)
          last (clamp_ratio fl ratio) f (omega arith) full in
      (f.is_closed, trips, at)
