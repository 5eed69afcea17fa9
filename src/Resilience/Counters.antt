-- ===== src/Resilience/Counters.antt =====
-- The counters of the breaker of internal/resilience/circuit.go.
use toko_api.Prelude.{ℕ, ◌+◌, ◌*◌, ◌≤◌, ◌<◌, ◌≡◌, ◌≢◌, Bool, arith, List, [], ◌∷◌}
use toko_api.Resilience.Floats.{Floats}
use toko_api.Resilience.Breaker.{closed, Breaker, new_breaker, allow, report, review, counted}

-- A call of the breaker, at an instant.
pub data Call : Type 0 where
  allow_at : ℕ → Call
  report_at : ℕ → Bool → Call

module _ (fl : Floats) where
  unfoldable pub apply : Breaker fl.Float → Call → Breaker fl.Float
  apply b (allow_at now) = (allow fl b now).1
  apply b (report_at now success) = report fl b now success

  unfoldable pub run : Breaker fl.Float → List Call → Breaker fl.Float
  run b [] = b
  run b (c ∷ cs) = run (apply b c) cs

  -- The counters stay below twice the minimum and are 0 outside of the closed state; the settings are
  -- those that the breaker was made with.
  pub record IsValid (b : Breaker fl.Float) (min_requests : ℕ) : Type 0 where
    pub same_min : b.min_requests ≡ min_requests
    pub positive : 0 < b.min_requests
    pub bounded : b.failures + b.successes ≤ 2 * b.min_requests
    pub idle : b.state ≢ closed → b.failures + b.successes ≡ 0

  review-IsValid :
      (b : Breaker fl.Float) (now m : ℕ)
      → b.state ≡ closed
      → b.min_requests ≡ m
      → 0 < m
      → b.failures + b.successes ≤ 2 * m + 1
      → IsValid (review fl b now) m
  unfolding review
  review-IsValid b now m shut same positive bound = ground arith

  report-IsValid :
      (b : Breaker fl.Float) (now m : ℕ) (success : Bool)
      → IsValid b m
      → IsValid (report fl b now success) m
  unfolding report
  report-IsValid b now m success v = ground (arith, review-IsValid (counted fl b success) now m)

  allow-IsValid : (b : Breaker fl.Float) (now m : ℕ) → IsValid b m → IsValid (allow fl b now).1 m
  unfolding allow
  allow-IsValid b now m v = ground arith

  apply-IsValid : (b : Breaker fl.Float) (c : Call) (m : ℕ) → IsValid b m → IsValid (apply b c) m
  unfolding apply
  apply-IsValid b (allow_at now) m v = allow-IsValid b now m v
  apply-IsValid b (report_at now success) m v = report-IsValid b now m success v

  run-IsValid : (cs : List Call) (b : Breaker fl.Float) (m : ℕ) → IsValid b m → IsValid (run b cs) m
  unfolding run
  run-IsValid [] b m v = v
  run-IsValid (c ∷ cs) b m v = run-IsValid cs (apply b c) m (apply-IsValid b c m v)

  -- After any calls of a new breaker, its two counters add up to at most twice the minimum number of
  -- requests, and they are 0 while it is open or half-open.
  pub new_breaker-IsValid :
      (min_requests open_for : ℕ) (ratio : fl.Float) (cs : List Call)
      → 0 < min_requests
      → IsValid (run (new_breaker fl min_requests ratio open_for) cs) min_requests
  unfolding new_breaker
  new_breaker-IsValid min_requests open_for ratio cs h =
      run-IsValid cs _ min_requests (ground arith)
