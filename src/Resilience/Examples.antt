-- ===== src/Resilience/Examples.antt =====
-- The resilience theorems at concrete breakers and requests.
use toko_api.Prelude.{
  ℕ, zero, suc, ◌≡◌, refl, ◌+◌, ◌*◌, ◌≤◌, true, false, none, some, List, [], ◌∷◌, arith, ltb, leb,
  ◌==◌, if◌then◌else◌,
}
use toko_api.Resilience.Floats.{Floats}
use toko_api.Resilience.Breaker.{
  closed, open_circuit, Breaker, new_breaker, allow, report, review, change_state,
}
use toko_api.Resilience.Client.{response, Attempt, answered, attempts, do_request}
use toko_api.Resilience.Counters.{Call, allow_at, report_at, run, IsValid, new_breaker-IsValid}
use toko_api.Resilience.Cycle.{failures_at, new_breaker-trips}
use toko_api.Resilience.Retries.{LastAnswered, do_request-answered}

at_most : (r t : ℕ) → r ≤ 100 → r * t ≤ t * 100
at_most r zero h = omega arith
at_most r (suc t) h = grind (arith, at_most r t h)

reached : (r t : ℕ) → r ≤ 100 → leb (r * t) (t * 100) ≡ true
reached r t h = ground (arith, at_most r t h)

-- Ratios in per cent.
abbrev percent : Floats
percent = record {
  Float = ℕ;
  half = 50;
  one = 100;
  is_nonpositive = λ r. r == 0;
  exceeds_one = λ r. ltb 100 r;
  reaches = λ r failures total. leb (r * total) (failures * 100);
  is_nan = λ r. false;
  half_nan = refl;
  half_positive = refl;
  half_at_most = refl;
  one_nan = refl;
  one_positive = refl;
  one_at_most = refl;
  all_reach = λ r t n p h positive. reached r t (ground (arith, h));
}

abbrev calls : List Call
calls = allow_at 5 ∷ report_at 6 false ∷ report_at 7 false ∷ report_at 8 true ∷ []

new_breaker-IsValid_example : IsValid percent (run percent (new_breaker percent 2 50 100) calls) 2
new_breaker-IsValid_example = new_breaker-IsValid percent 2 100 50 calls (omega arith)

-- open since the instant 7, for 100
abbrev tripped : Breaker ℕ
tripped = record {
  state = open_circuit;
  failures = 0;
  successes = 0;
  min_requests = 2;
  failure_ratio = 50;
  opened_at = 7;
  open_for = 100;
  transitions = (closed, open_circuit) ∷ [];
}

new_breaker-trips_example :
    let b = run percent (new_breaker percent 3 50 100) (failures_at (4 ∷ 6 ∷ [])) in
    (b.state ≡ closed)
    × ((report percent b 9 false).state ≡ open_circuit)
    × ((report percent b 9 false).opened_at ≡ 9)
new_breaker-trips_example = new_breaker-trips percent 3 100 9 50 (4 ∷ 6 ∷ []) refl refl

-- a server that fails first and answers 200 from the second attempt on
abbrev recovering : ℕ → Attempt
recovering n = record {
  asked_at = 10 * n;
  replied_at = 10 * n + 5;
  reply = if ltb n 2 then response 503 else response 200;
  is_canceled = false;
}

abbrev fresh : Breaker ℕ
fresh = record tripped { state = closed; opened_at = 0; transitions = []; min_requests = 10 }

success : (do_request percent (some fresh) 3 none false recovering).verdict ≡ answered 200
unfolding do_request attempts allow report review change_state
success = refl

do_request-answered_example :
    LastAnswered percent recovering 1
      (do_request percent (some fresh) 3 none false recovering).sent
      200
do_request-answered_example =
    do_request-answered percent (some fresh) 3 false recovering 200 success
