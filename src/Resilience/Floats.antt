-- ===== src/Resilience/Floats.antt =====
-- What internal/resilience/circuit.go takes from `float64`: the failure ratio and its comparisons.
use toko_api.Prelude.{ℕ, ◌≡◌, ◌<◌, Bool, true, false}

pub record Floats : Type 1 where
  pub Float : Type 0
  pub half : Float
  pub one : Float
  -- `r <= 0`, `r > 1`
  pub is_nonpositive : Float → Bool
  pub exceeds_one : Float → Bool
  -- `float64(failures)/float64(total) >= r`
  pub reaches : Float → ℕ → ℕ → Bool
  pub is_nan : Float → Bool
  pub half_nan : is_nan half ≡ false
  pub half_positive : is_nonpositive half ≡ false
  pub half_at_most : exceeds_one half ≡ false
  pub one_nan : is_nan one ≡ false
  pub one_positive : is_nonpositive one ≡ false
  pub one_at_most : exceeds_one one ≡ false
  -- t / t is 1, which every number above 0 and at most 1 is reached by; NaN is reached by nothing.
  pub all_reach :
      (r : Float) (t : ℕ)
      → is_nan r ≡ false
      → is_nonpositive r ≡ false
      → exceeds_one r ≡ false
      → 0 < t
      → reaches r t t ≡ true
