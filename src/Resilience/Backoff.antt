-- ===== src/Resilience/Backoff.antt =====
-- `Backoff` of internal/resilience/circuit.go, in nanoseconds.
use toko_api.Prelude.{
  ℕ, ℤ, pos, ◌≡◌, ◌-◌, ◌*◌, ◌^◌, ◌<◌, Option, none, some, ◌+ℤ◌, ◌*ℤ◌, ltb, leb_ℤ, if◌then◌else◌,
  wrap64, wrap64_pos, mul_pos, half64, arith, suc,
}

abbrev jittered : Option (ℤ → ℤ) → ℤ → ℤ
jittered none d = d
jittered (some delta) d = wrap64 (d +ℤ delta d)

-- `1 << uint(attempt-1)` of an int64, which is 0 from 64 on.
abbrev shifted : ℕ → ℤ
shifted k = wrap64 (pos (2 ^ k))

-- `if attempt < 1 { attempt = 1 }`
abbrev from_one : ℕ → ℕ
from_one attempt = if ltb attempt 1 then 1 else attempt

-- `if base <= 0 { base = 100 * time.Millisecond }`
abbrev positive_base : ℤ → ℤ
positive_base base = if leb_ℤ base (pos 0) then pos 100000000 else base

-- `jitter` is `none` where the fraction is not positive, and otherwise the random share of `d` that the
-- floating-point arithmetic adds.
unfoldable pub backoff : ℤ → ℕ → Option (ℤ → ℤ) → ℤ
backoff base attempt jitter =
    jittered jitter (wrap64 (positive_base base *ℤ shifted (from_one attempt - 1)))

below_product : (b p : ℕ) → 0 < b → b * p < half64 → p < half64
below_product b p h k = grind arith

from_one-suc : (k : ℕ) → from_one (suc k) - 1 ≡ k
from_one-suc k = ground arith

positive_base-pos : (b : ℕ) → 0 < b → positive_base (pos b) ≡ pos b
positive_base-pos b h = ground arith

-- Without jitter the delay of the k-th retry is the base, doubled k times, as long as that is below
-- 2 ^ 63 nanoseconds.
pub backoff_exact :
    (b k : ℕ) → 0 < b → b * 2 ^ k < half64 → backoff (pos b) (suc k) none ≡ pos (b * 2 ^ k)
unfolding backoff
backoff_exact b k h fits =
    rw
      (
        from_one-suc k,
        positive_base-pos b h,
        wrap64_pos (2 ^ k) (below_product b (2 ^ k) h fits),
        mul_pos b (2 ^ k),
      )
      (wrap64_pos (b * 2 ^ k) fits)
