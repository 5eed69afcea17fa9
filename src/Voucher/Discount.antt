-- ===== src/Voucher/Discount.antt =====
-- The amounts that `Compute` of internal/voucher/engine.go returns.
use Prim.Native.Nat.{min}
use toko_api.Prelude.{
  ℕ, ℤ, pos, ◌≡◌, ◌⊎◌, true, false, Option, none, some, ◌*ℤ◌, ◌/ℤ◌, ◌≤ℤ◌, ◌<◌, ◌*◌, ◌/◌, leb_ℤ,
  wrap64, wrap64_pos, mul_pos, div_pos, half64, arith, codes, equal_fold,
}
use toko_api.Voucher.Engine.{Rule, compute, clamp_discount, positive_bps, percent_discount}

clamp_bounds :
    (e d : ℤ) → leb_ℤ e (pos 0) ≡ false → (pos 0 ≤ℤ clamp_discount e d) × (clamp_discount e d ≤ℤ e)
clamp_bounds e d h = ground arith

percent_bounds :
    (e : ℤ) (bps : Option ℤ)
    → leb_ℤ e (pos 0) ≡ false
    → (pos 0 ≤ℤ percent_discount e bps) × (percent_discount e bps ≤ℤ e)
percent_bounds e none h = ground arith
percent_bounds e (some b) h = clamp_bounds e (wrap64 (e *ℤ b) /ℤ 10000) h

-- The discount of any voucher, also where the percentage wraps: never negative, never above a
-- positive eligible amount, and zero without one.
pub compute_bounds :
    (e : ℤ) (r : Rule)
    → (pos 0 ≤ℤ compute e r) × ((compute e r ≤ℤ e) ⊎ ((e ≤ℤ pos 0) × (compute e r ≡ pos 0)))
unfolding compute
compute_bounds e r =
    ground (arith, percent_bounds e (positive_bps r.percent_bps), clamp_bounds e r.value)

clamp_pos : (e d : ℕ) → clamp_discount (pos e) (pos d) ≡ pos (min d e)
clamp_pos e d = ground arith

-- A percent voucher takes its basis points of the eligible amount, rounded down, and at most all of
-- it, where the product fits int64.
pub compute_percent :
    (e b : ℕ) (r : Rule)
    → equal_fold r.kind (codes "percent") ≡ true
    → r.percent_bps ≡ some (pos b)
    → e * b < half64
    → compute (pos e) r ≡ pos (min (e * b / 10000) e)
unfolding compute
compute_percent e b r kind bps fits =
    rw (kind, bps)
      (ground (
        arith,
        mul_pos e b,
        wrap64_pos (e * b) fits,
        div_pos (e * b) 10000,
        clamp_pos e (e * b / 10000),
      ))
