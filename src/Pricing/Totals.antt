-- ===== src/Pricing/Totals.antt =====
-- What `Compute` of internal/pricing/engine.go returns.
use Prim.Native.Nat.{min}
use toko_api.Prelude.{
  ℕ, pos, ◌≡◌, ◌+◌, ◌*◌, ◌/◌, ◌-◌, ◌≤◌, ◌<◌, List, Fits64, arith, half64, wrap64_pos, sub_pos,
  add_pos, mul_pos, div_pos,
}
use toko_api.Pricing.{Item, Summary, summarise, compute, capped, at_least_zero}
use toko_api.Pricing.Ideal.{ideal_subtotal, PricesNonneg, subtotal_from-eq-ideal_from}

-- The figures in natural numbers: the discount stops at the subtotal, and tax is on what is left.
unfoldable pub ideal_summary : ℕ → ℕ → ℕ → ℕ → Summary
ideal_summary t v b sh =
    let d = min v t in
    let tax = (t - d) * b / 10000 in
    record {
      subtotal = pos t;
      discount = pos d;
      tax = pos tax;
      shipping = pos sh;
      total = pos (t - d + tax + sh);
    }

capped_pos : (v t : ℕ) → capped (pos v) (pos t) ≡ pos (min v t)
capped_pos v t = ground arith

at_least_zero_pos : (a : ℕ) → at_least_zero (pos a) ≡ pos a
at_least_zero_pos a = ground arith

part_le : (t d b : ℕ) → (t - d) * b ≤ t * b
part_le t d b = grind arith

div_mono : (a b : ℕ) → a ≤ b → a / 10000 ≤ b / 10000
div_mono a b h = omega arith

module _ (t v b sh : ℕ) (taxed : t * b < half64) (room : t + t * b / 10000 + sh < half64) where
  summarise_exact : summarise (pos t) (pos v) (pos b) (pos sh) ≡ ideal_summary t v b sh
  unfolding summarise ideal_summary
  summarise_exact =
      let d = min v t in
      let le = part_le t d b in
      let tax = (t - d) * b / 10000 in
      let less = div_mono ((t - d) * b) (t * b) le in
      rw (
        capped_pos v t,
        sub_pos t d (omega arith),
        wrap64_pos (t - d) (omega arith),
        at_least_zero_pos (t - d),
        mul_pos (t - d) b,
        wrap64_pos ((t - d) * b) (omega arith),
        div_pos ((t - d) * b) 10000,
        add_pos (t - d) tax,
        wrap64_pos (t - d + tax) (omega arith),
        add_pos (t - d + tax) sh,
        wrap64_pos (t - d + tax + sh) (omega arith),
      )

-- Prices are not negative, the subtotal is `t`, and neither `t` times the tax rate nor the largest
-- possible total leaves int64: then `Compute` returns the figures of `ideal_summary`.
pub compute_exact :
    (items : List Item) (t v b sh : ℕ)
    → PricesNonneg items
    → ideal_subtotal items ≡ pos t
    → t * b < half64
    → t + t * b / 10000 + sh < half64
    → compute items (pos v) (pos b) (pos sh) ≡ ideal_summary t v b sh
unfolding compute ideal_subtotal
compute_exact items t v b sh prices sum taxed room =
    let fits : Fits64 (pos t) = (omega arith, omega arith) in
    let loop = subtotal_from-eq-ideal_from (pos 0) items (omega arith) prices (rw sum fits) in
    rw (loop, sum) (summarise_exact t v b sh taxed room)
