-- ===== src/Pricing.antt =====
-- internal/pricing/engine.go: the totals of a cart in minor units of money.
pub mod Ideal
pub mod Totals
mod Examples
use toko_api.Prelude.{
  ℤ, pos, List, [], ◌∷◌, ◌+ℤ◌, ◌-ℤ◌, ◌*ℤ◌, ◌/ℤ◌, ltb_ℤ, leb_ℤ, if◌then◌else◌, wrap64,
}

pub record Item : Type 0 where
  pub qty : ℤ
  pub unit_price : ℤ

pub record Summary : Type 0 where
  pub subtotal : ℤ
  pub discount : ℤ
  pub tax : ℤ
  pub shipping : ℤ
  pub total : ℤ

-- the loop over the items, from the subtotal so far
unfoldable pub subtotal_from : ℤ → List Item → ℤ
subtotal_from acc [] = acc
subtotal_from acc (it ∷ items) =
    subtotal_from
      (if leb_ℤ it.qty (pos 0) then acc else wrap64 (acc +ℤ wrap64 (it.qty *ℤ it.unit_price))) items

-- `if voucher > subtotal { voucher = subtotal }`
abbrev pub capped : ℤ → ℤ → ℤ
capped voucher subtotal = if ltb_ℤ subtotal voucher then subtotal else voucher

-- `if taxable < 0 { taxable = 0 }`
abbrev pub at_least_zero : ℤ → ℤ
at_least_zero z = if ltb_ℤ z (pos 0) then pos 0 else z

-- the figures that follow from the subtotal
unfoldable pub summarise : ℤ → ℤ → ℤ → ℤ → Summary
summarise subtotal voucher tax_bps shipping =
    let discount = capped voucher subtotal in
    let taxable = at_least_zero (wrap64 (subtotal -ℤ discount)) in
    let tax = wrap64 (taxable *ℤ tax_bps) /ℤ 10000 in
    record {
      subtotal = subtotal;
      discount = discount;
      tax = tax;
      shipping = shipping;
      total = wrap64 (wrap64 (taxable +ℤ tax) +ℤ shipping);
    }

unfoldable pub compute : List Item → ℤ → ℤ → ℤ → Summary
unfolding subtotal_from summarise
compute items voucher tax_bps shipping =
    summarise (subtotal_from (pos 0) items) voucher tax_bps shipping
