-- ===== src/Pricing/Examples.antt =====
-- The pricing theorems at concrete carts.
use toko_api.Prelude.{pos, negsuc, ◌≡◌, refl, List, [], ◌∷◌, arith, ◌+ℤ◌, ◌*ℤ◌}
use toko_api.Pricing.{Item, compute}
use toko_api.Pricing.Ideal.{ideal_from, ideal_subtotal}
use toko_api.Pricing.Totals.{ideal_summary, compute_exact}

abbrev basket : List Item
basket =
    record { qty = pos 2; unit_price = pos 15000 }
    ∷ record { qty = negsuc 0; unit_price = pos 99 }
    ∷ record { qty = pos 1; unit_price = pos 5000 }
    ∷ []

basket_sum : ideal_subtotal basket ≡ pos 35000
unfolding ideal_subtotal ideal_from ◌+ℤ◌ ◌*ℤ◌
basket_sum = refl

compute_exact_example :
    compute basket (pos 5000) (pos 1100) (pos 9000) ≡ ideal_summary 35000 5000 1100 9000
compute_exact_example =
    compute_exact basket 35000 5000 1100 9000 (omega arith) basket_sum (omega arith) (omega arith)
