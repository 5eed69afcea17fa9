-- ===== src/Pricing/Ideal.antt =====
-- The subtotal in unbounded integers, and when the loop of `Compute` reaches it without wrapping.
use toko_api.Prelude.{
  false, ℤ, pos, negsuc, ◌≡◌, refl, List, [], ◌∷◌, ◌+ℤ◌, ◌*ℤ◌, ◌≤ℤ◌, leb_ℤ, if◌then◌else◌, wrap64,
  Fits64, All, arith, int_laws, *ℤ_nonneg, wrap64_of_Fits64, Bool-cases, inl, inr,
}
use toko_api.Pricing.{Item, subtotal_from}

-- The sum of quantity times price over the lines with a positive quantity.
unfoldable pub ideal_from : ℤ → List Item → ℤ
ideal_from acc [] = acc
ideal_from acc (it ∷ items) =
    ideal_from (if leb_ℤ it.qty (pos 0) then acc else acc +ℤ it.qty *ℤ it.unit_price) items

unfoldable pub ideal_subtotal : List Item → ℤ
ideal_subtotal items = ideal_from (pos 0) items

-- No price is negative.
abbrev pub PricesNonneg : List Item → Type 0
PricesNonneg items = All (λ it. pos 0 ≤ℤ it.unit_price) items

abbrev line : Item → ℤ
line it = it.qty *ℤ it.unit_price

line_nonneg : (it : Item) → pos 0 ≤ℤ it.unit_price → leb_ℤ it.qty (pos 0) ≡ false → pos 0 ≤ℤ line it
line_nonneg it h q = *ℤ_nonneg it.qty it.unit_price (ground arith) h

ideal_from-ge : (acc : ℤ) (items : List Item) → PricesNonneg items → acc ≤ℤ ideal_from acc items
unfolding ideal_from
ideal_from-ge acc [] h = omega arith
ideal_from-ge acc (it ∷ items) h = elim (Bool-cases (leb_ℤ it.qty (pos 0))) [
  | inl skip ↦ rw skip (ideal_from-ge acc items h.1)
  | inr take ↦
      rw take (omega (int_laws, line_nonneg it h.0 take, ideal_from-ge (acc +ℤ line it) items h.1))
]

-- What is between zero and a value of the type is a value of the type.
fits_below : (a b : ℤ) → pos 0 ≤ℤ a → a ≤ℤ b → Fits64 b → Fits64 a
fits_below (pos a) (pos b) h k f = omega arith
fits_below (pos a) (negsuc b) h k f = absurd (omega arith)
fits_below (negsuc a) b h k f = absurd (omega arith)

module _ (it : Item) (acc total : ℤ) (fits : Fits64 total) (price : pos 0 ≤ℤ it.unit_price)
    (nonneg : pos 0 ≤ℤ acc) (take : leb_ℤ it.qty (pos 0) ≡ false)
    (below : acc +ℤ line it ≤ℤ total) where
  line_fits : Fits64 (line it)
  line_fits =
      fits_below (line it) total (line_nonneg it price take)
        (omega (int_laws, line_nonneg it price take)) fits

  sum_fits : Fits64 (acc +ℤ line it)
  sum_fits =
      fits_below (acc +ℤ line it) total (omega (int_laws, line_nonneg it price take)) below fits

  step_exact : wrap64 (acc +ℤ wrap64 (line it)) ≡ acc +ℤ line it
  step_exact =
      rw (wrap64_of_Fits64 (line it) line_fits) (wrap64_of_Fits64 (acc +ℤ line it) sum_fits)

pub subtotal_from-eq-ideal_from :
    (acc : ℤ) (items : List Item)
    → pos 0 ≤ℤ acc
    → PricesNonneg items
    → Fits64 (ideal_from acc items)
    → subtotal_from acc items ≡ ideal_from acc items
unfolding ideal_from subtotal_from
subtotal_from-eq-ideal_from acc [] p h f = refl
subtotal_from-eq-ideal_from acc (it ∷ items) p h f = elim (Bool-cases (leb_ℤ it.qty (pos 0))) [
  | inl skip ↦ rw skip (subtotal_from-eq-ideal_from acc items p h.1 (rw skip at f))
  | inr take ↦
      let f' : Fits64 (ideal_from (acc +ℤ line it) items) = rw take at f in
      let p' : pos 0 ≤ℤ acc +ℤ line it = omega (int_laws, line_nonneg it h.0 take) in
      let e =
        step_exact it acc (ideal_from (acc +ℤ line it) items) f' h.0 p take
          (ideal_from-ge (acc +ℤ line it) items h.1) in
      rw (take, e) (subtotal_from-eq-ideal_from (acc +ℤ line it) items p' h.1 f')
]
