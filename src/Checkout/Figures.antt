-- ===== src/Checkout/Figures.antt =====
-- The figures of an order that internal/checkout/service.go makes of a cart.
use toko_api.Prelude.{
  ℕ, ℤ, pos, ◌≤ℤ◌, ◌+ℤ◌, ◌*ℤ◌, ◌≡◌, refl, ◌∙◌, ap, inl, inr, Bool-cases, Option, none, some, List,
  [], ◌∷◌, map, All, leb_ℤ, if◌then◌else◌, Text, wrap64, arith, false, is_empty, Bool, ◌++◌,
}
use toko_api.Pricing.{Summary, compute, subtotal_from, summarise, at_least_zero}
use toko_api.Voucher.Store.{Voucher}
use toko_api.Voucher.Engine.{clamp_discount}
use toko_api.Cart.Service as CartService
use toko_api.Cart.Store.{
  CartItem, Cart, Tables, Faults, ok, Result-cases, items_of, one, get_cart_by_id, find_cart,
}
use toko_api.Cart.Evaluate.{evaluate_cart, discount_of}
use toko_api.Cart.Priced.{IsPriced, IsSound, items_of-IsPriced}
use toko_api.Cart.Agreement.{evaluate_voucher-IsAccepted}
use toko_api.Checkout.{
  Input, PlacedOrder, State, Step, Service, OrderItem, priced_item, copy_line, discount_for, create,
  evaluated,
}
use toko_api.Checkout.Placed.{IsPlaced, create-places}

-- The subtotals of the order's lines, summed in int64.
unfoldable pub sum_lines : ℤ → List OrderItem → ℤ
sum_lines acc [] = acc
sum_lines acc (l ∷ lines) = sum_lines (wrap64 (acc +ℤ l.subtotal)) lines

line_amount :
    (it : CartItem) (acc : ℤ)
    → IsPriced it
    → (if leb_ℤ it.qty (pos 0) then acc else wrap64 (acc +ℤ wrap64 (it.qty *ℤ it.unit_price)))
      ≡ wrap64 (acc +ℤ it.subtotal)
line_amount it acc p =
    let positive : leb_ℤ it.qty (pos 0) ≡ false = ground (arith, p.positive) in
    rw (positive, p.product) refl

subtotal_from-sum :
    (order : ℕ) (items : List CartItem) (acc : ℤ)
    → All IsPriced items
    → subtotal_from acc (map priced_item items) ≡ sum_lines acc (map (copy_line order) items)
unfolding sum_lines subtotal_from
subtotal_from-sum order [] acc a = refl
subtotal_from-sum order (it ∷ items) acc a =
    ap (λ z. subtotal_from z (map priced_item items)) (line_amount it acc a.0)
    ∙ subtotal_from-sum order items (wrap64 (acc +ℤ it.subtotal)) a.1

discount-le : (t v b sh : ℤ) → (summarise t v b sh).discount ≤ℤ t
unfolding summarise
discount-le t v b sh = ground arith

summarise-subtotal : (t v b sh : ℤ) → (summarise t v b sh).subtotal ≡ t
unfolding summarise
summarise-subtotal t v b sh = refl

discount-nonneg : (t v b sh : ℤ) → pos 0 ≤ℤ t → pos 0 ≤ℤ v → pos 0 ≤ℤ (summarise t v b sh).discount
unfolding summarise
discount-nonneg t v b sh h k = ground arith

clamp_discount-nonneg : (e d : ℤ) → pos 0 ≤ℤ clamp_discount e d
clamp_discount-nonneg e d = ground arith

discount_of-nonneg : (v : Voucher) (e d : ℤ) → discount_of v e ≡ ok d → pos 0 ≤ℤ d
unfolding discount_of
discount_of-nonneg v e d h = ground (arith, clamp_discount-nonneg e v.value)

evaluate_cart-nonneg :
    (svc : CartService.Service) (fault : Faults) (db : Tables) (cart : ℕ) (code : Text) (d : ℤ)
    (v : Voucher)
    → evaluate_cart svc fault db cart code ≡ ok (d, v)
    → pos 0 ≤ℤ d
unfolding evaluate_cart
evaluate_cart-nonneg svc fault db cart code d v h =
    elim (Result-cases (one fault get_cart_by_id (find_cart cart db.carts))) [
      | inl (x, e) ↦ ground arith
      | inr (row, e) ↦
          let a = evaluate_voucher-IsAccepted svc fault db row code d v (ground arith) in
          discount_of-nonneg v a.eligible d a.discount
    ]

module _ (s : Service) (fault : Faults) (fails : Step → Bool) where
  evaluated-nonneg :
      (svc : Option CartService.Service) (db : Tables) (cart : ℕ) (code : Text)
      → pos 0 ≤ℤ evaluated s fault fails svc db cart code
  evaluated-nonneg none db cart code = omega arith
  evaluated-nonneg (some svc) db cart code =
      elim (Result-cases (evaluate_cart svc fault db cart code)) [
        | inl (x, e) ↦ rw (e, evaluated) (omega arith)
        | inr ((d, v), e) ↦ rw (e, evaluated) (evaluate_cart-nonneg svc fault db cart code d v e)
      ]

  discount_for-nonneg :
      (db : Tables) (cart : ℕ) (code : Option Text)
      → pos 0 ≤ℤ discount_for s fault fails db cart code
  unfolding discount_for
  discount_for-nonneg db cart none = omega arith
  discount_for-nonneg db cart (some code) = elim (Bool-cases (is_empty code)) [
    | inl e ↦ rw (e, discount_for) (omega arith)
    | inr e ↦ rw (e, discount_for) (evaluated-nonneg s.cart_svc db cart code)
  ]

  -- The lines that a checkout adds, and an order whose figures fit them.
  pub record AddsUp (o : PlacedOrder) (lines : List OrderItem) (st st' : State) : Type 0 where
    pub order : st'.orders ≡ st.orders ++ o ∷ []
    pub items : st'.order_items ≡ st.order_items ++ lines
    pub belongs : All (λ (l : OrderItem). l.order_id ≡ o.id) lines
    pub subtotal : o.pricing.subtotal ≡ sum_lines (pos 0) lines
    pub discount_le : o.pricing.discount ≤ℤ o.pricing.subtotal
    pub discount_ge : pos 0 ≤ℤ o.pricing.subtotal → pos 0 ≤ℤ o.pricing.discount

  copies-belong :
      (order : ℕ) (items : List CartItem)
      → All (λ (l : OrderItem). l.order_id ≡ order) (map (copy_line order) items)
  copies-belong order [] = tt
  copies-belong order (it ∷ items) = (refl, copies-belong order items)

  figures-AddsUp :
      (cart : Cart) (input : Input) (o : PlacedOrder) (st st' : State)
      → IsSound st.shop
      → IsPlaced s fault fails cart input o st st'
      → AddsUp o (map (copy_line o.id) (items_of cart.id st.shop.items)) st st'
  unfolding compute
  figures-AddsUp cart input o st st' d p =
      let lines = items_of cart.id st.shop.items in
      let total = subtotal_from (pos 0) (map priced_item lines) in
      let off = discount_for s fault fails st.shop cart.id cart.applied_voucher_code in
      let ship = at_least_zero input.shipping.price in
      record {
        order = p.order;
        items = p.lines;
        belongs = copies-belong o.id lines;
        subtotal =
            ap (λ (y : Summary). y.subtotal) p.figures
            ∙ summarise-subtotal total off s.tax_bps ship
            ∙ subtotal_from-sum o.id lines (pos 0)
                (items_of-IsPriced cart.id st.shop.items d.priced);
        discount_le =
            rw (p.figures, summarise-subtotal total off s.tax_bps ship)
              (discount-le total off s.tax_bps ship);
        discount_ge = rw p.figures λ h.
            discount-nonneg total off s.tax_bps ship h
              (discount_for-nonneg st.shop cart.id cart.applied_voucher_code);
      }

-- An order placed from a sound cart adds up: its subtotal is the int64 sum of the subtotals of the lines
-- added with it, all of which name it, and its discount is at most the subtotal and, where that is not
-- negative, not negative.
pub create-AddsUp :
    (s : Service) (fault : Faults) (fails : Step → Bool) (tenant user_id : Option Text)
    (input : Input) (st : State) (id : ℕ)
    → IsSound st.shop
    → let (r, st') = create s fault fails tenant user_id input st in
      r ≡ inr id
      → (o : PlacedOrder) × (lines : List OrderItem) × (o.id ≡ id)
        × AddsUp s fault fails o lines st st'
create-AddsUp s fault fails tenant user_id input st id d h =
    let (refused, placed) = create-places s fault fails tenant user_id input st in
    let (cart, o, same, named, p) = placed id h in
    let st' = (create s fault fails tenant user_id input st).1 in
    (
      o,
      map (copy_line o.id) (items_of cart.id st.shop.items),
      same,
      figures-AddsUp s fault fails cart input o st st' d p,
    )
