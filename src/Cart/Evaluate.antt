-- ===== src/Cart/Evaluate.antt =====
-- internal/cart/service.go: what a voucher is worth for a cart (`evaluateVoucher`), and `ApplyVoucher`.
use toko_api.Prelude.{
  ℕ, ℤ, pos, Bool, true, false, not, ◌&&◌, ◌||◌, Option, none, some, List, [], ◌∷◌, ◌==◌, ◌+ℤ◌,
  ◌*ℤ◌, ◌/ℤ◌, ltb_ℤ, leb_ℤ, if◌then◌else◌, Text, codes, text_eq, is_empty, is_nonempty, any, wrap32,
  wrap64,
}
use toko_api.Voucher.Store.{Voucher, find_voucher, count_usages}
use toko_api.Voucher.Engine.{is_early, is_late, clamp_discount}
use toko_api.Cart.Store.{
  Cart, CartItem, Product, Tables, get_cart_by_id, list_cart_items, get_product_for_cart,
  get_voucher_by_code, count_voucher_usage_by_user, Faults, Error, invalid_input, not_found,
  unparsed, no_rows, database, Result, ok, err, one, find_cart, find_product, items_of,
}
use toko_api.Cart.Service.{Service, finish, write_voucher}

-- `uuidEqual`
abbrev pub uuid_equal : Option ℕ → Option ℕ → Bool
uuid_equal (some a) (some b) = a == b
uuid_equal _ _ = false

-- one scope of `itemEligible`; for a product id that is not valid, every comparison fails.
abbrev pub in_scope : List (Option ℕ) → Option ℕ → Bool
in_scope ids id = any (λ el. uuid_equal el id) ids

abbrev pub has_scope : Voucher → Bool
has_scope v = is_nonempty v.product_ids || is_nonempty v.category_ids || is_nonempty v.brand_ids

-- `itemEligible` with the row of the product
abbrev pub matches : Voucher → CartItem → Product → Bool
matches v it p =
    in_scope v.product_ids (some it.product_id)
    || in_scope v.category_ids p.category_id
    || in_scope v.brand_ids p.brand_id

abbrev pub sum_from : ℤ → List CartItem → ℤ
sum_from acc [] = acc
sum_from acc (it ∷ items) = sum_from (wrap64 (acc +ℤ it.subtotal)) items

-- `voucher.UsageLimit.Valid && voucher.UsedCount >= voucher.UsageLimit.Int32`
abbrev pub is_exhausted : ℤ → Option ℤ → Bool
is_exhausted used none = false
is_exhausted used (some limit) = leb_ℤ limit used

-- the percentage, where it is positive
abbrev pub valid_bps : Option ℤ → Result ℤ
valid_bps none = err invalid_input
valid_bps (some bps) = if leb_ℤ bps (pos 0) then err invalid_input else ok bps

-- the switch on the kind, and the two clamps after it
unfoldable pub discount_of : Voucher → ℤ → Result ℤ
discount_of v eligible =
    if text_eq v.kind (codes "percent")
    then elim (valid_bps v.percent_bps) [
      | err e ↦ err e
      | ok bps ↦ ok (clamp_discount eligible (wrap64 (eligible *ℤ bps) /ℤ 10000))
    ]
    else ok (clamp_discount eligible v.value)

-- the per-user limit, as an int32
abbrev pub user_limit : ℤ → Option ℤ → ℤ
user_limit default none = wrap32 default
user_limit default (some limit) = limit

module _ (fault : Faults) where
  -- `itemEligible`
  unfoldable pub item_eligible : List Product → Voucher → CartItem → Result Bool
  item_eligible products v it =
      if not (has_scope v)
      then ok true
      else elim (one fault get_product_for_cart (find_product it.product_id products)) [
        | err e ↦ err e
        | ok p ↦ ok (matches v it p)
      ]

  -- the loop over the items of a scoped voucher, from the amount so far
  unfoldable pub eligible_from : List Product → Voucher → ℤ → List CartItem → Result ℤ
  unfolding item_eligible
  eligible_from products v acc [] = ok acc
  eligible_from products v acc (it ∷ items) = elim (item_eligible products v it) [
    | err e ↦ err e
    | ok allowed ↦
        eligible_from products v (if allowed then wrap64 (acc +ℤ it.subtotal) else acc) items
  ]

  -- the amount that the voucher applies to
  unfoldable pub eligible_of : List Product → Voucher → ℤ → List CartItem → Result ℤ
  unfolding eligible_from
  eligible_of products v subtotal items =
      if not (has_scope v) then ok subtotal else elim (eligible_from products v (pos 0) items) [
        | err e ↦ err e
        | ok eligible ↦
            if leb_ℤ eligible (pos 0) && leb_ℤ (pos 0) eligible
            then err invalid_input
            else ok eligible
      ]

  -- The user has used the voucher as often as allowed.
  unfoldable pub over_user_limit : Tables → Voucher → ℤ → Option ℕ → Result Bool
  over_user_limit db v limit none = ok false
  over_user_limit db v limit (some user) =
      if not (ltb_ℤ (pos 0) limit)
      then ok false
      else if fault count_voucher_usage_by_user
      then err (database count_voucher_usage_by_user)
      else ok (leb_ℤ limit (wrap32 (pos (count_usages v.id user db.usages))))

module _ (s : Service) (fault : Faults) where
  -- the checks before the amounts: `ok` where the voucher may be used
  unfoldable pub check_voucher : Tables → Cart → ℤ → Voucher → Option Error
  unfolding over_user_limit
  check_voucher db cart subtotal v =
      if is_early s.now v.valid_from
      then some invalid_input
      else if is_late s.now v.valid_to
      then some invalid_input
      else if is_exhausted v.used_count v.usage_limit
      then some invalid_input
      else elim (over_user_limit fault db v
          (user_limit s.voucher_per_user_limit_default v.per_user_limit) cart.user_id) [
            | err e ↦ some e
            | ok true ↦ some invalid_input
            | ok false ↦ if ltb_ℤ subtotal v.min_spend then some invalid_input else none
          ]

  -- `evaluateVoucher` from the rows of the cart and of the voucher
  unfoldable pub evaluate_row : Tables → Cart → List CartItem → Voucher → Result (ℤ × Voucher)
  unfolding check_voucher eligible_of discount_of
  evaluate_row db cart items v =
      let subtotal = sum_from (pos 0) items in
      elim (check_voucher db cart subtotal v) [
        | some e ↦ err e
        | none ↦ elim (eligible_of fault db.products v subtotal items) [
          | err e ↦ err e
          | ok eligible ↦ elim (discount_of v eligible) [
            | err e ↦ err e
            | ok discount ↦ ok (discount, v)
          ]
        ]
      ]

  -- `evaluateVoucher`, with `loadCartItems`
  unfoldable pub evaluate_voucher : Tables → Cart → Text → Result (ℤ × Voucher)
  unfolding evaluate_row
  evaluate_voucher db cart code =
      if is_empty code
      then err invalid_input
      else if fault list_cart_items
      then err (database list_cart_items)
      else (let items = items_of cart.id db.items in
          if not (is_nonempty items)
          then err invalid_input
          else elim (one fault get_voucher_by_code (find_voucher code db.vouchers)) [
            | err e ↦ err e
            | ok v ↦ evaluate_row db cart items v
          ])

  -- `EvaluateVoucher`
  unfoldable pub evaluate_cart : Tables → ℕ → Text → Result (ℤ × Voucher)
  unfolding evaluate_voucher
  evaluate_cart db cart_id code = elim (one fault get_cart_by_id (find_cart cart_id db.carts)) [
    | err e ↦ err e
    | ok cart ↦ evaluate_voucher db cart code
  ]

  -- `ApplyVoucher` for the cart found: the discount, or the error, and the tables
  unfoldable pub apply_to : Cart → Text → Tables → Result ℤ × Tables
  unfolding evaluate_voucher write_voucher
  apply_to cart code db = elim (evaluate_voucher db cart code) [
    | err e ↦ (err e, db)
    | ok (discount, v) ↦ elim (write_voucher s fault cart.id (some v.code) db) [
      | err e ↦ (err e, db)
      | ok db' ↦ (ok discount, (finish s fault cart.id db (ok db')).1)
    ]
  ]

  -- `ApplyVoucher`
  unfoldable pub apply_voucher : Text → Text → Tables → Result ℤ × Tables
  unfolding apply_to
  apply_voucher cart_id code db =
      if is_empty code then (err invalid_input, db) else elim (s.parse_uuid cart_id) [
        | none ↦ (err unparsed, db)
        | some id ↦ elim (one fault get_cart_by_id (find_cart id db.carts)) [
          | err no_rows ↦ (err not_found, db)
          | err e ↦ (err e, db)
          | ok cart ↦ apply_to cart code db
        ]
      ]
