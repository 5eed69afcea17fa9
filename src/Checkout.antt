-- ===== src/Checkout.antt =====
-- internal/checkout/service.go: `Create` turns a cart into an order, in one transaction. The texts of the
-- JSON columns are those that `json_addr` and `json_ship` (encoding/json) make, and `email_of` is the
-- address that `GetUserByID` finds, empty where it fails.
mod Placed
mod Figures
mod Examples
use toko_api.Prelude.{
  ℕ, suc, ℤ, pos, Bool, true, false, not, ◌&&◌, ◌||◌, Option, none, some, List, [], ◌∷◌, ◌++◌,
  ltb_ℤ, if◌then◌else◌, Text, is_empty, is_nonempty, is_some, map, ◌⊎◌, inl, inr,
}
use toko_api.Pricing
use toko_api.Pricing.{Summary, compute, at_least_zero}
use toko_api.Order.Status.{Status, pending_payment}
use toko_api.Cart
use toko_api.Cart.Store.{
  CartItem, get_cart_by_id, list_cart_items, ok, err, find_cart, items_of, one,
}
use toko_api.Cart.Service as CartService
use toko_api.Cart.Evaluate.{uuid_equal, evaluate_cart}

pub record Addr : Type 0 where
  pub receiver_name : Text
  pub phone : Text
  pub country : Text
  pub province : Text
  pub city : Text
  pub postal_code : Text
  pub address_line1 : Text
  pub address_line2 : Text

pub record ShipOpt : Type 0 where
  pub courier : Text
  pub service : Text
  pub price : ℤ
  pub etd : Text

pub record Input : Type 0 where
  pub cart_id : Text
  pub address : Addr
  pub shipping : ShipOpt
  pub notes : Option Text
  pub payment_channel : Option Text

-- a row of orders, as `CreateOrder` writes it
pub record PlacedOrder : Type 0 where
  pub id : ℕ
  pub user_id : ℕ
  pub cart_id : ℕ
  pub status : Status
  pub currency : Text
  pub pricing : Summary
  pub shipping_address : Text
  pub shipping_option : Text
  pub notes : Option Text
  pub applied_voucher_code : Option Text
  pub tenant_id : ℕ

pub record OrderItem : Type 0 where
  pub order_id : ℕ
  pub product_id : ℕ
  pub variant_id : Option ℕ
  pub title : Text
  pub slug : Text
  pub qty : ℤ
  pub unit_price : ℤ
  pub subtotal : ℤ

-- an `order.created` event
pub record Created : Type 0 where
  pub order_id : ℕ
  pub user_id : Text
  pub total : ℤ
  pub email : Option Text

pub record State : Type 0 where
  pub shop : Cart.Store.Tables
  pub orders : List PlacedOrder
  pub order_items : List OrderItem
  pub created : List Created
  pub next_order : ℕ

-- The state as the queries of the open transaction see it, and as it is committed: what is left where the
-- deferred `Rollback` ends the transaction.
pub record Tx : Type 0 where
  pub open_state : State
  pub committed : State

-- `nth_item n` is the insertion of the order's item number `n`.
pub data Step : Type 0 where
  begin create_order commit emit : Step
  nth_item : ℕ → Step

pub data Failure : Type 0 where
  user_required cart_required tenant_required invalid_id not_owner cart_empty : Failure
  query : Cart.Store.Error → Failure
  step : Step → Failure

pub record Service : Type 0 where
  pub parse_uuid : Text → Option ℕ
  pub cart_svc : Option CartService.Service
  pub tax_bps : ℤ
  pub currency : Text
  pub has_events : Bool
  pub json_addr : Addr → Text
  pub json_ship : ShipOpt → Text
  pub email_of : ℕ → Text

abbrev pub priced_item : CartItem → Pricing.Item
priced_item it = record { qty = it.qty; unit_price = it.unit_price }

-- `CreateOrderItem` with the columns of the cart's line
abbrev pub copy_line : ℕ → CartItem → OrderItem
copy_line order it = record {
  order_id = order;
  product_id = it.product_id;
  variant_id = it.variant_id;
  title = it.title;
  slug = it.slug;
  qty = it.qty;
  unit_price = it.unit_price;
  subtotal = it.subtotal;
}

module _ (s : Service) (fault : Cart.Store.Faults) (fails : Step → Bool) where
  -- the discount of the voucher with the code, by the cart service
  abbrev pub evaluated : Option CartService.Service → Cart.Store.Tables → ℕ → Text → ℤ
  evaluated none db cart code = pos 0
  evaluated (some svc) db cart code = elim (evaluate_cart svc fault db cart code) [
    | ok (discount, v) ↦ discount
    | err e ↦ pos 0
  ]

  -- The discount of the voucher applied: zero without one, or where it is refused.
  unfoldable pub discount_for : Cart.Store.Tables → ℕ → Option Text → ℤ
  discount_for db cart none = pos 0
  discount_for db cart (some code) =
      if is_empty code then pos 0 else evaluated s.cart_svc db cart code

  -- the loop over the items, from the number `n`
  unfoldable pub insert_items : ℕ → ℕ → List CartItem → Tx → Option Step × Tx
  insert_items order n [] tx = (none, tx)
  insert_items order n (it ∷ items) tx =
      let rows = tx.open_state.order_items ++ copy_line order it ∷ [] in
      if fails (nth_item n)
      then (some (nth_item n), tx)
      else insert_items order (suc n) items
          (record tx { open_state = record tx.open_state { order_items = rows } })

  abbrev pub email_for : Text → Option Text
  email_for email = if is_empty email then none else some email

  -- `Emit` after the commit; its error is dropped.
  abbrev pub announce : PlacedOrder → Text → State → State
  announce o user st = if not s.has_events || fails emit then st else (record st {
    created =
        st.created
        ++ record {
          order_id = o.id;
          user_id = user;
          total = o.pricing.total;
          email = email_for (s.email_of o.user_id);
        }
          ∷ [];
  })

  abbrev pub with_order : PlacedOrder → State → State
  with_order o st = record st { orders = st.orders ++ o ∷ []; next_order = suc st.next_order }

  -- the writes of the transaction up to its commit, and the step that fails
  unfoldable pub write_order : PlacedOrder → List CartItem → Tx → Option Step × Tx
  unfolding insert_items
  write_order o items tx =
      if fails create_order
      then (some create_order, tx)
      else (let (failed, tx') =
            insert_items o.id 0 items (record tx { open_state = with_order o tx.open_state }) in
          elim failed [
            | some f ↦ (some f, tx')
            | none ↦
                if fails commit
                then (some commit, tx')
                else (none, record tx' { committed = tx'.open_state })
          ])

  unfoldable pub order_for : ℕ → Cart.Store.Cart → ℕ → List CartItem → Input → State → PlacedOrder
  unfolding discount_for
  order_for tenant cart user items input st = record {
    id = st.next_order;
    user_id = user;
    cart_id = cart.id;
    status = pending_payment;
    currency = s.currency;
    pricing =
        compute (map priced_item items) (discount_for st.shop cart.id cart.applied_voucher_code)
          s.tax_bps (at_least_zero input.shipping.price);
    shipping_address = s.json_addr input.address;
    shipping_option = s.json_ship input.shipping;
    notes = input.notes;
    applied_voucher_code = cart.applied_voucher_code;
    tenant_id = tenant;
  }

  -- `Create` for the row of the cart
  unfoldable pub place : ℕ → ℕ → Text → Cart.Store.Cart → Input → State → (Failure ⊎ ℕ) × State
  unfolding order_for write_order
  place tenant user user_id cart input st =
      if is_some cart.user_id && not (uuid_equal cart.user_id (some user))
      then (inl not_owner, st)
      else if fault list_cart_items
      then (inl (query (Cart.Store.database list_cart_items)), st)
      else (let items = items_of cart.id st.shop.items in
          if not (is_nonempty items)
          then (inl cart_empty, st)
          else (let o = order_for tenant cart user items input st in
              let (failed, tx) = write_order o items (record { open_state = st; committed = st }) in
              elim failed [
                | some f ↦ (inl (step f), tx.committed)
                | none ↦ (inr o.id, announce o user_id tx.committed)
              ]))

  -- `Create` for a user, a cart's id and a tenant that are given
  unfoldable pub create_for : Text → Text → Input → State → (Failure ⊎ ℕ) × State
  unfolding place
  create_for tenant_text user_text input st = elim (s.parse_uuid tenant_text) [
    | none ↦ (inl invalid_id, st)
    | some tid ↦ elim (s.parse_uuid input.cart_id) [
      | none ↦ (inl invalid_id, st)
      | some cid ↦ elim (s.parse_uuid user_text) [
        | none ↦ (inl invalid_id, st)
        | some uid ↦
            if fails begin
            then (inl (step begin), st)
            else elim (one fault get_cart_by_id (find_cart cid st.shop.carts)) [
              | err e ↦ (inl (query e), st)
              | ok cart ↦ place tid uid user_text cart input st
            ]
      ]
    ]
  ]

  -- `Create`; `tenant` is that of the context.
  unfoldable pub create : Option Text → Option Text → Input → State → (Failure ⊎ ℕ) × State
  unfolding create_for
  create tenant user_id input st = elim (CartService.present user_id) [
    | none ↦ (inl user_required, st)
    | some user_text ↦
        if is_empty input.cart_id
        then (inl cart_required, st)
        else elim (CartService.present tenant) [
          | none ↦ (inl tenant_required, st)
          | some tenant_text ↦ create_for tenant_text user_text input st
        ]
  ]
