-- ===== src/Payment/Store.antt =====
-- The rows that the payment webhook of internal/payment/webhook.go works on, and the generated queries on
-- them (internal/db/gen/payments.sql.go, internal/db/gen/orders_settlement.sql.go). The payments are in
-- the order in which they were created.
use toko_api.Prelude.{
  ℕ, ℤ, pos, ◌≡◌, refl, Option, none, some, List, [], ◌∷◌, ◌==◌, ◌-ℤ◌, ltb_ℤ, if◌then◌else◌, wrap32,
  Text, arith,
}
use toko_api.Order.Store.{Order}
use toko_api.Shipping.Store.{User}
use toko_api.Payment.Status.{Status}

pub record Payment : Type 0 where
  pub id : ℕ
  pub order_id : ℕ
  pub status : Status
  pub provider_payload : Text
  pub amount : Option ℤ

pub record PaymentEvent : Type 0 where
  pub payment_id : ℕ
  pub status : Status
  pub payload : Text

pub record OrderItem : Type 0 where
  pub order_id : ℕ
  pub variant_id : Option ℕ
  pub qty : ℤ
  pub slug : Text

pub record Variant : Type 0 where
  pub id : ℕ
  pub stock : ℤ

pub record Db : Type 0 where
  pub payments : List Payment
  pub events : List PaymentEvent
  pub orders : List Order
  pub items : List OrderItem
  pub variants : List Variant
  pub users : List User

pub data Query : Type 0 where
  begin_tx get_latest_payment_by_order update_payment_status insert_payment_event get_order_by_id
        update_order_status list_order_items_for_stock commit get_user_by_id :
      Query
  -- `DecrementVariantStock` for the item with the number
  decrement_variant_stock : ℕ → Query

abbrev pub or_found : Option Payment → Option Payment → Option Payment
or_found (some p) other = some p
or_found none other = other

-- `GetLatestPaymentByOrder`
unfoldable pub find_payment : ℕ → List Payment → Option Payment
find_payment order [] = none
find_payment order (p ∷ ps) =
    or_found (find_payment order ps) (if p.order_id == order then some p else none)

-- `UpdatePaymentStatus`
unfoldable pub set_payment : ℕ → Status → Text → List Payment → List Payment
set_payment id status payload [] = []
set_payment id status payload (p ∷ ps) =
    (if p.id == id then record p { status = status; provider_payload = payload } else p)
    ∷ set_payment id status payload ps

-- `ListOrderItemsForStock`
unfoldable pub items_of : ℕ → List OrderItem → List OrderItem
items_of order [] = []
items_of order (it ∷ items) =
    let rest = items_of order items in if it.order_id == order then it ∷ rest else rest

abbrev pub at_least_zero : ℤ → ℤ
at_least_zero z = if ltb_ℤ z (pos 0) then pos 0 else z

-- `DecrementVariantStock`: `SET stock = GREATEST(0, stock - $1)`
unfoldable pub decrement : ℤ → ℕ → List Variant → List Variant
decrement qty id [] = []
decrement qty id (v ∷ vs) =
    (if v.id == id then record v { stock = at_least_zero (v.stock -ℤ qty) } else v)
    ∷ decrement qty id vs

abbrev pub take_item : OrderItem → List Variant → List Variant
take_item it vs = elim it.variant_id [ none ↦ vs | some id ↦ decrement (wrap32 it.qty) id vs ]

-- What a later query for the order sees after an update of a payment.
abbrev pub with_payment : Option Payment → ℕ → Status → Text → Option Payment
with_payment none id status payload = none
with_payment (some p) id status payload =
    some (if p.id == id then record p { status = status; provider_payload = payload } else p)

pub find_payment-set_payment :
    (order id : ℕ) (status : Status) (payload : Text) (ps : List Payment)
    → find_payment order (set_payment id status payload ps)
      ≡ with_payment (find_payment order ps) id status payload
unfolding find_payment set_payment
find_payment-set_payment order id status payload [] = refl
find_payment-set_payment order id status payload (p ∷ ps) =
    ground (arith, find_payment-set_payment order id status payload ps)
