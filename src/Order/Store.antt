-- ===== src/Order/Store.antt =====
-- The orders table, and the queries of internal/db/gen that read and change the status of an order.
-- Only the columns that the modelled code reads are kept.
use toko_api.Prelude.{
  ℕ, ℤ, Bool, false, ◌&&◌, Option, none, some, List, [], ◌∷◌, ◌==◌, if◌then◌else◌, Text, ◌≡◌, refl,
  arith,
}
use toko_api.Order.Status.{Status, is_update_allowed}

pub record Order : Type 0 where
  pub id : ℕ
  pub user_id : Option ℕ
  pub status : Status
  pub pricing_discount : ℤ
  pub pricing_total : ℤ
  pub applied_voucher_code : Option Text

-- `WHERE id = $1`
unfoldable pub find_order : ℕ → List Order → Option Order
find_order id [] = none
find_order id (o ∷ os) = if o.id == id then some o else find_order id os

abbrev belongs_to : ℕ → Option ℕ → Bool
belongs_to user none = false
belongs_to user (some u) = u == user

-- `WHERE id = $1 AND user_id = $2`
unfoldable pub find_order_for_user : ℕ → ℕ → List Order → Option Order
find_order_for_user id user [] = none
find_order_for_user id user (o ∷ os) =
    if o.id == id && belongs_to user o.user_id then some o else find_order_for_user id user os

-- `UpdateOrderStatus`
unfoldable pub set_status : ℕ → Status → List Order → List Order
set_status id status [] = []
set_status id status (o ∷ os) =
    (if o.id == id then record o { status = status } else o) ∷ set_status id status os

-- `UpdateOrderStatusIfAllowed`: the new table, or `none` where no row fits the `WHERE` clause.
unfoldable pub set_status_if_allowed : ℕ → Status → List Order → Option (List Order)
set_status_if_allowed id status orders = elim (find_order id orders) [
  | none ↦ none
  | some o ↦ if is_update_allowed o.status status then some (set_status id status orders) else none
]

-- What the other queries see after an update.
abbrev pub with_status : Option Order → Bool → Status → Option Order
with_status none b status = none
with_status (some o) b status = some (if b then record o { status = status } else o)

pub find_order-set_status :
    (id j : ℕ) (status : Status) (orders : List Order)
    → find_order j (set_status id status orders)
      ≡ with_status (find_order j orders) (j == id) status
unfolding find_order set_status
find_order-set_status id j status [] = refl
find_order-set_status id j status (o ∷ os) = ground (arith, find_order-set_status id j status os)
