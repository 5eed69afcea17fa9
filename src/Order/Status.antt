-- ===== src/Order/Status.antt =====
-- The order statuses of internal/db/gen/models.go, their rank (internal/order/admin_handlers.go and
-- internal/shipping/service.go have the same function), and the transitions of
-- `UpdateOrderStatusIfAllowed` in internal/db/gen/orders_status.sql.go.
use toko_api.Prelude.{ℤ, pos, negsuc, Bool, true, false, if◌then◌else◌, Text, codes, text_eq}

-- `other` is any text that is none of the constants.
pub data Status : Type 0 where
  pending_payment paid packed shipped out_for_delivery delivered canceled : Status
  other : Text → Status

-- `dbgen.OrderStatus(req.Status)`
unfoldable pub of_text : Text → Status
unfolding text_eq
of_text s =
    if text_eq s (codes "PENDING_PAYMENT")
    then pending_payment
    else if text_eq s (codes "PAID")
    then paid
    else if text_eq s (codes "PACKED")
    then packed
    else if text_eq s (codes "SHIPPED")
    then shipped
    else if text_eq s (codes "OUT_FOR_DELIVERY")
    then out_for_delivery
    else if text_eq s (codes "DELIVERED")
    then delivered
    else if text_eq s (codes "CANCELED")
    then canceled
    else other s

-- `orderStatusRank`
unfoldable pub rank : Status → ℤ
rank pending_payment = pos 0
rank paid = pos 1
rank packed = pos 2
rank shipped = pos 3
rank out_for_delivery = pos 4
rank delivered = pos 5
rank canceled = negsuc 0
rank (other s) = negsuc 1

-- The `WHERE` clause of `UpdateOrderStatusIfAllowed`: from the first status to the second.
unfoldable pub is_update_allowed : Status → Status → Bool
is_update_allowed pending_payment paid = true
is_update_allowed pending_payment canceled = true
is_update_allowed paid packed = true
is_update_allowed paid canceled = true
is_update_allowed packed shipped = true
is_update_allowed shipped out_for_delivery = true
is_update_allowed out_for_delivery delivered = true
is_update_allowed _ _ = false
