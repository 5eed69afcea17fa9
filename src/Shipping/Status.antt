-- ===== src/Shipping/Status.antt =====
-- The shipment statuses of internal/db/gen/models.go, and the tables over them in
-- internal/shipping/service.go and internal/shipping/statusmap.go.
use toko_api.Prelude.{
  Bool, true, false, ◌||◌, Option, none, some, if◌then◌else◌, Text, codes, text_eq, trim_space,
  to_lower,
}
use toko_api.Order.Status.{Status as OrderStatus}

pub data Status : Type 0 where
  pending picked in_transit shipped out_for_delivery delivered returned : Status

pub data Topic : Type 0 where
  shipment_shipped shipment_out_for_delivery shipment_delivered : Topic

-- `current == next`
unfoldable pub same_status : Status → Status → Bool
same_status pending pending = true
same_status picked picked = true
same_status in_transit in_transit = true
same_status shipped shipped = true
same_status out_for_delivery out_for_delivery = true
same_status delivered delivered = true
same_status returned returned = true
same_status _ _ = false

abbrev is_next : Status → Status → Bool
is_next pending shipped = true
is_next shipped out_for_delivery = true
is_next shipped delivered = true
is_next out_for_delivery delivered = true
is_next _ _ = false

-- `allowedShipmentTransition`
unfoldable pub is_transition_allowed : Status → Status → Bool
unfolding same_status
is_transition_allowed current next = same_status current next || is_next current next

-- `shipmentToOrderStatus`
unfoldable pub to_order_status : Status → Option OrderStatus
to_order_status shipped = some OrderStatus.shipped
to_order_status out_for_delivery = some OrderStatus.out_for_delivery
to_order_status delivered = some OrderStatus.delivered
to_order_status _ = none

-- `shipmentTopic`
unfoldable pub topic_of : Status → Option Topic
topic_of shipped = some shipment_shipped
topic_of out_for_delivery = some shipment_out_for_delivery
topic_of delivered = some shipment_delivered
topic_of _ = none

-- `notificationContent`: the subject and the body
unfoldable pub notification_content : Status → Text × Text
notification_content shipped = (codes "Pesanan dikirim", codes "Pesanan Anda telah dikirim.")
notification_content out_for_delivery =
    (codes "Sedang dikirim", codes "Pesanan Anda sedang dalam perjalanan.")
notification_content delivered = (codes "Terkirim", codes "Pesanan Anda telah diterima.")
notification_content _ = (codes "", codes "")

-- the labels that `MapExternalToStatus` compares with
unfoldable pub of_label : Text → Status
of_label label =
    if text_eq label (codes "picked") || text_eq label (codes "pickup")
    then picked
    else if text_eq label (codes "shipped")
        || text_eq label (codes "in_transit")
        || text_eq label (codes "in-transit")
    then shipped
    else if text_eq label (codes "out_for_delivery") || text_eq label (codes "out-for-delivery")
    then out_for_delivery
    else if text_eq label (codes "delivered")
    then delivered
    else pending

-- `MapExternalToStatus`
unfoldable pub map_external_to_status : Text → Status
unfolding of_label
map_external_to_status external = of_label (to_lower (trim_space external))
