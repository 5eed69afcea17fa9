-- ===== src/Shipping/Examples.antt =====
-- The shipping theorems at concrete orders, shipments and callbacks.
use toko_api.Prelude.{
  ◌≡◌, ◌≢◌, refl, Bool, true, false, none, some, [], ◌∷◌, Text, codes, text_eq, trim_space,
  to_lower, lower, pos, arith, All,
}
use toko_api.Order.Status.{Status as OrderStatus, rank, is_update_allowed}
use toko_api.Order.Store.{Order, find_order, set_status, set_status_if_allowed}
use toko_api.Shipping.Status.{
  Status, pending, picked, shipped, delivered, is_transition_allowed, same_status, to_order_status,
  topic_of, notification_content, map_external_to_status, of_label,
}
use toko_api.Shipping.Store.{
  Shipment, Event, Tables, Query, find_shipment, find_user, set_shipment_status,
}
use toko_api.Shipping.Service.{
  Service, ok, append_event, append_to, follow_up, notify, emit, email_of, sync_order_status,
  advance_order, create, create_for, pack_order,
}
use toko_api.Shipping.Progress.{Follows, IsAppended}
use toko_api.Shipping.Appended.{append_event-IsAppended}
use toko_api.Shipping.Route.{IsOnRoute, Reach, here, next, Step, Reach-IsOnRoute}
use toko_api.Shipping.Sync.{FollowsShipment, append_event-FollowsShipment}
use toko_api.Shipping.Stand.{IsInStep, InStep, append_event-InStep}
use toko_api.Shipping.Stuck.{append_event-stuck}
use toko_api.Shipping.Webhook.{
  Payload, Request, Decoders, State, no_content, replayed, decode_webhook_payload, handle,
  handle_body, handle_payload, handle_status, is_held, response_of,
}
use toko_api.Shipping.Callbacks.{handle-replayed}

abbrev svc : Service
svc = record {
  sends_mail = true;
  notify_on_shipped = true;
  notify_on_out_for_delivery = true;
  notify_on_delivered = true;
  emits_events = true;
  is_json = λ t. true;
}

abbrev sound : Query → Bool
sound q = false

abbrev order_at : OrderStatus → Order
order_at status = record {
  id = 50;
  user_id = some 9;
  status = status;
  pricing_discount = pos 0;
  pricing_total = pos 35000;
  applied_voucher_code = none;
}

abbrev shipment_at : Status → Shipment
shipment_at status = record {
  id = 80;
  order_id = 50;
  status = status;
  courier = some (codes "jne");
  tracking_number = none;
  last_status = some status;
  last_event_at = some 100;
}

-- an order and its shipment
abbrev at : OrderStatus → Status → Tables
at o s = record {
  orders = order_at o ∷ [];
  shipments = shipment_at s ∷ [];
  events = [];
  users = record { id = 9; email = codes "a@b.c" } ∷ [];
  mails = [];
  emitted = [];
}

found : (s : Status) → find_shipment 50 (shipment_at s ∷ []) ≡ some (shipment_at s)
unfolding find_shipment
found s = refl

order_found : (o : OrderStatus) → find_order 50 (order_at o ∷ []) ≡ some (order_at o)
unfolding find_order
order_found o = refl

abbrev packed_tables : Tables
packed_tables = at OrderStatus.packed pending

abbrev truck : Event
truck = record {
  id = 81;
  shipment_id = 80;
  status = shipped;
  description = none;
  location = none;
  occurred_at = 200;
  raw_payload = [];
}

accepted :
    (append_event svc sound 200 81 packed_tables 50 shipped none none none []).0
    ≡ ok (truck, record (shipment_at shipped) { last_event_at = some 200 })
unfolding append_event append_to follow_up notify emit email_of sync_order_status advance_order
    find_shipment find_order find_user set_shipment_status set_status set_status_if_allowed
    is_transition_allowed same_status to_order_status topic_of notification_content rank
    is_update_allowed
accepted = refl

append_event-IsAppended_example :
    IsAppended packed_tables
      (append_event svc sound 200 81 packed_tables 50 shipped none none none []).1
      50
      shipped
      truck
append_event-IsAppended_example =
    append_event-IsAppended svc sound 200 81 packed_tables 50 shipped none none none [] accepted

abbrev empty_tables : Tables
empty_tables = record packed_tables { shipments = []; orders = order_at OrderStatus.paid ∷ [] }

abbrev created : Tables
created = (create svc sound 100 80 empty_tables 50 (codes "jne") []).1

reached : Reach svc empty_tables created
reached = next here (Step.created sound 100 80 empty_tables created 50 (codes "jne") [] refl)

created_found : find_shipment 50 created.shipments ≡ some (shipment_at pending)
unfolding create create_for pack_order find_order find_shipment set_status_if_allowed set_status
    is_update_allowed
created_found = refl

Reach-IsOnRoute_example : All IsOnRoute created.shipments
Reach-IsOnRoute_example = Reach-IsOnRoute reached tt

append_event-FollowsShipment_example :
    FollowsShipment packed_tables.orders
      (append_event svc sound 200 81 packed_tables 50 shipped none none none []).1.orders
      50
      shipped
append_event-FollowsShipment_example =
    append_event-FollowsShipment svc sound 200 81 packed_tables 50 shipped none none none []

not_pending : shipped ≢ pending
not_pending e = cc

no_skip : (pending ≡ shipped) × (shipped ≡ delivered) → ⊥
no_skip (e, _) = cc

append_event-InStep_example :
    IsInStep (append_event svc sound 200 81 packed_tables 50 shipped none none none []) 50 shipped
append_event-InStep_example =
    append_event-InStep svc sound 200 81 (λ q. refl) packed_tables 50 shipped none none none []
      (shipment_at pending) (order_at OrderStatus.packed) (found pending)
      (order_found OrderStatus.packed) InStep.waiting Follows.ship not_pending no_skip

append_event-stuck_example :
    (append_event svc sound 200 81
      (at OrderStatus.shipped delivered)
      50
      delivered
      none
      none
      none
      []).1.orders
    ≡ order_at OrderStatus.shipped ∷ []
append_event-stuck_example =
    append_event-stuck svc sound 200 81 (at OrderStatus.shipped delivered) 50 delivered none none
      none [] (shipment_at delivered) (order_at OrderStatus.shipped) (found delivered) refl
      (order_found OrderStatus.shipped) refl

abbrev decoders : Decoders
decoders = record {
  sha256_hex = λ t. t;
  parse_uuid = λ t. some 50;
  decode_json = λ t. none;
  parse_time = λ t. none;
}

abbrev callback : Text → Request
callback status = record {
  courier = codes "jne";
  body = some (codes "{}");
  query_order_id = codes "o";
  query_tracking = [];
  query_status = status;
  query_description = [];
  query_location = [];
  query_occurred_at = [];
}

abbrev payload_of : Text → Payload
payload_of status = record {
  order_id = codes "o";
  tracking_number = [];
  external_status = status;
  description = none;
  location = none;
  occurred_at = none;
}

abbrev start : State
start = record { tables = packed_tables; replay = [] }

unclaimed : is_held 200 (codes "jne") (codes "{}") [] ≡ false
unfolding is_held
unclaimed = refl

decoded :
    decode_webhook_payload decoders (codes "{}") (callback (codes "Shipped"))
    ≡ some (payload_of (codes "Shipped"))
unfolding decode_webhook_payload trim_space
decoded = refl

decoded_pickup :
    decode_webhook_payload decoders (codes "{}") (callback (codes "PICKUP"))
    ≡ some (payload_of (codes "PICKUP"))
unfolding decode_webhook_payload trim_space
decoded_pickup = refl

is_pickup : map_external_to_status (codes "PICKUP") ≡ picked
unfolding map_external_to_status of_label to_lower lower trim_space text_eq
is_pickup = refl

handle-replayed_example :
    let s' = (handle svc decoders sound 200 81 false 600 start (callback (codes "Shipped"))).1 in
    handle svc decoders sound 300 82 false 600 s' (callback (codes "Shipped")) ≡ (replayed, s')
handle-replayed_example =
    handle-replayed svc decoders sound sound 200 300 81 82 600 start (callback (codes "Shipped"))
      (codes "{}") refl unclaimed (omega arith)

answered :
    (handle svc decoders sound 200 81 false 600 start (callback (codes "Shipped"))).0 ≡ no_content
unfolding handle handle_body handle_payload handle_status is_held decode_webhook_payload response_of
    map_external_to_status of_label to_lower lower trim_space text_eq append_event append_to
    follow_up notify emit email_of sync_order_status advance_order find_shipment find_order
    find_user set_shipment_status set_status set_status_if_allowed is_transition_allowed same_status
    to_order_status topic_of notification_content rank is_update_allowed
answered = refl

abbrev after_create : State
after_create = record { tables = created; replay = [] }
