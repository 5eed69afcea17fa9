-- ===== src/Shipping/Stuck.antt =====
-- When events no longer move the order, under internal/shipping/service.go.
use toko_api.Prelude.{
  ℕ, ◌≡◌, refl, ap, ◌⊎◌, inl, inr, Bool, true, Option, some, List, Text, arith, Bool-cases,
}
use toko_api.Order.Status.{Status as OrderStatus}
use toko_api.Order.Store.{Order, find_order}
use toko_api.Shipping.Status.{Status, pending, delivered, to_order_status}
use toko_api.Shipping.Store.{Shipment, Tables, Query, find_shipment}
use toko_api.Shipping.Progress.{Follows}
use toko_api.Shipping.Appended.{append_event-refused}
use toko_api.Shipping.Service.{Service, append_event, current_status}
use toko_api.Shipping.Sync.{
  deliver, ship, FollowsShipment, Advances, send_out, append_event-FollowsShipment,
}

-- Only an order that is OUT_FOR_DELIVERY advances to DELIVERED.
Advances-source :
    {a b : OrderStatus}
    → Advances a b
    → b ≡ OrderStatus.delivered
    → a ≡ OrderStatus.out_for_delivery
Advances-source ship h = cc
Advances-source send_out h = cc
Advances-source deliver h = refl

kept_by_delivery :
    (orders orders' : List Order) (id : ℕ) (status : Status) (o : Order)
    → status ≡ delivered
    → find_order id orders ≡ some o
    → o.status ≡ OrderStatus.shipped
    → FollowsShipment orders orders' id status
    → orders' ≡ orders
unfolding to_order_status
kept_by_delivery orders orders' id status o d found at_shipped (inl kept) = kept
kept_by_delivery orders orders' id status o d found at_shipped (inr (target, e, advanced)) =
    absurd (ground (arith, Advances-source advanced.step, advanced.was_found))

-- DELIVERED is followed by itself alone.
Follows-source : {a b : Status} → Follows a b → a ≡ delivered → b ≡ delivered
Follows-source Follows.again h = h
Follows-source Follows.ship h = cc
Follows-source Follows.send_out h = cc
Follows-source Follows.hand_over h = refl
Follows-source Follows.deliver h = refl

after_delivered : (a b : Status) → a ≡ delivered → (b ≡ delivered) ⊎ (¬ (Follows a b))
after_delivered a delivered e = inl refl
after_delivered a pending e = inr (λ f. ground (arith, Follows-source f))
after_delivered a b e = inr (λ f. ground (arith, Follows-source f))

append_event-broken :
    (svc : Service) (fault : Query → Bool) (now fresh : ℕ) (db : Tables) (id : ℕ) (status : Status)
    (description location : Option Text) (at : Option ℕ) (payload : Text)
    → fault Query.get_shipment_by_order ≡ true
    → (append_event svc fault now fresh db id status description location at payload).1 ≡ db
unfolding append_event
append_event-broken svc fault now fresh db id status description location at payload broken =
    rw broken

-- A shipment that is DELIVERED beside an order that is SHIPPED: no event moves the order any more,
-- whatever it reports and whichever queries fail.
pub append_event-stuck :
    (svc : Service) (fault : Query → Bool) (now fresh : ℕ) (db : Tables) (id : ℕ) (status : Status)
    (description location : Option Text) (at : Option ℕ) (payload : Text) (s : Shipment) (o : Order)
    → find_shipment id db.shipments ≡ some s
    → current_status s ≡ delivered
    → find_order id db.orders ≡ some o
    → o.status ≡ OrderStatus.shipped
    → (append_event svc fault now fresh db id status description location at payload).1.orders
      ≡ db.orders
append_event-stuck svc fault now fresh db id status description location at payload s o found
      arrived order_found order_shipped =
    elim (after_delivered (current_status s) status arrived) [
      | inl repeated ↦ kept_by_delivery db.orders _ id status o repeated order_found order_shipped (
          append_event-FollowsShipment svc fault now fresh db id status description location at
            payload)
      | inr no_way ↦ elim (Bool-cases (fault Query.get_shipment_by_order)) [
        | inl broken ↦
            ap (λ (t : Tables). t.orders)
              (append_event-broken svc fault now fresh db id status description location at payload
                broken)
        | inr sound ↦
            rw
              (append_event-refused svc fault now fresh db id status description location at payload
                s found sound no_way)
              refl
      ]
    ]
