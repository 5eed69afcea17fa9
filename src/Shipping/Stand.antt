-- ===== src/Shipping/Stand.antt =====
-- When the order stands where its shipment does, under internal/shipping/service.go.
use toko_api.Prelude.{
  if◌then◌else◌, ◌&&◌, ℕ, ◌≡◌, ◌≢◌, refl, ◌∙◌, ◌⊎◌, inl, inr, Bool, true, false, not, Option, some,
  Text, arith, leb_ℤ,
}
use toko_api.Order.Status.{Status as OrderStatus, is_update_allowed, rank}
use toko_api.Order.Store.{Order, find_order, set_status_if_allowed, find_order-set_status}
use toko_api.Shipping.Status.{
  Status, pending, shipped, out_for_delivery, delivered, to_order_status, is_transition_allowed,
}
use toko_api.Shipping.Store.{Shipment, Event, Tables, Query, find_shipment}
use toko_api.Shipping.Progress.{Follows, append_to-eq, with_event, moved}
use toko_api.Shipping.Appended.{append_event-eq, entry, append_event-IsAppended}
use toko_api.Shipping.Service.{Service, Outcome, ok, append_event, follow_up, current_status}

-- An accepted event, and the status that it leaves the order with.
record IsOutcome (r : Outcome (Event × Shipment) × Tables) (id : ℕ) (status : OrderStatus)
    : Type 0 where
  pub is_ok : (e : Event) × (s : Shipment) × (r.0 ≡ ok (e, s))
  pub has_status : (o : Order) × (find_order id r.1.orders ≡ some o) × (o.status ≡ status)

-- The order stands where its shipment does.
pub data InStep : Status → OrderStatus → Type 0 where
  waiting : InStep pending OrderStatus.packed
  on_truck : InStep shipped OrderStatus.shipped
  on_foot : InStep out_for_delivery OrderStatus.out_for_delivery
  at_home : InStep delivered OrderStatus.delivered

-- An accepted event, after which the shipment has the status, and the order stands where the shipment does.
pub record IsInStep (r : Outcome (Event × Shipment) × Tables) (id : ℕ) (status : Status)
    : Type 0 where
  pub is_accepted : (e : Event) × (s : Shipment) × (r.0 ≡ ok (e, s))
  pub shipment : Shipment
  pub has_shipment : find_shipment id r.1.shipments ≡ some shipment
  pub reached : current_status shipment ≡ status
  pub order : Order
  pub has_order : find_order id r.1.orders ≡ some order
  pub in_step : InStep (current_status shipment) order.status

allowed_of_Follows : {a b : Status} → Follows a b → is_transition_allowed a b ≡ true
unfolding is_transition_allowed
allowed_of_Follows (Follows.again {s = s}) = ground arith
allowed_of_Follows Follows.ship = refl
allowed_of_Follows Follows.send_out = refl
allowed_of_Follows Follows.hand_over = refl
allowed_of_Follows Follows.deliver = refl

-- whether the update of the order is made
abbrev is_made : OrderStatus → OrderStatus → Bool
is_made current target =
    not (leb_ℤ (rank target) (rank current)) && is_update_allowed current target

-- A place for an order beside a shipment: the update to it is made, or the order is there already.
abbrev Stand : Status → OrderStatus → Type 0
Stand b current =
    (target : OrderStatus) × InStep b target
    × (to_order_status b ≡ some target)
    × ((is_made current target ≡ true) ⊎ (current ≡ target))

Stand-again :
    {a : Status} {current : OrderStatus} → InStep a current → a ≢ pending → Stand a current
unfolding to_order_status
Stand-again waiting n = absurd (n refl)
Stand-again on_truck n = (OrderStatus.shipped, on_truck, refl, inr refl)
Stand-again on_foot n = (OrderStatus.out_for_delivery, on_foot, refl, inr refl)
Stand-again at_home n = (OrderStatus.delivered, at_home, refl, inr refl)

-- Where an order in step stands after the next event.
next-Stand :
    {a b : Status} {current : OrderStatus}
    → Follows a b
    → InStep a current
    → b ≢ pending
    → ((a ≡ shipped) × (b ≡ delivered) → ⊥)
    → Stand b current
unfolding to_order_status rank is_update_allowed
next-Stand Follows.again i n k = Stand-again i n
next-Stand Follows.ship waiting n k = (OrderStatus.shipped, on_truck, refl, inl refl)
next-Stand Follows.send_out on_truck n k = (OrderStatus.out_for_delivery, on_foot, refl, inl refl)
next-Stand Follows.hand_over on_truck n k = absurd (k (refl, refl))
next-Stand Follows.deliver on_foot n k = (OrderStatus.delivered, at_home, refl, inl refl)

module _ (svc : Service) (fault : Query → Bool) (now fresh : ℕ)
    (sound : (q : Query) → fault q ≡ false) where
  append_event-allowed :
      (db : Tables) (id : ℕ) (status : Status) (description location : Option Text) (at : Option ℕ)
      (payload : Text) (s : Shipment)
      → find_shipment id db.shipments ≡ some s
      → is_transition_allowed (current_status s) status ≡ true
      → let event = entry svc fault now fresh s status description location at payload in
        append_event svc fault now fresh db id status description location at payload
        ≡ follow_up svc fault now fresh
            (with_event now db s event)
            id
            event
            (moved s event at)
            payload
  append_event-allowed db id status description location at payload s found allowed =
      let event = entry svc fault now fresh s status description location at payload in
      append_event-eq svc fault now fresh db id status description location at payload s found
        (sound Query.get_shipment_by_order)
      ∙ append_to-eq svc fault now fresh db id s event at payload allowed
          (sound Query.insert_shipment_event) (sound Query.update_shipment_status)

  -- What the order is after an event: the step is made where the status rank grows and the update allows it.
  order_after :
      (db : Tables) (id : ℕ) (event : Event) (s : Shipment) (payload : Text) (o : Order)
      (target : OrderStatus)
      → find_order id db.orders ≡ some o
      → to_order_status event.status ≡ some target
      → let (r, db') = follow_up svc fault now fresh db id event s payload in
        (r ≡ ok (event, s))
        × (find_order id db'.orders
            ≡ some (
                if not (leb_ℤ (rank target) (rank o.status)) && is_update_allowed o.status target
                then record o { status = target }
                else o))
  unfolding follow_up set_status_if_allowed
  order_after db id event s payload o target found e = ground (
    arith,
    sound Query.get_order_status,
    sound Query.update_order_status_if_allowed,
    find_order-set_status id id target db.orders,
  )

  append_event-IsOutcome :
      (db : Tables) (id : ℕ) (status : Status) (description location : Option Text) (at : Option ℕ)
      (payload : Text) (s : Shipment) (o : Order)
      → find_shipment id db.shipments ≡ some s
      → find_order id db.orders ≡ some o
      → InStep (current_status s) o.status
      → Follows (current_status s) status
      → status ≢ pending
      → ((current_status s ≡ shipped) × (status ≡ delivered) → ⊥)
      → (target : OrderStatus) × InStep status target
        × IsOutcome
            (append_event svc fault now fresh db id status description location at payload)
            id
            target
  append_event-IsOutcome db id status description location at payload s o found order_found in_step
        follows sent no_skip =
      let event = entry svc fault now fresh s status description location at payload in
      let (target, stands, e, moves) = next-Stand follows in_step sent no_skip in
      let (done, after) =
        order_after (with_event now db s event) id event (moved s event at) payload o target
          order_found e in
      rw
        (append_event-allowed db id status description location at payload s found
          (allowed_of_Follows follows))
        (
          target,
          stands,
          record {
            is_ok = (event, moved s event at, done);
            has_status = (
              if is_made o.status target then record o { status = target } else o,
              after,
              ground (arith, moves),
            );
          },
        )

  current_status-recorded :
      (s : Shipment) (status : Status) → s.last_status ≡ some status → current_status s ≡ status
  current_status-recorded s status e = rw e refl

  -- Where no query fails and the order stands where its shipment does, every event other than PENDING
  -- whose status follows the shipment's and does not skip OUT_FOR_DELIVERY, a repeated one too, is
  -- accepted; the shipment then has its status, and the order stands where the shipment does again.
  pub append_event-InStep :
      (db : Tables) (id : ℕ) (status : Status) (description location : Option Text) (at : Option ℕ)
      (payload : Text) (s : Shipment) (o : Order)
      → find_shipment id db.shipments ≡ some s
      → find_order id db.orders ≡ some o
      → InStep (current_status s) o.status
      → Follows (current_status s) status
      → status ≢ pending
      → ((current_status s ≡ shipped) × (status ≡ delivered) → ⊥)
      → IsInStep
          (append_event svc fault now fresh db id status description location at payload)
          id
          status
  append_event-InStep db id status description location at payload s o found order_found in_step
        follows sent no_skip =
      let (target, stands, out) =
        append_event-IsOutcome db id status description location at payload s o found order_found
          in_step follows sent no_skip in
      let (e, answer, is_ok) = out.is_ok in
      let (order, has_order, order_status) = out.has_status in
      let a =
        append_event-IsAppended svc fault now fresh db id status description location at payload
          is_ok in
      let reached = current_status-recorded a.after status a.has_status in
      record {
        is_accepted = out.is_ok;
        shipment = a.after;
        has_shipment = a.is_found;
        reached = reached;
        order = order;
        has_order = has_order;
        in_step = rw (reached, order_status) stands;
      }
