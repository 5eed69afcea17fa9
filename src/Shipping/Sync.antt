-- ===== src/Shipping/Sync.antt =====
-- How the order follows its shipment under internal/shipping/service.go.
use toko_api.Prelude.{
  ℕ, ◌≡◌, ap, ◌⊎◌, inl, inr, Bool, true, false, Option, none, some, List, Text, arith, Option-cases,
  Bool-cases, ◌==◌, ◌||◌, leb_ℤ,
}
use toko_api.Order.Status.{Status as OrderStatus, is_update_allowed, rank}
use toko_api.Order.Store.{
  Order, find_order, set_status_if_allowed, find_order-set_status, with_status,
}
use toko_api.Shipping.Status.{Status, shipped, out_for_delivery, delivered, to_order_status}
use toko_api.Shipping.Store.{Shipment, Event, Tables, Query}
use toko_api.Shipping.Progress.{append_to-cases, with_event, moved}
use toko_api.Shipping.Appended.{entry, append_event-cases}
use toko_api.Shipping.Service.{
  Service, append_event, append_to, follow_up, sync_order_status, advance_order,
}

-- The steps that a tracking event gives an order.
pub data Advances : OrderStatus → OrderStatus → Type 0 where
  ship : Advances OrderStatus.packed OrderStatus.shipped
  send_out : Advances OrderStatus.shipped OrderStatus.out_for_delivery
  deliver : Advances OrderStatus.out_for_delivery OrderStatus.delivered

-- The order of the id advances to the target, and all others stay.
pub record IsAdvanced (orders orders' : List Order) (id : ℕ) (target : OrderStatus) : Type 0 where
  pub order : Order
  pub was_found : find_order id orders ≡ some order
  pub step : Advances order.status target
  pub changed : (j : ℕ) → find_order j orders' ≡ with_status (find_order j orders) (j == id) target

-- The orders stay, or the order of the id advances to the status that the shipment's stands for.
abbrev pub FollowsShipment : List Order → List Order → ℕ → Status → Type 0
FollowsShipment orders orders' id status =
    (orders' ≡ orders)
    ⊎ ((target : OrderStatus) × (to_order_status status ≡ some target)
        × IsAdvanced orders orders' id target)

Advances-of_allowed :
    (status : Status) (current target : OrderStatus)
    → to_order_status status ≡ some target
    → is_update_allowed current target ≡ true
    → Advances current target
unfolding to_order_status is_update_allowed
Advances-of_allowed shipped OrderStatus.packed OrderStatus.shipped e h = ship
Advances-of_allowed out_for_delivery OrderStatus.shipped OrderStatus.out_for_delivery e h = send_out
Advances-of_allowed delivered OrderStatus.out_for_delivery OrderStatus.delivered e h = deliver
Advances-of_allowed status current target e h = absurd (ground arith)

module _ (svc : Service) (fault : Query → Bool) (now fresh : ℕ) where
  advance_order-IsAdvanced :
      (db : Tables) (id : ℕ) (o : Order) (status : Status) (target : OrderStatus)
      → find_order id db.orders ≡ some o
      → to_order_status status ≡ some target
      → let db' = (advance_order svc fault now fresh db id o.status target).1 in
        (db'.orders ≡ db.orders) ⊎ IsAdvanced db.orders db'.orders id target
  unfolding advance_order set_status_if_allowed
  advance_order-IsAdvanced db id o status target found e =
      elim (Bool-cases (is_update_allowed o.status target)) [
        | inr refused ↦ ground arith
        | inl allowed ↦
            let step = Advances-of_allowed status o.status target e allowed in
            elim (Bool-cases
              (leb_ℤ (rank target) (rank o.status) || fault Query.update_order_status_if_allowed)) [
                | inl kept ↦ inl (ground arith)
                | inr changed ↦ inr (record {
                  order = o;
                  was_found = found;
                  step = step;
                  changed = λ j. ground (arith, find_order-set_status id j target db.orders);
                })
              ]
      ]

  sync_order_status-eq :
      (db : Tables) (id : ℕ) (status : Status) (target : OrderStatus) (o : Order)
      → to_order_status status ≡ some target
      → fault Query.get_order_status ≡ false
      → find_order id db.orders ≡ some o
      → sync_order_status svc fault now fresh db id status
        ≡ advance_order svc fault now fresh db id o.status target
  unfolding sync_order_status
  sync_order_status-eq db id status target o e sound found = ground arith

  sync_order_status-same :
      (db : Tables) (id : ℕ) (status : Status)
      → (to_order_status status ≡ none)
        ⊎ (fault Query.get_order_status ≡ true)
        ⊎ (find_order id db.orders ≡ none)
      → (sync_order_status svc fault now fresh db id status).1.orders ≡ db.orders
  unfolding sync_order_status
  sync_order_status-same db id status h = ground arith

  sync_order_status-Follows :
      (db : Tables) (id : ℕ) (status : Status)
      → FollowsShipment db.orders
          (sync_order_status svc fault now fresh db id status).1.orders
          id
          status
  sync_order_status-Follows db id status = elim (Option-cases (to_order_status status)) [
    | inl idle ↦ inl (sync_order_status-same db id status (inl idle))
    | inr (target, e) ↦ elim (Bool-cases (fault Query.get_order_status)) [
      | inl broken ↦ inl (sync_order_status-same db id status (inr (inl broken)))
      | inr sound ↦ elim (Option-cases (find_order id db.orders)) [
        | inl unknown ↦ inl (sync_order_status-same db id status (inr (inr unknown)))
        | inr (o, found) ↦
            rw (sync_order_status-eq db id status target o e sound found)
              (elim (advance_order-IsAdvanced db id o status target found e) [
                | inl kept ↦ inl kept
                | inr advanced ↦ inr (target, e, advanced)
              ])
      ]
    ]
  ]

  -- The mails and the events leave the orders alone.
  follow_up-orders :
      (db : Tables) (id : ℕ) (event : Event) (s : Shipment) (payload : Text)
      → (follow_up svc fault now fresh db id event s payload).1.orders
        ≡ (sync_order_status svc fault now fresh db id event.status).1.orders
  unfolding follow_up
  follow_up-orders db id event s payload = ground arith

  append_to-Follows :
      (db : Tables) (id : ℕ) (s : Shipment) (event : Event) (at : Option ℕ) (payload : Text)
      → FollowsShipment db.orders
          (append_to svc fault now fresh db id s event at payload).1.orders
          id
          event.status
  append_to-Follows db id s event at payload =
      elim (append_to-cases svc fault now fresh db id s event at payload) [
        | inl same ↦ inl same
        | inr accepted ↦
            rw
              (
                accepted,
                follow_up-orders (with_event now db s event) id event (moved s event at) payload,
              )
              (sync_order_status-Follows (with_event now db s event) id event.status)
      ]

  -- Whatever happens to a tracking event, each order keeps its status, but that the event's own order
  -- may advance one step to the status that the event stands for: no order goes back, and a canceled
  -- one stays canceled.
  pub append_event-FollowsShipment :
      (db : Tables) (id : ℕ) (status : Status) (description location : Option Text) (at : Option ℕ)
      (payload : Text)
      → FollowsShipment db.orders
          (append_event svc fault now fresh db id status description location at payload).1.orders
          id
          status
  append_event-FollowsShipment db id status description location at payload =
      elim (append_event-cases svc fault now fresh db id status description location at payload) [
        | inl same ↦ inl (ap (λ (t : Tables). t.orders) same)
        | inr (s, accepted) ↦ rw accepted (
            append_to-Follows db id s
              (entry svc fault now fresh s status description location at payload) at payload)
      ]
