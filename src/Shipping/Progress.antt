-- ===== src/Shipping/Progress.antt =====
-- The states that a shipment goes through under internal/shipping/service.go.
use toko_api.Prelude.{
  ℕ, ◌≡◌, refl, ap, ◌∙◌, ◌⊎◌, inl, inr, Bool, true, false, not, ◌&&◌, ◌||◌, Option, some, [], ◌∷◌,
  ◌++◌, Text, arith, Bool-cases,
}
use toko_api.Shipping.Status.{
  Status, pending, picked, in_transit, shipped, out_for_delivery, delivered, returned,
  is_transition_allowed,
}
use toko_api.Shipping.Store.{
  Shipment, Event, Tables, Query, find_shipment, set_shipment_status, find_shipment-set_status,
}
use toko_api.Shipping.Service.{Service, ok, append_to, follow_up, current_status, or_else}

-- The transitions of a shipment: a repeated status, or a step on the way to the customer.
pub data Follows : Status → Status → Type 0 where
  again : {s : Status} → Follows s s
  ship : Follows pending shipped
  send_out : Follows shipped out_for_delivery
  hand_over : Follows shipped delivered
  deliver : Follows out_for_delivery delivered

-- The transition table has these transitions.
pub Follows-of_allowed : (s t : Status) → is_transition_allowed s t ≡ true → Follows s t
unfolding is_transition_allowed
Follows-of_allowed pending pending h = again
Follows-of_allowed pending shipped h = ship
Follows-of_allowed picked picked h = again
Follows-of_allowed in_transit in_transit h = again
Follows-of_allowed shipped shipped h = again
Follows-of_allowed shipped out_for_delivery h = send_out
Follows-of_allowed shipped delivered h = hand_over
Follows-of_allowed out_for_delivery out_for_delivery h = again
Follows-of_allowed out_for_delivery delivered h = deliver
Follows-of_allowed delivered delivered h = again
Follows-of_allowed returned returned h = again
Follows-of_allowed _ _ h = absurd (ground arith)

-- A shipment as an accepted event leaves it, and what the event found.
pub record IsAppended (db db' : Tables) (order : ℕ) (status : Status) (event : Event) : Type 0 where
  pub before : Shipment
  pub after : Shipment
  pub was_found : find_shipment order db.shipments ≡ some before
  pub follows : Follows (current_status before) status
  pub is_found : find_shipment order db'.shipments ≡ some after
  pub has_status : after.last_status ≡ some status
  pub same_id : after.id ≡ before.id
  pub recorded : db'.events ≡ db.events ++ event ∷ []
  pub event_status : event.status ≡ status

-- What `follow_up` leaves alone.
pub follow_up-keeps :
    (svc : Service) (fault : Query → Bool) (now fresh : ℕ) (db : Tables) (order : ℕ) (event : Event)
    (s : Shipment) (payload : Text)
    → ((follow_up svc fault now fresh db order event s payload).1.shipments ≡ db.shipments)
      × ((follow_up svc fault now fresh db order event s payload).1.events ≡ db.events)
unfolding follow_up
follow_up-keeps svc fault now fresh db order event s payload = ground arith

follow_up-ok :
    (svc : Service) (fault : Query → Bool) (now fresh : ℕ) (db : Tables) (order : ℕ) (event : Event)
    (s : Shipment) (payload : Text) {r : Event × Shipment}
    → (follow_up svc fault now fresh db order event s payload).0 ≡ ok r
    → r ≡ (event, s)
unfolding follow_up
follow_up-ok svc fault now fresh db order event s payload h = ground arith

-- The tables and the shipment with an event on record.
abbrev pub with_event : ℕ → Tables → Shipment → Event → Tables
with_event now db s event = record db {
  shipments = set_shipment_status now s.id event.status db.shipments;
  events = db.events ++ event ∷ [];
}

abbrev pub moved : Shipment → Event → Option ℕ → Shipment
moved s event at = record s {
  status = event.status;
  last_status = some event.status;
  last_event_at = some (or_else at event.occurred_at);
}

module _ (svc : Service) (fault : Query → Bool) (now fresh : ℕ) where
  -- An event is accepted where the transition is allowed and neither write fails.
  pub append_to-eq :
      (db : Tables) (order : ℕ) (s : Shipment) (event : Event) (at : Option ℕ) (payload : Text)
      → is_transition_allowed (current_status s) event.status ≡ true
      → fault Query.insert_shipment_event ≡ false
      → fault Query.update_shipment_status ≡ false
      → append_to svc fault now fresh db order s event at payload
        ≡ follow_up svc fault now fresh
            (with_event now db s event)
            order
            event
            (moved s event at)
            payload
  unfolding append_to
  append_to-eq db order s event at payload a b c = rw (a, b, c)

  append_to-kept :
      (db : Tables) (order : ℕ) (s : Shipment) (event : Event) (at : Option ℕ) (payload : Text)
      → (is_transition_allowed (current_status s) event.status
          && not (fault Query.insert_shipment_event || fault Query.update_shipment_status))
        ≡ false
      → (append_to svc fault now fresh db order s event at payload).1.orders ≡ db.orders
  unfolding append_to
  append_to-kept db order s event at payload h = ground arith

  -- A call is accepted, or it keeps the orders and the shipments.
  pub append_to-cases :
      (db : Tables) (order : ℕ) (s : Shipment) (event : Event) (at : Option ℕ) (payload : Text)
      → ((append_to svc fault now fresh db order s event at payload).1.orders ≡ db.orders)
        ⊎ (append_to svc fault now fresh db order s event at payload
            ≡ follow_up svc fault now fresh
                (with_event now db s event)
                order
                event
                (moved s event at)
                payload)
  append_to-cases db order s event at payload =
      elim (Bool-cases (
        is_transition_allowed (current_status s) event.status
        && not (fault Query.insert_shipment_event || fault Query.update_shipment_status))) [
          | inl accepted ↦ inr (
              append_to-eq db order s event at payload (ground arith) (ground arith) (ground arith))
          | inr refused ↦ inl (append_to-kept db order s event at payload refused)
        ]

  append_to-accepted :
      (db : Tables) (order : ℕ) (s : Shipment) (event : Event) (at : Option ℕ) (payload : Text)
      {r : Event × Shipment}
      → (append_to svc fault now fresh db order s event at payload).0 ≡ ok r
      → (is_transition_allowed (current_status s) event.status ≡ true)
        × (fault Query.insert_shipment_event ≡ false)
        × (fault Query.update_shipment_status ≡ false)
  unfolding append_to
  append_to-accepted db order s event at payload h = ground arith

  pub append_to-IsAppended :
      (db : Tables) (order : ℕ) (s : Shipment) (event : Event) (at : Option ℕ) (payload : Text)
      {r : Event × Shipment}
      → find_shipment order db.shipments ≡ some s
      → (append_to svc fault now fresh db order s event at payload).0 ≡ ok r
      → (r.0 ≡ event)
        × IsAppended db
            (append_to svc fault now fresh db order s event at payload).1
            order
            event.status
            event
  append_to-IsAppended db order s event at payload {r = r} found h =
      let (a, b, c) = append_to-accepted db order s event at payload h in
      let e = append_to-eq db order s event at payload a b c in
      let db' = with_event now db s event in
      let (same, same_events) =
        follow_up-keeps svc fault now fresh db' order event (moved s event at) payload in
      let done =
        follow_up-ok svc fault now fresh db' order event (moved s event at) payload (rw e at h) in
      (
        ap (λ (x : Event × Shipment). x.0) done,
        rw e (record {
          before = s;
          after = record s {
            status = event.status;
            last_status = some event.status;
            last_event_at = some now;
          };
          was_found = found;
          follows = Follows-of_allowed (current_status s) event.status a;
          is_found =
              ap (find_shipment order) same
              ∙ (find_shipment-set_status now s.id order event.status db.shipments ∙ ground arith);
          has_status = refl;
          same_id = refl;
          recorded = same_events;
          event_status = refl;
        }),
      )
