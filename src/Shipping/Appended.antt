-- ===== src/Shipping/Appended.antt =====
-- What `AppendEvent` of internal/shipping/service.go accepts and refuses.
use toko_api.Prelude.{
  ℕ, ◌≡◌, ◌⊎◌, inl, inr, Bool, false, Option, some, Text, arith, Option-cases, Bool-cases,
}
use toko_api.Shipping.Status.{Status, is_transition_allowed}
use toko_api.Shipping.Store.{Shipment, Event, Tables, Query, find_shipment}
use toko_api.Shipping.Service.{
  Service, ok, err, invalid_transition, append_event, append_to, current_status, or_else,
  optional_nullable_text,
}
use toko_api.Shipping.Progress.{IsAppended, Follows-of_allowed, append_to-IsAppended, Follows}

module _ (svc : Service) (fault : Query → Bool) (now fresh : ℕ) where
  -- the row that `AppendEvent` inserts
  abbrev pub entry : Shipment → Status → Option Text → Option Text → Option ℕ → Text → Event
  entry s status description location at payload = record {
    id = fresh;
    shipment_id = s.id;
    status = status;
    description = optional_nullable_text description;
    location = optional_nullable_text location;
    occurred_at = or_else at now;
    raw_payload = payload;
  }

  pub append_event-eq :
      (db : Tables) (order : ℕ) (status : Status) (description location : Option Text)
      (at : Option ℕ) (payload : Text) (s : Shipment)
      → find_shipment order db.shipments ≡ some s
      → fault Query.get_shipment_by_order ≡ false
      → append_event svc fault now fresh db order status description location at payload
        ≡ append_to svc fault now fresh db order s
            (entry s status description location at payload)
            at
            payload
  unfolding append_event
  append_event-eq db order status description location at payload s found sound = rw (sound, found)

  pub append_event-cases :
      (db : Tables) (order : ℕ) (status : Status) (description location : Option Text)
      (at : Option ℕ) (payload : Text)
      → ((append_event svc fault now fresh db order status description location at payload).1 ≡ db)
        ⊎ ((s : Shipment) × (append_event svc fault now fresh db order status description location
                at payload
              ≡ append_to svc fault now fresh db order s
                  (entry s status description location at payload)
                  at
                  payload))
  unfolding append_event
  append_event-cases db order status description location at payload =
      elim (Option-cases (find_shipment order db.shipments)) [
        | inl unknown ↦ inl (ground arith)
        | inr (s, found) ↦ elim (Bool-cases (fault Query.get_shipment_by_order)) [
          | inl broken ↦ inl (ground arith)
          | inr sound ↦
              inr (s, append_event-eq db order status description location at payload s found sound)
        ]
      ]

  append_event-found :
      (db : Tables) (order : ℕ) (status : Status) (description location : Option Text)
      (at : Option ℕ) (payload : Text) {r : Event × Shipment}
      → (append_event svc fault now fresh db order status description location at payload).0 ≡ ok r
      → (s : Shipment) × (find_shipment order db.shipments ≡ some s)
        × (fault Query.get_shipment_by_order ≡ false)
  unfolding append_event
  append_event-found db order status description location at payload h =
      elim (Option-cases (find_shipment order db.shipments)) [
        | inl unknown ↦ absurd (ground arith)
        | inr (s, found) ↦ (s, found, ground arith)
      ]

  -- An accepted tracking event follows the shipment's last status, is recorded at the end of the events
  -- with its status, and becomes the last status of the order's shipment.
  pub append_event-IsAppended :
      (db : Tables) (order : ℕ) (status : Status) (description location : Option Text)
      (at : Option ℕ) (payload : Text) {r : Event × Shipment}
      → (append_event svc fault now fresh db order status description location at payload).0 ≡ ok r
      → IsAppended db
          (append_event svc fault now fresh db order status description location at payload).1
          order
          status
          r.0
  append_event-IsAppended db order status description location at payload {r = r} h =
      let (s, found, sound) =
        append_event-found db order status description location at payload h in
      let e = append_event-eq db order status description location at payload s found sound in
      let (first, appended) =
        append_to-IsAppended svc fault now fresh db order s
          (entry s status description location at payload) at payload found (rw e at h) in
      rw (e, first) appended

  -- A transition that is not allowed is refused, and nothing changes.
  pub append_event-refused :
      (db : Tables) (order : ℕ) (status : Status) (description location : Option Text)
      (at : Option ℕ) (payload : Text) (s : Shipment)
      → find_shipment order db.shipments ≡ some s
      → fault Query.get_shipment_by_order ≡ false
      → ¬ (Follows (current_status s) status)
      → append_event svc fault now fresh db order status description location at payload
        ≡ (err invalid_transition, db)
  unfolding append_event append_to
  append_event-refused db order status description location at payload s found sound no_way =
      elim (Bool-cases (is_transition_allowed (current_status s) status)) [
        | inl allowed ↦ absurd (no_way (Follows-of_allowed (current_status s) status allowed))
        | inr refused ↦ rw (sound, found, refused)
      ]
