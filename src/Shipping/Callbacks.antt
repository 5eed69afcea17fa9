-- ===== src/Shipping/Callbacks.antt =====
-- What a courier's callback to internal/shipping/webhook.go does.
use toko_api.Prelude.{
  ℕ, ◌≡◌, refl, ◌<◌, ◌+◌, Bool, true, false, some, List, [], ◌∷◌, Text, text_eq_refl, arith,
  Bool-cases, inl, inr,
}
use toko_api.Shipping.Status.{picked, pending, same_status, map_external_to_status}
use toko_api.Shipping.Store.{Event, Tables, Query, Shipment, find_shipment}
use toko_api.Shipping.Service.{Service, Error, Outcome, ok, err, invalid_transition, append_event}
use toko_api.Shipping.Progress.{IsAppended}
use toko_api.Shipping.Appended.{append_event-IsAppended}
use toko_api.Shipping.Route.{Reach, append_event-off_route}
use toko_api.Shipping.Webhook.{
  Request, Decoders, Payload, State, ReplayKey, no_content, replayed, invalid_state, is_held,
  decode_webhook_payload, response_of, handle_status, handle,
}

is_held-claimed :
    (now at ttl : ℕ) (courier hash : Text) (ks : List ReplayKey)
    → now < at + ttl
    → is_held now courier hash (record { courier = courier; hash = hash; expires = at + ttl } ∷ ks)
      ≡ true
unfolding is_held
is_held-claimed now at ttl courier hash ks h =
    ground (arith, text_eq_refl courier, text_eq_refl hash)

-- A callback with a body that claimed its key in the replay store, whatever it was answered, is answered 409
-- when it comes again before the key expires and the store answers, and nothing changes.
pub handle-replayed :
    (svc : Service) (d : Decoders) (fault fault' : Query → Bool) (now now' fresh fresh' ttl : ℕ)
    (s : State) (r : Request) (body : Text)
    → r.body ≡ some body
    → is_held now r.courier (d.sha256_hex body) s.replay ≡ false
    → now' < now + ttl
    → let s' = (handle svc d fault now fresh false ttl s r).1 in
      handle svc d fault' now' fresh' false ttl s' r ≡ (replayed, s')
unfolding handle
handle-replayed svc d fault fault' now now' fresh fresh' ttl s r body hb free soon =
    ground (arith, is_held-claimed now' now ttl r.courier (d.sha256_hex body) s.replay soon)

-- Where a callback goes, once it holds its replay key and is decoded.
handle-eq :
    (svc : Service) (d : Decoders) (fault : Query → Bool) (now fresh ttl : ℕ) (s : State)
    (r : Request) (body : Text) (p : Payload) (id : ℕ)
    → r.body ≡ some body
    → is_held now r.courier (d.sha256_hex body) s.replay ≡ false
    → decode_webhook_payload d body r ≡ some p
    → d.parse_uuid p.order_id ≡ some id
    → ((handle svc d fault now fresh false ttl s r).0
        ≡ (handle_status svc d fault now fresh s.tables id p body).0)
      × ((handle svc d fault now fresh false ttl s r).1.tables
          ≡ (handle_status svc d fault now fresh s.tables id p body).1)
unfolding handle
handle-eq svc d fault now fresh ttl s r body p id hb free decoded parsed = ground arith

response_of-no_content :
    (o : Outcome (Event × Shipment))
    → response_of o ≡ no_content
    → (r : Event × Shipment) × (o ≡ ok r)
unfolding response_of
response_of-no_content (ok r) h = (r, refl)
response_of-no_content (err invalid_transition) h = cc
response_of-no_content (err Error.no_rows) h = cc
response_of-no_content (err e) h = cc

handle_status-no_content :
    (svc : Service) (d : Decoders) (fault : Query → Bool) (now fresh : ℕ) (db : Tables) (id : ℕ)
    (p : Payload) (body : Text)
    → (handle_status svc d fault now fresh db id p body).0 ≡ no_content
    → (e : Event) × IsAppended db
        (handle_status svc d fault now fresh db id p body).1
        id
        (map_external_to_status p.external_status)
        e
unfolding handle_status
handle_status-no_content svc d fault now fresh db id p body h =
    elim (Bool-cases (same_status (map_external_to_status p.external_status) pending)) [
      | inl unknown ↦ absurd (ground arith)
      | inr known ↦
          let status = map_external_to_status p.external_status in
          let (r, done) =
            response_of-no_content
              (append_event svc fault now fresh db id status p.description p.location p.occurred_at
                body).0
              (rw known at h) in
          (
            r.0,
            rw known (
                append_event-IsAppended svc fault now fresh db id status p.description p.location
                  p.occurred_at body done),
          )
    ]

-- A callback answered 204 has appended an event with the status of its label to the order's shipment.
pub handle-IsAppended :
    (svc : Service) (d : Decoders) (fault : Query → Bool) (now fresh ttl : ℕ) (s : State)
    (r : Request) (body : Text) (p : Payload) (id : ℕ)
    → r.body ≡ some body
    → is_held now r.courier (d.sha256_hex body) s.replay ≡ false
    → decode_webhook_payload d body r ≡ some p
    → d.parse_uuid p.order_id ≡ some id
    → (handle svc d fault now fresh false ttl s r).0 ≡ no_content
    → (e : Event) × IsAppended s.tables
        (handle svc d fault now fresh false ttl s r).1.tables
        id
        (map_external_to_status p.external_status)
        e
handle-IsAppended svc d fault now fresh ttl s r body p id hb free decoded parsed h =
    let (e, t) = handle-eq svc d fault now fresh ttl s r body p id hb free decoded parsed in
    rw t (handle_status-no_content svc d fault now fresh s.tables id p body (rw e at h))

-- The courier labels for a pickup are recognised and can never be accepted: on tables that calls of the
-- service reach from an empty shipments table, the answer is 409 and the tables stay as they are.
pub handle-picked :
    (svc : Service) (d : Decoders) (fault : Query → Bool) (now fresh ttl : ℕ) (s : State)
    (r : Request) (body : Text) (p : Payload) (id : ℕ) (db : Tables) (shipment : Shipment)
    → r.body ≡ some body
    → is_held now r.courier (d.sha256_hex body) s.replay ≡ false
    → decode_webhook_payload d body r ≡ some p
    → d.parse_uuid p.order_id ≡ some id
    → map_external_to_status p.external_status ≡ picked
    → db.shipments ≡ []
    → Reach svc db s.tables
    → find_shipment id s.tables.shipments ≡ some shipment
    → fault Query.get_shipment_by_order ≡ false
    → ((handle svc d fault now fresh false ttl s r).0 ≡ invalid_state)
      × ((handle svc d fault now fresh false ttl s r).1.tables ≡ s.tables)
unfolding handle_status same_status response_of
handle-picked svc d fault now fresh ttl s r body p id db shipment hb free decoded parsed label empty
      reach found sound =
    let (e, t) = handle-eq svc d fault now fresh ttl s r body p id hb free decoded parsed in
    let refused =
      append_event-off_route svc db s.tables fault now fresh id picked p.description p.location
        p.occurred_at body shipment empty reach refl found sound in
    ground (arith, e, t, refused)
