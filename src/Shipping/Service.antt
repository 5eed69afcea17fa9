-- ===== src/Shipping/Service.antt =====
-- internal/shipping/service.go. `fresh` is the id that the database gives a new row, `now` its clock,
-- and `is_json` the JSON decoder's verdict on the raw payload.
use toko_api.Prelude.{
  ℕ, Bool, true, false, not, ◌&&◌, ◌||◌, Option, none, some, [], ◌∷◌, ◌++◌, if◌then◌else◌, leb_ℤ,
  Text, is_empty,
}
use toko_api.Order.Status.{Status as OrderStatus, rank}
use toko_api.Order.Store.{find_order, set_status_if_allowed}
use toko_api.Shipping.Status.{
  Status, pending, shipped, out_for_delivery, delivered, is_transition_allowed, to_order_status,
  topic_of, notification_content,
}
use toko_api.Shipping.Store.{
  Shipment, Event, Tables, Query, get_order_by_id, get_shipment_by_order, create_shipment,
  update_order_status_if_allowed, insert_shipment_event, update_shipment_status, get_order_status,
  get_user_by_id, find_shipment, find_user, set_shipment_status,
}

pub data Error : Type 0 where
  shipment_already_exists order_not_eligible invalid_transition no_rows : Error
  database : Query → Error

pub data Outcome (A : Type 0) : Type 0 where
  ok : A → Outcome A
  err : Error → Outcome A

pub record Service : Type 0 where
  pub sends_mail : Bool
  pub notify_on_shipped : Bool
  pub notify_on_out_for_delivery : Bool
  pub notify_on_delivered : Bool
  pub emits_events : Bool
  pub is_json : Text → Bool

-- `optionalText`
abbrev pub optional_text : Text → Option Text
optional_text value = if is_empty value then none else some value

-- `optionalNullableText`
abbrev pub optional_nullable_text : Option Text → Option Text
optional_nullable_text none = none
optional_nullable_text (some value) = optional_text value

abbrev is_shippable : OrderStatus → Bool
is_shippable OrderStatus.paid = true
is_shippable OrderStatus.packed = true
is_shippable _ = false

abbrev pub or_else {ℓ} : {A : Type ℓ} → Option A → A → A
or_else none d = d
or_else (some a) d = a

-- the status from which a transition starts
abbrev pub current_status : Shipment → Status
current_status s = or_else s.last_status s.status

module _ (svc : Service) (fault : Query → Bool) (now fresh : ℕ) where
  -- the end of `Create`: the order moves on to PACKED where it may
  unfoldable pub pack_order : Tables → ℕ → Shipment → Outcome Shipment × Tables
  pack_order db order_id shipment =
      if fault update_order_status_if_allowed
      then (err (database update_order_status_if_allowed), db)
      else elim (set_status_if_allowed order_id OrderStatus.packed db.orders) [
        | none ↦ (ok shipment, db)
        | some orders ↦ (ok shipment, record db { orders = orders })
      ]

  unfoldable pub create_for : Tables → ℕ → Text → Text → Outcome Shipment × Tables
  unfolding pack_order
  create_for db order_id courier tracking =
      if fault get_shipment_by_order
      then (err (database get_shipment_by_order), db)
      else elim (find_shipment order_id db.shipments) [
        | some s ↦ (err shipment_already_exists, db)
        | none ↦
            if fault create_shipment
            then (err (database create_shipment), db)
            else let shipment : Shipment = record {
              id = fresh;
              order_id = order_id;
              status = pending;
              courier = optional_text courier;
              tracking_number = optional_text tracking;
              last_status = some pending;
              last_event_at = some now;
            } in
              pack_order (record db { shipments = db.shipments ++ shipment ∷ [] }) order_id shipment
      ]

  -- `Service.Create`
  unfoldable pub create : Tables → ℕ → Text → Text → Outcome Shipment × Tables
  unfolding create_for
  create db order_id courier tracking =
      if fault get_order_by_id
      then (err (database get_order_by_id), db)
      else elim (find_order order_id db.orders) [
        | none ↦ (err no_rows, db)
        | some o ↦
            if not (is_shippable o.status)
            then (err order_not_eligible, db)
            else create_for db order_id courier tracking
      ]

  -- the update of `syncOrderStatus` towards a target, from the status that the order has
  unfoldable pub advance_order : Tables → ℕ → OrderStatus → OrderStatus → Option Error × Tables
  advance_order db order_id current target =
      if leb_ℤ (rank target) (rank current)
      then (none, db)
      else if fault update_order_status_if_allowed
      then (some (database update_order_status_if_allowed), db)
      else elim (set_status_if_allowed order_id target db.orders) [
        | none ↦ (none, db)
        | some orders ↦ (none, record db { orders = orders })
      ]

  -- `syncOrderStatus`
  unfoldable pub sync_order_status : Tables → ℕ → Status → Option Error × Tables
  unfolding advance_order
  sync_order_status db order_id status = elim (to_order_status status) [
    | none ↦ (none, db)
    | some target ↦
        if fault get_order_status
        then (some (database get_order_status), db)
        else elim (find_order order_id db.orders) [
          | none ↦ (some no_rows, db)
          | some o ↦ advance_order db order_id o.status target
        ]
  ]

  abbrev is_notified : Status → Bool
  is_notified shipped = svc.notify_on_shipped
  is_notified out_for_delivery = svc.notify_on_out_for_delivery
  is_notified delivered = svc.notify_on_delivered
  is_notified _ = false

  abbrev user_of : Tables → Option ℕ → Option Text
  user_of db none = none
  user_of db (some id) = elim (find_user id db.users) [ none ↦ none | some u ↦ some u.email ]

  -- the address of the order's user, `none` where one of the two queries fails
  unfoldable pub email_of : Tables → ℕ → Option Text
  email_of db order_id =
      if fault get_order_by_id || fault get_user_by_id
      then none
      else elim (find_order order_id db.orders) [ none ↦ none | some o ↦ user_of db o.user_id ]

  -- `notify`
  unfoldable pub notify : Tables → ℕ → Status → Tables
  unfolding email_of
  notify db order_id status =
      if svc.sends_mail && is_notified status
      then elim (email_of db order_id) [
        | none ↦ db
        | some to ↦
            let (subject, body) = notification_content status in
            record db {
              mails = db.mails ++ record { to = to; subject = subject; body = body } ∷ [];
            }
      ]
      else db

  -- `emit`; an empty address is left out of the event
  unfoldable pub emit : Tables → ℕ → ℕ → Status → Text → Tables
  unfolding email_of
  emit db order_id shipment_id status raw =
      if not svc.emits_events then db else elim (topic_of status) [
        | none ↦ db
        | some topic ↦ record db {
          emitted =
              db.emitted
              ++ record {
                topic = topic;
                order_id = order_id;
                shipment_id = shipment_id;
                status = status;
                has_payload = not (is_empty raw) && svc.is_json raw;
                email = optional_nullable_text (email_of db order_id);
              }
                ∷ [];
        }
      ]

  -- the end of `AppendEvent`, once the shipment is updated
  unfoldable pub follow_up :
      Tables → ℕ → Event → Shipment → Text → Outcome (Event × Shipment) × Tables
  unfolding sync_order_status notify emit
  follow_up db order_id event shipment payload =
      let (failure, db') = sync_order_status db order_id event.status in
      elim failure [
        | some e ↦ (err e, db')
        | none ↦ (
          ok (event, shipment),
          emit (notify db' order_id event.status) order_id shipment.id event.status payload,
        )
      ]

  unfoldable pub append_to :
      Tables → ℕ → Shipment → Event → Option ℕ → Text → Outcome (Event × Shipment) × Tables
  unfolding follow_up
  append_to db order_id s event occurred_at payload =
      if not (is_transition_allowed (current_status s) event.status)
      then (err invalid_transition, db)
      else if fault insert_shipment_event
      then (err (database insert_shipment_event), db)
      else let db' : Tables = record db { events = db.events ++ event ∷ [] } in
        if fault update_shipment_status
        then (err (database update_shipment_status), db')
        else follow_up
            (record db' { shipments = set_shipment_status now s.id event.status db.shipments })
            order_id event
            (record s {
              status = event.status;
              last_status = some event.status;
              last_event_at = some (or_else occurred_at event.occurred_at);
            })
            payload

  -- `Service.AppendEvent`
  unfoldable pub append_event :
      Tables
      → ℕ
      → Status
      → Option Text
      → Option Text
      → Option ℕ
      → Text
      → Outcome (Event × Shipment) × Tables
  unfolding append_to
  append_event db order_id status description location occurred_at payload =
      if fault get_shipment_by_order
      then (err (database get_shipment_by_order), db)
      else elim (find_shipment order_id db.shipments) [
        | none ↦ (err no_rows, db)
        | some s ↦
            append_to db order_id s
              (record {
                id = fresh;
                shipment_id = s.id;
                status = status;
                description = optional_nullable_text description;
                location = optional_nullable_text location;
                occurred_at = or_else occurred_at now;
                raw_payload = payload;
              })
              occurred_at payload
      ]
