-- ===== src/Notify/Store.antt =====
-- The tables of webhooks, deliveries and dead letters, and the queries of the generated code on them
-- (internal/db/gen/webhooks.sql.go). Only the columns that the modelled code reads or writes are kept.
use toko_api.Prelude.{
  ℕ, suc, ℤ, pos, Bool, ◌&&◌, ◌||◌, Option, none, some, List, [], ◌∷◌, ◌++◌, ◌==◌, ◌+ℤ◌,
  if◌then◌else◌, Text, text_eq, any, is_nonempty, not,
}

pub data Status : Type 0 where
  pending delivering delivered failed dlq : Status

pub record Endpoint : Type 0 where
  pub id : ℕ
  pub url : Text
  pub secret : Text
  pub active : Bool
  pub topics : List Text

pub record Event : Type 0 where
  pub id : ℕ
  pub topic : Text
  pub payload : Text

pub record Delivery : Type 0 where
  pub id : ℕ
  pub endpoint_id : ℕ
  pub event_id : ℕ
  pub status : Status
  pub attempt : ℤ
  pub max_attempt : ℤ
  pub next_attempt_at : Option ℤ
  pub last_error : Option Text
  pub response_status : Option ℤ
  pub response_body : Option Text

pub record Dead : Type 0 where
  pub delivery_id : ℕ
  pub reason : Text

pub record Tables : Type 0 where
  pub endpoints : List Endpoint
  pub events : List Event
  pub deliveries : List Delivery
  pub dead : List Dead
  pub next_id : ℕ

pub data Query : Type 0 where
  list_active_endpoints enqueue_delivery mark_delivering mark_delivered mark_failed move_to_dlq
        insert_dlq get_delivery get_endpoint get_event reset_delivery delete_dlq dequeue_due :
      Query

unfoldable pub find_endpoint : ℕ → List Endpoint → Option Endpoint
find_endpoint id [] = none
find_endpoint id (e ∷ es) = if e.id == id then some e else find_endpoint id es

unfoldable pub find_event : ℕ → List Event → Option Event
find_event id [] = none
find_event id (e ∷ es) = if e.id == id then some e else find_event id es

unfoldable pub find_delivery : ℕ → List Delivery → Option Delivery
find_delivery id [] = none
find_delivery id (d ∷ ds) = if d.id == id then some d else find_delivery id ds

-- `UPDATE webhook_deliveries SET ... WHERE id = $1`
unfoldable pub update_delivery : (Delivery → Delivery) → ℕ → List Delivery → List Delivery
update_delivery change id [] = []
update_delivery change id (d ∷ ds) =
    (if d.id == id then change d else d) ∷ update_delivery change id ds

-- `active = true AND (coalesce(array_length(topics, 1), 0) = 0 OR $1 = ANY(topics))`
abbrev pub is_subscribed : Text → Endpoint → Bool
is_subscribed topic e =
    e.active && (not (is_nonempty e.topics) || any (λ t. text_eq t topic) e.topics)

unfoldable pub active_endpoints : Text → List Endpoint → List Endpoint
active_endpoints topic [] = []
active_endpoints topic (e ∷ es) =
    let rest = active_endpoints topic es in if is_subscribed topic e then e ∷ rest else rest

-- the unique key of a delivery
abbrev pub is_pair : ℕ → ℕ → Delivery → Bool
is_pair endpoint event d = d.endpoint_id == endpoint && d.event_id == event

-- `MarkDelivering`
abbrev pub delivering_row : Delivery → Delivery
delivering_row d = record d { status = delivering }

-- `MarkDelivered`
abbrev pub delivered_row : Option ℤ → Option Text → Delivery → Delivery
delivered_row code body d = record d {
  status = delivered;
  response_status = code;
  response_body = body;
  last_error = none;
  next_attempt_at = none;
}

-- `MarkFailedWithBackoff`
abbrev pub failed_row : ℤ → ℤ → Text → Delivery → Delivery
failed_row now delay reason d = record d {
  status = failed;
  attempt = d.attempt +ℤ pos 1;
  next_attempt_at = some (now +ℤ delay);
  last_error = some reason;
}

-- `MoveToDLQ`
abbrev pub dlq_row : Text → Delivery → Delivery
dlq_row reason d = record d { status = dlq; last_error = some reason; next_attempt_at = none }

-- `ResetDeliveryForReplay`
abbrev pub reset_row : ℤ → Delivery → Delivery
reset_row now d = record d {
  status = pending;
  attempt = pos 0;
  next_attempt_at = some now;
  last_error = none;
  response_status = none;
  response_body = none;
}

abbrev pub with_deliveries : (List Delivery → List Delivery) → Tables → Tables
with_deliveries f db = record db { deliveries = f db.deliveries }

-- `EnqueueDelivery`; `none` is the violation of the unique key.
unfoldable pub insert_delivery : ℤ → ℕ → ℕ → ℤ → Tables → Option (Delivery × Tables)
insert_delivery now endpoint event max db =
    if any (is_pair endpoint event) db.deliveries
    then none
    else (let d : Delivery = record {
      id = db.next_id;
      endpoint_id = endpoint;
      event_id = event;
      status = pending;
      attempt = pos 0;
      max_attempt = max;
      next_attempt_at = some now;
      last_error = none;
      response_status = none;
      response_body = none;
    } in
        some (d, record db { deliveries = db.deliveries ++ d ∷ []; next_id = suc db.next_id }))
