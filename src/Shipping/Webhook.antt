-- ===== src/Shipping/Webhook.antt =====
-- internal/shipping/webhook.go. `Handle` works on the tables and on the Redis keys of its replay
-- protection; a key expires. The parameters are what it takes from elsewhere: SHA-256, `uuid.Parse`, the
-- JSON decoder (`none` for a body that it refuses), and `time.Parse`.
use toko_api.Prelude.{
  ℕ, Bool, false, ◌&&◌, ◌||◌, ◌+◌, Option, none, some, List, [], ◌∷◌, if◌then◌else◌, ltb, Text,
  is_empty, text_eq, trim_space,
}
use toko_api.Shipping.Status.{pending, same_status, map_external_to_status}
use toko_api.Shipping.Store.{Event, Shipment, Tables, Query}
use toko_api.Shipping.Service.{
  Service, Outcome, ok, err, invalid_transition, no_rows, append_event, optional_text,
}

pub record Payload : Type 0 where
  pub order_id : Text
  pub tracking_number : Text
  pub external_status : Text
  pub description : Option Text
  pub location : Option Text
  pub occurred_at : Option ℕ

abbrev pub no_payload : Payload
no_payload = record {
  order_id = [];
  tracking_number = [];
  external_status = [];
  description = none;
  location = none;
  occurred_at = none;
}

-- A callback: the courier of the path, the body (`none` where it cannot be read), and the query string.
pub record Request : Type 0 where
  pub courier : Text
  pub body : Option Text
  pub query_order_id : Text
  pub query_tracking : Text
  pub query_status : Text
  pub query_description : Text
  pub query_location : Text
  pub query_occurred_at : Text

pub record Decoders : Type 0 where
  pub sha256_hex : Text → Text
  pub parse_uuid : Text → Option ℕ
  pub decode_json : Text → Option Payload
  pub parse_time : Text → Option ℕ

-- A key of the replay store with the instant at which it expires.
pub record ReplayKey : Type 0 where
  pub courier : Text
  pub hash : Text
  pub expires : ℕ

pub record State : Type 0 where
  pub tables : Tables
  pub replay : List ReplayKey

pub data Response : Type 0 where
  no_content internal bad_request replayed invalid_state not_found : Response

abbrev or_text : Text → Text → Text
or_text value other = if is_empty value then other else value

abbrev or_trimmed : Option Text → Text → Option Text
or_trimmed none other = optional_text (trim_space other)
or_trimmed (some value) other = some value

abbrev or_time : Option ℕ → Option ℕ → Option ℕ
or_time none other = other
or_time (some t) other = some t

abbrev parsed_time : (Text → Option ℕ) → Text → Option ℕ
parsed_time parse ts = if is_empty ts then none else parse ts

abbrev given : Option Payload → Payload
given none = no_payload
given (some p) = p

-- the payload of the body, with what is missing taken from the query string
abbrev fill : Decoders → Payload → Request → Payload
fill d p r = record {
  order_id = or_text p.order_id r.query_order_id;
  tracking_number = or_text p.tracking_number r.query_tracking;
  external_status = or_text p.external_status r.query_status;
  description = or_trimmed p.description r.query_description;
  location = or_trimmed p.location r.query_location;
  occurred_at = or_time p.occurred_at (parsed_time d.parse_time (trim_space r.query_occurred_at));
}

-- `decodeWebhookPayload`; `none` is an error.
unfoldable pub decode_webhook_payload : Decoders → Text → Request → Option Payload
decode_webhook_payload d body r =
    let p = fill d (if is_empty body then no_payload else given (d.decode_json body)) r in
    if is_empty p.order_id || is_empty p.external_status then none else some p

unfoldable pub is_held : ℕ → Text → Text → List ReplayKey → Bool
unfolding text_eq
is_held now courier hash [] = false
is_held now courier hash (k ∷ ks) =
    (text_eq k.courier courier && text_eq k.hash hash && ltb now k.expires)
    || is_held now courier hash ks

-- the answer to the outcome of `AppendEvent`
unfoldable pub response_of : Outcome (Event × Shipment) → Response
response_of (ok r) = no_content
response_of (err invalid_transition) = invalid_state
response_of (err no_rows) = not_found
response_of (err e) = internal

module _ (svc : Service) (d : Decoders) (fault : Query → Bool) (now fresh : ℕ) where
  unfoldable pub handle_status : Tables → ℕ → Payload → Text → Response × Tables
  handle_status db order_id p body =
      let status = map_external_to_status p.external_status in
      if same_status status pending
      then (bad_request, db)
      else let (outcome, db') =
          append_event svc fault now fresh db order_id status p.description p.location p.occurred_at
            body in
        (response_of outcome, db')

  unfoldable pub handle_payload : Tables → Request → Text → Response × Tables
  unfolding handle_status
  handle_payload db r body = elim (decode_webhook_payload d body r) [
    | none ↦ (bad_request, db)
    | some p ↦ elim (d.parse_uuid p.order_id) [
      | none ↦ (bad_request, db)
      | some order_id ↦ handle_status db order_id p body
    ]
  ]

  unfoldable pub handle_body : Bool → ℕ → State → Request → Text → Response × State
  unfolding handle_payload
  handle_body redis_fails ttl s r body =
      let hash = d.sha256_hex body in
      if redis_fails
      then (internal, s)
      else if is_held now r.courier hash s.replay
      then (replayed, s)
      else let (response, tables) = handle_payload s.tables r body in
        let key : ReplayKey = record { courier = r.courier; hash = hash; expires = now + ttl } in
        (response, record { tables = tables; replay = key ∷ s.replay })

  -- `Webhook.Handle` of a webhook whose service and replay store are configured; `redis_fails` is an
  -- error of `SetNX`, and `ttl` the positive lifetime of its keys.
  unfoldable pub handle : Bool → ℕ → State → Request → Response × State
  unfolding handle_body
  handle redis_fails ttl s r = elim r.body [
    | none ↦ (bad_request, s)
    | some body ↦ handle_body redis_fails ttl s r body
  ]
