-- ===== src/Notify/Dispatcher.antt =====
-- internal/notify/webhook.go, dispatcher_enqueue.go and webhook_worker.go, over the queue of Queue.Enqueuer.
-- The instants of one call are one: `now`, in nanoseconds. `parse_url` is `url.Parse`, `id_text` the text
-- of a UUID, `exchange` what the HTTP client and the reading of the body return, and `reason` and
-- `load_reason` the formatted errors. The payload of an event is a JSON column, so it encodes.
use toko_api.Prelude.{
  ℕ, ◌^◌, ℤ, pos, negsuc, Bool, true, false, not, ◌&&◌, Option, none, some, List, [], ◌∷◌, ◌++◌,
  ◌+ℤ◌, ◌*ℤ◌, ltb, ltb_ℤ, leb_ℤ, if◌then◌else◌, Text, codes, text_eq, is_empty, trim_space, wrap32,
  wrap64, ◌-ℤ◌,
}
use toko_api.Queue.Redis.{Held, Redis, Command, Json, is_held}
use toko_api.Queue.Enqueuer
use toko_api.Queue.Enqueuer.{Task, Enqueuer, enqueue}
use toko_api.Notify.Store.{
  Status, delivered, dlq, Endpoint, Event, Delivery, Tables, Query, mark_delivering, mark_delivered,
  mark_failed, move_to_dlq, insert_dlq, get_delivery, get_endpoint, get_event, find_endpoint,
  find_event, find_delivery, update_delivery, delivering_row, delivered_row, failed_row, dlq_row,
  with_deliveries,
}

pub record Url : Type 0 where
  pub scheme : Text
  pub hostname : Text
  pub host : Text

-- a request that left the dispatcher
pub record Sent : Type 0 where
  pub endpoint_id : ℕ
  pub event_id : ℕ
  pub delivery_id : ℕ

pub record World : Type 0 where
  pub tables : Tables
  pub redis : Redis
  pub replay : List Held
  pub sent : List Sent

-- `queue` is `none` for an enqueuer without Redis, `replay_ttl` for a dispatcher without a protector.
pub record Dispatcher : Type 0 where
  pub queue : Option Enqueuer
  pub backoff_base_sec : ℤ
  pub default_max_attempts : ℤ
  pub enabled : Bool
  pub replay_ttl : Option ℤ

pub data Error : Type 0 where
  no_rows invalid_delivery_id : Error
  database : Query → Error
  enqueuing : Enqueuer.Error → Error

-- What an attempt gives: a status and a body, or an error with the status that came before it.
pub data Answer : Type 0 where
  answered : ℤ → Text → Answer
  broken : ℤ → Answer

pub record Env : Type 0 where
  pub now : ℤ
  pub json : Json
  pub rounded : ℤ → ℤ
  pub parse_url : Text → Option Url
  pub parse_uuid : Text → Option ℕ
  pub id_text : ℕ → Text
  pub exchange : Endpoint → Event → Delivery → Answer
  pub reason : Answer → Text
  pub load_reason : Query → Text
  pub fault : Query → Bool
  pub queue_fault : Command → Bool
  pub replay_fault : Bool

-- `validateURL`; true where it returns no error.
unfoldable pub validate_url : Env → Text → Bool
unfolding text_eq
validate_url v raw = elim (v.parse_url raw) [
  | none ↦ false
  | some u ↦
      if not (text_eq u.scheme (codes "https")) && not (text_eq u.scheme (codes "http"))
      then false
      else if text_eq u.scheme (codes "http")
          && not (text_eq u.hostname (codes "localhost"))
          && not (text_eq u.hostname (codes "127.0.0.1"))
      then false
      else not (is_empty u.host)
]

-- `replayKey`
abbrev pub replay_key : Env → Delivery → Text
replay_key v d = codes "wh:" ++ v.id_text d.endpoint_id ++ codes ":" ++ v.id_text d.event_id

-- `1 << attempt` in int64, at least 1
abbrev pub factor_of : ℤ → ℤ
factor_of (pos a) = if ltb a 63 then pos (2 ^ a) else pos 1
factor_of (negsuc a) = pos 1

-- `nextDelay`, in seconds
unfoldable pub next_delay : Dispatcher → ℤ → ℤ
next_delay d attempt =
    wrap64 (
      (if leb_ℤ d.backoff_base_sec (pos 0) then pos 5 else d.backoff_base_sec) *ℤ factor_of attempt)

-- the number of attempts of a delivery's task
abbrev pub max_of : ℤ → ℤ → ℤ
max_of own default =
    if ltb_ℤ (pos 0) own then own else if ltb_ℤ (pos 0) default then default else pos 6

abbrev task_of : Text → ℤ → ℤ → Task
task_of id delay max = record {
  kind = codes "webhook-delivery";
  payload = id;
  idempotency_key = id;
  max_attempts = max;
  attempt = pos 0;
  delay = delay;
}

module _ (d : Dispatcher) (v : Env) where
  -- `EnqueueDelivery` of dispatcher_enqueue.go
  unfoldable pub schedule_delivery : Text → ℤ → ℤ → World → Option Error × World
  schedule_delivery id delay max w = if is_empty (trim_space id) then (none, w) else elim d.queue [
    | none ↦ (none, w)
    | some e ↦
        (let (error, r) =
            enqueue v.json v.rounded e v.queue_fault v.now w.redis
              (task_of id delay (max_of max d.default_max_attempts)) in
          elim error [
            | none ↦ (none, record w { redis = r })
            | some x ↦ (some (enqueuing x), record w { redis = r })
          ])
  ]

  abbrev send : Endpoint → Event → Delivery → World → Answer × World
  send ep ev del w = (
    v.exchange ep ev del,
    record w {
      sent = w.sent ++ record { endpoint_id = ep.id; event_id = ev.id; delivery_id = del.id } ∷ [];
    },
  )

  -- the claim of the replay key, then the request
  unfoldable pub send_once : ℤ → Endpoint → Event → Delivery → World → Answer × World
  send_once ttl ep ev del w =
      let key = replay_key v del in
      if v.replay_fault
      then (broken (pos 0), w)
      else if is_held v.now key w.replay
      then (answered (pos 200) (codes "replay-suppressed"), w)
      else send ep ev del
          (record w { replay = record { key = key; expires = v.now +ℤ ttl } ∷ w.replay })

  -- `deliver`
  unfoldable pub deliver : Endpoint → Event → Delivery → World → Answer × World
  unfolding send_once
  deliver ep ev del w =
      if not (validate_url v ep.url) then (broken (pos 0), w) else elim d.replay_ttl [
        | none ↦ send ep ev del w
        | some ttl ↦ if ltb_ℤ (pos 0) ttl then send_once ttl ep ev del w else send ep ev del w
      ]

  -- a statement of `:exec` on the deliveries, and whether it failed
  abbrev pub write : Query → (Delivery → Delivery) → ℕ → World → Option Error × World
  write q change id w =
      if v.fault q
      then (some (database q), w)
      else (none, record w { tables = with_deliveries (update_delivery change id) w.tables })

  -- `InsertWebhookDlq` with its error dropped
  abbrev pub bury : ℕ → Text → World → World
  bury id reason w = if v.fault insert_dlq then w else (record w {
    tables = record w.tables {
      dead = w.tables.dead ++ record { delivery_id = id; reason = reason } ∷ [];
    };
  })

  -- `MarkFailedWithBackoff`, and the task of the next attempt
  unfoldable pub retry : Delivery → Text → World → Option Error × World
  unfolding schedule_delivery
  retry del reason w =
      let delay = next_delay d del.attempt in
      let (error, w') =
        write mark_failed (failed_row v.now (wrap32 delay *ℤ pos 1000000000) reason) del.id w in
      elim error [
        | some e ↦ (some e, w')
        | none ↦
            schedule_delivery (v.id_text del.id) (wrap64 (delay *ℤ pos 1000000000)) del.max_attempt
              w'
      ]

  -- `int(del.Attempt+1) >= int(del.MaxAttempt)`
  abbrev pub is_last : Delivery → Bool
  is_last del = leb_ℤ del.max_attempt (wrap32 (del.attempt +ℤ pos 1))

  -- `failDelivery`, which returns the error of `MoveToDLQ`
  unfoldable pub fail_delivery : Delivery → Text → World → Option Error × World
  unfolding retry
  fail_delivery del reason w =
      if is_last del
      then (let (error, w') = write move_to_dlq (dlq_row reason) del.id w in
          elim error [ some e ↦ (some e, w') | none ↦ (none, bury del.id reason w') ])
      else retry del reason w

  -- the end of `processDelivery` for an attempt that failed, which drops the error of `MoveToDLQ`
  unfoldable pub reject : Delivery → Answer → World → Option Error × World
  unfolding retry
  reject del a w =
      if is_last del
      then (none, bury del.id (v.reason a) (write move_to_dlq (dlq_row (v.reason a)) del.id w).1)
      else retry del (v.reason a) w

  abbrev pub nonempty_body : Text → Option Text
  nonempty_body body = if is_empty body then none else some body

  -- `deliverErr == nil && status >= 200 && status < 300`
  unfoldable pub conclude : Delivery → Answer → World → Option Error × World
  unfolding reject
  conclude del (broken status) w = reject del (broken status) w
  conclude del (answered status body) w =
      if leb_ℤ (pos 200) status && ltb_ℤ status (pos 300)
      then write mark_delivered (delivered_row (some (wrap32 status)) (nonempty_body body)) del.id w
      else reject del (answered status body) w

  -- a row, or `none` where the query fails or finds none
  abbrev pub loaded {ℓ} : {A : Type ℓ} → Query → Option A → Option A
  loaded q none = none
  loaded q (some a) = if v.fault q then none else some a

  unfoldable pub attempt_delivery : Delivery → World → Option Error × World
  unfolding fail_delivery conclude deliver
  attempt_delivery del w =
      elim (loaded get_endpoint (find_endpoint del.endpoint_id w.tables.endpoints)) [
        | none ↦ fail_delivery del (v.load_reason get_endpoint) w
        | some ep ↦ elim (loaded get_event (find_event del.event_id w.tables.events)) [
          | none ↦ fail_delivery del (v.load_reason get_event) w
          | some ev ↦ (let (answer, w') = deliver ep ev del w in conclude del answer w')
        ]
      ]

  -- `processDelivery`
  unfoldable pub process_delivery : Delivery → World → Option Error × World
  unfolding attempt_delivery
  process_delivery del w =
      let (error, w') = write mark_delivering delivering_row del.id w in
      elim error [ some e ↦ (some e, w') | none ↦ attempt_delivery del w' ]

  abbrev pub is_final : Status → Bool
  is_final delivered = true
  is_final dlq = true
  is_final _ = false

  -- the time that a delivery still has to wait
  abbrev wait_of : Option ℤ → Option ℤ
  wait_of none = none
  wait_of (some at) = if ltb_ℤ v.now at then some (at -ℤ v.now) else none

  -- `DeliverByID` for the row found
  unfoldable pub deliver_row : Text → Delivery → World → Option Error × World
  unfolding process_delivery schedule_delivery
  deliver_row id del w =
      if is_final del.status then (none, w) else elim (wait_of del.next_attempt_at) [
        | some wait ↦ schedule_delivery id wait del.max_attempt w
        | none ↦ process_delivery del w
      ]

  -- `DeliverByID`
  unfoldable pub deliver_by_id : Text → World → Option Error × World
  unfolding deliver_row
  deliver_by_id id w = elim (v.parse_uuid (trim_space id)) [
    | none ↦ (some invalid_delivery_id, w)
    | some key ↦
        if v.fault get_delivery
        then (some (database get_delivery), w)
        else elim (find_delivery key w.tables.deliveries) [
          | none ↦ (some no_rows, w)
          | some del ↦ deliver_row id del w
        ]
  ]
