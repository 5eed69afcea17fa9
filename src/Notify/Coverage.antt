-- ===== src/Notify/Coverage.antt =====
-- Which deliveries `Schedule` of internal/notify/webhook.go makes.
use toko_api.Prelude.{
  ℤ, ◌≡◌, refl, sym, Bool, true, false, List, [], ◌∷◌, Text, is_empty, trim_space, any, arith, All,
  text_eq, text_eq_refl, Bool-cases, inl, inr, any_append-left, any_append-last,
}
use mathlib.Core.Path.{subst}
use toko_api.Notify.Store.{
  Endpoint, Event, list_active_endpoints, enqueue_delivery, is_pair, active_endpoints,
  insert_delivery, is_subscribed,
}
use toko_api.Notify.Dispatcher.{World, Dispatcher, Env, Error, schedule_delivery}
use toko_api.Notify.Worker.{schedule_endpoint, schedule_all, schedule}

-- The event has a delivery for the endpoint.
abbrev pub has_pair : Event → Endpoint → World → Bool
has_pair ev ep w = any (is_pair ep.id ev.id) w.tables.deliveries

module _ (d : Dispatcher) (v : Env) (ev : Event) where
  schedule_delivery-deliveries :
      (id : Text) (delay max : ℤ) (w : World)
      → (schedule_delivery d v id delay max w).1.tables ≡ w.tables
  unfolding schedule_delivery
  schedule_delivery-deliveries id delay max w = ground arith

  -- A round of the loop keeps the deliveries that are there, and leaves one for its endpoint.
  schedule_endpoint-keeps :
      (ep other : Endpoint) (errors : List Error) (w : World)
      → has_pair ev other w ≡ true
      → has_pair ev other (schedule_endpoint d v ev ep errors w).1 ≡ true
  unfolding schedule_endpoint insert_delivery
  schedule_endpoint-keeps ep other errors w h =
      grind (arith, schedule_delivery-deliveries, any_append-left)

  schedule_endpoint-adds :
      (ep : Endpoint) (errors : List Error) (w : World)
      → v.fault enqueue_delivery ≡ false
      → has_pair ev ep (schedule_endpoint d v ev ep errors w).1 ≡ true
  unfolding schedule_endpoint insert_delivery
  schedule_endpoint-adds ep errors w f =
      grind (arith, f, schedule_delivery-deliveries, any_append-last)

  schedule_all-keeps :
      (endpoints : List Endpoint) (other : Endpoint) (errors : List Error) (w : World)
      → has_pair ev other w ≡ true
      → has_pair ev other (schedule_all d v ev endpoints errors w).1 ≡ true
  unfolding schedule_all
  schedule_all-keeps [] other errors w h = h
  schedule_all-keeps (ep ∷ endpoints) other errors w h =
      let (errors', w') = schedule_endpoint d v ev ep errors w in
      schedule_all-keeps endpoints other errors' w' (schedule_endpoint-keeps ep other errors w h)

  -- Every one of the endpoints has a delivery for the event.
  pub Covers : List Endpoint → World → Type 0
  Covers endpoints w = All (λ ep. has_pair ev ep w ≡ true) endpoints

  schedule_all-Covers :
      (endpoints : List Endpoint) (errors : List Error) (w : World)
      → v.fault enqueue_delivery ≡ false
      → Covers endpoints (schedule_all d v ev endpoints errors w).1
  unfolding schedule_all Covers
  schedule_all-Covers [] errors w f = tt
  schedule_all-Covers (ep ∷ endpoints) errors w f =
      let (errors', w') = schedule_endpoint d v ev ep errors w in
      (
        schedule_all-keeps endpoints ep errors' w' (schedule_endpoint-adds ep errors w f),
        schedule_all-Covers endpoints errors' w' f,
      )

  schedule-open :
      (w : World)
      → d.enabled ≡ true
      → is_empty (trim_space ev.topic) ≡ false
      → v.fault list_active_endpoints ≡ false
      → schedule d v ev w ≡ schedule_all d v ev (active_endpoints ev.topic w.tables.endpoints) [] w
  unfolding schedule
  schedule-open w on named listed = simp (on, named, listed)

  schedule-Covers :
      (w : World)
      → d.enabled ≡ true
      → is_empty (trim_space ev.topic) ≡ false
      → v.fault list_active_endpoints ≡ false
      → v.fault enqueue_delivery ≡ false
      → Covers (active_endpoints ev.topic w.tables.endpoints) (schedule d v ev w).1
  schedule-Covers w on named listed f =
      let endpoints = active_endpoints ev.topic w.tables.endpoints in
      subst (λ (x : List Error × World). Covers endpoints x.1)
        (sym (schedule-open w on named listed)) (schedule_all-Covers endpoints [] w f)

-- The topic is one of the list.
pub data Listed (topic : Text) : List Text → Type 0 where
  first : (ts : List Text) → Listed topic (topic ∷ ts)
  later : (t : Text) {ts : List Text} → Listed topic ts → Listed topic (t ∷ ts)

-- The endpoint takes the events of all topics, or lists the topic.
pub data Subscribes (topic : Text) (ep : Endpoint) : Type 0 where
  to_all : ep.topics ≡ [] → Subscribes topic ep
  to_topic : Listed topic ep.topics → Subscribes topic ep

any-Listed :
    (topic : Text) {ts : List Text} → Listed topic ts → any (λ t. text_eq t topic) ts ≡ true
any-Listed topic (first ts) = rw (text_eq_refl topic) refl
any-Listed topic (later t l) = ground (arith, any-Listed topic l)

is_subscribed_of :
    (topic : Text) (ep : Endpoint)
    → ep.active ≡ true
    → Subscribes topic ep
    → is_subscribed topic ep ≡ true
is_subscribed_of topic ep on (to_all e) = rw (on, e) refl
is_subscribed_of topic ep on (to_topic l) = ground (arith, on, any-Listed topic l)

module _ (ev : Event) (w : World) where
  -- Every active endpoint of the table that subscribes to the event's topic has a delivery of it.
  abbrev pub Served : List Endpoint → Type 0
  Served endpoints =
      All (λ ep. ep.active ≡ true → Subscribes ev.topic ep → has_pair ev ep w ≡ true) endpoints

  Served-IsSubscribed :
      (d : Dispatcher) (v : Env) (endpoints : List Endpoint)
      → Covers d v ev (active_endpoints ev.topic endpoints) w
      → Served endpoints
  unfolding active_endpoints Covers
  Served-IsSubscribed d v [] c = tt
  Served-IsSubscribed d v (ep ∷ endpoints) c = elim (Bool-cases (is_subscribed ev.topic ep)) [
    | inl taken ↦
        let (here, rest) : (has_pair ev ep w ≡ true)
            × Covers d v ev (active_endpoints ev.topic endpoints) w =
          rw taken at c in
        (λ on sub. here, Served-IsSubscribed d v endpoints rest)
    | inr left ↦ (
      λ on sub. cc (left, is_subscribed_of ev.topic ep on sub),
      Served-IsSubscribed d v endpoints (rw left at c),
    )
  ]

-- Where the database answers, an enabled dispatcher that schedules an event of a named topic leaves a
-- delivery for every active endpoint of the table whose topics are empty or list that topic, whatever
-- becomes of the tasks on the queue.
pub schedule-Served :
    (d : Dispatcher) (v : Env) (ev : Event) (w : World)
    → d.enabled ≡ true
    → is_empty (trim_space ev.topic) ≡ false
    → v.fault list_active_endpoints ≡ false
    → v.fault enqueue_delivery ≡ false
    → Served ev (schedule d v ev w).1 w.tables.endpoints
schedule-Served d v ev w on named listed f =
    Served-IsSubscribed ev (schedule d v ev w).1 d v w.tables.endpoints
      (schedule-Covers d v ev w on named listed f)
