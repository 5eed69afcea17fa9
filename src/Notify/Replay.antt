-- ===== src/Notify/Replay.antt =====
-- The replay protection of `deliver` in internal/notify/webhook.go.
use toko_api.Prelude.{
  ℤ, pos, ◌≡◌, refl, ◌∙◌, ap, true, false, Option, some, List, ◌∷◌, ◌+ℤ◌, ltb_ℤ, Text, codes,
  text_eq_refl, arith, wrap32,
}
use toko_api.Queue.Redis.{Held, is_held}
use toko_api.Notify.Store.{
  delivered, Endpoint, Event, Delivery, mark_delivering, get_endpoint, get_event, find_endpoint,
  find_event, update_delivery, with_deliveries, delivering_row, delivered_row,
}
use toko_api.Notify.Dispatcher.{
  World, Dispatcher, Env, Error, Answer, answered, validate_url, replay_key, schedule_delivery,
  send_once, deliver, retry, reject, conclude, loaded, attempt_delivery, process_delivery,
  nonempty_body,
}
use toko_api.Notify.Progress.{IsWritable, row_in, find_delivery-update}

module _ (d : Dispatcher) (v : Env) where
  schedule_delivery-replay :
      (id : Text) (delay max : ℤ) (w : World)
      → ((schedule_delivery d v id delay max w).1.replay ≡ w.replay)
        × ((schedule_delivery d v id delay max w).1.sent ≡ w.sent)
  unfolding schedule_delivery
  schedule_delivery-replay id delay max w = ground arith

  retry-replay :
      (del : Delivery) (reason : Text) (w : World)
      → ((retry d v del reason w).1.replay ≡ w.replay) × ((retry d v del reason w).1.sent ≡ w.sent)
  unfolding retry
  retry-replay del reason w = grind (arith, schedule_delivery-replay)

  conclude-replay :
      (del : Delivery) (a : Answer) (w : World)
      → ((conclude d v del a w).1.replay ≡ w.replay) × ((conclude d v del a w).1.sent ≡ w.sent)
  unfolding conclude reject
  conclude-replay del a w = grind (arith, retry-replay)

  -- The delivery can be attempted: its endpoint and event are found, and the URL is accepted.
  pub record IsReady (del : Delivery) (w : World) : Type 0 where
    pub endpoint : Endpoint
    pub event : Event
    pub has_endpoint :
        loaded d v get_endpoint (find_endpoint del.endpoint_id w.tables.endpoints) ≡ some endpoint
    pub has_event : loaded d v get_event (find_event del.event_id w.tables.events) ≡ some event
    pub accepted : validate_url v endpoint.url ≡ true

  started : Delivery → World → World
  started del w = record w {
    tables = with_deliveries (update_delivery delivering_row del.id) w.tables;
  }

  process_delivery-ready :
      (del : Delivery) (w : World) (r : IsReady del w)
      → v.fault mark_delivering ≡ false
      → let (a, w') = deliver d v r.endpoint r.event del (started del w) in
        process_delivery d v del w ≡ conclude d v del a w'
  unfolding process_delivery attempt_delivery started
  process_delivery-ready del w r f = ground (arith, f, r.has_endpoint, r.has_event)

  -- The claimed key is what the first attempt leaves, and its request is the one that was sent.
  claimed :
      (ttl : ℤ) (del : Delivery) (w : World) (r : IsReady del w)
      → v.fault mark_delivering ≡ false
      → v.replay_fault ≡ false
      → d.replay_ttl ≡ some ttl
      → ltb_ℤ (pos 0) ttl ≡ true
      → is_held v.now (replay_key v del) w.replay ≡ false
      → (process_delivery d v del w).1.replay
        ≡ record { key = replay_key v del; expires = v.now +ℤ ttl } ∷ w.replay
  unfolding deliver send_once is_held started ◌+ℤ◌
  claimed ttl del w r f g has positive free =
      let (a, w') = deliver d v r.endpoint r.event del (started del w) in
      let left : w'.replay ≡ record { key = replay_key v del; expires = v.now +ℤ ttl } ∷ w.replay =
        rw (r.accepted, has, positive, g, free) refl in
      ap (λ (x : Option Error × World). x.1.replay) (process_delivery-ready del w r f)
      ∙ (conclude-replay del a w').0
      ∙ left

  -- What an attempt does while the replay key is held.
  suppressed :
      (ttl : ℤ) (del : Delivery) (w : World) (r : IsReady del w)
      → v.fault mark_delivering ≡ false
      → v.replay_fault ≡ false
      → d.replay_ttl ≡ some ttl
      → ltb_ℤ (pos 0) ttl ≡ true
      → is_held v.now (replay_key v del) w.replay ≡ true
      → process_delivery d v del w
        ≡ conclude d v del (answered (pos 200) (codes "replay-suppressed")) (started del w)
  unfolding deliver send_once is_held started
  suppressed ttl del w r f g has positive held =
      process_delivery-ready del w r f
      ∙ ap (λ (x : Answer × World). conclude d v del x.0 x.1)
          (rw (r.accepted, has, positive, g, held) refl)

  pub record IsSilent (del : Delivery) (w w' : World) : Type 0 where
    pub unsent : w'.sent ≡ w.sent
    pub row : Delivery
    pub found : row_in d v del.id w' ≡ some row
    pub status : row.status ≡ delivered
    pub code : row.response_status ≡ some (pos 200)

  concluded :
      (del x : Delivery) (w : World)
      → IsWritable v
      → row_in d v del.id w ≡ some x
      → IsSilent del w
          (conclude d v del (answered (pos 200) (codes "replay-suppressed")) (started del w)).1
  unfolding conclude started wrap32
  concluded del x w ok found =
      let change = delivered_row (some (pos 200)) (nonempty_body d v (codes "replay-suppressed")) in
      rw ok.delivers record {
        unsent = refl;
        row = change (delivering_row x);
        found =
            find_delivery-update change del.id (started del w).tables.deliveries (delivering_row x)
              (λ y. refl)
              (find_delivery-update delivering_row del.id w.tables.deliveries x (λ y. refl) found);
        status = refl;
        code = refl;
      }

  still_held :
      (now expires : ℤ) (key : Text) (hs : List Held)
      → ltb_ℤ now expires ≡ true
      → is_held now key (record { key = key; expires = expires } ∷ hs) ≡ true
  unfolding is_held
  still_held now expires key hs e = rw (text_eq_refl key, e) refl

-- After an attempt that claimed the replay key of a delivery, whatever it came to, an attempt at the same
-- endpoint and event in any state with the same replay keys, so before an administrator's replay releases
-- the key, and before it expires, sends no request and marks its delivery DELIVERED with the code 200. In
-- both attempts the database and the replay store answer, the endpoint and the event load, and the URL is
-- accepted; the dispatcher has a replay protector with a positive lifetime.
pub process_delivery-silenced :
    (d : Dispatcher) (v v' : Env) (ttl : ℤ) (del del' x : Delivery) (w w2 : World)
    → (r : IsReady d v del w) → IsReady d v' del' w2
    → w2.replay ≡ (process_delivery d v del w).1.replay
    → IsWritable v
    → IsWritable v'
    → v.replay_fault ≡ false
    → v'.replay_fault ≡ false
    → d.replay_ttl ≡ some ttl
    → ltb_ℤ (pos 0) ttl ≡ true
    → is_held v.now (replay_key v del) w.replay ≡ false
    → replay_key v' del' ≡ replay_key v del
    → ltb_ℤ v'.now (v.now +ℤ ttl) ≡ true
    → row_in d v' del'.id w2 ≡ some x
    → IsSilent d v' del' w2 (process_delivery d v' del' w2).1
process_delivery-silenced d v v' ttl del del' x w w2 r r' as_left ok ok' f f' has positive free same
      soon found =
    let key = claimed d v ttl del w r ok.starts f has positive free in
    let held : is_held v'.now (replay_key v' del') w2.replay ≡ true =
      ap (λ k. is_held v'.now k w2.replay) same
      ∙ ap (is_held v'.now (replay_key v del)) (as_left ∙ key)
      ∙ still_held d v v'.now (v.now +ℤ ttl) (replay_key v del) w.replay soon in
    rw (suppressed d v' ttl del' w2 r' ok'.starts f' has positive held)
      (concluded d v' del' x w2 ok' found)
