-- ===== src/Notify/Unqueued.antt =====
-- The task of the next attempt, while the task of this one holds its deduplication key
-- (`EnqueueDelivery` of internal/notify/dispatcher_enqueue.go, called by internal/notify/webhook.go).
use toko_api.Prelude.{ℤ, ◌≡◌, refl, true, false, none, some, Text, codes, is_empty, arith}
use toko_api.Queue.Keys.{sanitize_kind, is_kind, dedup_key}
use toko_api.Queue.Redis.{set_nx, is_held}
use toko_api.Queue.Enqueuer.{Enqueuer, enqueue, claim}
use toko_api.Notify.Store.{Delivery, Endpoint, Event}
use toko_api.Notify.Dispatcher.{
  World, Dispatcher, Env, Answer, schedule_delivery, send_once, deliver, retry, fail_delivery,
  reject, conclude, attempt_delivery, process_delivery,
}

module _ (d : Dispatcher) (v : Env) (e : Enqueuer) (id : Text) where
  -- The deduplication key of the delivery's tasks is held.
  pub record IsRunning (w : World) : Type 0 where
    pub named : is_empty id ≡ false
    pub queue : d.queue ≡ some e
    pub sound : v.queue_fault set_nx ≡ false
    pub held :
        is_held v.now
          (dedup_key e.prefix (sanitize_kind (codes "webhook-delivery")) id)
          w.redis.held
        ≡ true

  is_kind_of_webhook : is_empty (sanitize_kind (codes "webhook-delivery")) ≡ false
  unfolding sanitize_kind is_kind
  is_kind_of_webhook = refl

  schedule_delivery-dropped :
      (delay max : ℤ) (w : World) → IsRunning w → schedule_delivery d v id delay max w ≡ (none, w)
  unfolding schedule_delivery enqueue claim
  schedule_delivery-dropped delay max w r =
      ground (arith, r.named, r.queue, r.sound, r.held, is_kind_of_webhook)

module _ (d : Dispatcher) (v : Env) (e : Enqueuer) (del : Delivery) where
  moved_redis :
      (w w' : World)
      → w'.redis ≡ w.redis
      → IsRunning d v e (v.id_text del.id) w
      → IsRunning d v e (v.id_text del.id) w'
  moved_redis w w' same r = record {
    named = r.named;
    queue = r.queue;
    sound = r.sound;
    held = rw same r.held;
  }

  retry-redis :
      (reason : Text) (w : World)
      → IsRunning d v e (v.id_text del.id) w
      → (retry d v del reason w).1.redis ≡ w.redis
  unfolding retry
  retry-redis reason w r = grind (arith, moved_redis, schedule_delivery-dropped)

  fail_delivery-redis :
      (reason : Text) (w : World)
      → IsRunning d v e (v.id_text del.id) w
      → (fail_delivery d v del reason w).1.redis ≡ w.redis
  unfolding fail_delivery
  fail_delivery-redis reason w r = grind (arith, retry-redis)

  conclude-redis :
      (a : Answer) (w : World)
      → IsRunning d v e (v.id_text del.id) w
      → (conclude d v del a w).1.redis ≡ w.redis
  unfolding conclude reject
  conclude-redis a w r = grind (arith, retry-redis)

  deliver-redis :
      (ep : Endpoint) (ev : Event) (w : World) → (deliver d v ep ev del w).1.redis ≡ w.redis
  unfolding deliver send_once
  deliver-redis ep ev w = ground arith

  -- An attempt that is made while the delivery's task holds its deduplication key puts nothing on the
  -- queue, also where it failed and is to be tried again.
  pub process_delivery-unqueued :
      (w : World)
      → IsRunning d v e (v.id_text del.id) w
      → (process_delivery d v del w).1.redis ≡ w.redis
  unfolding process_delivery attempt_delivery
  process_delivery-unqueued w r =
      grind (arith, fail_delivery-redis, conclude-redis, deliver-redis, moved_redis)
