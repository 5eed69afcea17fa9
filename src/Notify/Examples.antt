-- ===== src/Notify/Examples.antt =====
-- The theorems on internal/notify at concrete worlds.
use toko_api.Prelude.{
  ℤ, pos, ◌≡◌, refl, true, false, none, some, [], ◌∷◌, codes, text_eq, wrap32, ◌+ℤ◌, ◌*ℤ◌, arith,
  wrap64, trim_space,
}
use toko_api.Queue.Redis.{Json, is_held}
use toko_api.Queue.Keys.{sanitize_kind, is_kind, dedup_key}
use toko_api.Queue.Enqueuer.{Enqueuer, enqueue}
use toko_api.Notify.Store.{
  pending, Endpoint, Event, Delivery, find_delivery, find_endpoint, find_event, failed,
  update_delivery,
}
use toko_api.Notify.Dispatcher.{
  World, Dispatcher, Env, answered, validate_url, replay_key, process_delivery, attempt_delivery,
  deliver, send_once, conclude, reject, retry, next_delay, schedule_delivery,
}
use toko_api.Notify.Progress.{IsWritable, row_in}
use toko_api.Notify.Rounds.{rounds, HasEnded, rounds-HasEnded}
use toko_api.Notify.Worker.{schedule}
use toko_api.Notify.Coverage.{Served, schedule-Served}
use toko_api.Notify.Unqueued.{IsRunning, process_delivery-unqueued}
use toko_api.Notify.Replay.{IsReady, IsSilent, process_delivery-silenced}

abbrev json : Json
json = record { encode = λ m. m.payload; decode = λ t. none }

-- Every URL is one of the same host, every id is written `1`, and the endpoint answers 500.
abbrev env : ℤ → Env
env now = record {
  now = now;
  json = json;
  rounded = λ z. z;
  parse_url =
      λ t. some (record { scheme = codes "https"; hostname = codes "shop"; host = codes "shop" });
  parse_uuid = λ t. some 1;
  id_text = λ n. codes "1";
  exchange = λ ep ev del. answered (pos 500) (codes "down");
  reason = λ a. codes "status 500";
  load_reason = λ q. codes "load";
  fault = λ q. false;
  queue_fault = λ c. false;
  replay_fault = false;
}

abbrev enqueuer : Enqueuer
enqueuer = record { prefix = codes "toko"; dedup_ttl = pos 1000; max_attempts = pos 2 }

abbrev dispatcher : Dispatcher
dispatcher = record {
  queue = some enqueuer;
  backoff_base_sec = pos 5;
  default_max_attempts = pos 2;
  enabled = true;
  replay_ttl = some (pos 60);
}

abbrev waiting : Delivery
waiting = record {
  id = 1;
  endpoint_id = 1;
  event_id = 1;
  status = pending;
  attempt = pos 0;
  max_attempt = pos 2;
  next_attempt_at = none;
  last_error = none;
  response_status = none;
  response_body = none;
}

abbrev shop : Endpoint
shop = record { id = 1; url = codes "u"; secret = codes "s"; active = true; topics = [] }

abbrev payment_event : Event
payment_event = record { id = 1; topic = codes "order.paid"; payload = codes "p" }

abbrev world : World
world = record {
  tables = record {
    endpoints = shop ∷ [];
    events = payment_event ∷ [];
    deliveries = waiting ∷ [];
    dead = [];
    next_id = 2;
  };
  redis = record { sets = λ k. []; held = []; dead = [] };
  replay = [];
  sent = [];
}

is_writable : (now : ℤ) → IsWritable (env now)
is_writable now = record {
  starts = refl;
  delivers = refl;
  fails = refl;
  buries = refl;
  records = refl;
}

found : find_delivery 1 world.tables.deliveries ≡ some waiting
unfolding find_delivery
found = refl

rounds-HasEnded_example :
    HasEnded dispatcher (λ n. env (pos n)) 1 (rounds dispatcher (λ n. env (pos n)) 2 1 world)
rounds-HasEnded_example =
    rounds-HasEnded dispatcher (λ n. env (pos n)) 2 1 0 2 world waiting (λ k. is_writable (pos k))
      found refl refl (omega arith) (omega arith) (omega arith) refl

unclaimed : is_held (pos 10) (replay_key (env (pos 10)) waiting) world.replay ≡ false
unfolding is_held
unclaimed = refl

accepted : (now : ℤ) → validate_url (env now) shop.url ≡ true
unfolding validate_url text_eq
accepted now = refl

is_ready : IsReady dispatcher (env (pos 10)) waiting world
unfolding find_endpoint find_event
is_ready = record {
  endpoint = shop;
  event = payment_event;
  has_endpoint = refl;
  has_event = refl;
  accepted = accepted (pos 10);
}

abbrev after : World
after = (process_delivery dispatcher (env (pos 10)) waiting world).1

-- the row after the first attempt
abbrev counted_row : Delivery
counted_row = record waiting {
  status = failed;
  attempt = pos 1;
  next_attempt_at = some (pos 5000000010);
  last_error = some (codes "status 500");
}

is_counted : row_in dispatcher (env (pos 20)) 1 after ≡ some counted_row
unfolding find_delivery update_delivery process_delivery attempt_delivery find_endpoint find_event
    deliver send_once validate_url text_eq is_held conclude reject retry next_delay
    schedule_delivery enqueue wrap32 wrap64 ◌+ℤ◌ ◌*ℤ◌ trim_space sanitize_kind is_kind
is_counted = refl

second_IsReady : IsReady dispatcher (env (pos 20)) counted_row after
unfolding find_delivery update_delivery process_delivery attempt_delivery find_endpoint find_event
    deliver send_once validate_url text_eq is_held conclude reject retry next_delay
    schedule_delivery enqueue wrap32 wrap64 ◌+ℤ◌ ◌*ℤ◌ trim_space sanitize_kind is_kind
second_IsReady = record {
  endpoint = shop;
  event = payment_event;
  has_endpoint = refl;
  has_event = refl;
  accepted = accepted (pos 20);
}

process_delivery-silenced_example :
    IsSilent dispatcher
      (env (pos 20))
      counted_row
      after
      (process_delivery dispatcher (env (pos 20)) counted_row after).1
unfolding ◌+ℤ◌
process_delivery-silenced_example =
    process_delivery-silenced dispatcher (env (pos 10)) (env (pos 20)) (pos 60) waiting counted_row
      counted_row world after is_ready second_IsReady refl (is_writable (pos 10))
      (is_writable (pos 20)) refl refl refl refl unclaimed refl refl is_counted

schedule-Served_example :
    Served payment_event
      (schedule dispatcher
        (env (pos 10))
        payment_event
        (record world { tables = record world.tables { deliveries = [] } })).1
      world.tables.endpoints
unfolding trim_space
schedule-Served_example =
    schedule-Served dispatcher (env (pos 10)) payment_event
      (record world { tables = record world.tables { deliveries = [] } }) refl refl refl refl

-- the task of the delivery is in the hands of a worker
abbrev running : World
running = record world {
  redis = record world.redis {
    held =
        record {
          key = dedup_key (codes "toko") (codes "webhook-delivery") (codes "1");
          expires = pos 1000;
        }
        ∷ [];
  };
}

is_running : IsRunning dispatcher (env (pos 10)) enqueuer (codes "1") running
unfolding is_held text_eq sanitize_kind is_kind dedup_key
is_running = record { named = refl; queue = refl; sound = refl; held = refl }

process_delivery-unqueued_example :
    (process_delivery dispatcher (env (pos 10)) waiting running).1.redis ≡ running.redis
process_delivery-unqueued_example =
    process_delivery-unqueued dispatcher (env (pos 10)) enqueuer waiting running is_running
