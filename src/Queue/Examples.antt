-- ===== src/Queue/Examples.antt =====
-- The queue theorems at concrete tasks.
use toko_api.Prelude.{
  ℤ, pos, ◌≡◌, refl, ◌<ℤ◌, ◌+ℤ◌, Bool, true, false, not, ◌||◌, none, some, [], ◌∷◌, ◌++◌, Text,
  codes, is_empty, text_eq, any, wrap64, arith,
}
use toko_api.Queue.Keys.{is_kind, sanitize_kind, queue_key, dedup_key}
use toko_api.Queue.Sets.{zrange_until}
use toko_api.Queue.Redis.{Message, Redis, Command, zadd_command, Json, is_held}
use toko_api.Queue.Enqueuer.{Task, Enqueuer, redis_failed, enqueue}
use toko_api.Queue.Enqueuer.Dedup.{enqueue-once, enqueue-lost}
use toko_api.Queue.Worker.{Worker, job, take, take_decoded, start, handle_failure, requeue_expired}
use toko_api.Queue.Worker.Delivery.{
  queued, processing, IsTaken, letter, take-IsTaken, handle_failure-buries,
}
use toko_api.Queue.Worker.Redelivery.{requeue_expired-moves, requeue_expired-spent}

-- the message that a payload stands for, in its first attempt of two
abbrev message : Text → Message
message t = record {
  kind = codes "mail";
  key = codes "k";
  payload = t;
  attempt = pos 0;
  max_attempts = pos 2;
  available_at = pos 10;
  last_error = [];
}

abbrev json : Json
json = record { encode = λ m. m.payload; decode = λ t. some (message t) }

-- the same with messages in their last attempt
abbrev spent_json : Json
spent_json = record {
  encode = λ m. m.payload;
  decode = λ t. some (record (message t) { attempt = pos 2 });
}

abbrev exact : ℤ → ℤ
exact z = z

abbrev sound : Command → Bool
sound c = false

abbrev ended : Command → Bool
ended c = true

abbrev no_zadd : Command → Bool
no_zadd zadd_command = true
no_zadd _ = false

abbrev empty : Redis
empty = record { sets = λ k. []; held = []; dead = [] }

abbrev worker : Worker
worker = record { prefix = codes "toko"; kind = codes "mail"; has_store = true }

-- one task, in every set
abbrev full : Redis
full = record empty { sets = λ k. record { score = pos 10; member = codes "x" } ∷ [] }

abbrev enqueuer : Enqueuer
enqueuer = record { prefix = codes "toko"; dedup_ttl = pos 0; max_attempts = pos 5 }

abbrev task : Task
task = record {
  kind = codes "mail";
  payload = codes "x";
  idempotency_key = codes "k";
  max_attempts = pos 0;
  attempt = pos 0;
  delay = pos 0;
}

is_mail : is_empty (sanitize_kind (codes "mail")) ≡ false
unfolding sanitize_kind is_kind
is_mail = refl

not_held : (key : Text) → is_held (pos 100) key [] ≡ false
unfolding is_held
not_held key = refl

within_a_day : pos 200 <ℤ pos 100 +ℤ pos 86400000000000
unfolding ◌+ℤ◌
within_a_day = omega arith

enqueue-once_example :
    let r' = (enqueue json exact enqueuer sound (pos 100) empty task).1 in
    enqueue json exact enqueuer sound (pos 200) r' task ≡ (none, r')
enqueue-once_example =
    enqueue-once json exact enqueuer sound sound (pos 100) (pos 200) empty
      (enqueue json exact enqueuer sound (pos 100) empty task).1 task task is_mail refl refl refl
      refl refl (not_held _) within_a_day refl

enqueue-lost_example :
    let (error, r') = enqueue json exact enqueuer no_zadd (pos 100) empty task in
    let (retried, r'') = enqueue json exact enqueuer sound (pos 200) r' task in
    (error ≡ some (redis_failed zadd_command)) × (retried ≡ none) × (r''.sets ≡ empty.sets)
enqueue-lost_example =
    enqueue-lost json exact enqueuer no_zadd sound (pos 100) (pos 200) empty task is_mail refl refl
      refl refl (not_held _) within_a_day

taken :
    (take json exact worker sound (pos 100) (pos 30) full).0
    ≡ job (codes "x") (record (message (codes "x")) { attempt = pos 1 })
unfolding take take_decoded start wrap64 ◌+ℤ◌
taken = refl

take-IsTaken_example :
    IsTaken json exact worker
      (pos 100)
      full
      (take json exact worker sound (pos 100) (pos 30) full).1
      (codes "x")
      (record (message (codes "x")) { attempt = pos 1 })
take-IsTaken_example =
    take-IsTaken json exact worker sound (pos 100) (pos 30) full
      (record (message (codes "x")) { attempt = pos 1 }) (codes "x") taken

abbrev one_second : ℤ → ℤ
one_second attempt = pos 1000000000

abbrev spent : Message
spent = record (message (codes "x")) { attempt = pos 2 }

handle_failure-buries_example :
    let r' =
      handle_failure json exact worker sound
        (pos 100)
        one_second
        full
        (codes "x")
        spent
        (codes "timeout") in
    (r'.sets (queue_key (codes "toko") (codes "mail"))
      ≡ full.sets (queue_key (codes "toko") (codes "mail")))
    × (processing json exact worker r' (codes "x") ≡ false)
    × (r'.dead ≡ [] ++ letter (codes "x") spent (codes "timeout") ∷ [])
    × (is_empty spent.key
          || not (is_held (pos 100) (dedup_key (codes "toko") (codes "mail") (codes "k")) r'.held)
        ≡ true)
handle_failure-buries_example =
    handle_failure-buries json exact worker sound (λ c. refl) (pos 100) one_second full (codes "x")
      spent (codes "timeout") refl refl refl

is_due : any (λ m. text_eq m (codes "x")) (zrange_until (pos 100) (full.sets [])) ≡ true
unfolding zrange_until text_eq
is_due = refl

requeue_expired-moves_example :
    let r' = (requeue_expired json exact worker sound (pos 100) full).1 in
    (queued json exact worker r' (codes "x") ≡ true)
    × (processing json exact worker r' (codes "x") ≡ false)
requeue_expired-moves_example =
    requeue_expired-moves json exact worker sound (λ c. refl) (pos 100) full (codes "x")
      (message (codes "x")) is_due refl

requeue_expired-spent_example :
    let r' =
      handle_failure spent_json exact worker ended
        (pos 90)
        one_second
        full
        (codes "x")
        spent
        (codes "timeout") in
    let r'' = (requeue_expired spent_json exact worker sound (pos 100) r').1 in
    (queued spent_json exact worker r'' (codes "x") ≡ true) × (r''.dead ≡ [])
requeue_expired-spent_example =
    requeue_expired-spent spent_json exact worker ended sound (pos 90) (pos 100) one_second full
      (codes "x") (codes "timeout") spent (λ c. refl) (λ c. refl) refl refl is_due
