-- ===== src/Queue/Worker/Delivery.antt =====
-- That the steps of a worker of internal/queue/queue.go keep its tasks.
use toko_api.Prelude.{
  ℤ, pos, ◌≡◌, refl, ◌∙◌, Bool, true, false, not, ◌&&◌, ◌||◌, none, some, List, [], ◌∷◌, ◌++◌, ◌+ℤ◌,
  ◌≤ℤ◌, ltb_ℤ, leb_ℤ, if◌then◌else◌, wrap64, Text, is_empty, text_eq, text_eq_refl, eq_of_text_eq,
  arith, Bool-cases, Option-cases, inl, inr,
}
use toko_api.Queue.Keys.{queue_key, processing_key, dedup_key}
use toko_api.Queue.Apart.{queue_key-processing_key}
use toko_api.Queue.Sets.{Entry, SortedSet, zadd, zrem, has, has-zadd, has-zrem}
use toko_api.Queue.Redis.{
  Message, DlqEntry, Redis, Held, Command, zadd_command, zrem_command, del, insert_dlq, Json, put,
  change, release, is_held,
}
use toko_api.Queue.Worker.{Worker, job, start, take, push_to_dlq, bury, handle_failure}

put-eq :
    (key k : Text) (z : SortedSet) (sets : Text → SortedSet)
    → put key z sets k ≡ (if text_eq k key then z else sets k)
unfolding put
put-eq key k z sets = refl

pub processing_key-queue_key :
    (prefix kind : Text) → text_eq (processing_key prefix kind) (queue_key prefix kind) ≡ false
processing_key-queue_key prefix kind =
    elim (Bool-cases (text_eq (processing_key prefix kind) (queue_key prefix kind))) [
      | inr apart ↦ apart
      | inl same ↦ absurd (
          cc (
            queue_key-processing_key prefix kind,
            eq_of_text_eq _ _ same,
            text_eq_refl (queue_key prefix kind),
          ))
    ]

-- The dead letter of a message.
abbrev pub letter : Text → Message → Text → DlqEntry
letter raw msg cause = record {
  kind = msg.kind;
  idempotency_key = msg.key;
  payload = raw;
  attempts = msg.attempt;
  last_error = if is_empty cause then none else some cause;
}

is_held-release : (now : ℤ) (key : Text) (hs : List Held) → is_held now key (release key hs) ≡ false
unfolding is_held release
is_held-release now key [] = refl
is_held-release now key (h ∷ hs) = ground (arith, is_held-release now key hs)

module _ (json : Json) (rounded : ℤ → ℤ) (w : Worker) where
  abbrev pub queued : Redis → Text → Bool
  queued r raw = has raw (r.sets (queue_key w.prefix w.kind))

  abbrev pub processing : Redis → Text → Bool
  processing r raw = has raw (r.sets (processing_key w.prefix w.kind))

  -- A task that a round takes: the head of the queue, with one more attempt, on the processing set.
  pub record IsTaken (now : ℤ) (r r' : Redis) (raw : Text) (next : Message) : Type 0 where
    pub head : Entry
    pub rest : SortedSet
    pub msg : Message
    pub was_head : r.sets (queue_key w.prefix w.kind) ≡ head ∷ rest
    pub was_decoded : json.decode head.member ≡ some msg
    pub is_due : msg.available_at ≤ℤ now
    pub is_next : next ≡ record msg { attempt = wrap64 (msg.attempt +ℤ pos 1) }
    pub is_encoded : raw ≡ json.encode next
    pub in_processing : processing r' raw ≡ true
    pub queue_left : r'.sets (queue_key w.prefix w.kind) ≡ rest

  pub change-other :
      (r : Redis) (a b : Text) (f : SortedSet → SortedSet)
      → text_eq b a ≡ false
      → (change a f r).sets b ≡ r.sets b
  change-other r a b f h = ground (arith, put-eq a b (f (r.sets a)) r.sets)

  pub change-same :
      (r : Redis) (a : Text) (f : SortedSet → SortedSet) → (change a f r).sets a ≡ f (r.sets a)
  change-same r a f = ground (arith, put-eq a a (f (r.sets a)) r.sets, text_eq_refl a)

  start-job :
      (fault : Command → Bool) (now visibility : ℤ) (r : Redis) (msg next : Message) (raw : Text)
      → (start json rounded w fault now visibility r msg).0 ≡ job raw next
      → let r' = (start json rounded w fault now visibility r msg).1 in
        (next ≡ record msg { attempt = wrap64 (msg.attempt +ℤ pos 1) })
        × (raw ≡ json.encode next)
        × (processing r' raw ≡ true)
        × (r'.sets (queue_key w.prefix w.kind) ≡ r.sets (queue_key w.prefix w.kind))
  unfolding start
  start-job fault now visibility r msg next raw h =
      let raw' = json.encode (record msg { attempt = wrap64 (msg.attempt +ℤ pos 1) }) in
      let p = processing_key w.prefix w.kind in
      let q = queue_key w.prefix w.kind in
      let at = rounded (wrap64 (now +ℤ visibility)) in
      ground (
        arith,
        change-same r p (zadd at raw'),
        change-other r p q (zadd at raw') (queue_key-processing_key w.prefix w.kind),
        has-zadd at raw' raw' (r.sets p),
        text_eq_refl raw',
      )

  take-head :
      (fault : Command → Bool) (now visibility : ℤ) (r : Redis) (next : Message) (raw : Text)
      → (take json rounded w fault now visibility r).0 ≡ job raw next
      → (e : Entry) × (rest : SortedSet) × (msg : Message) × (r.sets (queue_key w.prefix w.kind)
          ≡ e ∷ rest)
        × (json.decode e.member ≡ some msg)
        × (msg.available_at ≤ℤ now)
        × (take json rounded w fault now visibility r
            ≡ start json rounded w fault now visibility
                (change (queue_key w.prefix w.kind) (λ z. rest) r)
                msg)
  unfolding take
  take-head fault now visibility r next raw h = go (r.sets (queue_key w.prefix w.kind)) refl
    where
      go :
          (z : SortedSet)
          → r.sets (queue_key w.prefix w.kind) ≡ z
          → (e : Entry) × (rest : SortedSet) × (msg : Message) × (r.sets (queue_key w.prefix w.kind)
              ≡ e ∷ rest)
            × (json.decode e.member ≡ some msg)
            × (msg.available_at ≤ℤ now)
            × (take json rounded w fault now visibility r
                ≡ start json rounded w fault now visibility
                    (change (queue_key w.prefix w.kind) (λ z. rest) r)
                    msg)
      go [] p = absurd (ground arith)
      go (e ∷ rest) p = elim (Option-cases (json.decode e.member)) [
        | inl broken ↦ absurd (ground arith)
        | inr (msg, decoded) ↦ (e, rest, msg, p, decoded, ground arith, ground arith)
      ]

  -- A round that hands a job to the handler took the head of the queue, which was due, counted the
  -- attempt, and put the job on the processing set in the same round.
  pub take-IsTaken :
      (fault : Command → Bool) (now visibility : ℤ) (r : Redis) (next : Message) (raw : Text)
      → (take json rounded w fault now visibility r).0 ≡ job raw next
      → IsTaken now r (take json rounded w fault now visibility r).1 raw next
  take-IsTaken fault now visibility r next raw h =
      let (e, rest, msg, head, decoded, due, same) = take-head fault now visibility r next raw h in
      let q = queue_key w.prefix w.kind in
      let (counted, encoded, held, left) =
        start-job fault now visibility (change q (λ z. rest) r) msg next raw (rw same at h) in
      record {
        head = e;
        rest = rest;
        msg = msg;
        was_head = head;
        was_decoded = decoded;
        is_due = due;
        is_next = counted;
        is_encoded = encoded;
        in_processing = rw same held;
        queue_left = rw same (left ∙ change-same r q (λ z. rest));
      }

  module _ (fault : Command → Bool) (sound : (c : Command) → fault c ≡ false) (now : ℤ)
      (backoff : ℤ → ℤ) where
    -- A task whose handler failed and whose attempts are not used up leaves the processing set and is in
    -- the queue with the error and its next instant, and no task is set aside.
    pub handle_failure-retries :
        (r : Redis) (raw : Text) (msg : Message) (cause : Text)
        → is_empty raw ≡ false
        → ltb_ℤ (pos 0) msg.max_attempts && leb_ℤ msg.max_attempts msg.attempt ≡ false
        → let next = record msg {
          last_error = cause;
          available_at = wrap64 (now +ℤ backoff msg.attempt);
        } in
          let r' = handle_failure json rounded w fault now backoff r raw msg cause in
          (queued r' (json.encode next) ≡ true) × (processing r' raw ≡ false) × (r'.dead ≡ r.dead)
    unfolding handle_failure
    handle_failure-retries r raw msg cause given left =
        let next : Message = record msg {
          last_error = cause;
          available_at = wrap64 (now +ℤ backoff msg.attempt);
        } in
        let q = queue_key w.prefix w.kind in
        let p = processing_key w.prefix w.kind in
        let at = rounded next.available_at in
        let m = json.encode next in
        let r' = change p (zrem raw) r in
        ground (
          arith,
          sound zrem_command,
          sound zadd_command,
          change-same r' q (zadd at m),
          change-other r' q p (zadd at m) (processing_key-queue_key w.prefix w.kind),
          change-same r p (zrem raw),
          has-zadd at m m (r'.sets q),
          has-zrem raw raw (r.sets p),
          text_eq_refl m,
          text_eq_refl raw,
        )

    -- Where no Redis command fails and the store answers, a task with a member that is not empty, whose
    -- attempts are used up in a worker with a store, leaves the processing set for the dead letters, the
    -- queue stays as it was, and its deduplication key, if it has one, is free.
    pub handle_failure-buries :
        (r : Redis) (raw : Text) (msg : Message) (cause : Text)
        → is_empty raw ≡ false
        → w.has_store ≡ true
        → ltb_ℤ (pos 0) msg.max_attempts && leb_ℤ msg.max_attempts msg.attempt ≡ true
        → let r' = handle_failure json rounded w fault now backoff r raw msg cause in
          (r'.sets (queue_key w.prefix w.kind) ≡ r.sets (queue_key w.prefix w.kind))
          × (processing r' raw ≡ false)
          × (r'.dead ≡ r.dead ++ letter raw msg cause ∷ [])
          × (is_empty msg.key || not (is_held now (dedup_key w.prefix msg.kind msg.key) r'.held)
              ≡ true)
    unfolding handle_failure bury push_to_dlq
    handle_failure-buries r raw msg cause given store spent =
        let q = queue_key w.prefix w.kind in
        let p = processing_key w.prefix w.kind in
        ground (
          arith,
          sound zrem_command,
          sound insert_dlq,
          sound del,
          change-other r p q (zrem raw) (queue_key-processing_key w.prefix w.kind),
          change-same r p (zrem raw),
          has-zrem raw raw (r.sets p),
          text_eq_refl raw,
          is_held-release now (dedup_key w.prefix msg.kind msg.key) r.held,
        )
