-- ===== src/Queue/Worker.antt =====
-- The steps of a worker of internal/queue/queue.go: taking a task, what follows its handler, and the
-- redelivery of tasks whose time has run out. `now` is the clock of a call, `backoff` the delay that
-- `resilience.Backoff` gives an attempt, jitter included.
pub mod Delivery
pub mod Redelivery
use toko_api.Prelude.{
  ℕ, ℤ, pos, Bool, true, false, not, ◌&&◌, ◌||◌, Option, none, some, List, [], ◌∷◌, ◌++◌, ◌+ℤ◌,
  ltb_ℤ, leb_ℤ, if◌then◌else◌, wrap64, Text, is_empty,
}
use toko_api.Queue.Keys.{queue_key, processing_key, dedup_key}
use toko_api.Queue.Sets.{Entry, SortedSet, zadd, zrem, zrange_until}
use toko_api.Queue.Redis.{
  Message, DlqEntry, Redis, Command, zadd_command, zrem_command, del, insert_dlq, zpopmin, zrange,
  Json, change, release,
}

-- What one round of the loop took.
pub data Taken : Type 0 where
  nothing dropped postponed : Taken
  job : Text → Message → Taken
  stopped : Command → Taken

pub record Worker : Type 0 where
  pub prefix : Text
  pub kind : Text
  pub has_store : Bool

-- a dead letter's error is NULL where the text is empty
abbrev error_text : Text → Option Text
error_text s = if is_empty s then none else some s

module _ (json : Json) (rounded : ℤ → ℤ) (w : Worker) (fault : Command → Bool) (now : ℤ) where
  -- a command whose error is ignored
  abbrev pub try : Command → (Redis → Redis) → Redis → Redis
  try c f r = if fault c then r else f r

  -- the job of a message that is due, with its next attempt, on the processing set
  unfoldable pub start : ℤ → Redis → Message → Taken × Redis
  start visibility r msg =
      let next = record msg { attempt = wrap64 (msg.attempt +ℤ pos 1) } in
      let raw = json.encode next in
      if fault zadd_command then (stopped zadd_command, r) else (
        job raw next,
        change (processing_key w.prefix w.kind) (zadd (rounded (wrap64 (now +ℤ visibility))) raw) r,
      )

  unfoldable pub take_decoded : ℤ → Redis → Text → Message → Taken × Redis
  unfolding start
  take_decoded visibility r member msg =
      if ltb_ℤ now msg.available_at
      then (
        postponed,
        try zadd_command
            (change (queue_key w.prefix w.kind) (zadd (rounded msg.available_at) member)) r,
      )
      else start visibility r msg

  -- one round of the loop of `Run`, up to the handler
  unfoldable pub take : ℤ → Redis → Taken × Redis
  unfolding take_decoded
  take visibility r =
      if fault zpopmin then (stopped zpopmin, r) else elim (r.sets (queue_key w.prefix w.kind)) [
        | [] ↦ (nothing, r)
        | e ∷ rest ↦
            let r' = change (queue_key w.prefix w.kind) (λ z. rest) r in
            elim (json.decode e.member) [
              | none ↦ (dropped, r')
              | some msg ↦ take_decoded visibility r' e.member msg
            ]
      ]

  -- `ack`
  unfoldable pub ack : Redis → Text → Message → Redis
  ack r raw msg =
      let r' =
        if is_empty raw
        then r
        else try zrem_command (change (processing_key w.prefix w.kind) (zrem raw)) r in
      if is_empty msg.key
      then r'
      else try del
          (λ (x : Redis). record x { held = release (dedup_key w.prefix msg.kind msg.key) x.held })
          r'

  -- `pushToDLQ`
  unfoldable pub push_to_dlq : Redis → Text → Message → Redis
  push_to_dlq r raw msg = if not w.has_store || fault insert_dlq then r else record r {
    dead =
        r.dead
        ++ record {
          kind = msg.kind;
          idempotency_key = msg.key;
          payload = raw;
          attempts = msg.attempt;
          last_error = error_text msg.last_error;
        }
          ∷ [];
  }

  -- the attempts are used up
  abbrev pub is_spent : Message → Bool
  is_spent msg = ltb_ℤ (pos 0) msg.max_attempts && leb_ℤ msg.max_attempts msg.attempt

  unfoldable pub bury : Redis → Text → Message → Redis
  unfolding push_to_dlq
  bury r raw msg =
      let r' = push_to_dlq r raw msg in
      if is_empty msg.key
      then r'
      else try del
          (λ (x : Redis). record x { held = release (dedup_key w.prefix msg.kind msg.key) x.held })
          r'

  -- the message that goes back into the queue
  abbrev pub retried : ℤ → Text → Message → Message
  retried delay cause msg = record msg { last_error = cause; available_at = wrap64 (now +ℤ delay) }

  -- `handleFailure` with the error of the handler
  unfoldable pub handle_failure : (ℤ → ℤ) → Redis → Text → Message → Text → Redis
  unfolding bury
  handle_failure backoff r raw msg cause =
      let r' =
        if is_empty raw
        then r
        else try zrem_command (change (processing_key w.prefix w.kind) (zrem raw)) r in
      if is_spent msg
      then bury r' raw (record msg { last_error = cause })
      else let next = retried (backoff msg.attempt) cause msg in
        try zadd_command
          (change (queue_key w.prefix w.kind) (zadd (rounded next.available_at) (json.encode next)))
          r'

  -- one expired job goes back into the queue
  unfoldable pub requeue : Redis → Text → Redis
  requeue r raw = elim (json.decode raw) [
    | none ↦ r
    | some msg ↦
        let next = record msg { available_at = now } in
        try zadd_command
          (change (queue_key w.prefix w.kind) (zadd (rounded now) (json.encode next)))
          (try zrem_command (change (processing_key w.prefix w.kind) (zrem raw)) r)
  ]

  unfoldable pub requeue_all : Redis → List Text → Redis
  unfolding requeue
  requeue_all r [] = r
  requeue_all r (raw ∷ due) = requeue_all (requeue r raw) due

  -- `requeueExpired`
  unfoldable pub requeue_expired : Redis → Option Command × Redis
  unfolding requeue_all
  requeue_expired r = if fault zrange then (some zrange, r) else (
    none,
    requeue_all r (zrange_until (rounded now) (r.sets (processing_key w.prefix w.kind))),
  )
