-- ===== src/Queue/Enqueuer.antt =====
-- `Enqueue` of internal/queue/queue.go. `rounded` is the rounding of a nanosecond count to float64.
pub mod Dedup
use toko_api.Prelude.{
  ℕ, ℤ, pos, Bool, true, false, not, ◌&&◌, ◌||◌, Option, none, some, List, [], ◌∷◌, ◌+ℤ◌, ltb_ℤ,
  leb_ℤ, if◌then◌else◌, wrap64, Text, is_empty,
}
use toko_api.Queue.Keys.{sanitize_kind, queue_key, dedup_key}
use toko_api.Queue.Sets.{zadd}
use toko_api.Queue.Redis.{
  Message, Held, Redis, Command, set_nx, zadd_command, Json, change, is_held,
}

pub record Task : Type 0 where
  pub kind : Text
  pub payload : Text
  pub idempotency_key : Text
  pub max_attempts : ℤ
  pub attempt : ℤ
  pub delay : ℤ

pub record Enqueuer : Type 0 where
  pub prefix : Text
  pub dedup_ttl : ℤ
  pub max_attempts : ℤ

pub data Error : Type 0 where
  kind_required : Error
  redis_failed : Command → Error

-- the number of attempts of a task, of the enqueuer, or 10
abbrev pub attempts_of : ℤ → ℤ → ℤ
attempts_of task_max own_max =
    if leb_ℤ task_max (pos 0) then if ltb_ℤ (pos 0) own_max then own_max else pos 10 else task_max

-- the message of a task with a sanitized kind
abbrev pub message_of : Enqueuer → Text → Task → ℤ → Message
message_of e kind t now = record {
  kind = kind;
  key = t.idempotency_key;
  payload = t.payload;
  attempt = if ltb_ℤ t.attempt (pos 0) then pos 0 else t.attempt;
  max_attempts = attempts_of t.max_attempts e.max_attempts;
  available_at = wrap64 (now +ℤ t.delay);
  last_error = [];
}

-- `ttl <= 0` stands for 24 hours
abbrev pub ttl_of : Enqueuer → ℤ
ttl_of e = if leb_ℤ e.dedup_ttl (pos 0) then pos 86400000000000 else e.dedup_ttl

module _ (json : Json) (rounded : ℤ → ℤ) (e : Enqueuer) (fault : Command → Bool) (now : ℤ) where
  unfoldable pub publish : Redis → Text → Message → Option Error × Redis
  publish r kind msg = if fault zadd_command then (some (redis_failed zadd_command), r) else (
    none,
    change (queue_key e.prefix kind) (zadd (rounded msg.available_at) (json.encode msg)) r,
  )

  -- the claim of the deduplication key, before the task is published
  unfoldable pub claim : Redis → Text → Message → Option Error × Redis
  unfolding publish
  claim r kind msg =
      let key = dedup_key e.prefix kind msg.key in
      if fault set_nx
      then (some (redis_failed set_nx), r)
      else if is_held now key r.held
      then (none, r)
      else publish (record r { held = record { key = key; expires = now +ℤ ttl_of e } ∷ r.held })
          kind msg

  unfoldable pub enqueue : Redis → Task → Option Error × Redis
  unfolding claim
  enqueue r t =
      let kind = sanitize_kind t.kind in
      let msg = message_of e kind t now in
      if is_empty kind
      then (some kind_required, r)
      else if is_empty t.idempotency_key
      then publish r kind msg
      else claim r kind msg
