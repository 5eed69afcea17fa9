-- ===== src/Queue/Enqueuer/Dedup.antt =====
-- What `Enqueue` of internal/queue/queue.go puts into the queue, and how often.
use toko_api.Prelude.{
  ℤ, ◌≡◌, refl, Bool, true, false, none, some, List, ◌∷◌, ◌+ℤ◌, ◌<ℤ◌, ltb_ℤ, Text, is_empty,
  text_eq_refl, arith,
}
use toko_api.Queue.Keys.{sanitize_kind, dedup_key}
use toko_api.Queue.Redis.{Held, Redis, Command, set_nx, zadd_command, Json, is_held}
use toko_api.Queue.Enqueuer.{Task, Enqueuer, redis_failed, ttl_of, publish, claim, enqueue}

is_held-claimed :
    (key : Text) (expires now : ℤ) (hs : List Held)
    → ltb_ℤ now expires ≡ true
    → is_held now key (record { key = key; expires = expires } ∷ hs) ≡ true
unfolding is_held
is_held-claimed key expires now hs h = rw (text_eq_refl key, h) refl

module _ (json : Json) (rounded : ℤ → ℤ) (e : Enqueuer) where
  -- After an `Enqueue` that claims the deduplication key of its task, one with the same kind and key in any
  -- state with the same deduplication keys, so before a worker deletes the key, and before it expires,
  -- returns no error and changes nothing. The task has a kind and a key, and `SetNX` answers both times.
  pub enqueue-once :
      (fault again : Command → Bool) (now later : ℤ) (r r'' : Redis) (t u : Task)
      → is_empty (sanitize_kind t.kind) ≡ false
      → is_empty t.idempotency_key ≡ false
      → u.kind ≡ t.kind
      → u.idempotency_key ≡ t.idempotency_key
      → fault set_nx ≡ false
      → again set_nx ≡ false
      → is_held now (dedup_key e.prefix (sanitize_kind t.kind) t.idempotency_key) r.held ≡ false
      → later <ℤ now +ℤ ttl_of e
      → let r' = (enqueue json rounded e fault now r t).1 in
        r''.held ≡ r'.held → enqueue json rounded e again later r'' u ≡ (none, r'')
  unfolding enqueue claim publish
  enqueue-once fault again now later r r'' t u kind key same_kind same_key sound sound' free soon
        as_left =
      ground (
        arith,
        is_held-claimed (dedup_key e.prefix (sanitize_kind t.kind) t.idempotency_key)
            (now +ℤ ttl_of e) later r.held (ground arith),
      )

  -- Where the queue cannot be written, `Enqueue` reports the error but keeps the deduplication key: the
  -- same task enqueued again, before the key expires, gives no error, and the queues are as they were
  -- before both calls. The task has a kind and a key, and `SetNX` answers both times.
  pub enqueue-lost :
      (fault again : Command → Bool) (now later : ℤ) (r : Redis) (t : Task)
      → is_empty (sanitize_kind t.kind) ≡ false
      → is_empty t.idempotency_key ≡ false
      → fault set_nx ≡ false
      → fault zadd_command ≡ true
      → again set_nx ≡ false
      → is_held now (dedup_key e.prefix (sanitize_kind t.kind) t.idempotency_key) r.held ≡ false
      → later <ℤ now +ℤ ttl_of e
      → let (error, r') = enqueue json rounded e fault now r t in
        let (retried, r'') = enqueue json rounded e again later r' t in
        (error ≡ some (redis_failed zadd_command)) × (retried ≡ none) × (r''.sets ≡ r.sets)
  unfolding enqueue claim publish
  enqueue-lost fault again now later r t kind key sound broken sound' free soon = ground (
    arith,
    is_held-claimed (dedup_key e.prefix (sanitize_kind t.kind) t.idempotency_key) (now +ℤ ttl_of e)
        later r.held (ground arith),
  )
