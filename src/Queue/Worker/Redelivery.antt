-- ===== src/Queue/Worker/Redelivery.antt =====
-- How `requeueExpired` of internal/queue/queue.go brings back the tasks of workers that stopped, or whose
-- time ran out.
use toko_api.Prelude.{
  ℤ, pos, ◌≡◌, refl, ap, ◌∙◌, Bool, true, false, ◌&&◌, none, some, List, [], ◌∷◌, ltb_ℤ, leb_ℤ,
  Text, any, text_eq, text_eq_refl, eq_of_text_eq, arith, Bool-cases, Option-cases, inl, inr,
}
use toko_api.Queue.Keys.{queue_key, processing_key}
use toko_api.Queue.Apart.{queue_key-processing_key}
use toko_api.Queue.Sets.{zadd, zrem, zrange_until, has-zadd, has-zrem}
use toko_api.Queue.Redis.{
  Message, Redis, Command, zadd_command, zrem_command, del, insert_dlq, zrange, Json, change,
}
use toko_api.Queue.Worker.{
  Worker, bury, push_to_dlq, handle_failure, requeue, requeue_all, requeue_expired,
}
use toko_api.Queue.Worker.Delivery.{
  queued, processing, change-other, change-same, processing_key-queue_key,
}

module _ (json : Json) (rounded : ℤ → ℤ) (w : Worker) (fault : Command → Bool)
    (sound : (c : Command) → fault c ≡ false) (now : ℤ) where
  -- what one job's redelivery does to the two sets
  requeue-sets :
      (r : Redis) (raw : Text) (msg : Message)
      → json.decode raw ≡ some msg
      → let next = record msg { available_at = now } in
        let r' = requeue json rounded w fault now r raw in
        (r'.sets (queue_key w.prefix w.kind)
          ≡ zadd (rounded now) (json.encode next) (r.sets (queue_key w.prefix w.kind)))
        × (r'.sets (processing_key w.prefix w.kind)
            ≡ zrem raw (r.sets (processing_key w.prefix w.kind)))
        × (r'.dead ≡ r.dead)
  unfolding requeue
  requeue-sets r raw msg decoded =
      let q = queue_key w.prefix w.kind in
      let p = processing_key w.prefix w.kind in
      let m = json.encode (record msg { available_at = now }) in
      let r' = change p (zrem raw) r in
      ground (
        arith,
        sound zrem_command,
        sound zadd_command,
        change-same json rounded w r' q (zadd (rounded now) m),
        change-other json rounded w r' q p (zadd (rounded now) m)
            (processing_key-queue_key w.prefix w.kind),
        change-same json rounded w r p (zrem raw),
        change-other json rounded w r p q (zrem raw) (queue_key-processing_key w.prefix w.kind),
      )

  requeue-broken :
      (r : Redis) (raw : Text) → json.decode raw ≡ none → requeue json rounded w fault now r raw ≡ r
  unfolding requeue
  requeue-broken r raw broken = ground arith

  -- what is in the queue stays there, and what is not on the processing set stays away
  requeue-keeps :
      (r : Redis) (raw m : Text)
      → (queued json rounded w r m ≡ true
          → queued json rounded w (requeue json rounded w fault now r raw) m ≡ true)
        × (processing json rounded w r m ≡ false
            → processing json rounded w (requeue json rounded w fault now r raw) m ≡ false)
  requeue-keeps r raw m = elim (Option-cases (json.decode raw)) [
    | inl broken ↦ rw (requeue-broken r raw broken) (λ h. h, λ h. h)
    | inr (msg, decoded) ↦
        let (q, p, dead) = requeue-sets r raw msg decoded in
        (
          λ h. ground (
            arith,
            q,
            has-zadd (rounded now) m (json.encode (record msg { available_at = now }))
                (r.sets (queue_key w.prefix w.kind)),
          ),
          λ h. ground (arith, p, has-zrem m raw (r.sets (processing_key w.prefix w.kind))),
        )
  ]

  requeue_all-keeps :
      (due : List Text) (r : Redis) (m : Text)
      → (queued json rounded w r m ≡ true
          → queued json rounded w (requeue_all json rounded w fault now r due) m ≡ true)
        × (processing json rounded w r m ≡ false
            → processing json rounded w (requeue_all json rounded w fault now r due) m ≡ false)
  unfolding requeue_all
  requeue_all-keeps [] r m = (λ h. h, λ h. h)
  requeue_all-keeps (raw ∷ due) r m =
      let step = requeue-keeps r raw m in
      let rest = requeue_all-keeps due (requeue json rounded w fault now r raw) m in
      (λ h. rest.0 (step.0 h), λ h. rest.1 (step.1 h))

  requeue_all-moves :
      (due : List Text) (r : Redis) (raw : Text) (msg : Message)
      → any (λ m. text_eq m raw) due ≡ true
      → json.decode raw ≡ some msg
      → let r' = requeue_all json rounded w fault now r due in
        (queued json rounded w r' (json.encode (record msg { available_at = now })) ≡ true)
        × (processing json rounded w r' raw ≡ false)
  unfolding requeue_all
  requeue_all-moves [] r raw msg listed decoded = cc
  requeue_all-moves (x ∷ due) r raw msg listed decoded = elim (Bool-cases (text_eq x raw)) [
    | inr other ↦
        requeue_all-moves due (requeue json rounded w fault now r x) raw msg (ground arith) decoded
    | inl same ↦
        let e = eq_of_text_eq x raw same in
        let m = json.encode (record msg { available_at = now }) in
        let (q, p, dead) = requeue-sets r raw msg decoded in
        let rest = requeue_all-keeps due (requeue json rounded w fault now r raw) in
        rw e (
          (rest m).0 (
              ground (
                arith,
                q,
                has-zadd (rounded now) m m (r.sets (queue_key w.prefix w.kind)),
                text_eq_refl m,
              )),
          (rest raw).1 (
              ground (
                arith,
                p,
                has-zrem raw raw (r.sets (processing_key w.prefix w.kind)),
                text_eq_refl raw,
              )),
        )
  ]

  -- Where no Redis command fails, a job on the processing set that decodes and whose deadline has passed is
  -- in the queue after a redelivery, due at once, and off the processing set, however many others are
  -- redelivered with it.
  pub requeue_expired-moves :
      (r : Redis) (raw : Text) (msg : Message)
      → any
          (λ m. text_eq m raw)
          (zrange_until (rounded now) (r.sets (processing_key w.prefix w.kind)))
        ≡ true
      → json.decode raw ≡ some msg
      → let r' = (requeue_expired json rounded w fault now r).1 in
        (queued json rounded w r' (json.encode (record msg { available_at = now })) ≡ true)
        × (processing json rounded w r' raw ≡ false)
  unfolding requeue_expired
  requeue_expired-moves r raw msg listed decoded = rw (sound zrange) (
      requeue_all-moves (zrange_until (rounded now) (r.sets (processing_key w.prefix w.kind))) r raw
        msg listed decoded)

  requeue_all-dead :
      (due : List Text) (r : Redis) → (requeue_all json rounded w fault now r due).dead ≡ r.dead
  unfolding requeue_all
  requeue_all-dead [] r = refl
  requeue_all-dead (raw ∷ due) r =
      requeue_all-dead due (requeue json rounded w fault now r raw)
      ∙ elim (Option-cases (json.decode raw)) [
        | inl broken ↦ ap (λ (x : Redis). x.dead) (requeue-broken r raw broken)
        | inr (msg, decoded) ↦ (requeue-sets r raw msg decoded).2
      ]

  requeue_expired-dead : (r : Redis) → (requeue_expired json rounded w fault now r).1.dead ≡ r.dead
  unfolding requeue_expired
  requeue_expired-dead r =
      rw (sound zrange)
        (requeue_all-dead (zrange_until (rounded now) (r.sets (processing_key w.prefix w.kind))) r)

-- Where the context of a job has ended, every command of `handleFailure` fails.
handle_failure-expired :
    (json : Json) (rounded : ℤ → ℤ) (w : Worker) (ended : Command → Bool) (now : ℤ)
    (backoff : ℤ → ℤ) (r : Redis) (raw cause : Text) (msg : Message)
    → ((c : Command) → ended c ≡ true)
    → handle_failure json rounded w ended now backoff r raw msg cause ≡ r
unfolding handle_failure bury push_to_dlq
handle_failure-expired json rounded w ended now backoff r raw cause msg all =
    ground (arith, all zrem_command, all zadd_command, all del, all insert_dlq)

-- A task whose attempts are used up and whose context has ended, at the soft deadline, when its handler
-- returns the error: it is not set aside. The next redelivery after its deadline on the processing set, in
-- which no command fails, puts it into the queue again, with the same attempts. Its member decodes.
pub requeue_expired-spent :
    (json : Json) (rounded : ℤ → ℤ) (w : Worker) (ended fault : Command → Bool) (now later : ℤ)
    (backoff : ℤ → ℤ) (r : Redis) (raw cause : Text) (msg : Message)
    → ((c : Command) → ended c ≡ true)
    → ((c : Command) → fault c ≡ false)
    → ltb_ℤ (pos 0) msg.max_attempts && leb_ℤ msg.max_attempts msg.attempt ≡ true
    → json.decode raw ≡ some msg
    → any
        (λ m. text_eq m raw)
        (zrange_until (rounded later) (r.sets (processing_key w.prefix w.kind)))
      ≡ true
    → let r' = handle_failure json rounded w ended now backoff r raw msg cause in
      let r'' = (requeue_expired json rounded w fault later r').1 in
      (queued json rounded w r'' (json.encode (record msg { available_at = later })) ≡ true)
      × (r''.dead ≡ r.dead)
requeue_expired-spent json rounded w ended fault now later backoff r raw cause msg all sound spent
      decoded due =
    rw (handle_failure-expired json rounded w ended now backoff r raw cause msg all) (
      (requeue_expired-moves json rounded w fault sound later r raw msg due decoded).0,
      requeue_expired-dead json rounded w fault sound later r,
    )
