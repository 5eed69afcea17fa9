-- ===== src/RateLimit/Windows.antt =====
-- How many requests the limiter of internal/ratelimit/slidingredis.go grants within a window.
use toko_api.Prelude.{
  ◌≤◌, ℤ, pos, ◌≤ℤ◌, ◌<ℤ◌, ◌≡◌, refl, sym, Bool, true, false, Bool-cases, none, some, List, [], ◌∷◌,
  ◌++◌, ◌+ℤ◌, ◌-ℤ◌, +ℤ_parts, -ℤ_parts, leb_ℤ, ltb_ℤ, length, if◌then◌else◌, Text, text_eq_refl,
  All, inl, inr, arith,
}
use mathlib.Core.Path.{subst}
use toko_api.RateLimit.Counts.{
  count_after, above, above-length, above-drop_until, count_after-later, count_after-old,
}
use toko_api.RateLimit.{
  Entry, Redis, Limiter, Outcome, executed, unanswered, refused, Verdict, live_scores, register,
  verdict_of, store_at, allow,
}

-- A run of calls of `Allow` with one key.
module _ (rounded expiry : ℤ → ℤ) (l : Limiter) (key : Text) (window max : ℤ) where
  abbrev pub call : ℤ → Outcome → Redis → Verdict × Redis
  call now outcome r = allow rounded expiry now window l outcome key max r

  abbrev pub grant : Bool → ℤ → List ℤ → List ℤ
  grant allowed now granted = if allowed then now ∷ granted else granted

  -- The instant of the last call, the store, and the instants of the calls that were granted.
  pub data Reach : ℤ → Redis → List ℤ → Type 0 where
    start : {now : ℤ} {r : Redis} → r (l.prefix ++ key) ≡ none → Reach now r []
    request :
        {before : ℤ} {r : Redis} {granted : List ℤ} (now : ℤ) (outcome : Outcome)
        → Reach before r granted
        → before ≤ℤ now
        → Reach now (call now outcome r).1 (grant (call now outcome r).0.allowed now granted)

  record IsWithin (now : ℤ) (r : Redis) (granted : List ℤ) : Type 0 where
    past : All (λ t. t ≤ℤ now) granted
    counted :
        (later c : ℤ)
        → now ≤ℤ later
        → rounded (later -ℤ window) ≤ℤ c
        → count_after rounded c granted ≤ above c (live_scores later (r (l.prefix ++ key)))
    few : pos (count_after rounded (rounded (now -ℤ window)) granted) ≤ℤ max

  module _ (mono : (a b : ℤ) → a ≤ℤ b → rounded a ≤ℤ rounded b) (client : l.has_client ≡ true)
      (some_max : pos 0 <ℤ max) (some_window : pos 0 <ℤ window)
      (lasts : window ≤ℤ expiry window) where
    past-later :
        (now later : ℤ) (ts : List ℤ)
        → now ≤ℤ later
        → All (λ t. t ≤ℤ now) ts
        → All (λ t. t ≤ℤ later) ts
    past-later now later [] h hs = tt
    past-later now later (t ∷ ts) h (x, hs) = (ground (arith, h, x), past-later now later ts h hs)

    outdated :
        (now later c : ℤ) (ts : List ℤ)
        → now +ℤ window ≤ℤ later
        → rounded (later -ℤ window) ≤ℤ c
        → All (λ t. t ≤ℤ now) ts
        → All (λ t. rounded t ≤ℤ c) ts
    outdated now later c [] h k hs = tt
    outdated now later c (t ∷ ts) h k (x, hs) =
        let low : t ≤ℤ later -ℤ window =
          ground (arith, h, x, +ℤ_parts now window, -ℤ_parts later window) in
        (ground (arith, k, mono t (later -ℤ window) low), outdated now later c ts h k hs)

    -- The window starts later with every call.
    cutoff-later :
        (before now : ℤ) → before ≤ℤ now → rounded (before -ℤ window) ≤ℤ rounded (now -ℤ window)
    cutoff-later before now h =
        mono (before -ℤ window) (now -ℤ window)
          (omega (arith, h, -ℤ_parts before window, -ℤ_parts now window))

    waiting :
        (before now : ℤ) (r : Redis) (granted : List ℤ)
        → before ≤ℤ now
        → IsWithin before r granted
        → IsWithin now r granted
    waiting before now r granted h i = record {
      past = past-later before now granted h i.past;
      counted = λ later c k m. i.counted later c (ground (arith, h, k)) m;
      few =
          let fewer =
            count_after-later rounded (rounded (before -ℤ window)) (rounded (now -ℤ window)) granted
              (cutoff-later before now h) in
          omega (arith, i.few, fewer);
    }

    grant-past :
        (allowed : Bool) (now : ℤ) (granted : List ℤ)
        → All (λ t. t ≤ℤ now) granted
        → All (λ t. t ≤ℤ now) (grant allowed now granted)
    grant-past true now granted h = (omega arith, h)
    grant-past false now granted h = h

    leb_ℤ_of_positive : (z : ℤ) → pos 0 <ℤ z → leb_ℤ z (pos 0) ≡ false
    leb_ℤ_of_positive z h = ground (arith, h)

    -- The counts after a transaction that was executed, whether the call was granted or not.
    registered :
        (now : ℤ) (r : Redis) (granted : List ℤ) (allowed : Bool)
        → IsWithin now r granted
        → (later c : ℤ) → now ≤ℤ later
        → rounded (later -ℤ window) ≤ℤ c
        → count_after rounded c (grant allowed now granted)
          ≤ above c
              (live_scores later (some (register rounded expiry now window (r (l.prefix ++ key)))))
    unfolding register live_scores above count_after
    registered now r granted allowed i later c h k =
        elim (Bool-cases (ltb_ℤ later (now +ℤ expiry window))) [
          | inl fresh ↦
              let cut = cutoff-later now later h in
              let same =
                above-drop_until (rounded (now -ℤ window)) c (live_scores now (r (l.prefix ++ key)))
                  (omega (arith, cut, k)) in
              let old = i.counted now c (omega arith) (omega (arith, cut, k)) in
              rw fresh (ground (arith, same, old))
          | inr ended ↦
              let zero = count_after-old rounded c (grant allowed now granted) (
                outdated now later c (grant allowed now granted)
                  (ground (arith, ended, lasts, +ℤ_parts now window, +ℤ_parts now (expiry window)))
                  k (grant-past allowed now granted i.past)) in
              rw zero (omega arith)
        ]

    above-live : (c now : ℤ) (e : Entry) → above c (live_scores now (some e)) ≤ length e.scores
    unfolding live_scores above
    above-live c now e = ground (arith, above-length c e.scores)

    few_after :
        (now : ℤ) (r : Redis) (granted : List ℤ)
        → IsWithin now r granted
        → let e = register rounded expiry now window (r (l.prefix ++ key)) in
          let granted' = grant (leb_ℤ (pos (length e.scores)) max) now granted in
          pos (count_after rounded (rounded (now -ℤ window)) granted') ≤ℤ max
    few_after now r granted i =
        let e = register rounded expiry now window (r (l.prefix ++ key)) in
        let cut = rounded (now -ℤ window) in
        elim (Bool-cases (leb_ℤ (pos (length e.scores)) max)) [
          | inl given ↦
              let bound = registered now r granted true i now cut (omega arith) (omega arith) in
              let small = above-live cut now e in rw given (ground (arith, given, bound, small))
          | inr held_back ↦ rw held_back i.few
        ]

    call-executed :
        (now : ℤ) (r : Redis)
        → let redis_key = l.prefix ++ key in
          let e = register rounded expiry now window (r redis_key) in
          call now executed r ≡ (
            verdict_of rounded expiry now window max (length e.scores),
            store_at rounded expiry now window redis_key e r,
          )
    unfolding allow
    call-executed now r =
        ground (arith, client, leb_ℤ_of_positive max some_max, leb_ℤ_of_positive window some_window)

    renewed :
        (now : ℤ) (r r' : Redis) (granted : List ℤ)
        → let e = register rounded expiry now window (r (l.prefix ++ key)) in
          r' (l.prefix ++ key) ≡ some e
          → IsWithin now r granted
          → IsWithin now r' (grant (leb_ℤ (pos (length e.scores)) max) now granted)
    unfolding count_after
    renewed now r r' granted put i =
        let e = register rounded expiry now window (r (l.prefix ++ key)) in
        let counts = registered now r granted (leb_ℤ (pos (length e.scores)) max) i in
        record {
          past = grant-past (leb_ℤ (pos (length e.scores)) max) now granted i.past;
          counted = λ later c h k. rw put (counts later c h k);
          few = few_after now r granted i;
        }

    IsWithin-executed :
        (now : ℤ) (r : Redis) (granted : List ℤ)
        → IsWithin now r granted
        → IsWithin now (call now executed r).1 (grant (call now executed r).0.allowed now granted)
    IsWithin-executed now r granted i =
        let redis_key = l.prefix ++ key in
        let e = register rounded expiry now window (r redis_key) in
        let r' = store_at rounded expiry now window redis_key e r in
        let put : r' redis_key ≡ some e = rw (text_eq_refl redis_key) refl in
        subst (λ (x : Verdict × Redis). IsWithin now x.1 (grant x.0.allowed now granted))
          (sym (call-executed now r)) (renewed now r r' granted put i)

    call-broken :
        (now : ℤ) (r : Redis)
        → let redis_key = l.prefix ++ key in
          ((call now unanswered r).0.allowed ≡ false)
          × ((call now unanswered r).1
              ≡ store_at rounded expiry now window redis_key
                  (register rounded expiry now window (r redis_key))
                  r)
          × ((call now refused r).0.allowed ≡ false)
          × ((call now refused r).1 ≡ r)
    unfolding allow
    call-broken now r =
        ground (arith, client, leb_ℤ_of_positive max some_max, leb_ℤ_of_positive window some_window)

    kept :
        (now : ℤ) (r r' : Redis) (granted : List ℤ)
        → r' (l.prefix ++ key) ≡ some (register rounded expiry now window (r (l.prefix ++ key)))
        → IsWithin now r granted
        → IsWithin now r' granted
    kept now r r' granted put i = record {
      past = i.past;
      counted = λ later c h k. rw put (registered now r granted false i later c h k);
      few = i.few;
    }

    IsWithin-call :
        (now : ℤ) (outcome : Outcome) (r : Redis) (granted : List ℤ)
        → IsWithin now r granted
        → IsWithin now (call now outcome r).1 (grant (call now outcome r).0.allowed now granted)
    IsWithin-call now executed r granted i = IsWithin-executed now r granted i
    IsWithin-call now unanswered r granted i =
        let redis_key = l.prefix ++ key in
        let e = register rounded expiry now window (r redis_key) in
        let r' = store_at rounded expiry now window redis_key e r in
        let put : r' redis_key ≡ some e = rw (text_eq_refl redis_key) refl in
        let (denied, stored, _, _) = call-broken now r in
        rw (denied, stored) (kept now r r' granted put i)
    IsWithin-call now refused r granted i =
        let (_, _, denied, same) = call-broken now r in rw (denied, same) i

    Reach-IsWithin :
        {now : ℤ} {r : Redis} {granted : List ℤ} → Reach now r granted → IsWithin now r granted
    unfolding count_after live_scores above
    Reach-IsWithin (start {now} {r} empty) = record {
      past = tt;
      counted = λ later c h k. omega arith;
      few = omega (arith, some_max);
    }
    Reach-IsWithin (request {before} {r} {granted} now outcome run later) =
        IsWithin-call now outcome r granted
          (waiting before now r granted later (Reach-IsWithin run))

    -- Of the calls of a limiter with a client, however their transactions end, at most `max` are granted
    -- within one window before the latest call. `max` and the window are positive, a key with the window as
    -- its lifetime lives at least that long (so for whole seconds), the instants of the calls do not
    -- decrease, and the rounding of an instant to float64 keeps the order.
    pub Reach-within :
        {now : ℤ} {r : Redis} {granted : List ℤ}
        → Reach now r granted
        → pos (count_after rounded (rounded (now -ℤ window)) granted) ≤ℤ max
    Reach-within run = (Reach-IsWithin run).few
