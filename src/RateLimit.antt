-- ===== src/RateLimit.antt =====
-- internal/ratelimit: `Allow` of slidingredis.go and the middleware of middleware.go. Instants and durations
-- are numbers of nanoseconds, `rounded` is the float64 of such a number, and `expiry` the lifetime that the
-- `Expire` of go-redis gives a key for a duration: it sends whole seconds. The members of a sorted set are
-- new UUIDs, so a set is the list of its scores.
use toko_api.Prelude.{
  ℕ, ℤ, pos, Bool, true, false, not, ◌||◌, Option, none, some, List, [], ◌∷◌, ◌++◌, ◌+ℤ◌, ◌-ℤ◌,
  leb_ℤ, ltb_ℤ, length, if◌then◌else◌, Text, text_eq, wrap64,
}
pub mod Counts
pub mod Windows
mod Examples

-- a sorted set with the instant at which it expires
pub record Entry : Type 0 where
  pub scores : List ℤ
  pub expires : ℤ

abbrev pub Redis : Type 0
Redis = Text → Option Entry

-- `Limiter`
pub record Limiter : Type 0 where
  pub has_client : Bool
  pub prefix : Text

-- How the transaction of a call ends.
pub data Outcome : Type 0 where
  executed unanswered refused : Outcome

pub record Verdict : Type 0 where
  pub allowed : Bool
  pub remaining : ℤ
  pub reset : ℤ
  pub error : Bool

-- `ZREMRANGEBYSCORE` from -inf
unfoldable pub drop_until : ℤ → List ℤ → List ℤ
drop_until cutoff [] = []
drop_until cutoff (s ∷ ss) =
    let rest = drop_until cutoff ss in if leb_ℤ s cutoff then rest else s ∷ rest

unfoldable pub live_scores : ℤ → Option Entry → List ℤ
live_scores now none = []
live_scores now (some e) = if ltb_ℤ now e.expires then e.scores else []

module _ (rounded expiry : ℤ → ℤ) (now window : ℤ) where
  -- the commands of the transaction on their key
  unfoldable pub register : Option Entry → Entry
  unfolding live_scores drop_until
  register e = record {
    scores = rounded now ∷ drop_until (rounded (now -ℤ window)) (live_scores now e);
    expires = now +ℤ expiry window;
  }

  abbrev pub verdict_of : ℤ → ℕ → Verdict
  verdict_of max current = record {
    allowed = leb_ℤ (pos current) max;
    remaining = if ltb_ℤ (max -ℤ pos current) (pos 0) then pos 0 else max -ℤ pos current;
    reset = now +ℤ window;
    error = false;
  }

  abbrev failure : Verdict
  failure = record { allowed = false; remaining = pos 0; reset = now +ℤ window; error = true }

  abbrev pub store_at : Text → Entry → Redis → Redis
  store_at key e r k = if text_eq k key then some e else r k

  -- `Limiter.Allow`
  unfoldable pub allow : Limiter → Outcome → Text → ℤ → Redis → Verdict × Redis
  unfolding register
  allow l outcome key max r =
      let redis_key = l.prefix ++ key in
      let e = register (r redis_key) in
      let r' = store_at redis_key e r in
      if not l.has_client || leb_ℤ max (pos 0) || leb_ℤ window (pos 0)
      then (record { allowed = true; remaining = max; reset = now +ℤ window; error = false }, r)
      else elim outcome [
        | executed ↦ (verdict_of max (length e.scores), r')
        | unanswered ↦ (failure, r')
        | refused ↦ (failure, r)
      ]

-- `Config`, with the key of the request at hand, or `none` without a function for it
pub record Config : Type 0 where
  pub key : Option Text
  pub window : ℤ
  pub max : ℤ

-- `X-RateLimit-Limit`, `-Remaining` and `-Reset`
pub record Headers : Type 0 where
  pub limit : ℤ
  pub remaining : ℤ
  pub reset : ℤ

-- What becomes of a request: it is passed on, without headers or with them, or answered with 429 and the
-- `Retry-After` header.
pub data Response : Type 0 where
  passed : Option Headers → Response
  too_many : Headers → ℤ → Response

module _ (rounded expiry whole_seconds unix : ℤ → ℤ) (l : Limiter) (c : Config) where
  abbrev headers_of : Verdict → Headers
  headers_of v = record {
    limit = if ltb_ℤ c.max (pos 0) then pos 0 else c.max;
    remaining = v.remaining;
    reset = unix v.reset;
  }

  abbrev retry_after : ℤ → ℤ
  retry_after wait = let s = whole_seconds wait in if ltb_ℤ s (pos 0) then pos 0 else s

  abbrev pub respond : ℤ → Verdict → Response
  respond later v =
      if v.error
      then passed none
      else if not v.allowed
      then too_many (headers_of v) (retry_after (v.reset -ℤ later))
      else passed (some (headers_of v))

  -- `Handler.Middleware`: `later` is the instant at which the waiting time is computed.
  unfoldable pub middleware : Outcome → ℤ → ℤ → Redis → Response × Redis
  unfolding allow
  middleware outcome now later r = elim c.key [
    | none ↦ (passed none, r)
    | some key ↦
        (let (v, r') = allow rounded expiry now c.window l outcome key c.max r in
          (respond later v, r'))
  ]
