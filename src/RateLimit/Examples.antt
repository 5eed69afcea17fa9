-- ===== src/RateLimit/Examples.antt =====
-- The theorem on internal/ratelimit at a concrete run.
use toko_api.Prelude.{
  ℤ, pos, refl, ◌≤ℤ◌, true, none, [], ◌∷◌, ◌-ℤ◌, codes, arith, ◌+ℤ◌, text_eq, ◌*ℤ◌, ◌/ℤ◌,
}
use toko_api.RateLimit.{Redis, Limiter, executed, register, allow}
use toko_api.RateLimit.Counts.{count_after}
use toko_api.RateLimit.Windows.{Reach, start, request, call, Reach-within}

abbrev exact : ℤ → ℤ
exact z = z

-- whole seconds
abbrev seconds : ℤ → ℤ
seconds z = (z /ℤ 1000000000) *ℤ pos 1000000000

abbrev limiter : Limiter
limiter = record { has_client = true; prefix = codes "rl:" }

abbrev empty : Redis
empty k = none

abbrev after_one : Redis
after_one =
    (call exact seconds limiter (codes "ip") (pos 1000000000) (pos 1) (pos 500) executed empty).1

-- Of two calls within a window of which one is allowed, the second is refused.
two_calls :
    Reach exact seconds limiter
      (codes "ip")
      (pos 1000000000)
      (pos 1)
      (pos 550)
      (call exact seconds limiter
        (codes "ip")
        (pos 1000000000)
        (pos 1)
        (pos 550)
        executed
        after_one).1
      (pos 500 ∷ [])
unfolding allow register ◌+ℤ◌ ◌-ℤ◌ ◌*ℤ◌ ◌/ℤ◌ text_eq
two_calls =
    request (pos 550) executed
      (request (pos 500) executed (start {now = pos 0} {r = empty} refl) (omega arith))
      (omega arith)

lasts : pos 1000000000 ≤ℤ seconds (pos 1000000000)
unfolding ◌*ℤ◌ ◌/ℤ◌
lasts = omega arith

Reach-within_example : pos (count_after exact (pos 550 -ℤ pos 1000000000) (pos 500 ∷ [])) ≤ℤ pos 1
Reach-within_example =
    Reach-within exact seconds limiter (codes "ip") (pos 1000000000) (pos 1) (λ a b h. h) refl
      (omega arith) (omega arith) lasts two_calls
