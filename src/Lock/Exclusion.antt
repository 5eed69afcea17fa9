-- ===== src/Lock/Exclusion.antt =====
-- Who is inside of the lock of internal/lock/redislock.go.
use toko_api.Prelude.{
  ℕ, ◌+◌, ◌≤◌, ◌≡◌, refl, ◌⊎◌, inl, inr, Bool, true, false, Option, none, some, List, [], ◌∷◌, ◌==◌,
  ltb, if◌then◌else◌, arith, All, Bool-cases,
}
use toko_api.Lock.{Lease, is_live, acquire, run_script, Eval, ran, failed, unknown_command, release}

-- The clock, the key, the leases of the callers inside of their callbacks, and the tokens used so far:
-- all are below `next`.
pub record World : Type 0 where
  pub now : ℕ
  pub key : Option Lease
  pub inside : List Lease
  pub next : ℕ

unfoldable pub without : ℕ → List Lease → List Lease
without token [] = []
without token (l ∷ ls) = let rest = without token ls in if l.token == token then rest else l ∷ rest

abbrev pub knows_script : Eval → Bool
knows_script (unknown_command del_fails) = false
knows_script _ = true

-- What can happen: time passes, a caller makes an attempt, and a caller returns from its callback and
-- releases, where the server knows the command of the script. The token of an attempt is new: one that was
-- refused has left no trace of its token.
pub data Step : World → World → Type 0 where
  pass : (w : World) (later : ℕ) → w.now ≤ later → Step w (record w { now = later })
  enter :
      (w : World) (ttl : ℕ) (l : Lease)
      → (acquire w.now w.next ttl w.key).0 ≡ some l
      → Step w (record w {
        key = (acquire w.now w.next ttl w.key).1;
        inside = l ∷ w.inside;
        next = w.next + 1;
      })
  refused :
      (w : World) (ttl : ℕ)
      → (acquire w.now w.next ttl w.key).0 ≡ none
      → Step w (record w { next = w.next + 1 })
  leave :
      (w : World) (token : ℕ) (eval : Eval)
      → knows_script eval ≡ true
      → Step w (record w { key = release eval w.now token w.key; inside = without token w.inside })

pub data Reach : World → World → Type 0 where
  here : {w : World} → Reach w w
  then_step : {u v w : World} → Reach u v → Step v w → Reach u w

-- the lease is the one that the key holds
abbrev IsKey : Option Lease → Lease → Type 0
IsKey key l = key ≡ some l

-- A caller's lease is over or is the one of the key.
abbrev Guarded : World → Lease → Type 0
Guarded w l = (l.expires ≤ w.now) ⊎ IsKey w.key l

-- The callers inside whose lease is not over.
unfoldable pub count_live : ℕ → List Lease → ℕ
count_live now [] = 0
count_live now (l ∷ ls) =
    let rest = count_live now ls in if ltb now l.expires then rest + 1 else rest

record IsGuarded (w : World) : Type 0 where
  pub all_guarded : All (Guarded w) w.inside
  pub at_most_one : count_live w.now w.inside ≤ 1

All-map :
    (v w : World) (ls : List Lease)
    → ((l : Lease) → Guarded v l → Guarded w l)
    → All (Guarded v) ls
    → All (Guarded w) ls
All-map v w [] f a = a
All-map v w (l ∷ ls) f a = (f l a.0, All-map v w ls f a.1)

count_live-later :
    (now later : ℕ) (ls : List Lease) → now ≤ later → count_live later ls ≤ count_live now ls
unfolding count_live
count_live-later now later [] h = omega arith
count_live-later now later (l ∷ ls) h = ground (arith, count_live-later now later ls h)

count_live-without :
    (now token : ℕ) (ls : List Lease) → count_live now (without token ls) ≤ count_live now ls
unfolding count_live without
count_live-without now token [] = omega arith
count_live-without now token (l ∷ ls) = ground (arith, count_live-without now token ls)

-- Where the key is free, the lease of every caller inside is over.
is_over : (w : World) (l : Lease) → is_live w.now w.key ≡ false → Guarded w l → l.expires ≤ w.now
is_over w l free (inl over) = over
is_over w l free (inr same) = ground (arith, same, free)

count_live-free :
    (w : World) (ls : List Lease)
    → is_live w.now w.key ≡ false
    → All (Guarded w) ls
    → count_live w.now ls ≡ 0
unfolding count_live
count_live-free w [] free a = refl
count_live-free w (l ∷ ls) free a =
    ground (arith, count_live-free w ls free a.1, is_over w l free a.0)

acquire-some :
    (now token ttl : ℕ) (key : Option Lease) (l : Lease)
    → (acquire now token ttl key).0 ≡ some l
    → (is_live now key ≡ false) × (l.token ≡ token) × ((acquire now token ttl key).1 ≡ some l)
unfolding acquire
acquire-some now token ttl key l h = ground arith

-- A release keeps the key of everyone else.
release-other :
    (w : World) (token : ℕ) (eval : Eval) (l : Lease)
    → knows_script eval ≡ true
    → (l.token == token) ≡ false
    → Guarded w l
    → Guarded (record w { key = release eval w.now token w.key; inside = without token w.inside }) l
unfolding release run_script
release-other w token eval l k other (inl over) = inl over
release-other w token ran l k other (inr same) = inr (ground (arith, same, other))
release-other w token failed l k other (inr same) = inr same
release-other w token (unknown_command del_fails) l k other (inr same) = cc

All-without :
    (w : World) (token : ℕ) (eval : Eval) (ls : List Lease)
    → knows_script eval ≡ true
    → All (Guarded w) ls
    → All
        (Guarded
          (record w { key = release eval w.now token w.key; inside = without token w.inside }))
        (without token ls)
unfolding without
All-without w token eval [] k a = tt
All-without w token eval (l ∷ ls) k a = elim (Bool-cases (l.token == token)) [
  | inl gone ↦ rw gone (All-without w token eval ls k a.1)
  | inr other ↦
      rw other (release-other w token eval l k other a.0, All-without w token eval ls k a.1)
]

Step-IsGuarded : {v w : World} → Step v w → IsGuarded v → IsGuarded w
unfolding count_live
Step-IsGuarded (pass v later h) g = record {
  all_guarded = All-map v (record v { now = later }) v.inside (λ l x. ground arith) g.all_guarded;
  at_most_one = ground (arith, count_live-later v.now later v.inside h, g.at_most_one);
}
Step-IsGuarded (enter v ttl l e) g =
    let (free, token, held) = acquire-some v.now v.next ttl v.key l e in
    let key = (acquire v.now v.next ttl v.key).1 in
    let w : World = record v { key = key; inside = l ∷ v.inside; next = v.next + 1 } in
    record {
      all_guarded =
          (inr held, All-map v w v.inside (λ m x. inl (is_over v m free x)) g.all_guarded);
      at_most_one = ground (arith, count_live-free v v.inside free g.all_guarded);
    }
Step-IsGuarded (refused v ttl e) g = record {
  all_guarded = All-map v (record v { next = v.next + 1 }) v.inside (λ l x. x) g.all_guarded;
  at_most_one = g.at_most_one;
}
Step-IsGuarded (leave v token eval k) g = record {
  all_guarded = All-without v token eval v.inside k g.all_guarded;
  at_most_one = ground (arith, count_live-without v.now token v.inside, g.at_most_one);
}

Reach-IsGuarded : {v w : World} → Reach v w → IsGuarded v → IsGuarded w
Reach-IsGuarded here g = g
Reach-IsGuarded (then_step r st) g = Step-IsGuarded st (Reach-IsGuarded r g)

-- From a state in which nobody is inside and the key is free, whatever callers enter, wait, return and
-- release on a server that knows the command of the script: at most one caller at a time is inside with a
-- lease that is not over.
pub Reach-exclusive :
    {v w : World} → Reach v w → v.inside ≡ [] → v.key ≡ none → count_live w.now w.inside ≤ 1
unfolding count_live
Reach-exclusive {v} r empty free =
    (Reach-IsGuarded r
      (record { all_guarded = rw empty tt; at_most_one = rw empty (omega arith) })).at_most_one
