-- ===== src/Lock/Examples.antt =====
-- The lock theorem at a concrete run.
use toko_api.Prelude.{◌≤◌, ◌≡◌, refl, none, some, [], ◌∷◌, arith}
use toko_api.Lock.{Lease, acquire}
use toko_api.Lock.Exclusion.{World, Step, Reach, count_live, Reach-exclusive}

abbrev start : World
start = record { now = 5; key = none; inside = []; next = 0 }

abbrev lease : Lease
lease = record { token = 0; expires = 105 }

entered : (acquire 5 0 100 none).0 ≡ some lease
unfolding acquire
entered = refl

abbrev locked : World
locked = record start { key = (acquire 5 0 100 none).1; inside = lease ∷ []; next = 1 }

reached : Reach start (record locked { now = 200 })
reached =
    Reach.then_step (Reach.then_step Reach.here (Step.enter start 100 lease entered))
      (Step.pass locked 200 (omega arith))

Reach-exclusive_example : count_live 200 (lease ∷ []) ≤ 1
Reach-exclusive_example = Reach-exclusive reached refl refl
