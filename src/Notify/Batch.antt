-- ===== src/Notify/Batch.antt =====
-- `WorkOnce` of internal/notify/webhook.go, with the query for the deliveries that are due. A table lists
-- its rows in the order in which they were created.
use toko_api.Prelude.{
  ℕ, zero, suc, ℤ, pos, Bool, true, false, not, ◌&&◌, Option, none, some, List, [], ◌∷◌, leb_ℤ,
  if◌then◌else◌, pos_part,
}
use toko_api.Notify.Store.{Status, pending, failed, Delivery, dequeue_due}
use toko_api.Notify.Dispatcher.{World, Dispatcher, Env, Error, database, process_delivery}

abbrev is_open : Status → Bool
is_open pending = true
is_open failed = true
is_open _ = false

abbrev is_over : ℤ → Option ℤ → Bool
is_over now none = true
is_over now (some at) = leb_ℤ at now

-- the condition of `DequeueDueDeliveries`
abbrev pub is_due : ℤ → Delivery → Bool
is_due now d = is_open d.status && is_over now d.next_attempt_at

-- `ORDER BY next_attempt_at NULLS FIRST`
abbrev pub is_sooner : Option ℤ → Option ℤ → Bool
is_sooner none b = true
is_sooner (some a) none = false
is_sooner (some a) (some b) = leb_ℤ a b

unfoldable pub insert_due : Delivery → List Delivery → List Delivery
insert_due d [] = d ∷ []
insert_due d (x ∷ xs) =
    if is_sooner d.next_attempt_at x.next_attempt_at then d ∷ x ∷ xs else x ∷ insert_due d xs

unfoldable pub due_rows : ℤ → List Delivery → List Delivery
unfolding insert_due
due_rows now [] = []
due_rows now (d ∷ ds) =
    let rest = due_rows now ds in if is_due now d then insert_due d rest else rest

-- `LIMIT`
unfoldable pub first_rows : ℕ → List Delivery → List Delivery
first_rows zero ds = []
first_rows (suc n) [] = []
first_rows (suc n) (d ∷ ds) = d ∷ first_rows n ds

module _ (d : Dispatcher) (v : Env) where
  -- The loop drops the error of an attempt.
  unfoldable pub process_all : List Delivery → World → World
  process_all [] w = w
  process_all (del ∷ rest) w = process_all rest (process_delivery d v del w).1

  abbrev pub batch_of : ℤ → ℕ
  batch_of batch = if leb_ℤ batch (pos 0) then 1 else pos_part batch

  -- `WorkOnce`
  unfoldable pub work_once : ℤ → World → Option Error × World
  unfolding process_all due_rows first_rows
  work_once batch w =
      if not d.enabled
      then (none, w)
      else if v.fault dequeue_due
      then (some (database dequeue_due), w)
      else (none, process_all (first_rows (batch_of batch) (due_rows v.now w.tables.deliveries)) w)
