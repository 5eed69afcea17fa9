-- ===== src/Notify/Worker.antt =====
-- internal/notify: `Schedule` of webhook.go, `Handle` of webhook_worker.go, whose body runs while the lock
-- of the delivery is held, and `ReplayDelivery` of admin_handlers.go.
use toko_api.Prelude.{
  ℕ, ℤ, pos, not, Option, none, some, List, [], ◌∷◌, ◌++◌, leb_ℤ, if◌then◌else◌, Text, is_empty,
  trim_space, wrap32, ◌==◌,
}
use toko_api.Queue.Redis.{release}
use toko_api.Notify.Store.{
  Endpoint, Event, Delivery, Dead, list_active_endpoints, enqueue_delivery, get_delivery,
  reset_delivery, delete_dlq, find_delivery, update_delivery, active_endpoints, reset_row,
  with_deliveries, insert_delivery,
}
use toko_api.Notify.Dispatcher.{
  World, Dispatcher, Error, no_rows, invalid_delivery_id, database, Env, replay_key,
  schedule_delivery, deliver_by_id, is_final,
}

-- `DELETE FROM webhook_dlq WHERE delivery_id = $1`
unfoldable pub delete_dead : ℕ → List Dead → List Dead
delete_dead id [] = []
delete_dead id (x ∷ xs) =
    let rest = delete_dead id xs in if x.delivery_id == id then rest else x ∷ rest

module _ (d : Dispatcher) (v : Env) where
  abbrev own_max : ℤ
  own_max = if leb_ℤ d.default_max_attempts (pos 0) then pos 6 else d.default_max_attempts

  abbrev append_error : List Error → Option Error → List Error
  append_error errors none = errors
  append_error errors (some e) = errors ++ e ∷ []

  -- one round of the loop of `Schedule`
  unfoldable pub schedule_endpoint : Event → Endpoint → List Error → World → List Error × World
  schedule_endpoint ev ep errors w =
      if v.fault enqueue_delivery
      then (errors ++ database enqueue_delivery ∷ [], w)
      else elim (insert_delivery v.now ep.id ev.id (wrap32 own_max) w.tables) [
        | none ↦ (errors, w)
        | some (del, tables) ↦
            (let (error, w') =
                schedule_delivery d v (v.id_text del.id) (pos 0) del.max_attempt
                  (record w { tables = tables }) in
              (append_error errors error, w'))
      ]

  unfoldable pub schedule_all : Event → List Endpoint → List Error → World → List Error × World
  unfolding schedule_endpoint
  schedule_all ev [] errors w = (errors, w)
  schedule_all ev (ep ∷ endpoints) errors w =
      let (errors', w') = schedule_endpoint ev ep errors w in schedule_all ev endpoints errors' w'

  -- `Schedule`: the errors that are joined
  unfoldable pub schedule : Event → World → List Error × World
  unfolding schedule_all
  schedule ev w =
      if not d.enabled
      then ([], w)
      else if is_empty (trim_space ev.topic)
      then ([], w)
      else if v.fault list_active_endpoints
      then (database list_active_endpoints ∷ [], w)
      else schedule_all ev (active_endpoints ev.topic w.tables.endpoints) [] w

  -- `DeliveryWorker.Handle`
  unfoldable pub handle : Text → World → Option Error × World
  handle payload w =
      let id = trim_space payload in
      if is_empty id then (none, w) else elim (v.parse_uuid id) [
        | none ↦ (some invalid_delivery_id, w)
        | some key ↦
            if v.fault get_delivery
            then (some (database get_delivery), w)
            else elim (find_delivery key w.tables.deliveries) [
              | none ↦ (some no_rows, w)
              | some del ↦ if is_final d v del.status then (none, w) else deliver_by_id d v id w
            ]
      ]

  -- the three steps of `ReplayDelivery` after the row is known
  unfoldable pub reset : Delivery → World → World
  reset del w =
      let rows = with_deliveries (update_delivery (reset_row v.now) del.id) w.tables in
      record w {
        tables =
            if v.fault delete_dlq
            then rows
            else record rows { dead = delete_dead del.id rows.dead };
        replay = elim d.replay_ttl [
          | none ↦ w.replay
          | some ttl ↦ if v.replay_fault then w.replay else release (replay_key v del) w.replay
        ];
      }

  -- `ReplayDelivery`
  unfoldable pub replay_delivery : Text → World → Option Error × World
  unfolding reset
  replay_delivery id w = elim (v.parse_uuid (trim_space id)) [
    | none ↦ (some invalid_delivery_id, w)
    | some key ↦
        if v.fault reset_delivery
        then (some (database reset_delivery), w)
        else elim (find_delivery key w.tables.deliveries) [
          | none ↦ (some no_rows, w)
          | some del ↦ (none, reset del w)
        ]
  ]
