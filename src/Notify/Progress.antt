-- ===== src/Notify/Progress.antt =====
-- How an attempt moves its delivery (`processDelivery` of internal/notify/webhook.go).
use toko_api.Prelude.{
  ℕ, ℤ, pos, ◌≡◌, refl, ◌∙◌, ap, ◌⊎◌, inl, inr, true, false, ◌&&◌, Bool-cases, Option-cases, Option,
  some, List, [], ◌∷◌, ◌+ℤ◌, ◌*ℤ◌, leb_ℤ, ltb_ℤ, Text, wrap32, wrap64, arith, any, any_append-last,
  ◌==◌,
}
use toko_api.Notify.Store.{
  Delivery, Tables, mark_delivering, mark_delivered, mark_failed, move_to_dlq, find_delivery,
  update_delivery, with_deliveries, delivering_row, delivered_row, failed_row, dlq_row,
  find_endpoint, find_event, get_endpoint, get_event, Endpoint, Event, dlq, delivered, failed,
  insert_dlq,
}
use toko_api.Notify.Dispatcher.{
  World, Dispatcher, Env, Answer, answered, broken, schedule_delivery, send_once, deliver, bury,
  retry, is_last, next_delay, fail_delivery, reject, conclude, loaded, attempt_delivery,
  process_delivery, nonempty_body,
}

-- The database answers the statements that change a delivery's status or insert a dead letter.
pub record IsWritable (v : Env) : Type 0 where
  pub starts : v.fault mark_delivering ≡ false
  pub delivers : v.fault mark_delivered ≡ false
  pub fails : v.fault mark_failed ≡ false
  pub buries : v.fault move_to_dlq ≡ false
  pub records : v.fault insert_dlq ≡ false

pub find_delivery-id :
    (id : ℕ) (ds : List Delivery) (del : Delivery) → find_delivery id ds ≡ some del → del.id ≡ id
unfolding find_delivery
find_delivery-id id [] del e = cc
find_delivery-id id (x ∷ ds) del e = ground (arith, find_delivery-id id ds del)

pub find_delivery-update :
    (change : Delivery → Delivery) (id : ℕ) (ds : List Delivery) (del : Delivery)
    → ((x : Delivery) → (change x).id ≡ x.id)
    → find_delivery id ds ≡ some del
    → find_delivery id (update_delivery change id ds) ≡ some (change del)
unfolding find_delivery update_delivery
find_delivery-update change id [] del k e = cc
find_delivery-update change id (x ∷ ds) del k e =
    ground (arith, k x, find_delivery-update change id ds del k)

-- The delivery is over: DELIVERED, or DLQ with a dead letter.
abbrev pub IsOver : Delivery → World → Type 0
IsOver row w =
    (row.status ≡ delivered)
    ⊎ ((row.status ≡ dlq) × (any (λ x. x.delivery_id == row.id) w.tables.dead ≡ true))

module _ (d : Dispatcher) (v : Env) where
  -- The row of the delivery in the world.
  abbrev pub row_in : ℕ → World → Option Delivery
  row_in id w = find_delivery id w.tables.deliveries

  schedule_delivery-tables :
      (id : Text) (delay max : ℤ) (w : World)
      → (schedule_delivery d v id delay max w).1.tables ≡ w.tables
  unfolding schedule_delivery
  schedule_delivery-tables id delay max w = ground arith

  deliver-tables :
      (ep : Endpoint) (ev : Event) (del : Delivery) (w : World)
      → (deliver d v ep ev del w).1.tables ≡ w.tables
  unfolding deliver send_once
  deliver-tables ep ev del w = ground arith

  bury-row : (id j : ℕ) (reason : Text) (w : World) → row_in j (bury d v id reason w) ≡ row_in j w
  bury-row id j reason w = ground arith

  -- What an attempt leaves of the row `x`: it is over, or has one more attempt of those allowed.
  pub record IsMoved (del x : Delivery) (w : World) : Type 0 where
    pub row : Delivery
    pub found : row_in del.id w ≡ some row
    pub moved :
        IsOver row w
        ⊎ ((is_last d v del ≡ false)
            × (row.attempt ≡ x.attempt +ℤ pos 1)
            × (row.max_attempt ≡ x.max_attempt)
            × (row.status ≡ failed))

  retry-ok :
      (del : Delivery) (reason : Text) (w : World)
      → v.fault mark_failed ≡ false
      → let delay = next_delay d del.attempt in
        let change = failed_row v.now (wrap32 delay *ℤ pos 1000000000) reason in
        retry d v del reason w
        ≡ schedule_delivery d v
            (v.id_text del.id)
            (wrap64 (delay *ℤ pos 1000000000))
            del.max_attempt
            (record w { tables = with_deliveries (update_delivery change del.id) w.tables })
  unfolding retry
  retry-ok del reason w f = ground (arith, f)

  retry-IsMoved :
      (del x : Delivery) (reason : Text) (w : World)
      → IsWritable v
      → is_last d v del ≡ false
      → row_in del.id w ≡ some x
      → IsMoved del x (retry d v del reason w).1
  unfolding retry
  retry-IsMoved del x reason w ok last found =
      let delay = next_delay d del.attempt in
      let change = failed_row v.now (wrap32 delay *ℤ pos 1000000000) reason in
      let w' : World = record w {
        tables = with_deliveries (update_delivery change del.id) w.tables;
      } in
      let same =
        schedule_delivery-tables (v.id_text del.id) (wrap64 (delay *ℤ pos 1000000000))
          del.max_attempt w' in
      rw (retry-ok del reason w ok.fails) record {
        row = change x;
        found =
            ap (λ (t : Tables). find_delivery del.id t.deliveries) same
            ∙ find_delivery-update change del.id w.tables.deliveries x (λ y. refl) found;
        moved = inr (last, refl, refl, refl);
      }

  buried-IsMoved :
      (del x : Delivery) (reason : Text) (w : World)
      → IsWritable v
      → row_in del.id w ≡ some x
      → IsMoved del x (
          bury d v del.id reason (record w {
            tables = with_deliveries (update_delivery (dlq_row reason) del.id) w.tables;
          }))
  buried-IsMoved del x reason w ok found =
      let w' : World = record w {
        tables = with_deliveries (update_delivery (dlq_row reason) del.id) w.tables;
      } in
      let same = find_delivery-id del.id w.tables.deliveries x found in
      let letter =
        any_append-last (λ y. y.delivery_id == x.id) w.tables.dead
          (record { delivery_id = del.id; reason = reason }) (ground (arith, same)) in
      record {
        row = dlq_row reason x;
        found =
            bury-row del.id del.id reason w'
            ∙ find_delivery-update (dlq_row reason) del.id w.tables.deliveries x (λ y. refl) found;
        moved = inl (inr (refl, rw ok.records letter));
      }

  fail_delivery-IsMoved :
      (del x : Delivery) (reason : Text) (w : World)
      → IsWritable v
      → row_in del.id w ≡ some x
      → IsMoved del x (fail_delivery d v del reason w).1
  unfolding fail_delivery
  fail_delivery-IsMoved del x reason w ok found = elim (Bool-cases (is_last d v del)) [
    | inl last ↦
        rw (last, ok.buries, fail_delivery) (rw ok.buries (buried-IsMoved del x reason w ok found))
    | inr more ↦ rw (more, fail_delivery) (retry-IsMoved del x reason w ok more found)
  ]

  reject-IsMoved :
      (del x : Delivery) (a : Answer) (w : World)
      → IsWritable v
      → row_in del.id w ≡ some x
      → IsMoved del x (reject d v del a w).1
  unfolding reject
  reject-IsMoved del x a w ok found = elim (Bool-cases (is_last d v del)) [
    | inl last ↦ rw (last, ok.buries, reject) (buried-IsMoved del x (v.reason a) w ok found)
    | inr more ↦ rw (more, reject) (retry-IsMoved del x (v.reason a) w ok more found)
  ]

  delivered-IsMoved :
      (del x : Delivery) (code : Option ℤ) (body : Option Text) (w : World)
      → row_in del.id w ≡ some x
      → IsMoved del x (record w {
        tables = with_deliveries (update_delivery (delivered_row code body) del.id) w.tables;
      })
  delivered-IsMoved del x code body w found = record {
    row = delivered_row code body x;
    found =
        find_delivery-update (delivered_row code body) del.id w.tables.deliveries x (λ y. refl)
          found;
    moved = inl (inl refl);
  }

  conclude-IsMoved :
      (del x : Delivery) (a : Answer) (w : World)
      → IsWritable v
      → row_in del.id w ≡ some x
      → IsMoved del x (conclude d v del a w).1
  unfolding conclude
  conclude-IsMoved del x (broken status) w ok found =
      reject-IsMoved del x (broken status) w ok found
  conclude-IsMoved del x (answered status body) w ok found =
      elim (Bool-cases (leb_ℤ (pos 200) status && ltb_ℤ status (pos 300))) [
        | inl good ↦
            rw (good, ok.delivers, conclude)
              (delivered-IsMoved del x (some (wrap32 status)) (nonempty_body d v body) w found)
        | inr bad ↦ rw (bad, conclude) (reject-IsMoved del x (answered status body) w ok found)
      ]

  attempt_delivery-IsMoved :
      (del x : Delivery) (w : World)
      → IsWritable v
      → row_in del.id w ≡ some x
      → IsMoved del x (attempt_delivery d v del w).1
  unfolding attempt_delivery
  attempt_delivery-IsMoved del x w ok found =
      elim (Option-cases
        (loaded d v get_endpoint (find_endpoint del.endpoint_id w.tables.endpoints))) [
          | inl e ↦
              rw (e, attempt_delivery)
                (fail_delivery-IsMoved del x (v.load_reason get_endpoint) w ok found)
          | inr (ep, e) ↦
              elim (Option-cases (loaded d v get_event (find_event del.event_id w.tables.events))) [
                | inl h ↦
                    rw (e, h, attempt_delivery)
                      (fail_delivery-IsMoved del x (v.load_reason get_event) w ok found)
                | inr (ev, h) ↦
                    let (a, w') = deliver d v ep ev del w in
                    let same =
                      ap (λ (t : Tables). find_delivery del.id t.deliveries)
                        (deliver-tables ep ev del w) in
                    rw (e, h, attempt_delivery) (conclude-IsMoved del x a w' ok (same ∙ found))
              ]
        ]

  -- Where the database answers, an attempt leaves its delivery DELIVERED, or DLQ with a dead letter, or
  -- it was not the last one that is allowed and is counted.
  pub process_delivery-IsMoved :
      (del : Delivery) (w : World)
      → IsWritable v
      → row_in del.id w ≡ some del
      → IsMoved del del (process_delivery d v del w).1
  unfolding process_delivery
  process_delivery-IsMoved del w ok found =
      let w' : World = record w {
        tables = with_deliveries (update_delivery delivering_row del.id) w.tables;
      } in
      let started =
        find_delivery-update delivering_row del.id w.tables.deliveries del (λ y. refl) found in
      let m = attempt_delivery-IsMoved del (delivering_row del) w' ok started in
      rw (ok.starts, process_delivery)
        (rw ok.starts record { row = m.row; found = m.found; moved = m.moved })
