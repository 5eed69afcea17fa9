-- ===== src/Payment/Effects.antt =====
-- What the payment webhook of internal/payment/webhook.go changes.
use toko_api.Prelude.{
  ℕ, ◌-◌, ℤ, pos, ◌==◌, sym, All, refl, ◌≡◌, ◌≢◌, ap, ◌∙◌, Bool, true, false, not, ◌&&◌, Option,
  none, some, Text, arith, Option-cases, inl, inr, List, [], ◌∷◌,
}
use toko_api.Order.Status.{Status as OrderStatus}
use toko_api.Order.Store.{Order, find_order, set_status, find_order-set_status, with_status}
use toko_api.Payment.Status.{
  Status, pending, paid, failed, expired, refunded, is_paid, normalise_webhook_status,
}
use toko_api.Payment.Store.{Payment, Query, find_payment, items_of, Db}
use toko_api.Payment.Stock.{
  stock_of, ordered, IsCountable, taken-items_of, All-items_of, take_stock-taken,
}
use toko_api.Payment.Settlement.{
  no_content, Work, Vouchers, take_stock, settle_stock, settle_paid, follow_status,
}
use toko_api.Payment.Webhook.{
  Verified, State, Webhook, Ended, begin, payload_or, finish, follow_order, record_payment,
  update_payment, process, kept, handle_order,
}

unchanged : (r : Option Order) (status : OrderStatus) → with_status r false status ≡ r
unchanged none status = refl
unchanged (some o) status = refl

find_order-id : (id : ℕ) (os : List Order) (o : Order) → find_order id os ≡ some o → o.id ≡ id
unfolding find_order
find_order-id id [] o e = cc
find_order-id id (x ∷ os) o e = ground (arith, find_order-id id os o)

settle_paid-fails :
    (v : Option Vouchers) (fault : Query → Bool) (w : Work) (o : Order)
    → (settle_paid v fault w o).0 ≢ some no_content
unfolding settle_paid settle_stock
settle_paid-fails v fault w o = ground arith

-- The error of a status is never the answer of a success.
follow_status-fails :
    (v : Option Vouchers) (fault : Query → Bool) (status : Status) (b : Bool) (w : Work) (o : Order)
    → (follow_status v fault status b w o).0 ≢ some no_content
unfolding follow_status
follow_status-fails v fault paid true w o = settle_paid-fails v fault w o
follow_status-fails v fault paid false w o = λ e. cc
follow_status-fails v fault failed b w o = λ e. cc
follow_status-fails v fault expired b w o = λ e. cc
follow_status-fails v fault pending b w o = λ e. cc
follow_status-fails v fault refunded b w o = λ e. cc

module _ (h : Webhook) (fault : Query → Bool) (now : ℤ) where
  abbrev pub settles : Payment → Verified → Bool
  settles p v = is_paid (normalise_webhook_status v.status) && not (is_paid p.status)

  abbrev pub recorded : Work → Payment → Verified → Text → Work
  recorded w p v body =
      record_payment h fault now w p (normalise_webhook_status v.status)
        (payload_or v.provider_payload body)

  finish-success :
      (status : Status) (p : Payment) (o : Order) (c : Bool) (w : Work)
      → (finish h fault now status p o c w).response ≡ no_content
      → (finish h fault now status p o c w).work ≡ record w { committed = w.db }
  unfolding finish
  finish-success status p o c w ok = ground arith

  follow_order-success :
      (status : Status) (b : Bool) (p : Payment) (w : Work) (o : Order)
      → (follow_order h fault now status b p w o).response ≡ no_content
      → let f = follow_status h.settler fault status b w o in
        (f.0 ≡ none)
        × ((follow_order h fault now status b p w o).work ≡ record f.2 { committed = f.2.db })
  unfolding follow_order
  follow_order-success status b p w o ok =
      elim (Option-cases (follow_status h.settler fault status b w o).0) [
        | inl fine ↦
            (fine, rw (follow_order, fine) (finish-success status p o _ _ (ground (arith, fine))))
        | inr (r, broken) ↦
            absurd (follow_status-fails h.settler fault status b w o (ground (arith, broken)))
      ]

  update_payment-success :
      (w : Work) (p : Payment) (v : Verified) (body : Text) (o : Order)
      → find_order p.order_id w.db.orders ≡ some o
      → (update_payment h fault now w p v body).response ≡ no_content
      → update_payment h fault now w p v body
        ≡ follow_order h fault now
            (normalise_webhook_status v.status)
            (settles p v)
            p
            (recorded w p v body)
            o
  unfolding update_payment
  update_payment-success w p v body o found ok = ground arith

  process-success :
      (w : Work) (id : ℕ) (v : Verified) (body : Text) (p : Payment)
      → find_payment id w.db.payments ≡ some p
      → (process h fault now w id v body).response ≡ no_content
      → process h fault now w id v body ≡ update_payment h fault now w p v body
  unfolding process
  process-success w id v body p known ok = ground arith

  handle_order-kept :
      (s : State) (id : ℕ) (v : Verified) (body : Text)
      → (handle_order h fault now s id v body).0 ≡ no_content
      → let w = (process h fault now (begin h fault now s.work) id v body).work in
        ((process h fault now (begin h fault now s.work) id v body).response ≡ no_content)
        × (w.committed ≡ w.db → (handle_order h fault now s id v body).1.work.db ≡ w.db)
  unfolding handle_order kept
  handle_order-kept s id v body ok = (ground arith, λ e. ground arith)

  settle_paid-success :
      (v : Option Vouchers) (w : Work) (o : Order)
      → (settle_paid v fault w o).0 ≡ none
      → let stock = take_stock v fault 0 (items_of o.id w.db.items) w.db.variants in
        ((settle_paid v fault w o).1.db.orders ≡ set_status o.id OrderStatus.paid w.db.orders)
        × ((settle_paid v fault w o).1.db.variants ≡ stock.1)
        × (stock.0 ≡ false)
  unfolding settle_paid settle_stock
  settle_paid-success v w o ok = ground arith

  pub handle_order-success :
      (s : State) (id : ℕ) (v : Verified) (body : Text) (p : Payment) (o : Order)
      → find_payment id s.work.db.payments ≡ some p
      → find_order p.order_id s.work.db.orders ≡ some o
      → (handle_order h fault now s id v body).0 ≡ no_content
      → let f =
          follow_status h.settler fault
            (normalise_webhook_status v.status)
            (settles p v)
            (recorded (begin h fault now s.work) p v body)
            o in
        (f.0 ≡ none) × ((handle_order h fault now s id v body).1.work.db ≡ f.2.db)
  handle_order-success s id v body p o known found ok =
      let w = begin h fault now s.work in
      let (ok', kept_db) = handle_order-kept s id v body ok in
      let e = process-success w id v body p known ok' in
      let ok'' = rw e at ok' in
      let e' = update_payment-success w p v body o found ok'' in
      let (fine, work) =
        follow_order-success (normalise_webhook_status v.status) (settles p v) p
          (recorded w p v body) o (rw e' at ok'') in
      let same = ap (λ (x : Ended). x.work) (e ∙ e') ∙ work in
      let shown = ap (λ (x : Work). x.db) same in
      (fine, kept_db (ap (λ (x : Work). x.committed) same ∙ sym shown) ∙ shown)

  -- What a settlement leaves of the order, of the others, and of the stock of each variant.
  pub record IsSettled (o : Order) (db db' : Db) : Type 0 where
    pub is_paid_now : find_order o.id db'.orders ≡ some (record o { status = OrderStatus.paid })
    pub others :
        (id : ℕ) → (id == o.id) ≡ false → find_order id db'.orders ≡ find_order id db.orders
    pub stock :
        (id n : ℕ)
        → stock_of id db.variants ≡ some (pos n)
        → stock_of id db'.variants ≡ some (pos (n - ordered o.id id db.items))

  set_status-IsSettled :
      (v : Option Vouchers) (o : Order) (db db' : Db)
      → find_order o.id db.orders ≡ some o
      → All IsCountable db.items
      → let stock = take_stock v fault 0 (items_of o.id db.items) db.variants in
        db'.orders ≡ set_status o.id OrderStatus.paid db.orders
        → db'.variants ≡ stock.1
        → stock.0 ≡ false
        → IsSettled o db db'
  set_status-IsSettled v o db db' found countable orders variants done = record {
    is_paid_now =
        rw orders
          (find_order-set_status o.id o.id OrderStatus.paid db.orders ∙ ground (arith, found));
    others = λ id other. rw orders (
        find_order-set_status o.id id OrderStatus.paid db.orders
        ∙ rw other (unchanged (find_order id db.orders) OrderStatus.paid));
    stock = λ id n h.
        rw (variants, ← taken-items_of o.id id db.items)
          (take_stock-taken v fault id n 0 (items_of o.id db.items) db.variants
            (All-items_of o.id db.items countable) h done);
  }

  -- A PAID callback for a payment that was not PAID and answered 204 marks its order PAID and no other, and
  -- takes from the stock of each variant what the order has of it, down to zero. The quantities of the items
  -- are int32 values that are not negative, and the stock is not negative.
  pub handle_order-settles :
      (s : State) (id : ℕ) (v : Verified) (body : Text) (p : Payment) (o : Order)
      → All IsCountable s.work.db.items
      → find_payment id s.work.db.payments ≡ some p
      → find_order p.order_id s.work.db.orders ≡ some o
      → normalise_webhook_status v.status ≡ paid
      → is_paid p.status ≡ false
      → (handle_order h fault now s id v body).0 ≡ no_content
      → IsSettled o s.work.db (handle_order h fault now s id v body).1.work.db
  unfolding follow_status is_paid
  handle_order-settles s id v body p o countable known found status unpaid ok =
      let (fine, work) = handle_order-success s id v body p o known found ok in
      let w' = recorded (begin h fault now s.work) p v body in
      let (orders, variants, done) =
        settle_paid-success h.settler w' o (ground (arith, fine, status, unpaid)) in
      let same : find_order o.id s.work.db.orders ≡ some o =
        ap (λ k. find_order k s.work.db.orders) (find_order-id p.order_id s.work.db.orders o found)
        ∙ found in
      set_status-IsSettled h.settler o s.work.db (handle_order h fault now s id v body).1.work.db
        same countable (ground (arith, work, status, unpaid, orders))
        (ground (arith, work, status, unpaid, variants)) done

  -- A PAID callback for a payment that is PAID already changes no order, no stock and no voucher, whatever
  -- it is answered.
  pub handle_order-settled :
      (s : State) (id : ℕ) (v : Verified) (body : Text) (p : Payment)
      → find_payment id s.work.db.payments ≡ some p
      → normalise_webhook_status v.status ≡ paid
      → is_paid p.status ≡ true
      → let w = (handle_order h fault now s id v body).1.work in
        (w.db.orders ≡ s.work.db.orders)
        × (w.db.variants ≡ s.work.db.variants)
        × (w.vouchers ≡ s.work.vouchers)
  unfolding handle_order kept process update_payment follow_order finish follow_status is_paid
  handle_order-settled s id v body p known status settled = ground arith
