-- ===== src/Payment/Callbacks.antt =====
-- What later callbacks of a provider do to an order under internal/payment/webhook.go.
use toko_api.Prelude.{All, ℕ, ℤ, ◌≡◌, refl, ◌∙◌, ◌⊎◌, inl, inr, Bool, some, Text, arith}
use mathlib.Core.Path.{subst}
use toko_api.Order.Status.{Status as OrderStatus}
use toko_api.Order.Store.{Order, find_order, set_status}
use toko_api.Payment.Status.{pending, paid, failed, expired, is_paid, normalise_webhook_status}
use toko_api.Payment.Store.{Payment, Db, Query, find_payment, find_payment-set_payment}
use toko_api.Payment.Settlement.{no_content, Work, cancel_unpaid, follow_status}
use toko_api.Payment.Webhook.{Verified, State, Webhook, payload_or, handle_order}
use toko_api.Payment.Stock.{IsCountable}
use toko_api.Payment.Effects.{recorded, IsSettled, handle_order-success, handle_order-settles}

module _ (h : Webhook) (fault : Query → Bool) (now : ℤ) where
  -- the payment after a callback
  find_payment-recorded :
      (w : Work) (id : ℕ) (p : Payment) (v : Verified) (body : Text)
      → find_payment id w.db.payments ≡ some p
      → (q : Payment) × (find_payment id (recorded h fault now w p v body).db.payments ≡ some q)
        × (q.status ≡ normalise_webhook_status v.status)
        × (q.order_id ≡ p.order_id)
  find_payment-recorded w id p v body known =
      let payload = payload_or v.provider_payload body in
      let status = normalise_webhook_status v.status in
      (
        record p { status = status; provider_payload = payload },
        find_payment-set_payment id p.id status payload w.db.payments ∙ ground arith,
        refl,
        refl,
      )

  handle_order-downgrades :
      (s : State) (id : ℕ) (v : Verified) (body : Text) (p : Payment) (o : Order)
      → find_payment id s.work.db.payments ≡ some p
      → find_order p.order_id s.work.db.orders ≡ some o
      → normalise_webhook_status v.status ≡ pending
      → (handle_order h fault now s id v body).0 ≡ no_content
      → (handle_order h fault now s id v body).1.work.db ≡ (recorded h fault now s.work p v body).db
  unfolding follow_status is_paid
  handle_order-downgrades s id v body p o known found status ok =
      let (fine, db) = handle_order-success h fault now s id v body p o known found ok in
      db ∙ ground (arith, status)

  IsSettled-recorded :
      (w : Work) (p : Payment) (v : Verified) (body : Text) (o : Order) (db : Db)
      → IsSettled h fault now o (recorded h fault now w p v body).db db
      → IsSettled h fault now o w.db db
  IsSettled-recorded w p v body o db i = record {
    is_paid_now = i.is_paid_now;
    others = i.others;
    stock = i.stock;
  }

  -- A PAID payment whose callback with a status that the webhook does not know, such as REFUNDED, is answered
  -- 204 is PENDING again, and a PAID callback after it that is answered 204 settles the order of the first
  -- state once more: it takes from the stock of each variant what the order has of it, down to zero. The
  -- quantities of the items are int32 values that are not negative, and the stock is not negative.
  pub handle_order-resettles :
      (s : State) (id : ℕ) (v again : Verified) (body body' : Text) (p : Payment) (o : Order)
      → All IsCountable s.work.db.items
      → find_payment id s.work.db.payments ≡ some p
      → p.status ≡ paid
      → find_order p.order_id s.work.db.orders ≡ some o
      → normalise_webhook_status v.status ≡ pending
      → normalise_webhook_status again.status ≡ paid
      → (handle_order h fault now s id v body).0 ≡ no_content
      → let s' = (handle_order h fault now s id v body).1 in
        (handle_order h fault now s' id again body').0 ≡ no_content
        → ((q : Payment) × (find_payment id s'.work.db.payments ≡ some q) × (q.status ≡ pending))
          × IsSettled h fault now o s.work.db (handle_order h fault now s' id again body').1.work.db
  unfolding is_paid
  handle_order-resettles s id v again body body' p o countable known settled found status paid_again
        ok ok' =
      let s' = (handle_order h fault now s id v body).1 in
      let db = handle_order-downgrades s id v body p o known found status ok in
      let (q, known', q_status, same) = find_payment-recorded s.work id p v body known in
      let payments : find_payment id s'.work.db.payments ≡ some q = rw db known' in
      let orders : find_order q.order_id s'.work.db.orders ≡ some o = rw (db, same) found in
      let counted : All IsCountable s'.work.db.items = rw db countable in
      let again_settled =
        handle_order-settles h fault now s' id again body' q o counted payments orders paid_again
          (ground (arith, q_status, status)) ok' in
      let db'' = (handle_order h fault now s' id again body').1.work.db in
      (
        (q, payments, q_status ∙ status),
        IsSettled-recorded s.work p v body o db''
            (subst (λ x. IsSettled h fault now o x db'') db again_settled),
      )

  -- A FAILED or EXPIRED callback that is answered 204 takes nothing out of stock, and cancels its order
  -- only where that was waiting for payment.
  pub handle_order-unpaid :
      (s : State) (id : ℕ) (v : Verified) (body : Text) (p : Payment) (o : Order)
      → find_payment id s.work.db.payments ≡ some p
      → find_order p.order_id s.work.db.orders ≡ some o
      → (normalise_webhook_status v.status ≡ failed) ⊎ (normalise_webhook_status v.status ≡ expired)
      → (handle_order h fault now s id v body).0 ≡ no_content
      → let db = (handle_order h fault now s id v body).1.work.db in
        (db.variants ≡ s.work.db.variants)
        × ((db.orders ≡ s.work.db.orders)
            ⊎ ((o.status ≡ OrderStatus.pending_payment)
                × (db.orders ≡ set_status o.id OrderStatus.canceled s.work.db.orders)))
  unfolding follow_status cancel_unpaid
  handle_order-unpaid s id v body p o known found (inl status) ok =
      let (fine, work) = handle_order-success h fault now s id v body p o known found ok in
      ground (arith, work, status)
  handle_order-unpaid s id v body p o known found (inr status) ok =
      let (fine, work) = handle_order-success h fault now s id v body p o known found ok in
      ground (arith, work, status)
