-- ===== src/Payment/Examples.antt =====
-- The payment theorems at concrete callbacks.
use toko_api.Prelude.{
  pos, All, arith, ◌≡◌, refl, Bool, true, false, none, some, [], ◌∷◌, Text, codes, text_eq,
  trim_space, to_upper, upper,
}
use toko_api.Order.Status.{Status as OrderStatus}
use toko_api.Order.Store.{Order, find_order, set_status}
use toko_api.Payment.Status.{
  Status, pending, paid, expired, is_paid, normalise_webhook_status, of_webhook_label,
}
use toko_api.Payment.Store.{Payment, Query, find_payment, set_payment, items_of}
use toko_api.Payment.Settlement.{
  no_content, take_stock, settle_stock, settle_paid, slugs, cancel_unpaid, follow_status,
}
use toko_api.Payment.Webhook.{
  Verified, Request, State, Webhook, finish, follow_order, update_payment, process, kept,
  handle_order,
}
use toko_api.Payment.Stock.{IsCountable}
use toko_api.Payment.Effects.{IsSettled, handle_order-settles, handle_order-settled}
use toko_api.Payment.Callbacks.{handle_order-resettles}

abbrev webhook : Webhook
webhook = record {
  providers = λ name. some (λ r body. some (record {
    is_valid = true;
    order_id = codes "o";
    amount = pos 999;
    status = codes "PAID";
    provider_payload = none;
  }));
  replay_ttl = none;
  has_pool = true;
  settler = none;
  has_events = true;
  sha256_hex = λ t. t;
  parse_uuid = λ t. some 50;
}

abbrev sound : Query → Bool
sound q = false

abbrev order_at : OrderStatus → Order
order_at status = record {
  id = 50;
  user_id = some 9;
  status = status;
  pricing_discount = pos 0;
  pricing_total = pos 35000;
  applied_voucher_code = none;
}

abbrev payment_at : Status → Payment
payment_at status = record {
  id = 70;
  order_id = 50;
  status = status;
  provider_payload = [];
  amount = some (pos 35000);
}

-- an order of three pieces of a variant with ten in stock
abbrev state_at : OrderStatus → Status → State
state_at o p = record {
  work = record {
    db = record {
      payments = payment_at p ∷ [];
      events = [];
      orders = order_at o ∷ [];
      items = record { order_id = 50; variant_id = some 5; qty = pos 3; slug = codes "kopi" } ∷ [];
      variants = record { id = 5; stock = pos 10 } ∷ [];
      users = [];
    };
    committed = record {
      payments = [];
      events = [];
      orders = [];
      items = [];
      variants = [];
      users = [];
    };
    vouchers = record { vouchers = []; usages = [] };
    invalidated = [];
  };
  held = [];
  emitted = [];
}

abbrev call : Text → Verified
call status = record {
  is_valid = true;
  order_id = codes "o";
  amount = pos 35000;
  status = status;
  provider_payload = none;
}

payment_found : (p : Status) → find_payment 50 (payment_at p ∷ []) ≡ some (payment_at p)
unfolding find_payment
payment_found p = refl

order_found : (o : OrderStatus) → find_order 50 (order_at o ∷ []) ≡ some (order_at o)
unfolding find_order
order_found o = refl

label_paid : normalise_webhook_status (codes "paid") ≡ paid
unfolding normalise_webhook_status of_webhook_label trim_space to_upper upper text_eq
label_paid = refl

label_refunded : normalise_webhook_status (codes "REFUNDED") ≡ pending
unfolding normalise_webhook_status of_webhook_label trim_space to_upper upper text_eq
label_refunded = refl

label_expired : normalise_webhook_status (codes "EXPIRED") ≡ expired
unfolding normalise_webhook_status of_webhook_label trim_space to_upper upper text_eq
label_expired = refl

paid_is_paid : is_paid paid ≡ true
unfolding is_paid
paid_is_paid = refl

pending_is_not : is_paid pending ≡ false
unfolding is_paid
pending_is_not = refl

abbrev waiting : State
waiting = state_at OrderStatus.pending_payment pending

abbrev settled : State
settled = state_at OrderStatus.paid paid

abbrev request : Request
request = record { provider = codes "midtrans"; body = some (codes "{}"); signature = [] }

settles_now :
    (handle_order webhook sound (pos 100) waiting 50 (call (codes "paid")) []).0 ≡ no_content
unfolding handle_order process update_payment follow_order finish follow_status settle_paid
    settle_stock slugs take_stock find_payment find_order is_paid normalise_webhook_status
    of_webhook_label trim_space to_upper upper text_eq set_payment set_status items_of
settles_now = refl

is_countable : All IsCountable waiting.work.db.items
is_countable = (record { nonneg = omega arith; fits = (omega arith, omega arith) }, tt)

handle_order-settles_example :
    IsSettled webhook sound
      (pos 100)
      (order_at OrderStatus.pending_payment)
      waiting.work.db
      (handle_order webhook sound (pos 100) waiting 50 (call (codes "paid")) []).1.work.db
handle_order-settles_example =
    handle_order-settles webhook sound (pos 100) waiting 50 (call (codes "paid")) []
      (payment_at pending) (order_at OrderStatus.pending_payment) is_countable
      (payment_found pending) (order_found OrderStatus.pending_payment) label_paid pending_is_not
      settles_now

handle_order-settled_example :
    let w = (handle_order webhook sound (pos 100) settled 50 (call (codes "paid")) []).1.work in
    (w.db.orders ≡ settled.work.db.orders)
    × (w.db.variants ≡ settled.work.db.variants)
    × (w.vouchers ≡ settled.work.vouchers)
handle_order-settled_example =
    handle_order-settled webhook sound (pos 100) settled 50 (call (codes "paid")) []
      (payment_at paid) (payment_found paid) label_paid paid_is_paid

abbrev refunded_state : State
refunded_state = (handle_order webhook sound (pos 100) settled 50 (call (codes "REFUNDED")) []).1

refunds_now :
    (handle_order webhook sound (pos 100) settled 50 (call (codes "REFUNDED")) []).0 ≡ no_content
unfolding handle_order process update_payment follow_order finish follow_status settle_paid
    settle_stock slugs take_stock find_payment find_order is_paid normalise_webhook_status
    of_webhook_label trim_space to_upper upper text_eq set_payment set_status items_of
refunds_now = refl

settles_again :
    (handle_order webhook sound (pos 100) refunded_state 50 (call (codes "paid")) []).0 ≡ no_content
unfolding handle_order process update_payment follow_order finish follow_status settle_paid
    settle_stock slugs take_stock find_payment find_order is_paid normalise_webhook_status
    of_webhook_label trim_space to_upper upper text_eq set_payment set_status kept items_of
settles_again = refl

handle_order-resettles_example :
    ((q : Payment) × (find_payment 50 refunded_state.work.db.payments ≡ some q)
      × (q.status ≡ pending))
    × IsSettled webhook sound
        (pos 100)
        (order_at OrderStatus.paid)
        settled.work.db
        (handle_order webhook sound (pos 100) refunded_state 50 (call (codes "paid")) []).1.work.db
handle_order-resettles_example =
    handle_order-resettles webhook sound (pos 100) settled 50 (call (codes "REFUNDED"))
      (call (codes "paid")) [] [] (payment_at paid) (order_at OrderStatus.paid) is_countable
      (payment_found paid) refl (order_found OrderStatus.paid) label_refunded label_paid refunds_now
      settles_again

expires_now :
    (handle_order webhook sound (pos 100) waiting 50 (call (codes "EXPIRED")) []).0 ≡ no_content
unfolding handle_order process update_payment follow_order finish follow_status cancel_unpaid
    find_payment find_order is_paid normalise_webhook_status of_webhook_label trim_space to_upper
    upper text_eq set_payment set_status
expires_now = refl
