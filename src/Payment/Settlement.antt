-- ===== src/Payment/Settlement.antt =====
-- What `Webhook.Handle` of internal/payment/webhook.go does for a new payment status: the order, the stock,
-- the voucher and the product cache of a paid order, and the cancellation of one that will not be paid.
-- `none` is no error. The voucher service works outside of the transaction.
use toko_api.Prelude.{
  ℕ, suc, Bool, true, false, not, ◌&&◌, Option, none, some, List, [], ◌∷◌, ◌++◌, if◌then◌else◌,
  Text, is_empty, trim_space,
}
use toko_api.Order.Status.{Status as OrderStatus}
use toko_api.Order.Store.{Order, set_status}
use toko_api.Voucher.Store.{Tables as VoucherTables, Faults}
use toko_api.Voucher.Service.{Service as VoucherService, settle}
use toko_api.Payment.Status.{Status, pending, paid, failed, expired, refunded}
use toko_api.Payment.Store.{
  OrderItem, Db, Query, update_order_status, list_order_items_for_stock, decrement_variant_stock,
  items_of, at_least_zero, take_item, Variant,
}

pub data Response : Type 0 where
  no_content provider_not_supported invalid_body webhook_invalid invalid_signature
        replay_store_error replay invalid_order_id tx_error payment_not_found payment_fetch_error
        amount_mismatch payment_update_error order_fetch_error order_update_error order_items_error
        stock_update_error voucher_settlement_failed tx_commit_error :
      Response

-- The database as the handle `q` of the handler shows it, and as everyone else sees it while a transaction
-- is open; the voucher service and the cache lie outside of the transaction.
pub record Work : Type 0 where
  pub db : Db
  pub committed : Db
  pub vouchers : VoucherTables
  pub invalidated : List Text

pub record Vouchers : Type 0 where
  pub service : VoucherService
  pub fault : Faults

abbrev pub has_variant : OrderItem → Bool
has_variant it = elim it.variant_id [ none ↦ false | some id ↦ true ]

-- the products whose cache is invalidated: a set in the code
unfoldable pub slugs : List OrderItem → List Text
slugs [] = []
slugs (it ∷ items) =
    let rest = slugs items in
    let slug = trim_space it.slug in if is_empty slug then rest else slug ∷ rest

-- the trimmed code of the order's voucher, if it has one
abbrev voucher_of : Order → Option Text
voucher_of o = elim o.applied_voucher_code [
  | none ↦ none
  | some code ↦ let c = trim_space code in if is_empty c then none else some c
]

abbrev is_pending : OrderStatus → Bool
is_pending OrderStatus.pending_payment = true
is_pending _ = false

module _ (settler : Option Vouchers) (fault : Query → Bool) where
  -- the settlement of the voucher, with its error
  abbrev pub settle_voucher_of : VoucherTables → Order → Bool × VoucherTables
  settle_voucher_of vouchers o = elim settler [
    | none ↦ (false, vouchers)
    | some v ↦ elim (voucher_of o) [
      | none ↦ (false, vouchers)
      | some code ↦
          let (error, vouchers') =
            settle v.service v.fault vouchers code (some o.id) o.user_id
              (at_least_zero o.pricing_discount) in
          (elim error [ none ↦ false | some e ↦ true ], vouchers')
    ]
  ]

  -- the loop over the items from the number `n`: whether a query fails, and the stock then
  unfoldable pub take_stock : ℕ → List OrderItem → List Variant → Bool × List Variant
  take_stock n [] vs = (false, vs)
  take_stock n (it ∷ items) vs =
      if has_variant it && fault (decrement_variant_stock n)
      then (true, vs)
      else take_stock (suc n) items (take_item it vs)

  -- the stock, the voucher and the cache of an order that is PAID now
  unfoldable pub settle_stock : Work → Order → Option Response × Work
  unfolding slugs take_stock
  settle_stock w o =
      let items = items_of o.id w.db.items in
      if fault list_order_items_for_stock
      then (some order_items_error, w)
      else let db = w.db in
        let (stuck, variants) = take_stock 0 items db.variants in
        let db' = record db { variants = variants } in
        let (broken, vouchers) = settle_voucher_of w.vouchers o in
        if stuck
        then (some stock_update_error, record w { db = db' })
        else if broken
        then (some voucher_settlement_failed, record w { db = db'; vouchers = vouchers })
        else (
          none,
          record w { db = db'; vouchers = vouchers; invalidated = slugs items ++ w.invalidated },
        )

  unfoldable pub settle_paid : Work → Order → Option Response × Work
  unfolding settle_stock
  settle_paid w o =
      let db = w.db in
      if fault update_order_status
      then (some order_update_error, w)
      else settle_stock
          (record w { db = record db { orders = set_status o.id OrderStatus.paid db.orders } }) o

  -- whether the order is canceled, and the tables
  unfoldable pub cancel_unpaid : Work → Order → Bool × Work
  cancel_unpaid w o =
      let db = w.db in
      if is_pending o.status && not (fault update_order_status)
      then (
        true,
        record w { db = record db { orders = set_status o.id OrderStatus.canceled db.orders } },
      )
      else (false, w)

  -- the `switch` over the new status: an error, whether the order is canceled, and the tables
  unfoldable pub follow_status : Status → Bool → Work → Order → Option Response × Bool × Work
  unfolding settle_paid cancel_unpaid
  follow_status paid true w o = let (e, w') = settle_paid w o in (e, false, w')
  follow_status paid false w o = (none, false, w)
  follow_status failed s w o = let (c, w') = cancel_unpaid w o in (none, c, w')
  follow_status expired s w o = let (c, w') = cancel_unpaid w o in (none, c, w')
  follow_status pending s w o = (none, false, w)
  follow_status refunded s w o = (none, false, w)
