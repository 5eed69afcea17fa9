-- ===== src/Payment/Stock.antt =====
-- What the loop of internal/payment/webhook.go over the items of an order takes out of stock.
use toko_api.Prelude.{
  ℕ, suc, ◌+◌, ◌-◌, ℤ, pos, negsuc, Option-cases, pos_part, ◌≤ℤ◌, ◌-ℤ◌, ◌≡◌, refl, Bool, true,
  false, ◌&&◌, Option, none, some, List, [], ◌∷◌, ◌==◌, if◌then◌else◌, wrap32, wrap32_of_Fits32,
  Fits32, All, arith, Bool-cases, inl, inr,
}
use toko_api.Payment.Store.{
  OrderItem, Variant, Query, decrement_variant_stock, items_of, at_least_zero, decrement, take_item,
}
use toko_api.Payment.Settlement.{Vouchers, has_variant, take_stock}

-- The stock of the variant with the id.
unfoldable pub stock_of : ℕ → List Variant → Option ℤ
stock_of id [] = none
stock_of id (v ∷ vs) = if v.id == id then some v.stock else stock_of id vs

abbrev is_variant : ℕ → Option ℕ → Bool
is_variant id none = false
is_variant id (some own) = own == id

-- How many pieces of a variant an order has in the table of items.
unfoldable pub ordered : ℕ → ℕ → List OrderItem → ℕ
ordered order id [] = 0
ordered order id (it ∷ items) =
    let rest = ordered order id items in
    if it.order_id == order && is_variant id it.variant_id then pos_part it.qty + rest else rest

-- A quantity that is not negative and fits int32.
pub record IsCountable (it : OrderItem) : Type 0 where
  pub nonneg : pos 0 ≤ℤ it.qty
  pub fits : Fits32 it.qty

-- the same of a list of items
unfoldable pub taken : ℕ → List OrderItem → ℕ
taken id [] = 0
taken id (it ∷ items) =
    let rest = taken id items in
    if is_variant id it.variant_id then pos_part it.qty + rest else rest

pub taken-items_of :
    (order id : ℕ) (items : List OrderItem)
    → taken id (items_of order items) ≡ ordered order id items
unfolding taken ordered items_of
taken-items_of order id [] = refl
taken-items_of order id (it ∷ items) = ground (arith, taken-items_of order id items)

pub All-items_of :
    (order : ℕ) (items : List OrderItem)
    → All IsCountable items
    → All IsCountable (items_of order items)
unfolding items_of
All-items_of order [] a = tt
All-items_of order (it ∷ items) (h, a) = elim (Bool-cases (it.order_id == order)) [
  | inl own ↦ rw own (h, All-items_of order items a)
  | inr other ↦ rw other (All-items_of order items a)
]

left : (n q : ℕ) → at_least_zero (pos n -ℤ pos q) ≡ pos (n - q)
unfolding ◌-ℤ◌
left n q = ground arith

stock_of-decrement :
    (id own n q : ℕ) (vs : List Variant)
    → stock_of id vs ≡ some (pos n)
    → stock_of id (decrement (pos q) own vs) ≡ some (pos (if own == id then n - q else n))
unfolding stock_of decrement
stock_of-decrement id own n q [] h = cc
stock_of-decrement id own n q (v ∷ vs) h = elim (Bool-cases (v.id == id)) [
  | inl here ↦
      let same : v.stock ≡ pos n = ground (arith, h, here) in
      elim (Bool-cases (v.id == own)) [
        | inl hit ↦
            let one : (own == id) ≡ true = ground arith in
            rw (hit, here, one) (rw (same, left n q) refl)
        | inr miss ↦
            let two : (own == id) ≡ false = ground arith in rw (miss, here, two) (rw same refl)
      ]
  | inr there ↦
      let rest = stock_of-decrement id own n q vs (ground (arith, h, there)) in
      ground (arith, there, rest)
]

stored : (z : ℤ) → pos 0 ≤ℤ z → Fits32 z → wrap32 z ≡ pos (pos_part z)
stored (pos n) h f = wrap32_of_Fits32 (pos n) f
stored (negsuc n) h f = absurd (ground arith)

stock_of-take_item :
    (id n : ℕ) (it : OrderItem) (vs : List Variant)
    → IsCountable it
    → stock_of id vs ≡ some (pos n)
    → stock_of id (take_item it vs)
      ≡ some (pos (if is_variant id it.variant_id then n - pos_part it.qty else n))
stock_of-take_item id n it vs c h = elim (Option-cases it.variant_id) [
  | inl e ↦ rw e h
  | inr (own, e) ↦
      rw (e, stored it.qty c.nonneg c.fits) (stock_of-decrement id own n (pos_part it.qty) vs h)
]

module _ (settler : Option Vouchers) (fault : Query → Bool) where
  -- A loop that ends without an error has taken each item once, and no stock below zero.
  pub take_stock-taken :
      (id n k : ℕ) (items : List OrderItem) (vs : List Variant)
      → All IsCountable items
      → stock_of id vs ≡ some (pos n)
      → (take_stock settler fault k items vs).0 ≡ false
      → stock_of id (take_stock settler fault k items vs).1 ≡ some (pos (n - taken id items))
  unfolding take_stock taken
  take_stock-taken id n k [] vs a h ok = ground (arith, h)
  take_stock-taken id n k (it ∷ items) vs (c, a) h ok =
      elim (Bool-cases (has_variant it && fault (decrement_variant_stock k))) [
        | inl stuck ↦ absurd (ground (arith, ok, stuck))
        | inr fine ↦
            let m = if is_variant id it.variant_id then n - pos_part it.qty else n in
            let rest =
              take_stock-taken id m (suc k) items (take_item it vs) a
                (stock_of-take_item id n it vs c h) (ground (arith, ok, fine)) in
            rw (fine, rest) (ground arith)
      ]
