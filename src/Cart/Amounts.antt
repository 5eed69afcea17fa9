-- ===== src/Cart/Amounts.antt =====
-- The eligible amount and the discount of `evaluateVoucher` (internal/cart/service.go) are those of
-- internal/voucher/engine.go.
use toko_api.Prelude.{
  ℤ, pos, ◌≤ℤ◌, ◌+ℤ◌, ◌*ℤ◌, ◌/ℤ◌, ◌≡◌, refl, ◌∙◌, sym, inl, inr, Bool-cases, Option-cases, Bool,
  true, false, not, ◌||◌, Option, none, some, List, [], ◌∷◌, leb_ℤ, if◌then◌else◌, All, Fits64,
  wrap64, wrap64_of_Fits64, wrap64-Fits64, codes, text_eq, equal_fold, arith, int_laws, ap,
}
use toko_api.Voucher.Store.{Voucher}
use toko_api.Voucher.Engine
use toko_api.Voucher.Engine.{
  Rule, Item, is_scoped, rule_matches_item, eligible_subtotal, compute, clamp_discount,
  percent_discount, positive_bps,
}
use toko_api.Voucher.Service.{rule_from_model}
use toko_api.Cart.Store.{CartItem, Product, Faults, ok, err, Result-cases, find_product}
use toko_api.Cart.Evaluate.{
  has_scope, sum_from, item_eligible, eligible_from, eligible_of, discount_of, valid_bps,
}
use toko_api.Cart.Scope.{items_for, item_for, Plain, Categorised, has_scope-rule, matches-rule}

pub record IsRegular (v : Voucher) (products : List Product) (it : CartItem) : Type 0 where
  pub amount : pos 0 ≤ℤ it.subtotal
  pub category : Categorised v (find_product it.product_id products)

wrap64_zero : (acc : ℤ) → Fits64 acc → wrap64 (acc +ℤ pos 0) ≡ acc
wrap64_zero acc f =
    let same : acc +ℤ pos 0 ≡ acc = grind int_laws in rw same (wrap64_of_Fits64 acc f)

-- A line of zero adds nothing, so leaving it out changes nothing.
skip_zero :
    (acc z : ℤ) (b : Bool)
    → Fits64 acc
    → pos 0 ≤ℤ z
    → (if leb_ℤ z (pos 0) then acc else if b then wrap64 (acc +ℤ z) else acc)
      ≡ (if b then wrap64 (acc +ℤ z) else acc)
skip_zero acc z false f h = ground arith
skip_zero acc z true f h = elim (Bool-cases (leb_ℤ z (pos 0))) [
  | inl e ↦ let zero : z ≡ pos 0 = ground arith in rw zero (sym (wrap64_zero acc f))
  | inr e ↦ rw e refl
]

add-Fits64 : (acc z : ℤ) (b : Bool) → Fits64 acc → Fits64 (if b then wrap64 (acc +ℤ z) else acc)
add-Fits64 acc z true f = wrap64-Fits64 (acc +ℤ z)
add-Fits64 acc z false f = f

-- A round of the engine's loop, where `b` says whether the line counts.
engine_step :
    (r : Rule) (acc : ℤ) (products : List Product) (it : CartItem) (items : List CartItem)
    (b : Bool)
    → Fits64 acc
    → pos 0 ≤ℤ it.subtotal
    → (not (is_scoped r) || rule_matches_item r (item_for products it)) ≡ b
    → Engine.eligible_from r acc (items_for products (it ∷ items))
      ≡ Engine.eligible_from r
          (if b then wrap64 (acc +ℤ it.subtotal) else acc)
          (items_for products items)
unfolding Engine.eligible_from items_for
engine_step r acc products it items b f h k =
    ap
      (λ c.
        Engine.eligible_from r
          (if leb_ℤ it.subtotal (pos 0)
            then acc
            else if c
            then wrap64 (acc +ℤ it.subtotal)
            else acc)
          (items_for products items))
      k
    ∙ ap (λ z. Engine.eligible_from r z (items_for products items))
        (skip_zero acc it.subtotal b f h)

module _ (v : Voucher) (products : List Product) (n : Plain v) where
  sum_from-engine :
      (acc : ℤ) (items : List CartItem)
      → has_scope v ≡ false
      → Fits64 acc
      → All (IsRegular v products) items
      → Engine.eligible_from (rule_from_model v) acc (items_for products items) ≡ sum_from acc items
  unfolding Engine.eligible_from items_for
  sum_from-engine acc [] u f r = refl
  sum_from-engine acc (it ∷ items) u f r =
      engine_step (rule_from_model v) acc products it items true f r.0.amount
        (rw (has_scope-rule v n, u) refl)
      ∙ sum_from-engine (wrap64 (acc +ℤ it.subtotal)) items u (wrap64-Fits64 (acc +ℤ it.subtotal))
          r.1

  module _ (fault : Faults) where
    item_eligible-engine :
        (it : CartItem) (b : Bool)
        → has_scope v ≡ true
        → IsRegular v products it
        → item_eligible fault products v it ≡ ok b
        → (not (is_scoped (rule_from_model v))
            || rule_matches_item (rule_from_model v) (item_for products it))
          ≡ b
    unfolding item_eligible
    item_eligible-engine it b u r e = elim (Option-cases (find_product it.product_id products)) [
      | inl h ↦ ground arith
      | inr (p, h) ↦
          rw (has_scope-rule v n, u, matches-rule v it products p n u h (rw h at r.category))
            (ground arith)
    ]

    eligible_from-engine :
        (acc e : ℤ) (items : List CartItem)
        → has_scope v ≡ true
        → Fits64 acc
        → All (IsRegular v products) items
        → eligible_from fault products v acc items ≡ ok e
        → Engine.eligible_from (rule_from_model v) acc (items_for products items) ≡ e
    unfolding Engine.eligible_from items_for eligible_from
    eligible_from-engine acc e [] u f r h = ground arith
    eligible_from-engine acc e (it ∷ items) u f r h =
        elim (Result-cases (item_eligible fault products v it)) [
          | inl (x, k) ↦ ground arith
          | inr (b, k) ↦
              engine_step (rule_from_model v) acc products it items b f r.0.amount
                (item_eligible-engine it b u r.0 k)
              ∙ eligible_from-engine (if b then wrap64 (acc +ℤ it.subtotal) else acc) e items u
                  (add-Fits64 acc it.subtotal b f) r.1 (ground arith)
        ]

    -- Where the cart's evaluation finds an eligible amount, the engine finds the same.
    pub eligible_of-engine :
        (e : ℤ) (items : List CartItem)
        → All (IsRegular v products) items
        → eligible_of fault products v (sum_from (pos 0) items) items ≡ ok e
        → eligible_subtotal (items_for products items) (rule_from_model v) ≡ e
    unfolding eligible_of eligible_subtotal
    eligible_of-engine e items r h = elim (Bool-cases (has_scope v)) [
      | inl u ↦ elim (Result-cases (eligible_from fault products v (pos 0) items)) [
        | inl (x, k) ↦ ground arith
        | inr (e', k) ↦
            eligible_from-engine (pos 0) e' items u (omega arith, omega arith) r k ∙ ground arith
      ]
      | inr u ↦ sum_from-engine (pos 0) items u (omega arith, omega arith) r ∙ ground arith
    ]

clamp_of_zero : (e d : ℤ) → leb_ℤ e (pos 0) ≡ true → clamp_discount e d ≡ pos 0
clamp_of_zero e d h = ground arith

percent-engine :
    (e d : ℤ) (bps : Option ℤ) (r : Rule)
    → r.kind ≡ codes "percent"
    → r.percent_bps ≡ bps
    → (w : ℤ) → valid_bps bps ≡ ok w
    → clamp_discount e (wrap64 (e *ℤ w) /ℤ 10000) ≡ d
    → compute e r ≡ d
unfolding compute equal_fold
percent-engine e d none r k b w h g = cc
percent-engine e d (some z) r k b w h g =
    let same : z ≡ w = ground arith in
    let large : leb_ℤ z (pos 0) ≡ false = ground arith in
    elim (Bool-cases (leb_ℤ e (pos 0))) [
      | inl zero ↦ rw zero (sym (clamp_of_zero e _ zero) ∙ g)
      | inr more ↦ rw (more, k, b, large, same) g
    ]

fixed-engine :
    (e d : ℤ) (r : Rule)
    → r.kind ≡ codes "fixed_amount"
    → clamp_discount e r.value ≡ d
    → compute e r ≡ d
unfolding compute equal_fold
fixed-engine e d r k g = elim (Bool-cases (leb_ℤ e (pos 0))) [
  | inl zero ↦ rw zero (sym (clamp_of_zero e r.value zero) ∙ g)
  | inr more ↦ rw (more, k) g
]

-- The discounts agree.
pub discount_of-engine :
    (v : Voucher) (e d : ℤ) → Plain v → discount_of v e ≡ ok d → compute e (rule_from_model v) ≡ d
unfolding discount_of text_eq rule_from_model
discount_of-engine v e d n h = elim n.kind [
  | inl k ↦ elim (Result-cases (valid_bps v.percent_bps)) [
    | inl (x, b) ↦ let refused : err x ≡ ok d = rw (k, b) at h in cc
    | inr (w, b) ↦ percent-engine e d v.percent_bps (rule_from_model v) k refl w b (ground arith)
  ]
  | inr k ↦ fixed-engine e d (rule_from_model v) k (ground arith)
]
