-- ===== src/Cart/Agreement/Preview.antt =====
-- A voucher that the cart accepts is one that `Preview` of internal/voucher/service.go grants.
use toko_api.Prelude.{
  ℕ, ℤ, pos, ◌<ℤ◌, ◌≡◌, refl, ◌∙◌, inl, inr, Bool-cases, true, false, Option, none, some, List,
  leb_ℤ, ltb_ℤ, All, Fits32, wrap32, wrap32_of_Fits32, Text, is_empty, trim_space, arith,
}
use toko_api.Voucher.Store
use toko_api.Voucher.Store.{Voucher, find_voucher, count_usages}
use toko_api.Voucher.Engine.{Rule, Item, eligible_subtotal, compute}
use toko_api.Voucher.Discount.{compute_bounds}
use toko_api.Voucher
use toko_api.Voucher.Service
use toko_api.Voucher.Service.{
  rule_from_model, rule_for, limit_user, evaluate, effective_per_user_limit, preview_voucher,
  preview, PreviewResult, own_or_default,
}
use toko_api.Cart.Store.{Cart, Tables, Faults, ok, items_of}
use toko_api.Cart.Service.{Service}
use toko_api.Cart.Evaluate.{user_limit, sum_from, evaluate_voucher, eligible_of}
use toko_api.Cart.Scope.{items_for, Plain}
use toko_api.Cart.Amounts.{IsRegular, eligible_of-engine, discount_of-engine}
use toko_api.Cart.Agreement.{
  IsChecked, with_use, eligible_from-with_use, compute-with_use, voucher_service,
  validate-IsChecked, evaluate_voucher-IsAccepted,
}

-- The voucher has no limit of its own, or a positive one.
abbrev pub OwnLimit : Option ℤ → Type 0
OwnLimit none = Unit {0}
OwnLimit (some limit) = pos 0 <ℤ limit

own_limit :
    (own : Option ℤ) (default : ℤ)
    → Fits32 default
    → OwnLimit own
    → pos 0 <ℤ user_limit default own
    → own_or_default own default ≡ user_limit default own
own_limit none default f o h = ground (arith, wrap32_of_Fits32 default f)
own_limit (some limit) default f o h = ground arith

no_limit :
    (own : Option ℤ) (default : ℤ)
    → Fits32 default
    → OwnLimit own
    → ltb_ℤ (pos 0) (user_limit default own) ≡ false
    → own_or_default own default ≡ pos 0
no_limit none default f o h = ground (arith, wrap32_of_Fits32 default f)
no_limit (some limit) default f o h = ground arith

module _ (s : Service) (db : Tables) (cart : Cart) (v : Voucher) (subtotal : ℤ) where
  abbrev vs : Voucher.Service.Service
  vs = voucher_service s

  abbrev no_fault : Voucher.Store.Faults
  no_fault q = false

  abbrev vdb : Voucher.Store.Tables
  vdb = record { vouchers = db.vouchers; usages = db.usages }

  abbrev rule_used : ℤ → ℤ → Rule
  rule_used = with_use (rule_from_model v) s.voucher_per_user_limit_default

  limit-positive :
      Fits32 s.voucher_per_user_limit_default
      → OwnLimit v.per_user_limit
      → pos 0 <ℤ user_limit s.voucher_per_user_limit_default v.per_user_limit
      → effective_per_user_limit (rule_for vs no_fault v)
        ≡ user_limit s.voucher_per_user_limit_default v.per_user_limit
  unfolding effective_per_user_limit rule_for rule_from_model
  limit-positive f own h = own_limit v.per_user_limit s.voucher_per_user_limit_default f own h

  limit-zero :
      Fits32 s.voucher_per_user_limit_default
      → OwnLimit v.per_user_limit
      → ltb_ℤ (pos 0) (user_limit s.voucher_per_user_limit_default v.per_user_limit) ≡ false
      → effective_per_user_limit (rule_for vs no_fault v) ≡ pos 0
  unfolding effective_per_user_limit rule_for rule_from_model
  limit-zero f own h = no_limit v.per_user_limit s.voucher_per_user_limit_default f own h

  limit_user-limited :
      (r : Rule) (text : Text) (user : ℕ) (limit : ℤ)
      → effective_per_user_limit r ≡ limit
      → is_empty text ≡ false
      → ltb_ℤ (pos 0) limit ≡ true
      → s.parse_uuid (trim_space text) ≡ some user
      → limit_user vs no_fault vdb v r (some text)
        ≡ Voucher.Service.ok (record r {
          per_user_used = wrap32 (pos (count_usages v.id user db.usages));
          effective_limit = limit;
        })
  unfolding limit_user Voucher.Service.count_for
  limit_user-limited r text user limit same given limited parsed =
      rw (same, given, limited, parsed, limit_user) (rw same refl)

  limit_user-free :
      (r : Rule) (text : Text)
      → effective_per_user_limit r ≡ pos 0
      → is_empty text ≡ false
      → limit_user vs no_fault vdb v r (some text) ≡ Voucher.Service.ok r
  unfolding limit_user
  limit_user-free r text same given = rw (same, given, limit_user) (rw same refl)

  limit_user-agrees :
      (text : Text) (user : ℕ)
      → Fits32 s.voucher_per_user_limit_default
      → OwnLimit v.per_user_limit
      → is_empty text ≡ false
      → s.parse_uuid (trim_space text) ≡ some user
      → cart.user_id ≡ some user
      → IsChecked s db cart subtotal v
      → (used : ℤ) × (limit : ℤ) × (pos 0 <ℤ limit → used <ℤ limit)
        × (limit_user vs no_fault vdb v (rule_for vs no_fault v) (some text)
            ≡ Voucher.Service.ok (rule_used used limit))
  unfolding rule_for rule_from_model
  limit_user-agrees text user f own given parsed owner c =
      let limit = user_limit s.voucher_per_user_limit_default v.per_user_limit in
      elim (Bool-cases (ltb_ℤ (pos 0) limit)) [
        | inl limited ↦
            let more : pos 0 <ℤ limit = ground arith in
            let same : effective_per_user_limit (rule_for vs no_fault v) ≡ limit =
              limit-positive f own more in
            (
              wrap32 (pos (count_usages v.id user db.usages)),
              limit,
              c.allowed user owner,
              limit_user-limited (rule_for vs no_fault v) text user limit same given limited parsed,
            )
        | inr free ↦
            let same : effective_per_user_limit (rule_for vs no_fault v) ≡ pos 0 =
              limit-zero f own free in
            (
              pos 0,
              pos 0,
              λ h. absurd (omega arith),
              limit_user-free (rule_for vs no_fault v) text same given,
            )
      ]

  -- Where the two amounts agree, so do the grants.
  evaluate-agrees :
      (items : List Item) (used limit e d : ℤ)
      → IsChecked s db cart subtotal v
      → (pos 0 <ℤ limit → used <ℤ limit)
      → eligible_subtotal items (rule_from_model v) ≡ e
      → compute e (rule_from_model v) ≡ d
      → pos 0 <ℤ d
      → evaluate vs no_fault v (rule_used used limit) subtotal items
        ≡ Voucher.Service.ok (record { discount = d; eligible_amount = e; code = v.code })
  unfolding evaluate eligible_subtotal
  evaluate-agrees items used limit e d c h he hd positive =
      let default = s.voucher_per_user_limit_default in
      let valid = validate-IsChecked s db cart subtotal v used limit c h in
      let amount =
        eligible_from-with_use (rule_from_model v) default used limit items (pos 0) ∙ he in
      let discount = compute-with_use (rule_from_model v) default used limit e ∙ hd in
      let bounds = rw hd at (compute_bounds e (rule_from_model v)) in
      let some_eligible : leb_ℤ e (pos 0) ≡ false = ground (arith, bounds) in
      let some_discount : leb_ℤ d (pos 0) ≡ false = ground arith in
      rw (valid, amount, discount, some_eligible, some_discount, evaluate) refl

-- Where the cart's evaluation accepts a voucher with a discount above zero, `Preview` of the voucher
-- service over the same tables, clock and default limit grants the cart's user the same discount, for
-- the eligible amount that the cart found. It is for a cart with a user, whose id Preview is given as a text
-- that parses, and whose lines have no negative subtotals; a code without spaces around it; a default user
-- limit that fits int32; a voucher whose scopes have no NULL and whose own user limit is not zero or less;
-- and lines whose products have a category where the voucher asks for one. No query of Preview fails.
pub evaluate_voucher-granted :
    (s : Service) (fault : Faults) (db : Tables) (cart : Cart) (code text : Text) (user : ℕ) (d : ℤ)
    (v : Voucher)
    → Fits32 s.voucher_per_user_limit_default
    → Plain v
    → OwnLimit v.per_user_limit
    → All (IsRegular v db.products) (items_of cart.id db.items)
    → trim_space code ≡ code
    → is_empty text ≡ false
    → s.parse_uuid (trim_space text) ≡ some user
    → cart.user_id ≡ some user
    → pos 0 <ℤ d
    → evaluate_voucher s fault db cart code ≡ ok (d, v)
    → let lines = items_of cart.id db.items in
      (e : ℤ) × (eligible_of fault db.products v (sum_from (pos 0) lines) lines ≡ ok e)
      × (preview
            (voucher_service s)
            (λ _. false)
            (record { vouchers = db.vouchers; usages = db.usages })
            code
            (some text)
            (sum_from (pos 0) lines)
            (items_for db.products lines)
          ≡ Voucher.Service.ok (record { discount = d; eligible_amount = e; code = v.code }))
unfolding preview preview_voucher
evaluate_voucher-granted s fault db cart code text user d v f n own regular trimmed known parsed
      owner positive h =
    let lines = items_of cart.id db.items in
    let subtotal = sum_from (pos 0) lines in
    let a = evaluate_voucher-IsAccepted s fault db cart code d v h in
    let (used, limit, below, filled) =
      limit_user-agrees s db cart v subtotal text user f own known parsed owner a.checked in
    let amount = eligible_of-engine v db.products n fault a.eligible lines regular a.amount in
    let discount = discount_of-engine v a.eligible d n a.discount in
    let granted =
      evaluate-agrees s db cart v subtotal (items_for db.products lines) used limit a.eligible d
        a.checked below amount discount positive in
    (
      a.eligible,
      a.amount,
      rw (trimmed, a.given, a.found, preview) (rw (filled, preview_voucher) granted),
    )
