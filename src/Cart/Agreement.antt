-- ===== src/Cart/Agreement.antt =====
-- `evaluateVoucher` of internal/cart/service.go against `Preview` of internal/voucher/service.go.
use mathlib.Core.Path.{subst₂}
pub mod Preview
use toko_api.Prelude.{
  ℕ, ℤ, pos, ◌<ℤ◌, ◌≤ℤ◌, ◌≡◌, ◌≢◌, ◌⊎◌, refl, ◌∙◌, sym, inl, inr, Bool-cases, Option-cases, Bool,
  true, false, not, ◌&&◌, Option, none, some, List, [], ◌∷◌, leb_ℤ, ltb_ℤ, if◌then◌else◌, All,
  Fits32, wrap32, wrap32_of_Fits32, Text, is_empty, is_nonempty, trim_space, arith, ◌||◌, wrap64,
  ◌+ℤ◌,
}
use toko_api.Voucher
use toko_api.Voucher.Store
use toko_api.Voucher.Store.{Voucher, find_voucher, count_usages}
use toko_api.Voucher.Engine
use toko_api.Voucher.Engine.{
  Rule, is_early, is_late, is_used_up, validate, eligible_subtotal, compute, Item,
}
use toko_api.Voucher.Service
use toko_api.Voucher.Service.{rule_from_model, preview, PreviewResult}
use toko_api.Cart.Store.{
  Cart, CartItem, Tables, Query, list_cart_items, get_voucher_by_code, count_voucher_usage_by_user,
  Faults, Error, Result, ok, err, Result-cases, one, items_of,
}
use toko_api.Cart.Service.{Service}
use toko_api.Cart.Evaluate.{
  is_exhausted, user_limit, sum_from, over_user_limit, check_voucher, eligible_of, discount_of,
  evaluate_row, evaluate_voucher,
}
use toko_api.Cart.Scope.{items_for, Plain}
use toko_api.Cart.Amounts.{IsRegular, eligible_of-engine, discount_of-engine}

-- What an accepted voucher passed.
pub record IsChecked (s : Service) (db : Tables) (cart : Cart) (subtotal : ℤ) (v : Voucher)
    : Type 0 where
  pub started : is_early s.now v.valid_from ≡ false
  pub running : is_late s.now v.valid_to ≡ false
  pub available : is_exhausted v.used_count v.usage_limit ≡ false
  pub allowed :
      (user : ℕ)
      → cart.user_id ≡ some user
      → let limit = user_limit s.voucher_per_user_limit_default v.per_user_limit in
        pos 0 <ℤ limit → wrap32 (pos (count_usages v.id user db.usages)) <ℤ limit
  pub spent : v.min_spend ≤ℤ subtotal

module _ (s : Service) (fault : Faults) (db : Tables) (cart : Cart) where
  over_user_limit-allowed :
      (v : Voucher) (limit : ℤ) (user_id : Option ℕ)
      → over_user_limit fault db v limit user_id ≡ ok false
      → (user : ℕ) → user_id ≡ some user
      → pos 0 <ℤ limit
      → wrap32 (pos (count_usages v.id user db.usages)) <ℤ limit
  unfolding over_user_limit
  over_user_limit-allowed v limit none e user h l = cc
  over_user_limit-allowed v limit (some u) e user h l =
      let same : u ≡ user = ground arith in rw (← same) (ground arith)

  check_voucher-IsChecked :
      (subtotal : ℤ) (v : Voucher)
      → check_voucher s fault db cart subtotal v ≡ none
      → IsChecked s db cart subtotal v
  unfolding check_voucher
  check_voucher-IsChecked subtotal v e =
      let limit = user_limit s.voucher_per_user_limit_default v.per_user_limit in
      elim (Result-cases (over_user_limit fault db v limit cart.user_id)) [
        | inl (x, k) ↦ ground arith
        | inr (true, k) ↦ ground arith
        | inr (false, k) ↦ record {
          started = ground arith;
          running = ground arith;
          available = ground arith;
          allowed = over_user_limit-allowed v limit cart.user_id k;
          spent = ground arith;
        }
      ]

  -- What `evaluateVoucher` has established where it returns a discount `d` for the voucher `v`.
  pub record IsAccepted (code : Text) (d : ℤ) (v : Voucher) : Type 0 where
    pub given : is_empty code ≡ false
    pub found : find_voucher code db.vouchers ≡ some v
    pub checked : IsChecked s db cart (sum_from (pos 0) (items_of cart.id db.items)) v
    pub eligible : ℤ
    pub amount :
        eligible_of fault db.products v
          (sum_from (pos 0) (items_of cart.id db.items))
          (items_of cart.id db.items)
        ≡ ok eligible
    pub discount : discount_of v eligible ≡ ok d

  evaluate_row-IsAccepted :
      (code : Text) (d : ℤ) (v v' : Voucher)
      → is_empty code ≡ false
      → find_voucher code db.vouchers ≡ some v'
      → evaluate_row s fault db cart (items_of cart.id db.items) v' ≡ ok (d, v)
      → IsAccepted code d v
  unfolding evaluate_row
  evaluate_row-IsAccepted code d v v' given found e =
      let items = items_of cart.id db.items in
      let subtotal = sum_from (pos 0) items in
      elim (Option-cases (check_voucher s fault db cart subtotal v')) [
        | inr (x, h) ↦ ground arith
        | inl h ↦ elim (Result-cases (eligible_of fault db.products v' subtotal items)) [
          | inl (x, k) ↦ ground arith
          | inr (amount, k) ↦ elim (Result-cases (discount_of v' amount)) [
            | inl (x, g) ↦ ground arith
            | inr (d', g) ↦
                subst₂ (λ a b. IsAccepted code a b) {x = d'} {y = d} {u = v'} {v = v} (ground arith)
                  (ground arith)
                  (record {
                    given = given;
                    found = found;
                    checked = check_voucher-IsChecked subtotal v' h;
                    eligible = amount;
                    amount = k;
                    discount = g;
                  })
          ]
        ]
      ]

  pub evaluate_voucher-IsAccepted :
      (code : Text) (d : ℤ) (v : Voucher)
      → evaluate_voucher s fault db cart code ≡ ok (d, v)
      → IsAccepted code d v
  unfolding evaluate_voucher
  evaluate_voucher-IsAccepted code d v e = elim (Option-cases (find_voucher code db.vouchers)) [
    | inl unknown ↦ ground arith
    | inr (v', found) ↦ evaluate_row-IsAccepted code d v v' (ground arith) found (ground arith)
  ]

-- The rules that `Preview` makes of a voucher: only the caller's use is filled in.
abbrev pub with_use : Rule → ℤ → ℤ → ℤ → Rule
with_use r default used limit = record r {
  max_stack = pos 1;
  default_limit = default;
  per_user_used = used;
  effective_limit = limit;
}

pub eligible_from-with_use :
    (r : Rule) (default used limit : ℤ) (items : List Item) (acc : ℤ)
    → Engine.eligible_from (with_use r default used limit) acc items
      ≡ Engine.eligible_from r acc items
unfolding Engine.eligible_from Engine.rule_matches_item
eligible_from-with_use r default used limit [] acc = refl
eligible_from-with_use r default used limit (it ∷ items) acc =
    eligible_from-with_use r default used limit items (
      if leb_ℤ it.subtotal (pos 0)
      then acc
      else if not (Engine.is_scoped r) || Engine.rule_matches_item r it
      then wrap64 (acc +ℤ it.subtotal)
      else acc)

pub compute-with_use :
    (r : Rule) (default used limit e : ℤ) → compute e (with_use r default used limit) ≡ compute e r
unfolding compute
compute-with_use r default used limit e = refl

-- The voucher service over the same clock, ids and default limit.
abbrev pub voucher_service : Service → Voucher.Service.Service
voucher_service s = record {
  parse_uuid = s.parse_uuid;
  now = s.now;
  default_per_user_limit = s.voucher_per_user_limit_default;
}

is_used_up_of :
    (used : ℤ) (limit : Option ℤ) → is_exhausted used limit ≡ false → is_used_up used limit ≡ false
is_used_up_of used none h = refl
is_used_up_of used (some limit) h = ground arith

pub validate-IsChecked :
    (s : Service) (db : Tables) (cart : Cart) (subtotal : ℤ) (v : Voucher) (used limit : ℤ)
    → IsChecked s db cart subtotal v
    → (pos 0 <ℤ limit → used <ℤ limit)
    → validate
        (with_use (rule_from_model v) s.voucher_per_user_limit_default used limit)
        s.now
        subtotal
      ≡ none
unfolding validate rule_from_model
validate-IsChecked s db cart subtotal v used limit c h =
    let enough : ltb_ℤ subtotal v.min_spend ≡ false = ground (arith, c.spent) in
    let open_limit = is_used_up_of v.used_count v.usage_limit c.available in
    let below : ltb_ℤ (pos 0) limit && leb_ℤ limit used ≡ false = ground arith in
    rw (enough, c.started, c.running, open_limit, below) refl
