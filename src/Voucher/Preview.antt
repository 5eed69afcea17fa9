-- ===== src/Voucher/Preview.antt =====
-- What `Preview` of internal/voucher/service.go grants.
use toko_api.Prelude.{
  ℕ, ℤ, pos, ◌≡◌, refl, ◌<◌, ◌≤◌, ◌<ℤ◌, false, Option, some, List, ◌≤ℤ◌, Text, is_empty, trim_space,
  arith, Option-cases, inl, inr, half32, wrap32_of_Fits32,
}
use toko_api.Voucher.Engine.{Rule, Item, validate, eligible_subtotal}
use toko_api.Voucher.Discount.{compute_bounds}
use toko_api.Voucher.Store.{Voucher, Tables, Faults, find_voucher, count_usages}
use toko_api.Voucher.Service.{
  Service, Result, ok, PreviewResult, rule_from_model, effective_per_user_limit, limit_user,
  evaluate, rule_for, preview_voucher, preview,
}

-- What a granted preview says of the voucher `v`.
pub record IsGrantedFor (s : Service) (cart_total : ℤ) (r : PreviewResult) (v : Voucher)
    : Type 0 where
  pub spends_enough : v.min_spend ≤ℤ cart_total
  pub has_begun : (t : ℕ) → v.valid_from ≡ some t → t ≤ s.now
  pub has_not_ended : (t : ℕ) → v.valid_to ≡ some t → s.now ≤ t
  pub is_unexhausted : (l : ℤ) → v.usage_limit ≡ some l → pos 0 ≤ℤ l → v.used_count <ℤ l
  pub grants_something : pos 0 <ℤ r.discount
  pub within_eligible : r.discount ≤ℤ r.eligible_amount
  pub same_code : r.code ≡ v.code

evaluate-IsGrantedFor :
    (s : Service) (fault : Faults) (v : Voucher) (rule : Rule) (cart_total : ℤ) (items : List Item)
    {r : PreviewResult}
    → evaluate s fault v rule cart_total items ≡ ok r
    → rule.min_spend ≡ v.min_spend
    → rule.valid_from ≡ v.valid_from
    → rule.valid_to ≡ v.valid_to
    → rule.used_count ≡ v.used_count
    → rule.usage_limit ≡ v.usage_limit
    → IsGrantedFor s cart_total r v
unfolding evaluate validate
evaluate-IsGrantedFor s fault v rule cart_total items h a b c d e =
    ground (arith, compute_bounds (eligible_subtotal items rule) rule)

-- The rule keeps the voucher's columns while the caller's use is filled in.
limit_user-keeps :
    (s : Service) (fault : Faults) (db : Tables) (v : Voucher) (rule : Rule) (user_id : Option Text)
    {rule' : Rule}
    → limit_user s fault db v rule user_id ≡ ok rule'
    → (rule'.min_spend ≡ rule.min_spend)
      × (rule'.valid_from ≡ rule.valid_from)
      × (rule'.valid_to ≡ rule.valid_to)
      × (rule'.used_count ≡ rule.used_count)
      × (rule'.usage_limit ≡ rule.usage_limit)
unfolding limit_user
limit_user-keeps s fault db v rule user_id h = ground arith

preview_voucher-IsGrantedFor :
    (s : Service) (fault : Faults) (db : Tables) (v : Voucher) (user_id : Option Text)
    (cart_total : ℤ) (items : List Item) {r : PreviewResult}
    → preview_voucher s fault db v user_id cart_total items ≡ ok r
    → IsGrantedFor s cart_total r v
unfolding preview_voucher rule_for rule_from_model
preview_voucher-IsGrantedFor s fault db v user_id cart_total items {r = r} h =
    go (limit_user s fault db v (rule_for s fault v) user_id) refl h
  where
    go :
        (m : Result Rule)
        → limit_user s fault db v (rule_for s fault v) user_id ≡ m
        → elim m [
          | Result.err e ↦ Result.err e
          | ok rule ↦ evaluate s fault v rule cart_total items
        ]
          ≡ ok r
        → IsGrantedFor s cart_total r v
    go (Result.err e) p q = cc
    go (ok rule) p q =
        let (a, b, c, d, e) = limit_user-keeps s fault db v (rule_for s fault v) user_id p in
        evaluate-IsGrantedFor s fault v rule cart_total items q a b c d e

-- A granted preview found the voucher under the trimmed code, inside its window, with the minimum
-- spend reached and the usage limit not, and its discount is positive and at most the eligible amount.
pub preview-IsGrantedFor :
    (s : Service) (fault : Faults) (db : Tables) (code : Text) (user_id : Option Text)
    (cart_total : ℤ) (items : List Item) {r : PreviewResult}
    → preview s fault db code user_id cart_total items ≡ ok r
    → (v : Voucher) × (find_voucher (trim_space code) db.vouchers ≡ some v)
      × IsGrantedFor s cart_total r v
unfolding preview
preview-IsGrantedFor s fault db code user_id cart_total items h =
    elim (Option-cases (find_voucher (trim_space code) db.vouchers)) [
      | inl unknown ↦ absurd (ground arith)
      | inr (v, known) ↦ (
        v,
        known,
        preview_voucher-IsGrantedFor s fault db v user_id cart_total items (ground arith),
      )
    ]

-- A known user whose uses have reached the voucher's own positive limit is never granted it.
pub preview-user_limit :
    (s : Service) (fault : Faults) (db : Tables) (code id : Text) (cart_total : ℤ)
    (items : List Item) (v : Voucher) (user limit : ℕ) {r : PreviewResult}
    → find_voucher (trim_space code) db.vouchers ≡ some v
    → v.per_user_limit ≡ some (pos limit)
    → 0 < limit
    → is_empty id ≡ false
    → s.parse_uuid (trim_space id) ≡ some user
    → count_usages v.id user db.usages < half32
    → preview s fault db code (some id) cart_total items ≡ ok r
    → count_usages v.id user db.usages < limit
unfolding preview preview_voucher limit_user rule_for rule_from_model effective_per_user_limit
    evaluate validate
preview-user_limit s fault db code id cart_total items v user limit known own positive given parsed
      small h =
    ground (arith, wrap32_of_Fits32 (pos (count_usages v.id user db.usages)))
