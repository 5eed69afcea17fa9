-- ===== src/Voucher/Engine.antt =====
-- internal/voucher/engine.go. A `time.Time` is the number of nanoseconds of its instant, a `uuid.UUID`
-- a number, and a pointer an `Option`.
use toko_api.Prelude.{
  ℕ, ℤ, pos, Bool, true, false, not, ◌&&◌, ◌||◌, Option, none, some, List, [], ◌∷◌, ◌==◌, ltb, ◌+ℤ◌,
  ◌*ℤ◌, ◌/ℤ◌, ltb_ℤ, leb_ℤ, if◌then◌else◌, wrap64, any, is_nonempty, Text, codes, equal_fold,
}

pub data Error : Type 0 where
  not_eligible usage_limit_reached per_user_limit_reached voucher_inactive voucher_expired
        minimum_spend_unmet :
      Error

pub record Rule : Type 0 where
  pub code : Text
  pub kind : Text
  pub value : ℤ
  pub percent_bps : Option ℤ
  pub min_spend : ℤ
  pub usage_limit : Option ℤ
  pub used_count : ℤ
  pub per_user_limit : Option ℤ
  pub valid_from : Option ℕ
  pub valid_to : Option ℕ
  pub product_ids : List ℕ
  pub category_ids : List ℕ
  pub brand_ids : List ℕ
  pub combinable : Bool
  pub priority : ℤ
  pub max_stack : ℤ
  pub default_limit : ℤ
  pub per_user_used : ℤ
  pub effective_limit : ℤ

pub record Item : Type 0 where
  pub product_id : Option ℕ
  pub category_id : Option ℕ
  pub brand_id : Option ℕ
  pub subtotal : ℤ

-- `r.ValidFrom != nil && now.Before(*r.ValidFrom)`
abbrev pub is_early : ℕ → Option ℕ → Bool
is_early now none = false
is_early now (some from) = ltb now from

-- `r.ValidTo != nil && now.After(*r.ValidTo)`
abbrev pub is_late : ℕ → Option ℕ → Bool
is_late now none = false
is_late now (some to) = ltb to now

-- `r.UsageLimit != nil && *r.UsageLimit >= 0 && r.UsedCount >= *r.UsageLimit`
abbrev pub is_used_up : ℤ → Option ℤ → Bool
is_used_up used none = false
is_used_up used (some limit) = leb_ℤ (pos 0) limit && leb_ℤ limit used

-- `Rule.Validate`; `none` is a nil error.
unfoldable pub validate : Rule → ℕ → ℤ → Option Error
validate r now cart_total =
    if ltb_ℤ cart_total r.min_spend
    then some minimum_spend_unmet
    else if is_early now r.valid_from
    then some voucher_inactive
    else if is_late now r.valid_to
    then some voucher_expired
    else if is_used_up r.used_count r.usage_limit
    then some usage_limit_reached
    else if ltb_ℤ (pos 0) r.effective_limit && leb_ℤ r.effective_limit r.per_user_used
    then some per_user_limit_reached
    else none

-- One scope of `ruleMatchesItem`: the value that it returns, or `none` when it falls through.
unfoldable pub scope_verdict : List ℕ → Option ℕ → Option Bool
scope_verdict [] id = none
scope_verdict (x ∷ ids) none = some false
scope_verdict (x ∷ ids) (some id) = if any (λ y. y == id) (x ∷ ids) then some true else none

-- `r` if it is a returned value, else what follows.
abbrev pub or_next : Option Bool → Bool → Bool
or_next none next = next
or_next (some b) next = b

abbrev pub is_scoped : Rule → Bool
is_scoped r = is_nonempty r.product_ids || is_nonempty r.category_ids || is_nonempty r.brand_ids

unfoldable pub rule_matches_item : Rule → Item → Bool
unfolding scope_verdict
rule_matches_item r it = or_next (scope_verdict r.product_ids it.product_id) (
    or_next (scope_verdict r.category_ids it.category_id)
      (or_next (scope_verdict r.brand_ids it.brand_id) (not (is_scoped r))))

-- the loop of `EligibleSubtotal`, from the total so far
unfoldable pub eligible_from : Rule → ℤ → List Item → ℤ
eligible_from r total [] = total
eligible_from r total (it ∷ items) =
    eligible_from r
      (if leb_ℤ it.subtotal (pos 0)
        then total
        else if not (is_scoped r) || rule_matches_item r it
        then wrap64 (total +ℤ it.subtotal)
        else total)
      items

unfoldable pub eligible_subtotal : List Item → Rule → ℤ
unfolding eligible_from
eligible_subtotal items r = eligible_from r (pos 0) items

-- the two clamps at the end of `Compute`
abbrev pub clamp_discount : ℤ → ℤ → ℤ
clamp_discount eligible discount =
    let capped = if ltb_ℤ eligible discount then eligible else discount in
    if ltb_ℤ capped (pos 0) then pos 0 else capped

-- `*r.PercentBps` where it is positive
abbrev pub positive_bps : Option ℤ → Option ℤ
positive_bps none = none
positive_bps (some bps) = if leb_ℤ bps (pos 0) then none else some bps

-- the branch of a percent voucher
abbrev pub percent_discount : ℤ → Option ℤ → ℤ
percent_discount eligible none = pos 0
percent_discount eligible (some bps) = clamp_discount eligible (wrap64 (eligible *ℤ bps) /ℤ 10000)

unfoldable pub compute : ℤ → Rule → ℤ
compute eligible r =
    if leb_ℤ eligible (pos 0)
    then pos 0
    else if equal_fold r.kind (codes "percent")
    then percent_discount eligible (positive_bps r.percent_bps)
    else clamp_discount eligible r.value
