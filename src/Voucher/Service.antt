-- ===== src/Voucher/Service.antt =====
-- internal/voucher/service.go. `parse_uuid` is `uuid.Parse`, and `now` the service's clock.
use toko_api.Prelude.{
  ℕ, ℤ, pos, ◌&&◌, ◌||◌, not, Option, none, some, List, [], ◌∷◌, ltb_ℤ, leb_ℤ, if◌then◌else◌, Text,
  is_empty, trim_space, wrap32,
}
use toko_api.Voucher.Engine
use toko_api.Voucher.Engine.{Rule, Item, validate, eligible_subtotal, compute}
use toko_api.Voucher.Store.{
  Voucher, Usage, Tables, Query, get_voucher_by_code_for_update, count_voucher_usage_by_user,
  get_voucher_usage_by_order, insert_voucher_usage, increase_voucher_used_count, Faults, row,
  no_rows, failed, answer, find_voucher, find_usage, count_usages, insert_usage,
  increase_used_count,
}

pub data Error : Type 0 where
  code_required invalid_user_id : Error
  refused : Engine.Error → Error
  database : Query → Error

pub data Result {ℓ} (A : Type ℓ) : Type ℓ where
  ok : A → Result A
  err : Error → Result A

pub record PreviewResult : Type 0 where
  pub discount : ℤ
  pub eligible_amount : ℤ
  pub code : Text

pub record Service : Type 0 where
  pub parse_uuid : Text → Option ℕ
  pub now : ℕ
  pub default_per_user_limit : ℤ

unfoldable pub to_uuid_slice : List (Option ℕ) → List ℕ
to_uuid_slice [] = []
to_uuid_slice (none ∷ values) = to_uuid_slice values
to_uuid_slice (some id ∷ values) = id ∷ to_uuid_slice values

-- `RuleFromModel`
unfoldable pub rule_from_model : Voucher → Rule
unfolding to_uuid_slice
rule_from_model v = record {
  code = v.code;
  kind = v.kind;
  value = v.value;
  percent_bps = v.percent_bps;
  min_spend = v.min_spend;
  usage_limit = v.usage_limit;
  used_count = v.used_count;
  per_user_limit = v.per_user_limit;
  valid_from = v.valid_from;
  valid_to = v.valid_to;
  product_ids = to_uuid_slice v.product_ids;
  category_ids = to_uuid_slice v.category_ids;
  brand_ids = to_uuid_slice v.brand_ids;
  combinable = v.combinable;
  priority = v.priority;
  max_stack = pos 0;
  default_limit = pos 0;
  per_user_used = pos 0;
  effective_limit = pos 0;
}

abbrev default_user_limit : ℤ → ℤ
default_user_limit limit = if ltb_ℤ (pos 0) limit then wrap32 limit else pos 0

abbrev pub own_or_default : Option ℤ → ℤ → ℤ
own_or_default none default = default_user_limit default
own_or_default (some limit) default =
    if ltb_ℤ (pos 0) limit then limit else default_user_limit default

-- `effectivePerUserLimit`
unfoldable pub effective_per_user_limit : Rule → ℤ
effective_per_user_limit rule = own_or_default rule.per_user_limit rule.default_limit

-- the caller, if a user id is given and a limit applies to it
abbrev limited_user : Option Text → ℤ → Option Text
limited_user none limit = none
limited_user (some id) limit = if not (is_empty id) && ltb_ℤ (pos 0) limit then some id else none

-- `if limit > 0 { rule.EffectiveLimit = limit }`
abbrev with_limit : Rule → ℤ → Rule
with_limit rule limit =
    if ltb_ℤ (pos 0) limit then record rule { effective_limit = limit } else rule

module _ (s : Service) (fault : Faults) where
  -- the count of the user's earlier uses
  unfoldable pub count_for : Tables → Voucher → ℕ → Result ℤ
  count_for db v user =
      if fault count_voucher_usage_by_user
      then err (database count_voucher_usage_by_user)
      else ok (wrap32 (pos (count_usages v.id user db.usages)))

  -- the part of `Preview` that fills in the caller's use of the voucher
  unfoldable pub limit_user : Tables → Voucher → Rule → Option Text → Result Rule
  unfolding count_for
  limit_user db v rule user_id =
      let limit = effective_per_user_limit rule in
      elim (limited_user user_id limit) [
        | none ↦ ok (with_limit rule limit)
        | some id ↦ elim (s.parse_uuid (trim_space id)) [
          | none ↦ err invalid_user_id
          | some user ↦ elim (count_for db v user) [
            | err e ↦ err e
            | ok used ↦ ok (record rule { per_user_used = used; effective_limit = limit })
          ]
        ]
      ]

  -- the part of `Preview` that evaluates the rule
  unfoldable pub evaluate : Voucher → Rule → ℤ → List Item → Result PreviewResult
  evaluate v rule cart_total items = elim (validate rule s.now cart_total) [
    | some e ↦ err (refused e)
    | none ↦
        let eligible = eligible_subtotal items rule in
        let discount = compute eligible rule in
        if leb_ℤ eligible (pos 0)
        then err (refused Engine.not_eligible)
        else if leb_ℤ discount (pos 0)
        then err (refused Engine.not_eligible)
        else ok (record { discount = discount; eligible_amount = eligible; code = v.code })
  ]

  -- `rule.MaxStack = 1`, `rule.DefaultLimit = s.DefaultPerUserLimit`
  unfoldable pub rule_for : Voucher → Rule
  rule_for v =
      let rule = rule_from_model v in
      record rule { max_stack = pos 1; default_limit = s.default_per_user_limit }

  unfoldable pub preview_voucher :
      Tables → Voucher → Option Text → ℤ → List Item → Result PreviewResult
  unfolding limit_user evaluate rule_for
  preview_voucher db v user_id cart_total items = elim (limit_user db v (rule_for v) user_id) [
    | err e ↦ err e
    | ok rule ↦ evaluate v rule cart_total items
  ]

  -- `Service.Preview`
  unfoldable pub preview : Tables → Text → Option Text → ℤ → List Item → Result PreviewResult
  unfolding preview_voucher
  preview db code user_id cart_total items =
      let trimmed = trim_space code in
      if is_empty trimmed
      then err code_required
      else elim (answer fault get_voucher_by_code_for_update (find_voucher trimmed db.vouchers)) [
        | no_rows ↦ err (refused Engine.not_eligible)
        | failed q ↦ err (database q)
        | row v ↦ preview_voucher db v user_id cart_total items
      ]

  -- the writes of `Settle`; the error of the counter is dropped
  unfoldable pub record_usage : Tables → ℕ → Usage → Option Error × Tables
  record_usage db voucher_id u =
      if fault insert_voucher_usage then (some (database insert_voucher_usage), db) else (
        none,
        record {
          vouchers =
              if fault increase_voucher_used_count
              then db.vouchers
              else increase_used_count voucher_id db.vouchers;
          usages = insert_usage u db.usages;
        },
      )

  unfoldable pub settle_voucher : Tables → Voucher → ℕ → Option ℕ → ℤ → Option Error × Tables
  unfolding record_usage
  settle_voucher db v order_id user_id amount =
      elim (answer fault get_voucher_usage_by_order (find_usage v.id order_id db.usages)) [
        | row u ↦ (none, db)
        | failed q ↦ (some (database q), db)
        | no_rows ↦
            record_usage db v.id (record {
              voucher_id = v.id;
              user_id = user_id;
              order_id = order_id;
              amount = amount;
            })
      ]

  unfoldable pub settle_order : Tables → Text → ℕ → Option ℕ → ℤ → Option Error × Tables
  unfolding settle_voucher
  settle_order db code order_id user_id amount =
      elim (answer fault get_voucher_by_code_for_update (find_voucher code db.vouchers)) [
        | no_rows ↦ (none, db)
        | failed q ↦ (some (database q), db)
        | row v ↦ settle_voucher db v order_id user_id amount
      ]

  -- `Service.Settle`; an order id that is not valid is `none`. A negative amount has returned before
  -- the code would raise it to zero.
  unfoldable pub settle : Tables → Text → Option ℕ → Option ℕ → ℤ → Option Error × Tables
  unfolding settle_order
  settle db code none user_id amount = (none, db)
  settle db code (some order_id) user_id amount =
      if is_empty (trim_space code) || ltb_ℤ amount (pos 0)
      then (none, db)
      else settle_order db code order_id user_id amount
