-- ===== src/Voucher/Examples.antt =====
-- The voucher theorems at concrete vouchers and tables.
use toko_api.Prelude.{
  pos, ◌≡◌, refl, ◌≤ℤ◌, true, false, none, some, [], ◌∷◌, arith, codes, is_empty, trim_space,
  text_eq, equal_fold, fold, All, wrap32, wrap64, ◌+ℤ◌, ◌*ℤ◌, ◌/ℤ◌, ◌⊎◌,
}
use toko_api.Voucher.Engine
use toko_api.Voucher.Engine.{
  Rule, Item, is_scoped, rule_matches_item, eligible_from, eligible_subtotal, compute,
  scope_verdict,
}
use toko_api.Voucher.Scope.{ideal_eligible}
use toko_api.Voucher.Discount.{compute_bounds}
use toko_api.Voucher.Store.{Voucher, Tables, Faults, find_voucher, find_usage, count_usages}
use toko_api.Voucher.Service.{
  Service, count_for, Result, preview, preview_voucher, limit_user, evaluate, rule_for,
  rule_from_model, settle, to_uuid_slice, effective_per_user_limit, settle_order, settle_voucher,
  record_usage,
}
use toko_api.Voucher.Settlement.{settle-once}
use toko_api.Voucher.Limits.{IsWithinLimit, settle-IsWithinLimit}
use toko_api.Voucher.Preview.{IsGrantedFor, preview-IsGrantedFor}

-- ten per cent off, for one category or one brand, twice per user, five times in all
abbrev welcome : Voucher
welcome = record {
  id = 7;
  code = codes "WELCOME";
  value = pos 0;
  min_spend = pos 10000;
  usage_limit = some (pos 5);
  used_count = pos 1;
  valid_from = some 100;
  valid_to = some 900;
  product_ids = [];
  category_ids = some 3 ∷ [];
  kind = codes "PERCENT";
  percent_bps = some (pos 1000);
  combinable = false;
  priority = pos 10;
  per_user_limit = some (pos 2);
  brand_ids = some 4 ∷ [];
}

abbrev shop : Tables
shop = record {
  vouchers = welcome ∷ [];
  usages = record { voucher_id = 7; user_id = some 9; order_id = 50; amount = pos 1500 } ∷ [];
}

abbrev service : Service
service = record { parse_uuid = λ t. some 9; now = 500; default_per_user_limit = pos 0 }

abbrev sound : Faults
sound q = false

abbrev rule : Rule
rule = rule_from_model welcome

abbrev shirt : Item
shirt = record {
  product_id = some 1;
  category_id = some 3;
  brand_id = some 8;
  subtotal = pos 20000;
}

-- an item of the brand, without category
abbrev cap : Item
cap = record { product_id = some 2; category_id = none; brand_id = some 4; subtotal = pos 5000 }

eligible_sum : ideal_eligible rule (shirt ∷ cap ∷ []) ≡ 20000
unfolding ideal_eligible rule_matches_item scope_verdict rule_from_model to_uuid_slice
eligible_sum = refl

compute_bounds_example :
    (pos 0 ≤ℤ compute (pos 20000) rule)
    × ((compute (pos 20000) rule ≤ℤ pos 20000)
        ⊎ ((pos 20000 ≤ℤ pos 0) × (compute (pos 20000) rule ≡ pos 0)))
compute_bounds_example = compute_bounds (pos 20000) rule

is_percent : equal_fold rule.kind (codes "percent") ≡ true
unfolding equal_fold rule_from_model
is_percent = refl

has_bps : rule.percent_bps ≡ some (pos 1000)
unfolding rule_from_model
has_bps = refl

known : find_voucher (codes "WELCOME") shop.vouchers ≡ some welcome
unfolding find_voucher text_eq
known = refl

known_trimmed : find_voucher (trim_space (codes " WELCOME ")) shop.vouchers ≡ some welcome
unfolding find_voucher text_eq trim_space
known_trimmed = refl

given : is_empty (trim_space (codes "WELCOME")) ≡ false
unfolding trim_space
given = refl

no_error : (settle service sound shop (codes "WELCOME") (some 51) (some 9) (pos 2000)).0 ≡ none
unfolding settle settle_order settle_voucher find_voucher find_usage record_usage text_eq trim_space
no_error = refl

settle-once_example :
    let t = (settle service sound shop (codes "WELCOME") (some 51) (some 9) (pos 2000)).1 in
    (settle service sound t (codes "WELCOME") (some 51) (some 9) (pos 2000)).1 ≡ t
settle-once_example =
    settle-once service sound sound shop (codes "WELCOME") (some 51) (some 9) (pos 2000) no_error

settle-IsWithinLimit_example :
    All IsWithinLimit
      (settle service sound shop (codes "WELCOME") (some 51) (some 9) (pos 2000)).1.vouchers
settle-IsWithinLimit_example =
    settle-IsWithinLimit service sound shop (codes "WELCOME") (some 51) (some 9) (pos 2000)
      (omega arith, tt)

granted :
    preview service sound shop (codes " WELCOME ") (some (codes "u")) (pos 25000) (shirt ∷ cap ∷ [])
    ≡ Result.ok
        (record { discount = pos 2000; eligible_amount = pos 20000; code = codes "WELCOME" })
unfolding preview preview_voucher limit_user evaluate rule_for rule_from_model find_voucher
    count_usages text_eq trim_space eligible_subtotal eligible_from rule_matches_item scope_verdict
    compute Engine.validate effective_per_user_limit to_uuid_slice count_for wrap32 wrap64
    equal_fold fold ◌+ℤ◌ ◌*ℤ◌ ◌/ℤ◌
granted = refl

preview-IsGrantedFor_example :
    (v : Voucher) × (find_voucher (trim_space (codes " WELCOME ")) shop.vouchers ≡ some v)
    × IsGrantedFor service
        (pos 25000)
        (record { discount = pos 2000; eligible_amount = pos 20000; code = codes "WELCOME" })
        v
preview-IsGrantedFor_example =
    preview-IsGrantedFor service sound shop (codes " WELCOME ") (some (codes "u")) (pos 25000)
      (shirt ∷ cap ∷ []) granted

uses : count_usages 7 9 shop.usages ≡ 1
unfolding count_usages
uses = refl
