-- ===== src/Voucher/Store.antt =====
-- The rows that internal/voucher/service.go reads and writes, and the queries of the generated code
-- (internal/db/gen/vouchers.sql.go, internal/db/gen/voucher_rules.sql.go). A `pgtype` value that may be
-- invalid is an `Option`. The columns that no query here reads (timestamps, tenant) are left out.
use toko_api.Prelude.{
  ℕ, ℤ, pos, Bool, true, false, ◌&&◌, Option, none, some, List, [], ◌∷◌, ◌++◌, ◌==◌, ◌+ℤ◌, ltb_ℤ,
  if◌then◌else◌, Text, text_eq, suc,
}

pub record Voucher : Type 0 where
  pub id : ℕ
  pub code : Text
  pub value : ℤ
  pub min_spend : ℤ
  pub usage_limit : Option ℤ
  pub used_count : ℤ
  pub valid_from : Option ℕ
  pub valid_to : Option ℕ
  pub product_ids : List (Option ℕ)
  pub category_ids : List (Option ℕ)
  pub kind : Text
  pub percent_bps : Option ℤ
  pub combinable : Bool
  pub priority : ℤ
  pub per_user_limit : Option ℤ
  pub brand_ids : List (Option ℕ)

pub record Usage : Type 0 where
  pub voucher_id : ℕ
  pub user_id : Option ℕ
  pub order_id : ℕ
  pub amount : ℤ

pub record Tables : Type 0 where
  pub vouchers : List Voucher
  pub usages : List Usage

pub data Query : Type 0 where
  get_voucher_by_code_for_update count_voucher_usage_by_user get_voucher_usage_by_order
        insert_voucher_usage increase_voucher_used_count :
      Query

-- Which queries the database fails to answer.
abbrev pub Faults : Type 0
Faults = Query → Bool

-- A query returns a row, no row (`pgx.ErrNoRows`), or the failure of the query.
pub data Answer {ℓ} (A : Type ℓ) : Type ℓ where
  row : A → Answer A
  no_rows : Answer A
  failed : Query → Answer A

abbrev pub answer {ℓ} : {A : Type ℓ} → Faults → Query → Option A → Answer A
answer fault q none = if fault q then failed q else no_rows
answer fault q (some a) = if fault q then failed q else row a

unfoldable pub find_voucher : Text → List Voucher → Option Voucher
find_voucher code [] = none
find_voucher code (v ∷ vs) = if text_eq v.code code then some v else find_voucher code vs

abbrev pub is_usage_of : ℕ → ℕ → Usage → Bool
is_usage_of voucher order u = u.voucher_id == voucher && u.order_id == order

unfoldable pub find_usage : ℕ → ℕ → List Usage → Option Usage
find_usage voucher order [] = none
find_usage voucher order (u ∷ us) =
    if is_usage_of voucher order u then some u else find_usage voucher order us

abbrev pub is_user : ℕ → Option ℕ → Bool
is_user user none = false
is_user user (some u) = u == user

-- `COUNT(*) ... WHERE voucher_id = $1 AND user_id = $2`
unfoldable pub count_usages : ℕ → ℕ → List Usage → ℕ
count_usages voucher user [] = 0
count_usages voucher user (u ∷ us) =
    let rest = count_usages voucher user us in
    if u.voucher_id == voucher && is_user user u.user_id then suc rest else rest

-- `INSERT ... ON CONFLICT (voucher_id, order_id) DO NOTHING`
unfoldable pub insert_usage : Usage → List Usage → List Usage
insert_usage u us = elim (find_usage u.voucher_id u.order_id us) [
  | none ↦ us ++ u ∷ []
  | some old ↦ us
]

-- `usage_limit IS NULL OR used_count < usage_limit`
abbrev pub is_below : ℤ → Option ℤ → Bool
is_below used none = true
is_below used (some limit) = ltb_ℤ used limit

-- the `WHERE` clause, for a count that can grow
abbrev pub has_room : Voucher → Bool
has_room v = is_below v.used_count v.usage_limit && ltb_ℤ v.used_count (pos 2147483647)

-- `UPDATE vouchers SET used_count = used_count + 1 WHERE id = $1 AND ...`. A count that int4 cannot hold is an
-- error of the statement, which the service drops.
unfoldable pub increase_used_count : ℕ → List Voucher → List Voucher
increase_used_count id [] = []
increase_used_count id (v ∷ vs) =
    (if v.id == id && has_room v then record v { used_count = v.used_count +ℤ pos 1 } else v)
    ∷ increase_used_count id vs
