-- ===== src/Cart/Store.antt =====
-- The tables that internal/cart reads and writes, and the queries of the generated code
-- (internal/db/gen/carts.sql.go, internal/db/gen/cart_items.sql.go, internal/db/gen/products.sql.go).
-- The columns that no code here reads (created_at) are left out. `next_id` is what `gen_random_uuid()`
-- returns next: an id that no row has yet.
use toko_api.Prelude.{
  ℕ, suc, ℤ, pos, Bool, true, false, not, ◌&&◌, ◌||◌, Option, none, some, List, [], ◌∷◌, ◌++◌, ◌==◌,
  ltb, leb_ℤ, if◌then◌else◌, Text, text_eq, is_some, ◌≡◌, refl, ◌⊎◌, inl, inr,
}
use toko_api.Voucher.Store.{Voucher, Usage}

pub record Cart : Type 0 where
  pub id : ℕ
  pub user_id : Option ℕ
  pub anon_id : Option Text
  pub applied_voucher_code : Option Text
  pub updated_at : ℕ
  pub expires_at : Option ℕ
  pub tenant_id : Option ℕ

pub record CartItem : Type 0 where
  pub id : ℕ
  pub cart_id : ℕ
  pub product_id : ℕ
  pub variant_id : Option ℕ
  pub title : Text
  pub slug : Text
  pub qty : ℤ
  pub unit_price : ℤ
  pub subtotal : ℤ

-- The columns of `GetProductForCart` and `GetVariantForCart`.
pub record Product : Type 0 where
  pub id : ℕ
  pub title : Text
  pub slug : Text
  pub price : ℤ
  pub category_id : Option ℕ
  pub brand_id : Option ℕ

pub record Variant : Type 0 where
  pub id : ℕ
  pub product_id : ℕ
  pub price : ℤ
  pub stock : ℤ

pub record Tables : Type 0 where
  pub carts : List Cart
  pub items : List CartItem
  pub products : List Product
  pub variants : List Variant
  pub vouchers : List Voucher
  pub usages : List Usage
  pub next_id : ℕ

pub data Query : Type 0 where
  create_cart get_cart_by_id get_active_cart_by_user get_active_cart_by_anon update_cart_voucher
        touch_cart transfer_cart_to_user list_cart_items create_cart_item update_cart_item_qty
        delete_cart_item find_cart_item_by_product_variant get_cart_item_by_id get_product_for_cart
        get_variant_for_cart get_voucher_by_code count_voucher_usage_by_user :
      Query

-- Which queries the database fails to answer.
abbrev pub Faults : Type 0
Faults = Query → Bool

-- An error wraps `ErrInvalidInput`, is `ErrNotFound`, is the parser's, is `pgx.ErrNoRows`, or is the
-- database's.
pub data Error : Type 0 where
  invalid_input not_found unparsed no_rows : Error
  database : Query → Error

pub data Result {ℓ} (A : Type ℓ) : Type ℓ where
  ok : A → Result A
  err : Error → Result A

pub Result-cases {ℓ} :
    {A : Type ℓ} (r : Result A) → ((e : Error) × (r ≡ err e)) ⊎ ((a : A) × (r ≡ ok a))
Result-cases (ok a) = inr (a, refl)
Result-cases (err e) = inl (e, refl)

-- the answer of a query that returns one row
abbrev pub one {ℓ} : {A : Type ℓ} → Faults → Query → Option A → Result A
one fault q none = if fault q then err (database q) else err no_rows
one fault q (some a) = if fault q then err (database q) else ok a

-- `IS NOT DISTINCT FROM`
abbrev pub same_id : Option ℕ → Option ℕ → Bool
same_id none none = true
same_id (some a) (some b) = a == b
same_id _ _ = false

unfoldable pub find_cart : ℕ → List Cart → Option Cart
find_cart id [] = none
find_cart id (c ∷ cs) = if c.id == id then some c else find_cart id cs

unfoldable pub find_product : ℕ → List Product → Option Product
find_product id [] = none
find_product id (p ∷ ps) = if p.id == id then some p else find_product id ps

unfoldable pub find_variant : ℕ → List Variant → Option Variant
find_variant id [] = none
find_variant id (v ∷ vs) = if v.id == id then some v else find_variant id vs

-- `expires_at IS NULL OR expires_at > now()`
abbrev pub is_live : ℕ → Option ℕ → Bool
is_live now none = true
is_live now (some at) = ltb now at

-- the later of two rows under `ORDER BY updated_at DESC`
abbrev later : Cart → Option Cart → Cart
later c none = c
later c (some d) = if ltb c.updated_at d.updated_at then d else c

-- `WHERE ... AND (expires_at IS NULL OR expires_at > now()) ORDER BY updated_at DESC LIMIT 1`
unfoldable pub find_active : ℕ → (Cart → Bool) → List Cart → Option Cart
find_active now owned [] = none
find_active now owned (c ∷ cs) =
    let rest = find_active now owned cs in
    if owned c && is_live now c.expires_at then some (later c rest) else rest

-- the `WHERE` clauses of `GetActiveCartByUser` and `GetActiveCartByAnon`
abbrev pub is_of_user : ℕ → Cart → Bool
is_of_user user c = same_id c.user_id (some user)

abbrev same_text : Option Text → Text → Bool
same_text none t = false
same_text (some s) t = text_eq s t

abbrev pub is_of_anon : Text → Cart → Bool
is_of_anon anon c = same_text c.anon_id anon

-- `UPDATE carts SET ... WHERE id = $1`
unfoldable pub update_cart : (Cart → Cart) → ℕ → List Cart → List Cart
update_cart change id [] = []
update_cart change id (c ∷ cs) = (if c.id == id then change c else c) ∷ update_cart change id cs

-- `WHERE cart_id = $1`; the order of the rows (by title and id) is that of the list.
unfoldable pub items_of : ℕ → List CartItem → List CartItem
items_of cart [] = []
items_of cart (it ∷ items) =
    let rest = items_of cart items in if it.cart_id == cart then it ∷ rest else rest

unfoldable pub find_item : ℕ → List CartItem → Option CartItem
find_item id [] = none
find_item id (it ∷ items) = if it.id == id then some it else find_item id items

-- the `WHERE` clause of `FindCartItemByProductVariant`
abbrev pub is_line : ℕ → ℕ → Option ℕ → CartItem → Bool
is_line cart product variant it =
    it.cart_id == cart && it.product_id == product && same_id it.variant_id variant

unfoldable pub find_line : ℕ → ℕ → Option ℕ → List CartItem → Option CartItem
find_line cart product variant [] = none
find_line cart product variant (it ∷ items) =
    if is_line cart product variant it then some it else find_line cart product variant items

-- `UPDATE cart_items SET qty = $2, subtotal = $3 WHERE id = $1`
unfoldable pub set_qty : ℕ → ℤ → ℤ → List CartItem → List CartItem
set_qty id qty subtotal [] = []
set_qty id qty subtotal (it ∷ items) =
    (if it.id == id then record it { qty = qty; subtotal = subtotal } else it)
    ∷ set_qty id qty subtotal items

-- `DELETE FROM cart_items WHERE id = $1 AND cart_id = $2`
unfoldable pub delete_item : ℕ → ℕ → List CartItem → List CartItem
delete_item id cart [] = []
delete_item id cart (it ∷ items) =
    let rest = delete_item id cart items in
    if it.id == id && it.cart_id == cart then rest else it ∷ rest

-- the foreign keys of a row of cart_items
abbrev has_variant : Option ℕ → List Variant → Bool
has_variant none variants = true
has_variant (some v) variants = is_some (find_variant v variants)

abbrev pub refers : Tables → CartItem → Bool
refers db it =
    is_some (find_cart it.cart_id db.carts)
    && is_some (find_product it.product_id db.products)
    && has_variant it.variant_id db.variants

-- `UpdateCartItemQty`; the table has the constraint `CHECK (qty > 0)`.
unfoldable pub write_qty : Faults → ℕ → ℤ → ℤ → Tables → Result Tables
write_qty fault id qty subtotal db =
    if fault update_cart_item_qty
    then err (database update_cart_item_qty)
    else elim (find_item id db.items) [
      | none ↦ err no_rows
      | some it ↦
          if leb_ℤ qty (pos 0)
          then err (database update_cart_item_qty)
          else ok (record db { items = set_qty id qty subtotal db.items })
    ]

-- `CreateCartItem`, where the row's id is the next one
unfoldable pub insert_item : Faults → CartItem → Tables → Result Tables
insert_item fault it db =
    if fault create_cart_item || leb_ℤ it.qty (pos 0) || not (refers db it)
    then err (database create_cart_item)
    else ok (record db {
      items = db.items ++ record it { id = db.next_id } ∷ [];
      next_id = suc db.next_id;
    })

-- The statements on one cart whose error the callers drop.
abbrev pub try_update : Faults → Query → (Cart → Cart) → ℕ → Tables → Tables
try_update fault q change id db =
    if fault q then db else record db { carts = update_cart change id db.carts }
