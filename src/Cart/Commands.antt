-- ===== src/Cart/Commands.antt =====
-- The requests that internal/cart/service.go serves, and what any sequence of them leaves.
pub mod Single
pub mod Sound
use mathlib.Core.Path.{subst}
use toko_api.Prelude.{
  ℕ, suc, ℤ, pos, ◌<ℤ◌, ◌≡◌, refl, inl, inr, Option-cases, Bool-cases, Option, none, some, List, [],
  ◌∷◌, All, Fits32, Text, arith, leb_ℤ, wrap32, wrap64, ◌*ℤ◌, wrap32_of_Fits32, ◌≤◌, Bool, not,
  ◌||◌, is_some, true, false, is_empty,
}
use toko_api.Cart.Store.{
  Cart, CartItem, Tables, Query, Faults, Error, Result, ok, err, Result-cases, find_line, find_item,
  items_of, delete_item, write_qty, insert_item, one, touch_cart, create_cart, find_active,
  get_active_cart_by_anon, get_active_cart_by_user, is_of_anon, is_of_user, get_cart_item_by_id,
  update_cart_voucher, update_cart, delete_cart_item, find_cart, get_cart_by_id,
}
use toko_api.Cart.Rows.{IsKeyed, Distinct, Below, Absent, Keyed-set_qty, Keyed-delete_item}
use toko_api.Cart.Service.{
  Service, add_item, add_line, update_qty, update_line, remove_item, remove_voucher, write_voucher,
  ensure_cart, parse_variant, finish, new_cart, load_or_create, present, resolve_tenant, touch,
  with_code,
}
use toko_api.Cart.Evaluate.{apply_voucher, apply_to, evaluate_voucher}
use toko_api.Cart.Merge.{merge_item, merge_items, merge_into, merge_for, merge, hand_over}
use toko_api.Cart.Priced.{
  IsPriced, Affordable, IsSound, add_line-IsSound, update_line-IsSound, write_qty-IsSound,
  insert_item-IsSound, delete_item-IsPriced, items_of-IsPriced, find_line-HasPrice,
}

-- One request with its arguments; the quantity is that of the decoded body.
pub data Command : Type 0 where
  ensure : (tenant user_id anon_id : Option Text) → Command
  add : (cart_id product_id : Text) (variant_id : Option Text) (qty : ℤ) → Command
  update : (item_id : Text) (qty : ℤ) → Command
  remove : (cart_id item_id : Text) → Command
  apply : (cart_id code : Text) → Command
  unapply : (cart_id : Text) → Command
  merge_carts : (tenant : Option Text) (guest_id user_id : Text) → Command

-- A request with the service's clock and the faults of the database while it runs.
pub record Call : Type 0 where
  pub service : Service
  pub fault : Faults
  pub faults : ℕ → Faults
  pub command : Command

abbrev pub serve : Service → Faults → (ℕ → Faults) → Command → Tables → Tables
serve s fault faults (ensure tenant user anon) db = (ensure_cart s fault tenant user anon db).1
serve s fault faults (add cart product variant qty) db =
    (add_item s fault cart product variant qty db).1
serve s fault faults (update item qty) db = (update_qty s fault item qty db).1
serve s fault faults (remove cart item) db = (remove_item s fault cart item db).1
serve s fault faults (apply cart code) db = (apply_voucher s fault cart code db).1
serve s fault faults (unapply cart) db = (remove_voucher s fault cart db).1
serve s fault faults (merge_carts tenant guest user) db =
    (merge s fault faults tenant guest user db).1

unfoldable pub serve_all : List Call → Tables → Tables
serve_all [] db = db
serve_all (c ∷ calls) db = serve_all calls (serve c.service c.fault c.faults c.command db)

-- The quantities that a request names are int32 values.
abbrev pub Fits : Command → Type 0
Fits (add cart product variant qty) = Fits32 qty
Fits (update item qty) = Fits32 qty
Fits _ = Unit {0}
