-- ===== src/Cart/Examples.antt =====
-- Runs of internal/cart/service.go on a small shop.
use toko_api.Prelude.{
  ℕ, ℤ, pos, ◌-◌, ◌≡◌, ◌≢◌, refl, false, Option, none, some, List, [], ◌∷◌, Text, codes, arith,
  ◌<ℤ◌, map, wrap32, wrap64, ◌*ℤ◌, ◌+ℤ◌, ◌/ℤ◌, text_eq, trim_space, trim_left, is_space, inl,
}
use toko_api.Voucher.Store as VoucherStore
use toko_api.Voucher.Service as VoucherService
use toko_api.Voucher.Store.{Voucher}
use toko_api.Cart.Store.{
  Cart, CartItem, Product, Tables, Faults, ok, find_cart, find_product, find_line, find_item,
  find_active, items_of, set_qty, update_cart, write_qty, insert_item,
}
use toko_api.Cart.Service.{
  Service, add_item, add_line, increment_line, create_line, unit_price_of, parse_variant,
  ensure_cart, load_or_create,
}
use toko_api.Cart.Evaluate.{
  evaluate_voucher, evaluate_row, check_voucher, over_user_limit, eligible_of, eligible_from,
  item_eligible, discount_of,
}
use toko_api.Cart.Merge.{merge, merge_for, merge_into, merge_items, merge_item, hand_over}
use toko_api.Cart.Rows.{quantity, IsKeyed}
use toko_api.Cart.Written.{IsWritten}
use toko_api.Cart.Lines.{increased, add_item-adds}
use toko_api.Cart.Merge.Raised.{HasMerged, merge-raises}
use toko_api.Cart.Scope.{items_for}
use toko_api.Voucher.Service.{preview}
use toko_api.Cart.Agreement.{voucher_service}
use toko_api.Cart.Agreement.Preview.{evaluate_voucher-granted}
use toko_api.Cart.Priced.{IsSound}
use toko_api.Cart.Commands.{Call, add, merge_carts, serve_all}
use toko_api.Cart.Commands.Sound.{serve_all-IsSound}

-- An id is written as one digit.
abbrev parse : Text → Option ℕ
parse [] = none
parse (c ∷ t) = some (c - 48)

abbrev shop_service : Service
shop_service = record {
  parse_uuid = parse;
  now = 1000;
  db_now = 1000;
  ttl = pos 500;
  voucher_per_user_limit_default = pos 3;
  default_tenant_id = some 9;
}

abbrev calm : Faults
calm q = false

abbrev tea : Product
tea = record {
  id = 5;
  title = codes "Tea";
  slug = codes "tea";
  price = pos 1000;
  category_id = some 30;
  brand_id = none;
}

abbrev cup : Product
cup = record {
  id = 6;
  title = codes "Cup";
  slug = codes "cup";
  price = pos 700;
  category_id = some 31;
  brand_id = none;
}

abbrev line_of : (id cart : ℕ) → Product → (q total : ℕ) → CartItem
line_of id cart p q total = record {
  id = id;
  cart_id = cart;
  product_id = p.id;
  variant_id = none;
  title = p.title;
  slug = p.slug;
  qty = pos q;
  unit_price = p.price;
  subtotal = pos total;
}

abbrev cart_of : ℕ → Option ℕ → Option Text → Cart
cart_of id user anon = record {
  id = id;
  user_id = user;
  anon_id = anon;
  applied_voucher_code = none;
  updated_at = 10;
  expires_at = none;
  tenant_id = some 9;
}

-- a tenth off tea and cups, at most twice per user
abbrev tenth : Voucher
tenth = record {
  id = 8;
  code = codes "TENTH";
  value = pos 0;
  min_spend = pos 1000;
  usage_limit = some (pos 5);
  used_count = pos 1;
  valid_from = some 100;
  valid_to = some 9000;
  product_ids = [];
  category_ids = some 30 ∷ [];
  kind = codes "percent";
  percent_bps = some (pos 1000);
  combinable = false;
  priority = pos 10;
  per_user_limit = some (pos 2);
  brand_ids = [];
}

-- the cart 1 of user 7 has two teas, the guest's cart 2 three teas and a cup.
abbrev shop : Tables
shop = record {
  carts = cart_of 1 (some 7) none ∷ cart_of 2 none (some (codes "anon")) ∷ [];
  items = line_of 1 1 tea 2 2000 ∷ line_of 2 2 tea 3 3000 ∷ line_of 3 2 cup 1 700 ∷ [];
  products = tea ∷ cup ∷ [];
  variants = [];
  vouchers = tenth ∷ [];
  usages = [];
  next_id = 4;
}

shop-IsKeyed : IsKeyed shop
shop-IsKeyed = (
  ((ground arith, (ground arith, tt)), ((ground arith, tt), (tt, tt))),
  (omega arith, (omega arith, (omega arith, tt))),
)

add_item-adds_example :
    let (error, db) = add_item shop_service calm (codes "1") (codes "5") none (pos 4) shop in
    (error ≢ none → db ≡ shop)
    × (error ≡ none
        → (pos 0 <ℤ pos 4) × IsWritten 1 5 none (increased 1 5 none (pos 4) shop) shop db)
unfolding parse_variant
add_item-adds_example =
    add_item-adds shop_service calm (codes "1") (codes "5") none 1 5 none (pos 4) shop refl refl
      refl shop-IsKeyed

merge-raises_example :
    let (r, db) = merge shop_service calm (λ n. calm) none (codes "2") (codes "7") shop in
    HasMerged shop_service calm (λ n. calm) 2 r shop.items db.items
merge-raises_example =
    merge-raises shop_service calm (λ n. calm) none (codes "2") (codes "7") 2 shop refl shop-IsKeyed

merged :
    let (r, db) = merge shop_service calm (λ n. calm) none (codes "2") (codes "7") shop in
    (r ≡ ok 1) × (quantity 1 5 none db.items ≡ pos 3) × (quantity 1 6 none db.items ≡ pos 1)
unfolding merge merge_for merge_into merge_items merge_item hand_over ensure_cart load_or_create
    find_cart find_active items_of find_line find_item find_product set_qty write_qty insert_item
    update_cart wrap64 ◌*ℤ◌
merged = (refl, refl, refl)

-- The quantity wraps to one, the subtotal does not.
wrapped :
    let (error, db) =
      add_item shop_service calm
        (codes "2")
        (codes "5")
        none
        (pos 4294967297)
        (record shop { items = [] }) in
    (error ≡ none)
    × (map {B = ℤ × ℤ} (λ it. (it.qty, it.subtotal)) db.items ≡ (pos 1, pos 4294967297000) ∷ [])
unfolding add_item add_line increment_line create_line unit_price_of parse_variant find_line
    find_product find_cart insert_item update_cart wrap32 wrap64 ◌*ℤ◌
wrapped = (refl, refl)

tenth_granted :
    evaluate_voucher shop_service calm shop (cart_of 1 (some 7) none) (codes "TENTH")
    ≡ ok (pos 200, tenth)
unfolding evaluate_voucher evaluate_row check_voucher over_user_limit eligible_of eligible_from
    item_eligible discount_of items_of find_product VoucherStore.find_voucher
    VoucherStore.count_usages text_eq wrap32 wrap64 ◌*ℤ◌ ◌+ℤ◌ ◌/ℤ◌
tenth_granted = refl

evaluate_voucher-granted_example :
    (e : ℤ) × (eligible_of calm shop.products tenth (pos 2000) (line_of 1 1 tea 2 2000 ∷ []) ≡ ok e)
    × (preview
          (voucher_service shop_service)
          (λ _. false)
          (record { vouchers = shop.vouchers; usages = shop.usages })
          (codes "TENTH")
          (some (codes "7"))
          (pos 2000)
          (items_for shop.products (line_of 1 1 tea 2 2000 ∷ []))
        ≡ VoucherService.ok
            (record { discount = pos 200; eligible_amount = e; code = codes "TENTH" }))
unfolding items_of wrap64 ◌+ℤ◌ trim_space trim_left is_space find_product
evaluate_voucher-granted_example =
    evaluate_voucher-granted shop_service calm shop (cart_of 1 (some 7) none) (codes "TENTH")
      (codes "7") 7 (pos 200) tenth (omega arith, omega arith)
      (record { products = tt; categories = (ground arith, tt); brands = tt; kind = inl refl })
      (omega arith) (record { amount = omega arith; category = λ h. ground arith }, tt) refl refl
      refl refl (omega arith) tenth_granted

abbrev two_calls : List Call
two_calls =
    record {
      service = shop_service;
      fault = calm;
      faults = λ n. calm;
      command = add (codes "1") (codes "5") none (pos 4);
    }
    ∷ record {
      service = shop_service;
      fault = calm;
      faults = λ n. calm;
      command = merge_carts none (codes "2") (codes "7");
    }
    ∷ []

shop-IsSound : IsSound shop
unfolding wrap64 ◌*ℤ◌
shop-IsSound = record {
  affordable = record { products = (omega arith, (omega arith, tt)); variants = tt };
  keyed = shop-IsKeyed;
  priced = (
    record { positive = omega arith; product = refl },
    (
      record { positive = omega arith; product = refl },
      (record { positive = omega arith; product = refl }, tt),
    ),
  );
}

serve_all-IsSound_example : IsSound (serve_all two_calls shop)
serve_all-IsSound_example =
    serve_all-IsSound two_calls shop ((omega arith, omega arith), (tt, tt)) shop-IsSound
