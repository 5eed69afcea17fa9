-- ===== src/Checkout/Examples.antt =====
-- A checkout of internal/checkout/service.go on a small shop.
use toko_api.Prelude.{
  ℕ, pos, ◌-◌, ◌≡◌, refl, Bool, true, false, Option, none, some, List, [], ◌∷◌, Text, codes, arith,
  inl, inr, map, wrap64, ◌*ℤ◌, ◌+ℤ◌, ◌-ℤ◌, ◌/ℤ◌,
}
use toko_api.Pricing.{Summary, compute, subtotal_from, summarise}
use toko_api.Cart.Store.{CartItem, Faults, find_cart, items_of}
use toko_api.Cart.Priced.{IsSound}
use toko_api.Checkout.{
  Input, PlacedOrder, OrderItem, State, Step, step, Service, create, create_for, place, order_for,
  write_order, insert_items, discount_for, commit,
}
use toko_api.Checkout.Placed.{HasPlaced, create-places}
use toko_api.Checkout.Figures.{AddsUp, create-AddsUp}

abbrev parse : Text → Option ℕ
parse [] = none
parse (c ∷ t) = some (c - 48)

abbrev desk : Service
desk = record {
  parse_uuid = parse;
  cart_svc = none;
  tax_bps = pos 1000;
  currency = codes "IDR";
  has_events = true;
  json_addr = λ a. a.city;
  json_ship = λ o. o.courier;
  email_of = λ u. [];
}

abbrev tea_line : CartItem
tea_line = record {
  id = 1;
  cart_id = 1;
  product_id = 5;
  variant_id = none;
  title = codes "Tea";
  slug = codes "tea";
  qty = pos 2;
  unit_price = pos 1000;
  subtotal = pos 2000;
}

abbrev start_state : State
start_state = record {
  shop = record {
    carts =
        record {
          id = 1;
          user_id = some 7;
          anon_id = none;
          applied_voucher_code = none;
          updated_at = 10;
          expires_at = none;
          tenant_id = some 9;
        }
        ∷ [];
    items = tea_line ∷ [];
    products = [];
    variants = [];
    vouchers = [];
    usages = [];
    next_id = 2;
  };
  orders = [];
  order_items = [];
  created = [];
  next_order = 40;
}

abbrev home : Input
home = record {
  cart_id = codes "1";
  address = record {
    receiver_name = codes "Ani";
    phone = [];
    country = codes "ID";
    province = [];
    city = codes "Bandung";
    postal_code = [];
    address_line1 = [];
    address_line2 = [];
  };
  shipping = record { courier = codes "jne"; service = []; price = pos 300; etd = [] };
  notes = none;
  payment_channel = none;
}

abbrev steady : Step → Bool
steady q = false

abbrev calm : Faults
calm q = false

placed :
    let (r, st) = create desk calm steady (some (codes "9")) (some (codes "7")) home start_state in
    (r ≡ inr 40)
    × (map {B = Summary} (λ o. o.pricing) st.orders
        ≡ record {
          subtotal = pos 2000;
          discount = pos 0;
          tax = pos 200;
          shipping = pos 300;
          total = pos 2500;
        }
          ∷ [])
unfolding create create_for place order_for write_order insert_items discount_for find_cart items_of
    compute subtotal_from summarise wrap64 ◌*ℤ◌ ◌+ℤ◌ ◌-ℤ◌ ◌/ℤ◌
placed = (refl, refl)

lost_commit :
    create desk calm
      (λ q. elim q [ commit ↦ true | _ ↦ false ])
      (some (codes "9"))
      (some (codes "7"))
      home
      start_state
    ≡ (inl (step commit), start_state)
unfolding create create_for place order_for write_order insert_items discount_for find_cart items_of
lost_commit = refl

create-places_example :
    HasPlaced desk calm steady
      (some (codes "7"))
      home
      start_state
      (create desk calm steady (some (codes "9")) (some (codes "7")) home start_state)
create-places_example =
    create-places desk calm steady (some (codes "9")) (some (codes "7")) home start_state

shop-IsSound : IsSound start_state.shop
unfolding wrap64 ◌*ℤ◌
shop-IsSound = record {
  affordable = record { products = tt; variants = tt };
  keyed = ((tt, tt), (omega arith, tt));
  priced = (record { positive = omega arith; product = refl }, tt);
}

create-AddsUp_example :
    (o : PlacedOrder) × (lines : List OrderItem) × (o.id ≡ 40)
    × AddsUp desk calm steady o lines start_state
        (create desk calm steady (some (codes "9")) (some (codes "7")) home start_state).1
create-AddsUp_example =
    create-AddsUp desk calm steady (some (codes "9")) (some (codes "7")) home start_state 40
      shop-IsSound placed.0
