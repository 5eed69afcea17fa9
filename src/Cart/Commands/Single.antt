-- ===== src/Cart/Commands/Single.antt =====
-- What each request of internal/cart/service.go other than `Merge` keeps.
use mathlib.Core.Path.{subst}
use toko_api.Prelude.{
  ℕ, suc, ℤ, pos, ◌≡◌, inl, inr, Option-cases, Bool-cases, Option, none, some, List, [], ◌∷◌,
  Fits32, Text, arith, leb_ℤ, wrap32, wrap64, ◌*ℤ◌, ◌≤◌, Bool, not, ◌||◌, is_some, is_empty,
}
use toko_api.Cart.Store.{
  Cart, CartItem, Tables, Query, Faults, ok, Result-cases, find_item, delete_item, write_qty,
  touch_cart, create_cart, find_active, get_active_cart_by_anon, get_active_cart_by_user,
  is_of_anon, is_of_user, get_cart_item_by_id, update_cart_voucher, update_cart, delete_cart_item,
  find_cart, get_cart_by_id,
}
use toko_api.Cart.Rows.{Below, Keyed-delete_item}
use toko_api.Cart.Service.{
  Service, add_item, add_line, update_qty, update_line, remove_item, remove_voucher, write_voucher,
  ensure_cart, parse_variant, finish, new_cart, load_or_create, present, resolve_tenant, with_code,
}
use toko_api.Cart.Evaluate.{apply_voucher, apply_to, evaluate_voucher}
use toko_api.Cart.Priced.{IsSound, add_line-IsSound, update_line-IsSound, delete_item-IsPriced}

Below-mono : (m n : ℕ) (items : List CartItem) → m ≤ n → Below m items → Below n items
Below-mono m n [] h b = tt
Below-mono m n (it ∷ items) h b = (omega arith, Below-mono m n items h b.1)

-- A change of the carts alone, with a next id that is not smaller.
pub IsSound-of_lines :
    (db : Tables) (carts : List Cart) (n : ℕ)
    → IsSound db
    → db.next_id ≤ n
    → IsSound (record db { carts = carts; next_id = n })
IsSound-of_lines db carts n d h = record {
  affordable = record { products = d.affordable.products; variants = d.affordable.variants };
  keyed = (d.keyed.0, Below-mono db.next_id n db.items h d.keyed.1);
  priced = d.priced;
}

module _ (s : Service) (fault : Faults) where
  pub finish-IsSound :
      (cart : ℕ) (db db' : Tables) → IsSound db' → IsSound (finish s fault cart db (ok db')).1
  finish-IsSound cart db db' d = elim (Bool-cases (fault touch_cart)) [
    | inl e ↦ rw e d
    | inr e ↦ rw e (IsSound-of_lines db' _ db'.next_id d (omega arith))
  ]

  new_cart-IsSound :
      (tenant : Option Text) (user : Option ℕ) (anon : Option Text) (db : Tables)
      → IsSound db
      → IsSound (new_cart s fault tenant user anon db).1
  unfolding new_cart
  new_cart-IsSound tenant user anon db d =
      elim (Bool-cases (fault create_cart || not (is_some (resolve_tenant s tenant)))) [
        | inl e ↦ rw (e, new_cart) d
        | inr e ↦ rw (e, new_cart) (IsSound-of_lines db _ (suc db.next_id) d (omega arith))
      ]

  load_or_create-IsSound :
      (q : Query) (owned : Cart → Bool) (tenant : Option Text) (user : Option ℕ)
      (anon : Option Text) (db : Tables)
      → IsSound db
      → IsSound (load_or_create s fault q owned tenant user anon db).1
  unfolding load_or_create
  load_or_create-IsSound q owned tenant user anon db d =
      let fresh = new_cart-IsSound tenant user anon db d in
      elim (Option-cases (find_active s.db_now owned db.carts)) [
        | inl e ↦ elim (Bool-cases (fault q)) [
          | inl f ↦ rw (e, f, load_or_create) d
          | inr f ↦ rw (e, f, load_or_create) fresh
        ]
        | inr (c, e) ↦ elim (Bool-cases (fault q)) [
          | inl f ↦ rw (e, f, load_or_create) d
          | inr f ↦ rw (e, f, load_or_create) (finish-IsSound c.id db db d)
        ]
      ]

  pub ensure_cart-IsSound :
      (tenant user_id anon_id : Option Text) (db : Tables)
      → IsSound db
      → IsSound (ensure_cart s fault tenant user_id anon_id db).1
  unfolding ensure_cart
  ensure_cart-IsSound tenant user_id anon_id db d = elim (Option-cases (present user_id)) [
    | inl e ↦ elim (Option-cases (present anon_id)) [
      | inl f ↦ rw (e, f, ensure_cart) d
      | inr (a, f) ↦
          rw (e, f, ensure_cart)
            (load_or_create-IsSound get_active_cart_by_anon (is_of_anon a) tenant none (some a) db
              d)
    ]
    | inr (u, e) ↦ elim (Option-cases (s.parse_uuid u)) [
      | inl f ↦ rw (e, f, ensure_cart) d
      | inr (uid, f) ↦
          rw (e, f, ensure_cart)
            (load_or_create-IsSound get_active_cart_by_user (is_of_user uid) tenant (some uid) none
              db d)
    ]
  ]

  pub add_item-IsSound :
      (cart_id product_id : Text) (variant_id : Option Text) (qty : ℤ) (db : Tables)
      → Fits32 qty
      → IsSound db
      → IsSound (add_item s fault cart_id product_id variant_id qty db).1
  unfolding add_item
  add_item-IsSound cart_id product_id variant_id qty db f d =
      elim (Bool-cases (leb_ℤ qty (pos 0))) [
        | inl e ↦ rw (e, add_item) d
        | inr e ↦ elim (Option-cases (s.parse_uuid cart_id)) [
          | inl hc ↦ rw (e, hc, add_item) d
          | inr (cart, hc) ↦ elim (Option-cases (s.parse_uuid product_id)) [
            | inl hp ↦ rw (e, hc, hp, add_item) d
            | inr (product, hp) ↦ elim (Option-cases (parse_variant s fault variant_id)) [
              | inl hv ↦ rw (e, hc, hp, hv, add_item) d
              | inr (variant, hv) ↦
                  elim (Result-cases (add_line s fault cart product variant qty db)) [
                    | inl (x, r) ↦ rw (e, hc, hp, hv, r, add_item) d
                    | inr (db', r) ↦
                        rw (e, hc, hp, hv, r, add_item)
                          (finish-IsSound cart db db' (
                            add_line-IsSound s fault cart product variant qty db db' f
                              (ground arith) d r))
                  ]
            ]
          ]
        ]
      ]

  update_line-keeps :
      (id : ℕ) (it : CartItem) (qty : ℤ) (db : Tables)
      → Fits32 qty
      → find_item id db.items ≡ some it
      → IsSound db
      → IsSound (update_line s fault it qty db).1
  unfolding update_line
  update_line-keeps id it qty db f found d =
      elim (Result-cases (write_qty fault it.id (wrap32 qty) (wrap64 (qty *ℤ it.unit_price)) db)) [
        | inl (x, r) ↦ rw (r, update_line) d
        | inr (db', r) ↦
            rw (r, update_line)
              (finish-IsSound it.cart_id db db'
                (update_line-IsSound s fault id it qty db db' f found d r))
      ]

  pub update_qty-IsSound :
      (item_id : Text) (qty : ℤ) (db : Tables)
      → Fits32 qty
      → IsSound db
      → IsSound (update_qty s fault item_id qty db).1
  unfolding update_qty
  update_qty-IsSound item_id qty db f d = elim (Bool-cases (leb_ℤ qty (pos 0))) [
    | inl e ↦ rw (e, update_qty) d
    | inr e ↦ elim (Option-cases (s.parse_uuid item_id)) [
      | inl h ↦ rw (e, h, update_qty) d
      | inr (id, h) ↦ elim (Option-cases (find_item id db.items)) [
        | inl found ↦ elim (Bool-cases (fault get_cart_item_by_id)) [
          | inl g ↦ rw (e, h, found, g, update_qty) d
          | inr g ↦ rw (e, h, found, g, update_qty) d
        ]
        | inr (it, found) ↦ elim (Bool-cases (fault get_cart_item_by_id)) [
          | inl g ↦ rw (e, h, found, g, update_qty) d
          | inr g ↦ rw (e, h, found, g, update_qty) (update_line-keeps id it qty db f found d)
        ]
      ]
    ]
  ]

  write_voucher-IsSound :
      (cart : ℕ) (code : Option Text) (db db' : Tables)
      → IsSound db
      → write_voucher s fault cart code db ≡ ok db'
      → IsSound db'
  unfolding write_voucher
  write_voucher-IsSound cart code db db' d e = elim (Bool-cases (fault update_cart_voucher)) [
    | inl f ↦ ground arith
    | inr f ↦
        let carts = update_cart (with_code s fault code) cart db.carts in
        subst IsSound {x = record db { carts = carts }} {y = db'} (ground arith)
          (IsSound-of_lines db carts db.next_id d (omega arith))
  ]

  delete-IsSound :
      (id cart : ℕ) (db : Tables)
      → IsSound db
      → IsSound (record db { items = delete_item id cart db.items })
  delete-IsSound id cart db d = record {
    affordable = record { products = d.affordable.products; variants = d.affordable.variants };
    keyed = Keyed-delete_item db.next_id id cart db.items d.keyed.0 d.keyed.1;
    priced = delete_item-IsPriced id cart db.items d.priced;
  }

  pub remove_item-IsSound :
      (cart_id item_id : Text) (db : Tables)
      → IsSound db
      → IsSound (remove_item s fault cart_id item_id db).1
  unfolding remove_item
  remove_item-IsSound cart_id item_id db d = elim (Option-cases (s.parse_uuid cart_id)) [
    | inl e ↦ rw (e, remove_item) d
    | inr (cart, e) ↦ elim (Option-cases (s.parse_uuid item_id)) [
      | inl h ↦ rw (e, h, remove_item) d
      | inr (id, h) ↦ elim (Bool-cases (fault delete_cart_item)) [
        | inl g ↦ rw (e, h, g, remove_item) d
        | inr g ↦
            rw (e, h, g, remove_item)
              (finish-IsSound cart db (record db { items = delete_item id cart db.items })
                (delete-IsSound id cart db d))
      ]
    ]
  ]

  pub remove_voucher-IsSound :
      (cart_id : Text) (db : Tables) → IsSound db → IsSound (remove_voucher s fault cart_id db).1
  unfolding remove_voucher
  remove_voucher-IsSound cart_id db d = elim (Option-cases (s.parse_uuid cart_id)) [
    | inl e ↦ rw (e, remove_voucher) d
    | inr (cart, e) ↦ elim (Result-cases (write_voucher s fault cart none db)) [
      | inl (x, h) ↦ rw (e, h, remove_voucher) d
      | inr (db', h) ↦
          rw (e, h, remove_voucher)
            (finish-IsSound cart db db' (write_voucher-IsSound cart none db db' d h))
    ]
  ]

  apply_to-IsSound :
      (cart : Cart) (code : Text) (db : Tables)
      → IsSound db
      → IsSound (apply_to s fault cart code db).1
  unfolding apply_to
  apply_to-IsSound cart code db d = elim (Result-cases (evaluate_voucher s fault db cart code)) [
    | inl (x, e) ↦ rw (e, apply_to) d
    | inr ((discount, v), e) ↦
        elim (Result-cases (write_voucher s fault cart.id (some v.code) db)) [
          | inl (x, h) ↦ rw (e, h, apply_to) d
          | inr (db', h) ↦
              rw (e, h, apply_to)
                (finish-IsSound cart.id db db'
                  (write_voucher-IsSound cart.id (some v.code) db db' d h))
        ]
  ]

  pub apply_voucher-IsSound :
      (cart_id code : Text) (db : Tables)
      → IsSound db
      → IsSound (apply_voucher s fault cart_id code db).1
  unfolding apply_voucher
  apply_voucher-IsSound cart_id code db d = elim (Bool-cases (is_empty code)) [
    | inl e ↦ rw (e, apply_voucher) d
    | inr e ↦ elim (Option-cases (s.parse_uuid cart_id)) [
      | inl h ↦ rw (e, h, apply_voucher) d
      | inr (id, h) ↦ elim (Option-cases (find_cart id db.carts)) [
        | inl found ↦ elim (Bool-cases (fault get_cart_by_id)) [
          | inl g ↦ rw (e, h, found, g, apply_voucher) d
          | inr g ↦ rw (e, h, found, g, apply_voucher) d
        ]
        | inr (cart, found) ↦ elim (Bool-cases (fault get_cart_by_id)) [
          | inl g ↦ rw (e, h, found, g, apply_voucher) d
          | inr g ↦ rw (e, h, found, g, apply_voucher) (apply_to-IsSound cart code db d)
        ]
      ]
    ]
  ]
