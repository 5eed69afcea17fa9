-- ===== src/Cart/Service.antt =====
-- internal/cart/service.go: `EnsureCart` and the changes of a cart's lines. A `time.Time` is a number of
-- nanoseconds, `parse_uuid` is `uuid.Parse`, `db_now` the database's `now()`.
use toko_api.Prelude.{
  ℕ, suc, ◌+◌, ℤ, pos, pos_part, not, ◌||◌, Bool, Option, none, some, [], ◌∷◌, ◌++◌, ◌+ℤ◌, ◌*ℤ◌,
  ltb_ℤ, leb_ℤ, if◌then◌else◌, Text, is_empty, wrap32, wrap64, is_some, ◌==◌,
}
use toko_api.Cart.Store.{
  Cart, CartItem, Product, Tables, Query, create_cart, get_active_cart_by_user,
  get_active_cart_by_anon, update_cart_voucher, touch_cart, delete_cart_item,
  find_cart_item_by_product_variant, get_cart_item_by_id, get_product_for_cart,
  get_variant_for_cart, Faults, Error, invalid_input, not_found, unparsed, no_rows, database,
  Result, ok, err, one, find_product, find_variant, find_active, is_of_user, is_of_anon, find_item,
  find_line, delete_item, write_qty, insert_item, try_update, update_cart,
}

pub record Service : Type 0 where
  pub parse_uuid : Text → Option ℕ
  pub now : ℕ
  pub db_now : ℕ
  pub ttl : ℤ
  pub voucher_per_user_limit_default : ℤ
  pub default_tenant_id : Option ℕ

-- `ttl()`; the default is seven days.
abbrev pub ttl_of : Service → ℕ
ttl_of s = if leb_ℤ s.ttl (pos 0) then 604800000000000 else pos_part s.ttl

-- `resolveTenant`; `none` is a context without a tenant.
unfoldable pub resolve_tenant : Service → Option Text → Option ℕ
resolve_tenant s none = s.default_tenant_id
resolve_tenant s (some t) = elim (s.parse_uuid t) [ none ↦ s.default_tenant_id | some id ↦ some id ]

-- `*T` that is not nil and not empty
abbrev pub present : Option Text → Option Text
present none = none
present (some t) = if is_empty t then none else some t

-- `TouchCart` with its error dropped
abbrev pub touch : Service → Faults → ℕ → ℕ → Tables → Tables
touch s fault id expires =
    try_update fault touch_cart (λ c. record c { updated_at = s.db_now; expires_at = some expires })
      id

module _ (s : Service) (fault : Faults) where
  abbrev pub expires : ℕ
  expires = s.now + ttl_of s

  -- `CreateCart`; the column tenant_id is NOT NULL.
  unfoldable pub new_cart : Option Text → Option ℕ → Option Text → Tables → Result Cart × Tables
  unfolding resolve_tenant
  new_cart tenant user anon db =
      let tenant_id = resolve_tenant s tenant in
      if fault create_cart || not (is_some tenant_id)
      then (err (database create_cart), db)
      else (let c : Cart = record {
        id = db.next_id;
        user_id = user;
        anon_id = anon;
        applied_voucher_code = none;
        updated_at = s.db_now;
        expires_at = some expires;
        tenant_id = tenant_id;
      } in
          (ok c, record db { carts = db.carts ++ c ∷ []; next_id = suc db.next_id }))

  -- the two branches of `EnsureCart` share their shape: the active cart, touched, or a new one.
  unfoldable pub load_or_create :
      Query → (Cart → Bool) → Option Text → Option ℕ → Option Text → Tables → Result Cart × Tables
  unfolding new_cart
  load_or_create q owned tenant user anon db =
      elim (one fault q (find_active s.db_now owned db.carts)) [
        | ok c ↦ (ok c, touch s fault c.id expires db)
        | err (database q') ↦ (err (database q'), db)
        | err e ↦ new_cart tenant user anon db
      ]

  -- `EnsureCart`
  unfoldable pub ensure_cart :
      Option Text → Option Text → Option Text → Tables → Result Cart × Tables
  unfolding load_or_create
  ensure_cart tenant user_id anon_id db = elim (present user_id) [
    | some u ↦ elim (s.parse_uuid u) [
      | none ↦ (err unparsed, db)
      | some uid ↦ load_or_create get_active_cart_by_user (is_of_user uid) tenant (some uid) none db
    ]
    | none ↦ elim (present anon_id) [
      | some a ↦ load_or_create get_active_cart_by_anon (is_of_anon a) tenant none (some a) db
      | none ↦ (err invalid_input, db)
    ]
  ]

  -- The end of the writers: the new tables, with the cart touched, or the error and the old ones.
  abbrev pub finish : ℕ → Tables → Result Tables → Option Error × Tables
  finish cart db (err e) = (some e, db)
  finish cart db (ok db') = (none, touch s fault cart expires db')

  -- the branch of `AddItem` where the cart has the line
  unfoldable pub increment_line : CartItem → ℤ → Tables → Result Tables
  increment_line it qty db =
      let new_qty = wrap32 (it.qty +ℤ wrap32 qty) in
      write_qty fault it.id new_qty (wrap64 (new_qty *ℤ it.unit_price)) db

  -- the price of a new line: the product's, or that of its variant, which must have stock
  unfoldable pub unit_price_of : Product → Option ℕ → Tables → Result ℤ
  unit_price_of p none db = ok p.price
  unit_price_of p (some vid) db =
      elim (one fault get_variant_for_cart (find_variant vid db.variants)) [
        | err e ↦ err e
        | ok v ↦
            if not (v.product_id == p.id)
            then err invalid_input
            else if leb_ℤ v.stock (pos 0)
            then err invalid_input
            else ok v.price
      ]

  abbrev at_least_zero : ℤ → ℤ
  at_least_zero z = if ltb_ℤ z (pos 0) then pos 0 else z

  abbrev pub new_line : ℕ → Product → Option ℕ → ℤ → ℤ → CartItem
  new_line cart p variant qty price = record {
    id = 0;
    cart_id = cart;
    product_id = p.id;
    variant_id = variant;
    title = p.title;
    slug = p.slug;
    qty = wrap32 qty;
    unit_price = at_least_zero price;
    subtotal = at_least_zero (wrap64 (qty *ℤ at_least_zero price));
  }

  -- the branch of `AddItem` where the cart has no such line
  unfoldable pub create_line : ℕ → ℕ → Option ℕ → ℤ → Tables → Result Tables
  unfolding unit_price_of
  create_line cart product variant qty db =
      elim (one fault get_product_for_cart (find_product product db.products)) [
        | err e ↦ err e
        | ok p ↦ elim (unit_price_of p variant db) [
          | err e ↦ err e
          | ok price ↦ insert_item fault (new_line cart p variant qty price) db
        ]
      ]

  unfoldable pub add_line : ℕ → ℕ → Option ℕ → ℤ → Tables → Result Tables
  unfolding increment_line create_line
  add_line cart product variant qty db =
      elim (one fault find_cart_item_by_product_variant (find_line cart product variant db.items)) [
        | ok it ↦ increment_line it qty db
        | err (database q) ↦ err (database q)
        | err e ↦ create_line cart product variant qty db
      ]

  -- the optional id of a variant: `none` where it does not parse
  unfoldable pub parse_variant : Option Text → Option (Option ℕ)
  parse_variant t = elim (present t) [
    | none ↦ some none
    | some v ↦ elim (s.parse_uuid v) [ none ↦ none | some id ↦ some (some id) ]
  ]

  -- `AddItem`
  unfoldable pub add_item : Text → Text → Option Text → ℤ → Tables → Option Error × Tables
  unfolding add_line parse_variant
  add_item cart_id product_id variant_id qty db =
      if leb_ℤ qty (pos 0) then (some invalid_input, db) else elim (s.parse_uuid cart_id) [
        | none ↦ (some unparsed, db)
        | some cart ↦ elim (s.parse_uuid product_id) [
          | none ↦ (some unparsed, db)
          | some product ↦ elim (parse_variant variant_id) [
            | none ↦ (some unparsed, db)
            | some variant ↦ finish cart db (add_line cart product variant qty db)
          ]
        ]
      ]

  -- `UpdateQty` for the item found
  unfoldable pub update_line : CartItem → ℤ → Tables → Option Error × Tables
  update_line it qty db =
      finish it.cart_id db (write_qty fault it.id (wrap32 qty) (wrap64 (qty *ℤ it.unit_price)) db)

  -- `UpdateQty`
  unfoldable pub update_qty : Text → ℤ → Tables → Option Error × Tables
  unfolding update_line
  update_qty item_id qty db =
      if leb_ℤ qty (pos 0) then (some invalid_input, db) else elim (s.parse_uuid item_id) [
        | none ↦ (some unparsed, db)
        | some id ↦ elim (one fault get_cart_item_by_id (find_item id db.items)) [
          | ok it ↦ update_line it qty db
          | err no_rows ↦ (some not_found, db)
          | err e ↦ (some e, db)
        ]
      ]

  -- `RemoveItem`
  unfoldable pub remove_item : Text → Text → Tables → Option Error × Tables
  remove_item cart_id item_id db = elim (s.parse_uuid cart_id) [
    | none ↦ (some unparsed, db)
    | some cart ↦ elim (s.parse_uuid item_id) [
      | none ↦ (some unparsed, db)
      | some id ↦ finish cart db (
          if fault delete_cart_item
          then err (database delete_cart_item)
          else ok (record db { items = delete_item id cart db.items }))
    ]
  ]

  abbrev pub with_code : Option Text → Cart → Cart
  with_code code c = record c { applied_voucher_code = code; updated_at = s.db_now }

  -- `UpdateCartVoucher`, whose error the callers return
  unfoldable pub write_voucher : ℕ → Option Text → Tables → Result Tables
  write_voucher cart code db =
      if fault update_cart_voucher
      then err (database update_cart_voucher)
      else ok (record db { carts = update_cart (with_code code) cart db.carts })

  -- `RemoveVoucher`
  unfoldable pub remove_voucher : Text → Tables → Option Error × Tables
  unfolding write_voucher
  remove_voucher cart_id db = elim (s.parse_uuid cart_id) [
    | none ↦ (some unparsed, db)
    | some cart ↦ finish cart db (write_voucher cart none db)
  ]
