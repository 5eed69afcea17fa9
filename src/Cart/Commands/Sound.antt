-- ===== src/Cart/Commands/Sound.antt =====
-- What any sequence of requests to internal/cart/service.go keeps.
use mathlib.Core.Path.{subst}
use toko_api.Prelude.{
  ℕ, suc, ◌≡◌, inl, inr, Option-cases, Bool-cases, Option, none, some, List, [], ◌∷◌, All, Text,
  arith, ltb_ℤ,
}
use toko_api.Cart.Store.{
  Cart, CartItem, Tables, Query, Faults, ok, Result-cases, find_line, items_of, touch_cart,
  update_cart_voucher, update_cart, find_cart, get_cart_by_id, try_update, transfer_cart_to_user,
  list_cart_items,
}
use toko_api.Cart.Service.{Service, ensure_cart}
use toko_api.Cart.Merge.{merge_item, merge_items, merge_into, merge_for, merge, hand_over}
use toko_api.Cart.Priced.{
  IsPriced, IsSound, write_qty-IsSound, insert_item-IsSound, items_of-IsPriced, find_line-HasPrice,
}
use toko_api.Cart.Commands.{
  Command, ensure, add, update, remove, apply, unapply, merge_carts, Call, serve, serve_all, Fits,
}
use toko_api.Cart.Commands.Single.{
  IsSound-of_lines, ensure_cart-IsSound, add_item-IsSound, update_qty-IsSound, remove_item-IsSound,
  remove_voucher-IsSound, apply_voucher-IsSound,
}

merge_item-IsSound :
    (fault : Faults) (cart : ℕ) (it : CartItem) (db db' : Tables)
    → IsPriced it
    → IsSound db
    → merge_item fault cart it db ≡ ok db'
    → IsSound db'
unfolding merge_item
merge_item-IsSound fault cart it db db' h d e =
    elim (Option-cases (find_line cart it.product_id it.variant_id db.items)) [
      | inl found ↦
          insert_item-IsSound fault (record it { cart_id = cart }) db db' d h.product (ground arith)
      | inr (old, found) ↦ elim (Bool-cases (ltb_ℤ old.qty it.qty)) [
        | inl less ↦
            write_qty-IsSound fault old it.qty db db'
              (find_line-HasPrice cart it.product_id it.variant_id db.items old d.keyed.0 found) d
              (ground arith)
        | inr enough ↦ subst IsSound {x = db} {y = db'} (ground arith) d
      ]
    ]

merge_items-IsSound :
    (faults : ℕ → Faults) (n cart : ℕ) (items : List CartItem) (db : Tables)
    → All IsPriced items
    → IsSound db
    → IsSound (merge_items faults n cart items db).1
unfolding merge_items
merge_items-IsSound faults n cart [] db a d = d
merge_items-IsSound faults n cart (it ∷ items) db a d =
    elim (Result-cases (merge_item (faults n) cart it db)) [
      | inl (x, e) ↦ rw (e, merge_items) d
      | inr (mid, e) ↦
          rw (e, merge_items)
            (merge_items-IsSound faults (suc n) cart items mid a.1
              (merge_item-IsSound (faults n) cart it db mid a.0 d e))
    ]

module _ (s : Service) (fault : Faults) (faults : ℕ → Faults) where
  try_update-IsSound :
      (q : Query) (change : Cart → Cart) (id : ℕ) (db : Tables)
      → IsSound db
      → IsSound (try_update fault q change id db)
  try_update-IsSound q change id db d = elim (Bool-cases (fault q)) [
    | inl e ↦ rw e d
    | inr e ↦ rw e (IsSound-of_lines db (update_cart change id db.carts) db.next_id d (omega arith))
  ]

  hand_over-IsSound :
      (user_cart guest user : ℕ) (db : Tables)
      → IsSound db
      → IsSound (hand_over s fault faults user_cart guest user db)
  unfolding hand_over
  hand_over-IsSound user_cart guest user db d = try_update-IsSound transfer_cart_to_user _ guest _ (
      try_update-IsSound update_cart_voucher _ guest _
        (try_update-IsSound touch_cart _ guest _ (try_update-IsSound touch_cart _ user_cart db d)))

  merge_into-IsSound :
      (user_cart : Cart) (guest user : ℕ) (db : Tables)
      → IsSound db
      → IsSound (merge_into s fault faults user_cart guest user db).1
  unfolding merge_into
  merge_into-IsSound user_cart guest user db d =
      let items = items_of guest db.items in
      let loop = merge_items faults 0 user_cart.id items db in
      let kept =
        merge_items-IsSound faults 0 user_cart.id items db
          (items_of-IsPriced guest db.items d.priced) d in
      elim (Bool-cases (fault list_cart_items)) [
        | inl e ↦ rw (e, merge_into) d
        | inr e ↦ elim (Option-cases loop.0) [
          | inl done ↦
              rw (e, done, merge_into) (hand_over-IsSound user_cart.id guest user loop.1 kept)
          | inr (x, done) ↦ rw (e, done, merge_into) kept
        ]
      ]

  merge_for-IsSound :
      (tenant : Option Text) (user_id : Text) (guest user : ℕ) (db : Tables)
      → IsSound db
      → IsSound (merge_for s fault faults tenant user_id guest user db).1
  unfolding merge_for
  merge_for-IsSound tenant user_id guest user db d =
      let (found, mid) = ensure_cart s fault tenant (some user_id) none db in
      let kept = ensure_cart-IsSound s fault tenant (some user_id) none db d in
      elim (Result-cases found) [
        | inl (x, e) ↦ rw (e, merge_for) kept
        | inr (c, e) ↦ rw (e, merge_for) (merge_into-IsSound c guest user mid kept)
      ]

  merge-IsSound :
      (tenant : Option Text) (guest_id user_id : Text) (db : Tables)
      → IsSound db
      → IsSound (merge s fault faults tenant guest_id user_id db).1
  unfolding merge
  merge-IsSound tenant guest_id user_id db d = elim (Option-cases (s.parse_uuid guest_id)) [
    | inl e ↦ rw (e, merge) d
    | inr (guest, e) ↦ elim (Option-cases (s.parse_uuid user_id)) [
      | inl h ↦ rw (e, h, merge) d
      | inr (user, h) ↦ elim (Option-cases (find_cart guest db.carts)) [
        | inl found ↦ elim (Bool-cases (fault get_cart_by_id)) [
          | inl g ↦ rw (e, h, found, g, merge) d
          | inr g ↦ rw (e, h, found, g, merge) d
        ]
        | inr (c, found) ↦ elim (Bool-cases (fault get_cart_by_id)) [
          | inl g ↦ rw (e, h, found, g, merge) d
          | inr g ↦ rw (e, h, found, g, merge) (merge_for-IsSound tenant user_id guest user db d)
        ]
      ]
    ]
  ]

  serve-IsSound :
      (command : Command) (db : Tables)
      → Fits command
      → IsSound db
      → IsSound (serve s fault faults command db)
  serve-IsSound (ensure tenant user anon) db f d = ensure_cart-IsSound s fault tenant user anon db d
  serve-IsSound (add cart product variant qty) db f d =
      add_item-IsSound s fault cart product variant qty db f d
  serve-IsSound (update item qty) db f d = update_qty-IsSound s fault item qty db f d
  serve-IsSound (remove cart item) db f d = remove_item-IsSound s fault cart item db d
  serve-IsSound (apply cart code) db f d = apply_voucher-IsSound s fault cart code db d
  serve-IsSound (unapply cart) db f d = remove_voucher-IsSound s fault cart db d
  serve-IsSound (merge_carts tenant guest user) db f d = merge-IsSound tenant guest user db d

-- Any sequence of requests to the cart service, with any faults of the database, whose quantities are
-- int32 values keeps every line's quantity positive and its subtotal the int64 product of its quantity
-- and price, and the ids of the lines distinct, where the catalogue's prices are below 2 ^ 32.
pub serve_all-IsSound :
    (calls : List Call) (db : Tables)
    → All (λ (c : Call). Fits c.command) calls
    → IsSound db
    → IsSound (serve_all calls db)
unfolding serve_all
serve_all-IsSound [] db f d = d
serve_all-IsSound (c ∷ calls) db f d =
    serve_all-IsSound calls (serve c.service c.fault c.faults c.command db) f.1
      (serve-IsSound c.service c.fault c.faults c.command db f.0 d)
