-- ===== src/Cart/Merge.antt =====
-- internal/cart/service.go: `Merge` moves the lines of a guest's cart into the user's.
pub mod Raised
use toko_api.Prelude.{
  ℕ, suc, ℤ, Option, none, some, List, [], ◌∷◌, ◌*ℤ◌, ltb_ℤ, if◌then◌else◌, Text, wrap64,
}
use toko_api.Cart.Store.{
  Cart, CartItem, Tables, Query, get_cart_by_id, list_cart_items, update_cart_voucher,
  transfer_cart_to_user, find_cart_item_by_product_variant, Faults, Error, not_found, unparsed,
  no_rows, database, Result, ok, err, one, find_cart, find_line, items_of, write_qty, insert_item,
  try_update,
}
use toko_api.Cart.Service.{Service, ensure_cart, expires, touch}

-- One round of the loop: the user's line is raised to the guest's quantity, or the line copied.
unfoldable pub merge_item : Faults → ℕ → CartItem → Tables → Result Tables
merge_item fault cart it db =
    elim (one fault find_cart_item_by_product_variant
      (find_line cart it.product_id it.variant_id db.items)) [
        | ok old ↦
            if ltb_ℤ old.qty it.qty
            then write_qty fault old.id it.qty (wrap64 (it.qty *ℤ old.unit_price)) db
            else ok db
        | err (database q) ↦ err (database q)
        | err e ↦ insert_item fault (record it { cart_id = cart }) db
      ]

-- The loop: the error, if a round fails, and the tables as the rounds before it left them. `faults n` are
-- the faults of the round `n`.
unfoldable pub merge_items : (ℕ → Faults) → ℕ → ℕ → List CartItem → Tables → Option Error × Tables
unfolding merge_item
merge_items faults n cart [] db = (none, db)
merge_items faults n cart (it ∷ items) db = elim (merge_item (faults n) cart it db) [
  | err e ↦ (some e, db)
  | ok db' ↦ merge_items faults (suc n) cart items db'
]

module _ (s : Service) (fault : Faults) (faults : ℕ → Faults) where
  -- the four statements after the loop, whose errors are dropped
  unfoldable pub hand_over : ℕ → ℕ → ℕ → Tables → Tables
  hand_over user_cart guest_cart user db =
      let touched = touch s fault user_cart (expires s fault) db in
      let ended = touch s fault guest_cart s.now touched in
      let cleared =
        try_update fault update_cart_voucher
          (λ c. record c { applied_voucher_code = none; updated_at = s.db_now }) guest_cart ended in
      try_update fault transfer_cart_to_user
        (λ c. record c { user_id = some user; anon_id = none; updated_at = s.db_now }) guest_cart
        cleared

  -- `Merge` once both carts are known
  unfoldable pub merge_into : Cart → ℕ → ℕ → Tables → Result ℕ × Tables
  unfolding merge_items hand_over
  merge_into user_cart guest user db =
      if fault list_cart_items
      then (err (database list_cart_items), db)
      else (let (error, db') = merge_items faults 0 user_cart.id (items_of guest db.items) db in
          elim error [
            | some e ↦ (err e, db')
            | none ↦ (ok user_cart.id, hand_over user_cart.id guest user db')
          ])

  -- `Merge` for a guest's cart that exists
  unfoldable pub merge_for : Option Text → Text → ℕ → ℕ → Tables → Result ℕ × Tables
  unfolding merge_into
  merge_for tenant user_id guest user db =
      let (found, db') = ensure_cart s fault tenant (some user_id) none db in
      elim found [ err e ↦ (err e, db') | ok user_cart ↦ merge_into user_cart guest user db' ]

  -- `Merge`; `tenant` is that of the context.
  unfoldable pub merge : Option Text → Text → Text → Tables → Result ℕ × Tables
  unfolding merge_for
  merge tenant guest_cart_id user_id db = elim (s.parse_uuid guest_cart_id) [
    | none ↦ (err unparsed, db)
    | some guest ↦ elim (s.parse_uuid user_id) [
      | none ↦ (err unparsed, db)
      | some user ↦ elim (one fault get_cart_by_id (find_cart guest db.carts)) [
        | err no_rows ↦ (err not_found, db)
        | err e ↦ (err e, db)
        | ok guest_cart ↦ merge_for tenant user_id guest user db
      ]
    ]
  ]
