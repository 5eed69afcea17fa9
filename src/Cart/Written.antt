-- ===== src/Cart/Written.antt =====
-- What a successful write of cart_items leaves (internal/cart/service.go, `AddItem` and `Merge`).
use toko_api.Prelude.{
  ℕ, suc, ℤ, ◌≡◌, refl, Bool, true, ◌&&◌, Option, none, some, [], ◌∷◌, ◌++◌, ◌==◌, if◌then◌else◌,
  arith,
}
use toko_api.Cart.Store.{
  CartItem, Tables, Faults, ok, same_id, is_line, find_line, set_qty, write_qty, insert_item,
}
use toko_api.Cart.Rows.{
  quantity, IsKeyed, find_line-IsLine, quantity-set_qty, quantity-append, Keyed-set_qty,
  Keyed-append, same_id-eq,
}

-- The product and variant `p`, `v` of cart `c` are those given.
abbrev pub same_key : ℕ → ℕ → Option ℕ → ℕ → ℕ → Option ℕ → Bool
same_key cart product variant c p v = cart == c && product == p && same_id variant v

-- The line has the quantity `q`, every other line that of before, and the ids are still distinct.
abbrev pub IsWritten : ℕ → ℕ → Option ℕ → ℤ → Tables → Tables → Type 0
IsWritten cart product variant q db db' =
    IsKeyed db'
    × ((c p : ℕ) (v : Option ℕ)
        → quantity c p v db'.items
          ≡ (if same_key cart product variant c p v then q else quantity c p v db.items))

is_line-same_key :
    (cart product : ℕ) (variant : Option ℕ) (it : CartItem) (c p : ℕ) (v : Option ℕ)
    → is_line cart product variant it ≡ true
    → is_line c p v it ≡ same_key cart product variant c p v
is_line-same_key cart product variant it c p v h = ground (arith, same_id-eq it.variant_id variant)

pub write_qty-ok :
    (fault : Faults) (id : ℕ) (q t : ℤ) (db db' : Tables)
    → write_qty fault id q t db ≡ ok db'
    → db' ≡ record db { items = set_qty id q t db.items }
unfolding write_qty
write_qty-ok fault id q t db db' e = ground arith

pub insert_item-ok :
    (fault : Faults) (it : CartItem) (db db' : Tables)
    → insert_item fault it db ≡ ok db'
    → db' ≡ record db {
      items = db.items ++ record it { id = db.next_id } ∷ [];
      next_id = suc db.next_id;
    }
unfolding insert_item
insert_item-ok fault it db db' e = ground arith

pub write_qty-IsWritten :
    (fault : Faults) (cart product : ℕ) (variant : Option ℕ) (it : CartItem) (q t : ℤ)
    (db db' : Tables)
    → IsKeyed db
    → find_line cart product variant db.items ≡ some it
    → write_qty fault it.id q t db ≡ ok db'
    → IsWritten cart product variant q db db'
write_qty-IsWritten fault cart product variant it q t db db' k h e =
    rw (write_qty-ok fault it.id q t db db' e) (
      Keyed-set_qty db.next_id it.id q t db.items k.0 k.1,
      λ c p v.
          rw
            (
              quantity-set_qty cart product c p variant v q t db.items it k.0 h,
              is_line-same_key cart product variant it c p v
                  (find_line-IsLine cart product variant db.items it h),
            )
            refl,
    )

pub insert_item-IsWritten :
    (fault : Faults) (it : CartItem) (db db' : Tables)
    → IsKeyed db
    → find_line it.cart_id it.product_id it.variant_id db.items ≡ none
    → insert_item fault it db ≡ ok db'
    → IsWritten it.cart_id it.product_id it.variant_id it.qty db db'
insert_item-IsWritten fault it db db' k h e =
    let new : CartItem = record it { id = db.next_id } in
    rw (insert_item-ok fault it db db' e)
      (Keyed-append db.items new k.0 k.1, λ c p v. quantity-append c p v db.items new h)
