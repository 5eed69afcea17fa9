-- ===== src/Cart/Lines.antt =====
-- The quantities after `AddItem` of internal/cart/service.go.
use toko_api.Prelude.{
  ℕ, ℤ, pos, ◌≡◌, refl, inl, inr, Option-cases, Option, none, some, List, [], ◌∷◌, ◌+ℤ◌, leb_ℤ,
  wrap32, wrap32_of_Fits32, wrap32-Fits32, Text, arith, int_laws, ◌*ℤ◌, wrap64, ◌<ℤ◌, ◌≢◌,
  Bool-cases,
}
use toko_api.Cart.Store.{
  Result-cases, touch_cart, Product, Tables, Faults, ok, find_line, find_product, insert_item,
}
use toko_api.Cart.Service.{
  Service, add_item, add_line, increment_line, new_line, unit_price_of, create_line, parse_variant,
  finish,
}
use mathlib.Core.Path.{subst}
use toko_api.Cart.Rows.{quantity, IsKeyed}
use toko_api.Cart.Written.{IsWritten, write_qty-IsWritten, insert_item-IsWritten}

-- the quantity of a line after `qty` more of it
abbrev pub increased : ℕ → ℕ → Option ℕ → ℤ → Tables → ℤ
increased cart product variant qty db =
    wrap32 (quantity cart product variant db.items +ℤ wrap32 qty)

find_product-id :
    (id : ℕ) (ps : List Product) (p : Product) → find_product id ps ≡ some p → p.id ≡ id
unfolding find_product
find_product-id id [] p e = cc
find_product-id id (x ∷ ps) p e = ground (arith, find_product-id id ps p)

increase_none : (q : ℤ) → wrap32 (pos 0 +ℤ wrap32 q) ≡ wrap32 q
increase_none q =
    let same : pos 0 +ℤ wrap32 q ≡ wrap32 q = grind int_laws in
    rw same (wrap32_of_Fits32 (wrap32 q) (wrap32-Fits32 q))

module _ (s : Service) (fault : Faults) where
  -- A new line is the insertion of the row for a product that was found.
  pub create_line-ok :
      (cart product : ℕ) (variant : Option ℕ) (qty : ℤ) (db db' : Tables)
      → create_line s fault cart product variant qty db ≡ ok db'
      → (p : Product) × (price : ℤ) × (find_product product db.products ≡ some p)
        × (unit_price_of s fault p variant db ≡ ok price)
        × (insert_item fault (new_line s fault cart p variant qty price) db ≡ ok db')
  unfolding create_line
  create_line-ok cart product variant qty db db' e =
      elim (Option-cases (find_product product db.products)) [
        | inl h ↦ ground arith
        | inr (p, h) ↦ elim (Result-cases (unit_price_of s fault p variant db)) [
          | inl (x, k) ↦ ground arith
          | inr (price, k) ↦ (p, price, h, k, ground arith)
        ]
      ]

  create_line-IsWritten :
      (cart product : ℕ) (variant : Option ℕ) (qty : ℤ) (db db' : Tables)
      → IsKeyed db
      → find_line cart product variant db.items ≡ none
      → create_line s fault cart product variant qty db ≡ ok db'
      → IsWritten cart product variant (wrap32 qty) db db'
  create_line-IsWritten cart product variant qty db db' k h e =
      let (p, price, found, priced, written) = create_line-ok cart product variant qty db db' e in
      let same = find_product-id product db.products p found in
      subst (λ id. IsWritten cart id variant (wrap32 qty) db db') same
        (insert_item-IsWritten fault (new_line s fault cart p variant qty price) db db' k
          (rw same h) written)

  add_line-IsWritten :
      (cart product : ℕ) (variant : Option ℕ) (qty : ℤ) (db db' : Tables)
      → IsKeyed db
      → add_line s fault cart product variant qty db ≡ ok db'
      → IsWritten cart product variant (increased cart product variant qty db) db db'
  unfolding add_line increment_line
  add_line-IsWritten cart product variant qty db db' k e =
      elim (Option-cases (find_line cart product variant db.items)) [
        | inl h ↦
            rw (h, increase_none qty)
              (create_line-IsWritten cart product variant qty db db' k h (ground arith))
        | inr (it, h) ↦
            let q = wrap32 (it.qty +ℤ wrap32 qty) in
            rw h (
              write_qty-IsWritten fault cart product variant it q (wrap64 (q *ℤ it.unit_price)) db
                db' k h (ground arith))
      ]

  -- The touch of a cart changes no line.
  pub finish-IsWritten :
      (cart product : ℕ) (variant : Option ℕ) (q : ℤ) (touched : ℕ) (db db' : Tables)
      → IsWritten cart product variant q db db'
      → IsWritten cart product variant q db (finish s fault touched db (ok db')).1
  finish-IsWritten cart product variant q touched db db' w = elim (Bool-cases (fault touch_cart)) [
    | inl e ↦ rw e w
    | inr e ↦ rw e w
  ]

  -- `AddItem` either reports an error and leaves everything as it was, or was given a positive
  -- quantity, which it adds, as an int32, to the line of the cart for the product and variant, a new line where
  -- there was none, and leaves the quantity of every other line in any cart; the ids of the lines
  -- stay distinct.
  pub add_item-adds :
      (cart_id product_id : Text) (variant_id : Option Text) (cart product : ℕ) (variant : Option ℕ)
      (qty : ℤ) (db : Tables)
      → s.parse_uuid cart_id ≡ some cart
      → s.parse_uuid product_id ≡ some product
      → parse_variant s fault variant_id ≡ some variant
      → IsKeyed db
      → let (error, db') = add_item s fault cart_id product_id variant_id qty db in
        (error ≢ none → db' ≡ db)
        × (error ≡ none
            → (pos 0 <ℤ qty)
              × IsWritten cart product variant (increased cart product variant qty db) db db')
  unfolding add_item
  add_item-adds cart_id product_id variant_id cart product variant qty db hc hp hv k =
      elim (Bool-cases (leb_ℤ qty (pos 0))) [
        | inl none_given ↦ ground arith
        | inr given ↦
            let q = increased cart product variant qty db in
            let added = add_line s fault cart product variant qty db in
            elim (Result-cases added) [
              | inl (x, e) ↦ ground arith
              | inr (db', e) ↦
                  let written = add_line-IsWritten cart product variant qty db db' k e in
                  rw (given, hc, hp, hv, e)
                    (
                      λ h. absurd (h refl),
                      λ _. (
                        ground arith,
                        finish-IsWritten cart product variant q cart db db' written,
                      ),
                    )
            ]
      ]
