-- ===== src/Cart/Priced.antt =====
-- internal/cart/service.go: the subtotal that a line keeps is its quantity times its price.
use mathlib.Core.Path.{subst, sym}
use native.Mathlib.Nat.{mul-le-mul}
use toko_api.Pricing.{at_least_zero}
use toko_api.Prelude.{
  ℕ, ◌<◌, ℤ, pos, negsuc, ◌<ℤ◌, ◌*ℤ◌, ◌+ℤ◌, ◌≡◌, refl, inl, inr, Option-cases, Bool-cases, Option,
  none, some, List, [], ◌∷◌, ◌++◌, All, Fits32, wrap32, wrap64, wrap64_pos, wrap32_of_Fits32,
  mul_pos, arith, ltb_ℤ, if◌then◌else◌, ◌==◌, ◌*◌, ◌≤◌,
}
use toko_api.Cart.Store.{
  CartItem, Product, Variant, Tables, Faults, ok, find_line, find_item, find_product, find_variant,
  items_of, set_qty, delete_item, write_qty, insert_item, is_line,
}
use toko_api.Cart.Rows.{IsKeyed, Distinct, Absent, find_line-Absent, Keyed-set_qty, Keyed-append}
use toko_api.Cart.Written.{write_qty-ok, insert_item-ok}
use toko_api.Cart.Lines.{create_line-ok}
use toko_api.Cart.Service.{Service, new_line, unit_price_of, increment_line, add_line, create_line}

pub record IsPriced (it : CartItem) : Type 0 where
  pub positive : pos 0 <ℤ it.qty
  pub product : it.subtotal ≡ wrap64 (it.qty *ℤ it.unit_price)

-- The rows with the id have the price.
abbrev pub HasPrice : ℕ → ℤ → List CartItem → Type 0
HasPrice id price = All λ it. it.id ≡ id → it.unit_price ≡ price

HasPrice-of_Absent :
    (id : ℕ) (price : ℤ) (items : List CartItem) → Absent id items → HasPrice id price items
HasPrice-of_Absent id price [] a = tt
HasPrice-of_Absent id price (x ∷ items) a =
    (λ e. absurd (a.0 e), HasPrice-of_Absent id price items a.1)

pub find_line-HasPrice :
    (c p : ℕ) (v : Option ℕ) (items : List CartItem) (it : CartItem)
    → Distinct items
    → find_line c p v items ≡ some it
    → HasPrice it.id it.unit_price items
unfolding find_line
find_line-HasPrice c p v [] it d e = cc
find_line-HasPrice c p v (x ∷ items) it d e = elim (Bool-cases (is_line c p v x)) [
  | inl here ↦
      subst (λ y. HasPrice y.id y.unit_price (x ∷ items)) {x = x} {y = it} (ground arith)
        (λ _. refl, HasPrice-of_Absent x.id x.unit_price items d.0)
  | inr next ↦
      let later : find_line c p v items ≡ some it = ground arith in
      let other = find_line-Absent c p v x.id items it d.0 later in
      (λ h. absurd (other (sym h)), find_line-HasPrice c p v items it d.1 later)
]

find_item-id :
    (id : ℕ) (items : List CartItem) (it : CartItem) → find_item id items ≡ some it → it.id ≡ id
unfolding find_item
find_item-id id [] it e = cc
find_item-id id (x ∷ items) it e = ground (arith, find_item-id id items it)

pub find_item-HasPrice :
    (id : ℕ) (items : List CartItem) (it : CartItem)
    → Distinct items
    → find_item id items ≡ some it
    → HasPrice it.id it.unit_price items
unfolding find_item
find_item-HasPrice id [] it d e = cc
find_item-HasPrice id (x ∷ items) it d e = elim (Bool-cases (x.id == id)) [
  | inl here ↦
      subst (λ y. HasPrice y.id y.unit_price (x ∷ items)) {x = x} {y = it} (ground arith)
        (λ _. refl, HasPrice-of_Absent x.id x.unit_price items d.0)
  | inr next ↦
      let later : find_item id items ≡ some it = ground arith in
      let own = find_item-id id items it later in
      (λ h. absurd (ground arith), find_item-HasPrice id items it d.1 later)
]

pub set_qty-IsPriced :
    (id : ℕ) (q price : ℤ) (items : List CartItem)
    → pos 0 <ℤ q
    → HasPrice id price items
    → All IsPriced items
    → All IsPriced (set_qty id q (wrap64 (q *ℤ price)) items)
unfolding set_qty
set_qty-IsPriced id q price [] h k a = tt
set_qty-IsPriced id q price (x ∷ items) h k a =
    let rest = set_qty-IsPriced id q price items h k.1 a.1 in
    elim (Bool-cases (x.id == id)) [
      | inl here ↦ rw here (record { positive = h; product = rw (k.0 (ground arith)) refl }, rest)
      | inr next ↦ rw next (a.0, rest)
    ]

pub delete_item-IsPriced :
    (id cart : ℕ) (items : List CartItem)
    → All IsPriced items
    → All IsPriced (delete_item id cart items)
unfolding delete_item
delete_item-IsPriced id cart [] a = tt
delete_item-IsPriced id cart (x ∷ items) a = ground (arith, delete_item-IsPriced id cart items a.1)

pub append-IsPriced :
    (items : List CartItem) (n : CartItem)
    → All IsPriced items
    → IsPriced n
    → All IsPriced (items ++ n ∷ [])
append-IsPriced [] n a h = (h, tt)
append-IsPriced (x ∷ items) n a h = (a.0, append-IsPriced items n a.1 h)

pub items_of-IsPriced :
    (cart : ℕ) (items : List CartItem) → All IsPriced items → All IsPriced (items_of cart items)
unfolding items_of
items_of-IsPriced cart [] a = tt
items_of-IsPriced cart (x ∷ items) a = ground (arith, items_of-IsPriced cart items a.1)

-- Prices of the catalogue below 2 ^ 32.
pub record Affordable (db : Tables) : Type 0 where
  pub products : All (λ (p : Product). p.price <ℤ pos 4294967296) db.products
  pub variants : All (λ (v : Variant). v.price <ℤ pos 4294967296) db.variants

-- Distinct ids, subtotals that are the products of their lines, prices below 2 ^ 32.
pub record IsSound (db : Tables) : Type 0 where
  pub affordable : Affordable db
  pub keyed : IsKeyed db
  pub priced : All IsPriced db.items

-- `UpdateCartItemQty` with the subtotal for the price of the row found.
pub write_qty-IsSound :
    (fault : Faults) (it : CartItem) (q : ℤ) (db db' : Tables)
    → HasPrice it.id it.unit_price db.items
    → IsSound db
    → write_qty fault it.id q (wrap64 (q *ℤ it.unit_price)) db ≡ ok db'
    → IsSound db'
unfolding write_qty
write_qty-IsSound fault it q db db' k d e =
    let t = wrap64 (q *ℤ it.unit_price) in
    rw (write_qty-ok fault it.id q t db db' e) record {
      affordable = record { products = d.affordable.products; variants = d.affordable.variants };
      keyed = Keyed-set_qty db.next_id it.id q t db.items d.keyed.0 d.keyed.1;
      priced = set_qty-IsPriced it.id q it.unit_price db.items (ground arith) k d.priced;
    }

pub insert_item-IsSound :
    (fault : Faults) (it : CartItem) (db db' : Tables)
    → IsSound db
    → it.subtotal ≡ wrap64 (it.qty *ℤ it.unit_price)
    → insert_item fault it db ≡ ok db'
    → IsSound db'
unfolding insert_item
insert_item-IsSound fault it db db' d h e =
    let new : CartItem = record it { id = db.next_id } in
    rw (insert_item-ok fault it db db' e) record {
      affordable = record { products = d.affordable.products; variants = d.affordable.variants };
      keyed = Keyed-append db.items new d.keyed.0 d.keyed.1;
      priced =
          append-IsPriced db.items new d.priced (record { positive = ground arith; product = h });
    }

find_product-price :
    (id : ℕ) (ps : List Product) (p : Product)
    → All (λ (p : Product). p.price <ℤ pos 4294967296) ps
    → find_product id ps ≡ some p
    → p.price <ℤ pos 4294967296
unfolding find_product
find_product-price id [] p a e = cc
find_product-price id (x ∷ ps) p a e = ground (arith, find_product-price id ps p a.1)

find_variant-price :
    (id : ℕ) (vs : List Variant) (v : Variant)
    → All (λ (v : Variant). v.price <ℤ pos 4294967296) vs
    → find_variant id vs ≡ some v
    → v.price <ℤ pos 4294967296
unfolding find_variant
find_variant-price id [] v a e = cc
find_variant-price id (x ∷ vs) v a e = ground (arith, find_variant-price id vs v a.1)

-- A product of an int32 and a price below 2 ^ 32 is not negative in int64.
line_product :
    (q m : ℕ)
    → q < 2147483648
    → m < 4294967296
    → let t = wrap64 (pos q *ℤ pos m) in (if ltb_ℤ t (pos 0) then pos 0 else t) ≡ t
line_product q m h k =
    let small : q * m ≤ 2147483647 * 4294967295 =
      mul-le-mul {n₂ = 2147483647} {m₂ = 4294967295} (omega arith) (omega arith) in
    rw (mul_pos q m, wrap64_pos (q * m) (omega arith)) (ground arith)

clamped_product :
    (q : ℕ) (price : ℤ)
    → q < 2147483648
    → price <ℤ pos 4294967296
    → let m = at_least_zero price in
      let t = wrap64 (pos q *ℤ m) in (if ltb_ℤ t (pos 0) then pos 0 else t) ≡ t
clamped_product q (pos m) h k =
    let same : at_least_zero (pos m) ≡ pos m = ground arith in
    rw same (line_product q m h (omega arith))
clamped_product q (negsuc m) h k =
    let same : at_least_zero (negsuc m) ≡ pos 0 = ground arith in
    rw same (line_product q 0 h (omega arith))

module _ (s : Service) (fault : Faults) where
  -- The price of a line, raised to zero, times an int32 quantity fits int64.
  new_line-product :
      (cart : ℕ) (p : Product) (v : Option ℕ) (qty price : ℤ)
      → Fits32 qty
      → pos 0 <ℤ qty
      → price <ℤ pos 4294967296
      → let n = new_line s fault cart p v qty price in n.subtotal ≡ wrap64 (n.qty *ℤ n.unit_price)
  new_line-product cart p v (pos q) price f h k =
      rw (wrap32_of_Fits32 (pos q) f) (clamped_product q price f.0 k)
  new_line-product cart p v (negsuc q) price f h k = absurd (omega arith)

  unit_price_of-Affordable :
      (p : Product) (v : Option ℕ) (db : Tables) (price : ℤ)
      → Affordable db
      → p.price <ℤ pos 4294967296
      → unit_price_of s fault p v db ≡ ok price
      → price <ℤ pos 4294967296
  unfolding unit_price_of
  unit_price_of-Affordable p none db price a h e = ground arith
  unit_price_of-Affordable p (some id) db price a h e =
      elim (Option-cases (find_variant id db.variants)) [
        | inl k ↦ ground arith
        | inr (x, k) ↦ ground (arith, find_variant-price id db.variants x a.variants k)
      ]

  pub add_line-IsSound :
      (cart product : ℕ) (variant : Option ℕ) (qty : ℤ) (db db' : Tables)
      → Fits32 qty
      → pos 0 <ℤ qty
      → IsSound db
      → add_line s fault cart product variant qty db ≡ ok db'
      → IsSound db'
  unfolding add_line increment_line
  add_line-IsSound cart product variant qty db db' f h d e =
      elim (Option-cases (find_line cart product variant db.items)) [
        | inl absent ↦
            let created : create_line s fault cart product variant qty db ≡ ok db' = ground arith in
            let (p, price, found, cost, written) =
              create_line-ok s fault cart product variant qty db db' created in
            let cheap = find_product-price product db.products p d.affordable.products found in
            insert_item-IsSound fault (new_line s fault cart p variant qty price) db db' d
              (new_line-product cart p variant qty price f h
                (unit_price_of-Affordable p variant db price d.affordable cheap cost))
              written
        | inr (it, found) ↦
            write_qty-IsSound fault it (wrap32 (it.qty +ℤ wrap32 qty)) db db'
              (find_line-HasPrice cart product variant db.items it d.keyed.0 found) d (ground arith)
      ]

  pub update_line-IsSound :
      (id : ℕ) (it : CartItem) (qty : ℤ) (db db' : Tables)
      → Fits32 qty
      → find_item id db.items ≡ some it
      → IsSound db
      → write_qty fault it.id (wrap32 qty) (wrap64 (qty *ℤ it.unit_price)) db ≡ ok db'
      → IsSound db'
  update_line-IsSound id it qty db db' f found d e =
      let same = wrap32_of_Fits32 qty f in
      write_qty-IsSound fault it qty db db' (find_item-HasPrice id db.items it d.keyed.0 found) d
        (rw same at e)
