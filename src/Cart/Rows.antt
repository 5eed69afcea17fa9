-- ===== src/Cart/Rows.antt =====
-- How the statements on cart_items change the quantity of each line (internal/db/gen/cart_items.sql.go).
use toko_api.Prelude.{
  ℕ, suc, ◌<◌, ℤ, pos, ◌≡◌, ◌≢◌, refl, inl, inr, Bool-cases, Option-cases, Option-cases, true,
  Option, none, some, List, [], ◌∷◌, ◌++◌, if◌then◌else◌, All, arith,
}
use mathlib.Core.Path.{subst}
use toko_api.Cart.Store.{CartItem, Tables, same_id, is_line, find_line, set_qty, delete_item}

-- The quantity in which a cart holds a product and variant: zero without a line for it.
abbrev pub qty_of : Option CartItem → ℤ
qty_of none = pos 0
qty_of (some it) = it.qty

abbrev pub quantity : ℕ → ℕ → Option ℕ → List CartItem → ℤ
quantity cart product variant items = qty_of (find_line cart product variant items)

abbrev pub Absent : ℕ → List CartItem → Type 0
Absent id = All λ it. it.id ≢ id

-- The primary key: no two rows have the same id.
abbrev pub Distinct : List CartItem → Type 0
Distinct [] = Unit {0}
Distinct (it ∷ items) = Absent it.id items × Distinct items

abbrev pub Below : ℕ → List CartItem → Type 0
Below n = All λ it. it.id < n

-- The ids are distinct and the next one is free.
abbrev pub IsKeyed : Tables → Type 0
IsKeyed db = Distinct db.items × Below db.next_id db.items

set_qty-Absent :
    (id : ℕ) (q t : ℤ) (items : List CartItem) → Absent id items → set_qty id q t items ≡ items
unfolding set_qty
set_qty-Absent id q t [] a = refl
set_qty-Absent id q t (it ∷ items) a = ground (arith, set_qty-Absent id q t items a.1)

pub same_id-eq : (a b : Option ℕ) → same_id a b ≡ true → a ≡ b
same_id-eq none none h = refl
same_id-eq (some a) (some b) h = ground arith
same_id-eq none (some b) h = cc
same_id-eq (some a) none h = cc

-- Two keys of one row are the same key.
is_line-agree :
    (c p c' p' : ℕ) (v v' : Option ℕ) (it x : CartItem)
    → is_line c p v it ≡ true
    → is_line c' p' v' it ≡ true
    → is_line c' p' v' x ≡ is_line c p v x
is_line-agree c p c' p' v v' it x h k =
    ground (arith, same_id-eq it.variant_id v, same_id-eq it.variant_id v')

pub find_line-Absent :
    (c p : ℕ) (v : Option ℕ) (id : ℕ) (items : List CartItem) (it : CartItem)
    → Absent id items
    → find_line c p v items ≡ some it
    → it.id ≢ id
unfolding find_line
find_line-Absent c p v id [] it a e = cc
find_line-Absent c p v id (x ∷ items) it a e =
    ground (arith, find_line-Absent c p v id items it a.1)

pub find_line-IsLine :
    (c p : ℕ) (v : Option ℕ) (items : List CartItem) (it : CartItem)
    → find_line c p v items ≡ some it
    → is_line c p v it ≡ true
unfolding find_line
find_line-IsLine c p v [] it e = cc
find_line-IsLine c p v (x ∷ items) it e = ground (arith, find_line-IsLine c p v items it)

quantity-set_qty_head :
    (c p : ℕ) (v : Option ℕ) (q t : ℤ) (items : List CartItem) (x : CartItem)
    → Absent x.id items
    → quantity c p v (set_qty x.id q t (x ∷ items))
      ≡ (if is_line c p v x then q else quantity c p v (x ∷ items))
unfolding find_line set_qty
quantity-set_qty_head c p v q t items x a = ground (arith, set_qty-Absent x.id q t items a)

-- An update of the row found changes the quantity of its line alone.
pub quantity-set_qty :
    (c p c' p' : ℕ) (v v' : Option ℕ) (q t : ℤ) (items : List CartItem) (it : CartItem)
    → Distinct items
    → find_line c p v items ≡ some it
    → quantity c' p' v' (set_qty it.id q t items)
      ≡ (if is_line c' p' v' it then q else quantity c' p' v' items)
unfolding find_line set_qty
quantity-set_qty c p c' p' v v' q t [] it d e = cc
quantity-set_qty c p c' p' v v' q t (x ∷ items) it d e = elim (Bool-cases (is_line c p v x)) [
  | inl here ↦
      subst
        (λ y.
          quantity c' p' v' (set_qty y.id q t (x ∷ items))
          ≡ (if is_line c' p' v' y then q else quantity c' p' v' (x ∷ items)))
        {x = x} {y = it} (ground arith) (quantity-set_qty_head c' p' v' q t items x d.0)
  | inr next ↦
      let later : find_line c p v items ≡ some it = ground arith in
      let other : it.id ≢ x.id = find_line-Absent c p v x.id items it d.0 later in
      let agree = is_line-agree c p c' p' v v' it x (find_line-IsLine c p v items it later) in
      let rest = quantity-set_qty c p c' p' v v' q t items it d.1 later in ground arith
]

pub find_line-append :
    (c p : ℕ) (v : Option ℕ) (items : List CartItem) (n : CartItem)
    → find_line c p v items ≡ none
    → find_line c p v (items ++ n ∷ []) ≡ (if is_line c p v n then some n else none)
unfolding find_line
find_line-append c p v [] n h = refl
find_line-append c p v (x ∷ items) n h = ground (arith, find_line-append c p v items n)

find_line-append_found :
    (c p : ℕ) (v : Option ℕ) (items : List CartItem) (n it : CartItem)
    → find_line c p v items ≡ some it
    → find_line c p v (items ++ n ∷ []) ≡ some it
unfolding find_line
find_line-append_found c p v [] n it h = cc
find_line-append_found c p v (x ∷ items) n it h =
    ground (arith, find_line-append_found c p v items n it)

same_id_refl : (a : Option ℕ) → same_id a a ≡ true
same_id_refl none = refl
same_id_refl (some a) = ground arith

-- The row found under a key has no other key.
find_line-key :
    (c p : ℕ) (v : Option ℕ) (n : CartItem) (items : List CartItem)
    → find_line n.cart_id n.product_id n.variant_id items ≡ none
    → is_line c p v n ≡ true
    → find_line c p v items ≡ none
unfolding find_line
find_line-key c p v n [] h k = refl
find_line-key c p v n (x ∷ items) h k =
    let own : is_line n.cart_id n.product_id n.variant_id n ≡ true =
      ground (arith, same_id_refl n.variant_id) in
    let agree = is_line-agree c p n.cart_id n.product_id v n.variant_id n x k own in
    ground (arith, find_line-key c p v n items)

-- A new row changes the quantity of its line alone, if the cart had no such line.
pub quantity-append :
    (c p : ℕ) (v : Option ℕ) (items : List CartItem) (n : CartItem)
    → find_line n.cart_id n.product_id n.variant_id items ≡ none
    → quantity c p v (items ++ n ∷ []) ≡ (if is_line c p v n then n.qty else quantity c p v items)
quantity-append c p v items n h = elim (Option-cases (find_line c p v items)) [
  | inl e ↦ rw (find_line-append c p v items n e, e) (ground arith)
  | inr (it, e) ↦
      rw (find_line-append_found c p v items n it e, e)
        (ground (arith, find_line-key c p v n items h))
]

Absent-set_qty :
    (id j : ℕ) (q t : ℤ) (items : List CartItem) → Absent j items → Absent j (set_qty id q t items)
unfolding set_qty
Absent-set_qty id j q t [] a = tt
Absent-set_qty id j q t (x ∷ items) a = ground (arith, Absent-set_qty id j q t items a.1)

Distinct-set_qty :
    (id : ℕ) (q t : ℤ) (items : List CartItem) → Distinct items → Distinct (set_qty id q t items)
unfolding set_qty
Distinct-set_qty id q t [] d = tt
Distinct-set_qty id q t (x ∷ items) d =
    ground (arith, Absent-set_qty id x.id q t items d.0, Distinct-set_qty id q t items d.1)

Below-set_qty :
    (n id : ℕ) (q t : ℤ) (items : List CartItem) → Below n items → Below n (set_qty id q t items)
unfolding set_qty
Below-set_qty n id q t [] b = tt
Below-set_qty n id q t (x ∷ items) b = ground (arith, Below-set_qty n id q t items b.1)

Absent-append :
    (j : ℕ) (items : List CartItem) (n : CartItem)
    → Absent j items
    → n.id ≢ j
    → Absent j (items ++ n ∷ [])
Absent-append j [] n a h = (h, tt)
Absent-append j (x ∷ items) n a h = (a.0, Absent-append j items n a.1 h)

Distinct-append :
    (items : List CartItem) (n : CartItem)
    → Distinct items
    → Below n.id items
    → Distinct (items ++ n ∷ [])
Distinct-append [] n d b = (tt, tt)
Distinct-append (x ∷ items) n d b =
    (Absent-append x.id items n d.0 (omega arith), Distinct-append items n d.1 b.1)

Below-append :
    (items : List CartItem) (n : CartItem) → Below n.id items → Below (suc n.id) (items ++ n ∷ [])
Below-append [] n b = (omega arith, tt)
Below-append (x ∷ items) n b = (omega arith, Below-append items n b.1)

pub Keyed-set_qty :
    (n id : ℕ) (q t : ℤ) (items : List CartItem)
    → Distinct items
    → Below n items
    → Distinct (set_qty id q t items) × Below n (set_qty id q t items)
Keyed-set_qty n id q t items d b = (Distinct-set_qty id q t items d, Below-set_qty n id q t items b)

pub Keyed-append :
    (items : List CartItem) (n : CartItem)
    → Distinct items
    → Below n.id items
    → Distinct (items ++ n ∷ []) × Below (suc n.id) (items ++ n ∷ [])
Keyed-append items n d b = (Distinct-append items n d b, Below-append items n b)

Absent-delete_item :
    (j id cart : ℕ) (items : List CartItem) → Absent j items → Absent j (delete_item id cart items)
unfolding delete_item
Absent-delete_item j id cart [] a = tt
Absent-delete_item j id cart (x ∷ items) a = ground (arith, Absent-delete_item j id cart items a.1)

pub Keyed-delete_item :
    (n id cart : ℕ) (items : List CartItem)
    → Distinct items
    → Below n items
    → Distinct (delete_item id cart items) × Below n (delete_item id cart items)
unfolding delete_item
Keyed-delete_item n id cart [] d b = (tt, tt)
Keyed-delete_item n id cart (x ∷ items) d b =
    ground
      (arith, Absent-delete_item x.id id cart items d.0, Keyed-delete_item n id cart items d.1 b.1)
