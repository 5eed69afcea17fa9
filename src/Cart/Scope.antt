-- ===== src/Cart/Scope.antt =====
-- The amounts of `evaluateVoucher` of internal/cart/service.go and those of internal/voucher/engine.go.
use toko_api.Prelude.{
  ℕ, ◌≡◌, ◌≢◌, ◌⊎◌, refl, ap, Bool, true, false, not, ◌||◌, Option, none, some, List, [], ◌∷◌, ◌==◌,
  if◌then◌else◌, any, is_nonempty, All, codes, arith,
}
use toko_api.Voucher.Store.{Voucher}
use toko_api.Voucher.Engine.{Item, is_scoped, scope_verdict, rule_matches_item, or_next}
use toko_api.Voucher.Service.{rule_from_model, to_uuid_slice}
use toko_api.Cart.Store.{CartItem, Product, find_product}
use toko_api.Cart.Evaluate.{in_scope, has_scope, matches}

abbrev category_of : Option Product → Option ℕ
category_of none = none
category_of (some p) = p.category_id

abbrev brand_of : Option Product → Option ℕ
brand_of none = none
brand_of (some p) = p.brand_id

-- What the voucher handlers make of a line, with the row of its product.
abbrev pub item_for : List Product → CartItem → Item
item_for products it =
    let p = find_product it.product_id products in
    record {
      product_id = some it.product_id;
      category_id = category_of p;
      brand_id = brand_of p;
      subtotal = it.subtotal;
    }

unfoldable pub items_for : List Product → List CartItem → List Item
items_for products [] = []
items_for products (it ∷ items) = item_for products it ∷ items_for products items

-- No NULL stands in an array of the voucher.
abbrev NoNull : List (Option ℕ) → Type 0
NoNull = All λ id. id ≢ none

pub record Plain (v : Voucher) : Type 0 where
  pub products : NoNull v.product_ids
  pub categories : NoNull v.category_ids
  pub brands : NoNull v.brand_ids
  pub kind : (v.kind ≡ codes "percent") ⊎ (v.kind ≡ codes "fixed_amount")

is_nonempty-slice :
    (ids : List (Option ℕ)) → NoNull ids → is_nonempty (to_uuid_slice ids) ≡ is_nonempty ids
unfolding to_uuid_slice
is_nonempty-slice [] n = refl
is_nonempty-slice (none ∷ ids) n = absurd (n.0 refl)
is_nonempty-slice (some id ∷ ids) n = refl

in_scope-slice :
    (ids : List (Option ℕ)) (id : ℕ)
    → NoNull ids
    → in_scope ids (some id) ≡ any (λ y. y == id) (to_uuid_slice ids)
unfolding to_uuid_slice
in_scope-slice [] id n = refl
in_scope-slice (none ∷ ids) id n = absurd (n.0 refl)
in_scope-slice (some x ∷ ids) id n = ap (λ b. (x == id) || b) (in_scope-slice ids id n.1)

in_scope-none : (ids : List (Option ℕ)) → in_scope ids none ≡ false
in_scope-none [] = refl
in_scope-none (none ∷ ids) = in_scope-none ids
in_scope-none (some x ∷ ids) = in_scope-none ids

scope_verdict-some :
    (ids : List (Option ℕ)) (id : ℕ)
    → NoNull ids
    → scope_verdict (to_uuid_slice ids) (some id)
      ≡ (if in_scope ids (some id) then some true else none)
unfolding scope_verdict to_uuid_slice
scope_verdict-some [] id n = refl
scope_verdict-some (none ∷ ids) id n = absurd (n.0 refl)
scope_verdict-some (some x ∷ ids) id n = rw (in_scope-slice ids id n.1) refl

scope_verdict-none :
    (ids : List (Option ℕ))
    → NoNull ids
    → scope_verdict (to_uuid_slice ids) none ≡ (if is_nonempty ids then some false else none)
unfolding scope_verdict to_uuid_slice
scope_verdict-none [] n = refl
scope_verdict-none (none ∷ ids) n = absurd (n.0 refl)
scope_verdict-none (some x ∷ ids) n = refl

or_next-known :
    (ids : List (Option ℕ)) (id : Option ℕ) (next : Bool)
    → NoNull ids
    → (is_nonempty ids ≡ true → id ≢ none)
    → or_next (scope_verdict (to_uuid_slice ids) id) next ≡ (in_scope ids id || next)
or_next-known ids (some id) next n h = rw (scope_verdict-some ids id n) (ground arith)
or_next-known [] none next n h = rw (scope_verdict-none [] n) refl
or_next-known (x ∷ ids) none next n h = absurd (h refl refl)

or_next-last :
    (ids : List (Option ℕ)) (id : Option ℕ)
    → NoNull ids
    → or_next (scope_verdict (to_uuid_slice ids) id) false ≡ in_scope ids id
or_next-last ids (some id) n = rw (scope_verdict-some ids id n) (ground arith)
or_next-last ids none n = rw (scope_verdict-none ids n, in_scope-none ids) (ground arith)

-- The category of the line's product is known, or the voucher asks for none.
abbrev pub Categorised : Voucher → Option Product → Type 0
Categorised v p = (is_nonempty v.category_ids ≡ true) → category_of p ≢ none

pub has_scope-rule : (v : Voucher) → Plain v → is_scoped (rule_from_model v) ≡ has_scope v
unfolding rule_from_model
has_scope-rule v n =
    rw
      (
        is_nonempty-slice v.product_ids n.products,
        is_nonempty-slice v.category_ids n.categories,
        is_nonempty-slice v.brand_ids n.brands,
      )
      refl

or_assoc : (a b c : Bool) → (a || (b || c)) ≡ (a || b || c)
or_assoc true b c = refl
or_assoc false b c = refl

-- A scoped voucher covers the same lines in both.
pub matches-rule :
    (v : Voucher) (it : CartItem) (products : List Product) (p : Product)
    → Plain v
    → has_scope v ≡ true
    → find_product it.product_id products ≡ some p
    → Categorised v (some p)
    → rule_matches_item (rule_from_model v) (item_for products it) ≡ matches v it p
unfolding rule_matches_item rule_from_model
matches-rule v it products p n scoped found c =
    let unscoped : not (is_scoped (rule_from_model v)) ≡ false =
      rw (has_scope-rule v n, scoped) refl in
    rw
      (
        found,
        unscoped,
        or_next-last v.brand_ids p.brand_id n.brands,
        or_next-known v.category_ids p.category_id (in_scope v.brand_ids p.brand_id) n.categories c,
        or_next-known v.product_ids (some it.product_id)
            (in_scope v.category_ids p.category_id || in_scope v.brand_ids p.brand_id) n.products
            (λ _ h. absurd (ground arith)),
      )
      (or_assoc (in_scope v.product_ids (some it.product_id))
        (in_scope v.category_ids p.category_id) (in_scope v.brand_ids p.brand_id))
