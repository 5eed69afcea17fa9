-- ===== src/Cart/Merge/Raised.antt =====
-- The quantities after `Merge` of internal/cart/service.go.
use mathlib.Core.Path.{subst}
use toko_api.Prelude.{
  ℕ, suc, ℤ, pos, ◌≤ℤ◌, ◌*ℤ◌, ◌≡◌, refl, inl, inr, Option-cases, Bool-cases, Bool, true, Option,
  none, some, List, [], ◌∷◌, ltb_ℤ, if◌then◌else◌, Text, wrap64, arith,
}
use toko_api.Cart.Store.{
  Cart, CartItem, Tables, Faults, Error, Result, ok, err, Result-cases, find_line, find_cart,
  items_of, insert_item, Query, list_cart_items, get_cart_by_id, unparsed, database, not_found,
}
use toko_api.Cart.Rows.{quantity, IsKeyed, Below, same_id-eq}
use toko_api.Cart.Written.{same_key, IsWritten, write_qty-IsWritten, insert_item-IsWritten}
use toko_api.Cart.Service.{Service, ensure_cart, load_or_create, new_cart}
use toko_api.Cart.Merge.{merge_item, merge_items, merge_into, merge, hand_over, merge_for}

abbrev pub max_ℤ : ℤ → ℤ → ℤ
max_ℤ a b = if ltb_ℤ a b then b else a

-- The quantity `q` of a line, raised to those that the items have for it, when their product and
-- variant are those of the line and the line is in the cart `cart`.
unfoldable pub raised : ℕ → ℕ → ℕ → Option ℕ → ℤ → List CartItem → ℤ
raised cart c p v q [] = q
raised cart c p v q (it ∷ items) =
    raised cart c p v
      (if same_key cart it.product_id it.variant_id c p v then max_ℤ q it.qty else q) items

quantity-same_key :
    (cart product c p : ℕ) (variant v : Option ℕ) (items : List CartItem)
    → same_key cart product variant c p v ≡ true
    → quantity c p v items ≡ quantity cart product variant items
quantity-same_key cart product c p variant v items h =
    let hc : cart ≡ c = ground arith in
    let hp : product ≡ p = ground arith in
    let hv : variant ≡ v = ground (arith, same_id-eq variant v) in rw (hc, hp, hv) refl

abbrev IsRaised : ℕ → CartItem → Tables → Tables → Type 0
IsRaised cart it db db' =
    IsKeyed db'
    × ((c p : ℕ) (v : Option ℕ)
        → quantity c p v db'.items ≡ (
            if same_key cart it.product_id it.variant_id c p v
            then max_ℤ (quantity c p v db.items) it.qty
            else quantity c p v db.items))

insert_item-positive :
    (fault : Faults) (it : CartItem) (db db' : Tables)
    → insert_item fault it db ≡ ok db'
    → ltb_ℤ (pos 0) it.qty ≡ true
unfolding insert_item
insert_item-positive fault it db db' e = ground arith

-- A write of the item's quantity, where the line had less.
IsRaised-of_IsWritten :
    (cart : ℕ) (it : CartItem) (db db' : Tables)
    → ltb_ℤ (quantity cart it.product_id it.variant_id db.items) it.qty ≡ true
    → IsWritten cart it.product_id it.variant_id it.qty db db'
    → IsRaised cart it db db'
IsRaised-of_IsWritten cart it db db' less w = (
  w.0,
  λ c p v.
      ground (arith, w.1 c p v, quantity-same_key cart it.product_id c p it.variant_id v db.items),
)

merge_item-IsRaised :
    (fault : Faults) (cart : ℕ) (it : CartItem) (db db' : Tables)
    → IsKeyed db
    → merge_item fault cart it db ≡ ok db'
    → IsRaised cart it db db'
unfolding merge_item
merge_item-IsRaised fault cart it db db' k e =
    elim (Option-cases (find_line cart it.product_id it.variant_id db.items)) [
      | inl h ↦
          let copied : insert_item fault (record it { cart_id = cart }) db ≡ ok db' =
            ground arith in
          IsRaised-of_IsWritten cart it db db'
            (rw h (insert_item-positive fault (record it { cart_id = cart }) db db' copied))
            (insert_item-IsWritten fault (record it { cart_id = cart }) db db' k h copied)
      | inr (old, h) ↦ elim (Bool-cases (ltb_ℤ old.qty it.qty)) [
        | inl less ↦ IsRaised-of_IsWritten cart it db db' (rw h less) (
            write_qty-IsWritten fault cart it.product_id it.variant_id old it.qty
              (wrap64 (it.qty *ℤ old.unit_price)) db db' k h (ground arith))
        | inr enough ↦
            let same : db ≡ db' = ground arith in
            subst (λ t. IsRaised cart it db t) same
              (
                k,
                λ c p v.
                    ground
                      (arith, quantity-same_key cart it.product_id c p it.variant_id v db.items),
              )
      ]
    ]

raised-ge :
    (cart c p : ℕ) (v : Option ℕ) (q r : ℤ) (items : List CartItem)
    → q ≤ℤ r
    → q ≤ℤ raised cart c p v r items
unfolding raised
raised-ge cart c p v q r [] h = h
raised-ge cart c p v q r (it ∷ items) h =
    raised-ge cart c p v q
      (if same_key cart it.product_id it.variant_id c p v then max_ℤ r it.qty else r) items
      (ground arith)

-- The loop: no quantity falls, and without an error every one is raised to that of the items.
abbrev IsMerged : ℕ → List CartItem → Option Error → Tables → Tables → Type 0
IsMerged cart items error db db' =
    ((c p : ℕ) (v : Option ℕ) → quantity c p v db.items ≤ℤ quantity c p v db'.items)
    × (error ≡ none
        → (c p : ℕ) (v : Option ℕ)
        → quantity c p v db'.items ≡ raised cart c p v (quantity c p v db.items) items)

step-ge : (b : Bool) (q z : ℤ) → q ≤ℤ (if b then max_ℤ q z else q)
step-ge b q z = ground arith

le_trans_ℤ : (a b c : ℤ) → a ≤ℤ b → b ≤ℤ c → a ≤ℤ c
le_trans_ℤ a b c h k = omega arith

merge_items-IsMerged :
    (faults : ℕ → Faults) (n cart : ℕ) (items : List CartItem) (db : Tables)
    → IsKeyed db
    → let (error, db') = merge_items faults n cart items db in IsMerged cart items error db db'
unfolding merge_items raised
merge_items-IsMerged faults n cart [] db k = (λ c p v. omega arith, λ _ c p v. refl)
merge_items-IsMerged faults n cart (it ∷ items) db k =
    elim (Result-cases (merge_item (faults n) cart it db)) [
      | inl (x, e) ↦ rw (e, merge_items) (λ c p v. omega arith, λ h. absurd (ground arith))
      | inr (mid, e) ↦
          let step = merge_item-IsRaised (faults n) cart it db mid k e in
          let rest = merge_items-IsMerged faults (suc n) cart items mid step.0 in
          rw (e, merge_items)
            (
              λ c p v.
                  le_trans_ℤ (quantity c p v db.items) (quantity c p v mid.items)
                    (quantity c p v (merge_items faults (suc n) cart items mid).1.items)
                    (rw (step.1 c p v) (
                      step-ge (same_key cart it.product_id it.variant_id c p v)
                        (quantity c p v db.items) it.qty))
                    (rest.0 c p v),
              λ h c p v. rw (← step.1 c p v) (rest.1 h c p v),
            )
    ]

Below-suc : (n : ℕ) (items : List CartItem) → Below n items → Below (suc n) items
Below-suc n [] b = tt
Below-suc n (it ∷ items) b = (omega arith, Below-suc n items b.1)

-- The lines are those of before, and their ids are still distinct.
abbrev SameLines : Tables → Tables → Type 0
SameLines db db' = (db'.items ≡ db.items) × (IsKeyed db → IsKeyed db')

module _ (s : Service) (fault : Faults) where
  new_cart-SameLines :
      (tenant : Option Text) (user : Option ℕ) (anon : Option Text) (db : Tables)
      → SameLines db (new_cart s fault tenant user anon db).1
  unfolding new_cart
  new_cart-SameLines tenant user anon db = ground (arith, Below-suc db.next_id db.items)

  load_or_create-SameLines :
      (q : Query) (owned : Cart → Bool) (tenant : Option Text) (user : Option ℕ)
      (anon : Option Text) (db : Tables)
      → SameLines db (load_or_create s fault q owned tenant user anon db).1
  unfolding load_or_create
  load_or_create-SameLines q owned tenant user anon db =
      ground (arith, new_cart-SameLines tenant user anon db)

  ensure_cart-SameLines :
      (tenant user_id anon_id : Option Text) (db : Tables)
      → SameLines db (ensure_cart s fault tenant user_id anon_id db).1
  unfolding ensure_cart
  ensure_cart-SameLines tenant user_id anon_id db = grind (arith, load_or_create-SameLines)

  module _ (faults : ℕ → Faults) where
    hand_over-items :
        (user_cart guest user : ℕ) (db : Tables)
        → (hand_over s fault faults user_cart guest user db).items ≡ db.items
    unfolding hand_over
    hand_over-items user_cart guest user db = ground arith

    abbrev pub HasMerged : ℕ → Result ℕ → List CartItem → List CartItem → Type 0
    HasMerged guest r before after =
        ((c p : ℕ) (v : Option ℕ) → quantity c p v before ≤ℤ quantity c p v after)
        × ((cart : ℕ)
            → r ≡ ok cart
            → (c p : ℕ) (v : Option ℕ)
            → quantity c p v after
              ≡ raised cart c p v (quantity c p v before) (items_of guest before))

    merge_into-HasMerged :
        (user_cart : Cart) (guest user : ℕ) (db : Tables)
        → IsKeyed db
        → let (r, db') = merge_into s fault faults user_cart guest user db in
          HasMerged guest r db.items db'.items
    unfolding merge_into
    merge_into-HasMerged user_cart guest user db k = elim (Bool-cases (fault list_cart_items)) [
      | inl e ↦ rw e (λ c p v. omega arith, λ cart h. absurd (ground arith))
      | inr e ↦
          let loop = merge_items faults 0 user_cart.id (items_of guest db.items) db in
          let merged = merge_items-IsMerged faults 0 user_cart.id (items_of guest db.items) db k in
          elim (Option-cases loop.0) [
            | inl done ↦
                rw (e, done, hand_over-items user_cart.id guest user loop.1)
                  (
                    merged.0,
                    λ cart h.
                        let same : user_cart.id ≡ cart = ground arith in
                        rw (← same) (merged.1 done),
                  )
            | inr (x, done) ↦ rw (e, done) (merged.0, λ cart h. absurd (ground arith))
          ]
    ]

    failed-HasMerged :
        (guest : ℕ) (e : Error) (db : Tables) → HasMerged guest (err e) db.items db.items
    failed-HasMerged guest e db = (λ c p v. omega arith, λ cart h. absurd (ground arith))

    merge_for-HasMerged :
        (tenant : Option Text) (user_id : Text) (guest user : ℕ) (db : Tables)
        → IsKeyed db
        → let (r, db') = merge_for s fault faults tenant user_id guest user db in
          HasMerged guest r db.items db'.items
    unfolding merge_for
    merge_for-HasMerged tenant user_id guest user db k =
        let (found, mid) = ensure_cart s fault tenant (some user_id) none db in
        let (same, keyed) = ensure_cart-SameLines tenant (some user_id) none db in
        elim (Result-cases found) [
          | inl (x, e) ↦
              rw (e, merge_for)
                (subst (λ l. HasMerged guest (err x) l mid.items) same
                  (failed-HasMerged guest x mid))
          | inr (c, e) ↦
              let (r, after) = merge_into s fault faults c guest user mid in
              rw (e, merge_for)
                (subst (λ l. HasMerged guest r l after.items) same
                  (merge_into-HasMerged c guest user mid (keyed k)))
        ]

    -- `Merge` never lowers the quantity of a line, whether it returns or fails in the middle; where it
    -- returns a cart, every line of that cart has the greatest of its own quantity and those of the
    -- guest's lines for the same product and variant, and every other cart's lines are as they were. The
    -- guest's id parses, and no two lines of a cart have the same product and variant.
    pub merge-raises :
        (tenant : Option Text) (guest_id user_id : Text) (guest : ℕ) (db : Tables)
        → s.parse_uuid guest_id ≡ some guest
        → IsKeyed db
        → let (r, db') = merge s fault faults tenant guest_id user_id db in
          HasMerged guest r db.items db'.items
    unfolding merge
    merge-raises tenant guest_id user_id guest db hg k =
        elim (Option-cases (s.parse_uuid user_id)) [
          | inl e ↦ rw (hg, e, merge) (failed-HasMerged guest unparsed db)
          | inr (user, e) ↦ elim (Option-cases (find_cart guest db.carts)) [
            | inl found ↦ elim (Bool-cases (fault get_cart_by_id)) [
              | inl down ↦
                  rw (hg, e, found, down, merge)
                    (failed-HasMerged guest (database get_cart_by_id) db)
              | inr up ↦ rw (hg, e, found, up, merge) (failed-HasMerged guest not_found db)
            ]
            | inr (row, found) ↦ elim (Bool-cases (fault get_cart_by_id)) [
              | inl down ↦
                  rw (hg, e, found, down, merge)
                    (failed-HasMerged guest (database get_cart_by_id) db)
              | inr up ↦
                  rw (hg, e, found, up, merge) (merge_for-HasMerged tenant user_id guest user db k)
            ]
          ]
        ]
