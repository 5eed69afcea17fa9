-- ===== src/Checkout/Placed.antt =====
-- What a checkout leaves (internal/checkout/service.go).
use toko_api.Prelude.{
  ℕ, suc, ap, ◌≡◌, ◌⊎◌, refl, ◌∙◌, sym, inl, inr, Bool, true, false, not, ◌&&◌, ◌||◌, Bool-cases,
  Option-cases, Option, none, some, List, [], ◌∷◌, ◌++◌, map, is_nonempty, is_empty, is_some, Text,
  arith,
}
use mathlib.Core.List.{append-nil, append_assoc}
use mathlib.Core.Path.{subst}
use toko_api.Pricing.{compute, at_least_zero}
use toko_api.Order.Status.{pending_payment}
use toko_api.Cart.Store.{
  CartItem, Cart, Faults, Result-cases, find_cart, items_of, list_cart_items, get_cart_by_id, one,
  ok,
}
use toko_api.Cart.Service.{present}
use toko_api.Cart.Evaluate.{uuid_equal}
use toko_api.Checkout.{
  Input, PlacedOrder, OrderItem, State, Tx, Step, nth_item, Failure, Service, priced_item,
  copy_line, discount_for, insert_items, announce, with_order, write_order, order_for, place,
  create, begin, emit, create_for,
}

owner_of :
    (owner : Option ℕ) (user : ℕ)
    → (is_some owner && not (uuid_equal owner (some user))) ≡ false
    → (owner ≡ none) ⊎ (owner ≡ some user)
owner_of none user h = inl refl
owner_of (some u) user h = inr (ground arith)

module _ (s : Service) (fault : Faults) (fails : Step → Bool) where
  insert_items-copies :
      (order n : ℕ) (items : List CartItem) (tx : Tx)
      → (insert_items s fault fails order n items tx).0 ≡ none
      → (insert_items s fault fails order n items tx).1.open_state ≡ record tx.open_state {
        order_items = tx.open_state.order_items ++ map (copy_line order) items;
      }
  unfolding insert_items
  insert_items-copies order n [] tx e =
      ap (λ (rows : List OrderItem). record tx.open_state { order_items = rows })
        (sym (append-nil tx.open_state.order_items))
  insert_items-copies order n (it ∷ items) tx e =
      let rows = tx.open_state.order_items in
      let tx' : Tx = record tx {
        open_state = record tx.open_state { order_items = rows ++ copy_line order it ∷ [] };
      } in
      elim (Bool-cases (fails (nth_item n))) [
        | inl stuck ↦ absurd (ground (arith, e, stuck))
        | inr fine ↦ rw fine (
            insert_items-copies order (suc n) items tx' (ground (arith, e, fine))
            ∙ ap (λ (x : List OrderItem). record tx.open_state { order_items = x })
                (append_assoc rows (copy_line order it ∷ []) (map (copy_line order) items)))
      ]

  insert_items-uncommitted :
      (order n : ℕ) (items : List CartItem) (tx : Tx)
      → (insert_items s fault fails order n items tx).1.committed ≡ tx.committed
  unfolding insert_items
  insert_items-uncommitted order n [] tx = refl
  insert_items-uncommitted order n (it ∷ items) tx = elim (Bool-cases (fails (nth_item n))) [
    | inl stuck ↦ rw stuck refl
    | inr fine ↦ rw fine (insert_items-uncommitted order (suc n) items _)
  ]

  -- A new order for the cart's lines, and nothing else but the event.
  pub record IsPlaced (cart : Cart) (input : Input) (o : PlacedOrder) (st st' : State)
      : Type 0 where
    pub order : st'.orders ≡ st.orders ++ o ∷ []
    pub lines :
        st'.order_items ≡ st.order_items ++ map (copy_line o.id) (items_of cart.id st.shop.items)
    pub shop : st'.shop ≡ st.shop
    pub fresh : o.id ≡ st.next_order
    pub unpaid : o.status ≡ pending_payment
    pub some_line : is_nonempty (items_of cart.id st.shop.items) ≡ true
    pub owner : (cart.user_id ≡ none) ⊎ (cart.user_id ≡ some o.user_id)
    pub figures :
        o.pricing
        ≡ compute
            (map priced_item (items_of cart.id st.shop.items))
            (discount_for s fault fails st.shop cart.id cart.applied_voucher_code)
            s.tax_bps
            (at_least_zero input.shipping.price)

  -- The cart is the row that the input names, and the order is the caller's.
  pub record IsNamed (user_id : Option Text) (cart : Cart) (input : Input) (o : PlacedOrder)
      (st : State) : Type 0 where
    pub cart_id : ℕ
    pub parsed : s.parse_uuid input.cart_id ≡ some cart_id
    pub row : find_cart cart_id st.shop.carts ≡ some cart
    pub caller : Text
    pub given : user_id ≡ some caller
    pub user : s.parse_uuid caller ≡ some o.user_id

  found_of :
      (cid : ℕ) (st : State) (cart : Cart)
      → one fault get_cart_by_id (find_cart cid st.shop.carts) ≡ ok cart
      → find_cart cid st.shop.carts ≡ some cart
  found_of cid st cart e = elim (Option-cases (find_cart cid st.shop.carts)) [
    | inl unknown ↦ absurd (ground (arith, e, unknown))
    | inr (row, found) ↦ ground (arith, e, found)
  ]

  write_order-leaves :
      (o : PlacedOrder) (items : List CartItem) (tx : Tx)
      → (write_order s fault fails o items tx).0 ≡ none
      → let st = tx.open_state in
        let st' = (write_order s fault fails o items tx).1.committed in
        (st'.orders ≡ st.orders ++ o ∷ [])
        × (st'.order_items ≡ st.order_items ++ map (copy_line o.id) items)
        × (st'.shop ≡ st.shop)
  unfolding write_order
  write_order-leaves o items tx e =
      let tx' : Tx = record tx { open_state = with_order s fault fails o tx.open_state } in
      elim (Option-cases (insert_items s fault fails o.id 0 items tx').0) [
        | inl k ↦ let copied = insert_items-copies o.id 0 items tx' k in ground (arith, copied)
        | inr (f, k) ↦ absurd (ground (arith, e, k))
      ]

  -- A step that fails leaves what was committed.
  write_order-uncommitted :
      (o : PlacedOrder) (items : List CartItem) (tx : Tx) (f : Step)
      → (write_order s fault fails o items tx).0 ≡ some f
      → (write_order s fault fails o items tx).1.committed ≡ tx.committed
  unfolding write_order
  write_order-uncommitted o items tx f e = grind (arith, insert_items-uncommitted)

  announce-IsPlaced :
      (cart : Cart) (input : Input) (o : PlacedOrder) (user : Text) (st st' : State)
      → IsPlaced cart input o st st'
      → IsPlaced cart input o st (announce s fault fails o user st')
  announce-IsPlaced cart input o user st st' p =
      elim (Bool-cases (not s.has_events || fails emit)) [
        | inl e ↦ rw e p
        | inr e ↦ rw e record {
          order = p.order;
          lines = p.lines;
          shop = p.shop;
          fresh = p.fresh;
          unpaid = p.unpaid;
          some_line = p.some_line;
          owner = p.owner;
          figures = p.figures;
        }
      ]

  place-IsPlaced :
      (tenant user : ℕ) (user_id : Text) (cart : Cart) (input : Input) (st : State)
      → let (r, st') = place s fault fails tenant user user_id cart input st in
        ((f : Failure) → r ≡ inl f → st' ≡ st)
        × ((id : ℕ)
            → r ≡ inr id
            → let o =
                order_for s fault fails tenant cart user
                  (items_of cart.id st.shop.items)
                  input
                  st in
              (o.id ≡ id) × IsPlaced cart input o st st')
  unfolding place order_for
  place-IsPlaced tenant user user_id cart input st =
      let items = items_of cart.id st.shop.items in
      let o = order_for s fault fails tenant cart user items input st in
      let tx : Tx = record { open_state = st; committed = st } in
      elim (Bool-cases (is_some cart.user_id && not (uuid_equal cart.user_id (some user)))) [
        | inl e ↦ rw (e, place) (λ f h. refl, λ id h. absurd (ground arith))
        | inr e ↦ elim (Bool-cases (fault list_cart_items)) [
          | inl g ↦ rw (e, g, place) (λ f h. refl, λ id h. absurd (ground arith))
          | inr g ↦ elim (Bool-cases (is_nonempty items)) [
            | inr empty ↦ rw (e, g, empty, place) (λ f h. refl, λ id h. absurd (ground arith))
            | inl full ↦ elim (Option-cases (write_order s fault fails o items tx).0) [
              | inr (f, w) ↦
                  let left = write_order-uncommitted o items tx f w in
                  rw (e, g, full, w, place) (λ f' h. left, λ id h. absurd (ground arith))
              | inl w ↦
                  let st' = (write_order s fault fails o items tx).1.committed in
                  let (order, lines, shop) = write_order-leaves o items tx w in
                  rw (e, g, full, w, place)
                    (
                      λ f h. absurd (ground arith),
                      λ id h. (
                        ground arith,
                        announce-IsPlaced cart input o user_id st st' (record {
                          order = order;
                          lines = lines;
                          shop = shop;
                          fresh = refl;
                          unpaid = refl;
                          some_line = full;
                          owner = owner_of cart.user_id user e;
                          figures = refl;
                        }),
                      ),
                    )
            ]
          ]
        ]
      ]

  abbrev pub HasPlaced : Option Text → Input → State → (Failure ⊎ ℕ) × State → Type 0
  HasPlaced user_id input st (r, st') =
      ((f : Failure) → r ≡ inl f → st' ≡ st)
      × ((id : ℕ)
          → r ≡ inr id
          → (cart : Cart) × (o : PlacedOrder) × (o.id ≡ id)
            × IsNamed user_id cart input o st
            × IsPlaced cart input o st st')

  refused-HasPlaced :
      (user_id : Option Text) (input : Input) (st : State) (f : Failure)
      → HasPlaced user_id input st (inl f, st)
  refused-HasPlaced user_id input st f = (λ g h. refl, λ id h. absurd (ground arith))

  create_for-HasPlaced :
      (tenant_text user_text : Text) (input : Input) (st : State)
      → HasPlaced
          (some user_text)
          input
          st
          (create_for s fault fails tenant_text user_text input st)
  unfolding create_for
  create_for-HasPlaced tenant_text user_text input st =
      elim (Option-cases (s.parse_uuid tenant_text)) [
        | inl e ↦ rw (e, create_for) (refused-HasPlaced (some user_text) input st _)
        | inr (tid, e) ↦ elim (Option-cases (s.parse_uuid input.cart_id)) [
          | inl c ↦ rw (e, c, create_for) (refused-HasPlaced (some user_text) input st _)
          | inr (cid, c) ↦ elim (Option-cases (s.parse_uuid user_text)) [
            | inl u ↦ rw (e, c, u, create_for) (refused-HasPlaced (some user_text) input st _)
            | inr (uid, u) ↦ elim (Bool-cases (fails begin)) [
              | inl b ↦ rw (e, c, u, b, create_for) (refused-HasPlaced (some user_text) input st _)
              | inr b ↦
                  elim (Result-cases (one fault get_cart_by_id (find_cart cid st.shop.carts))) [
                    | inl (x, g) ↦
                        rw (e, c, u, b, g, create_for)
                          (refused-HasPlaced (some user_text) input st _)
                    | inr (cart, g) ↦
                        let (refused, placed) = place-IsPlaced tid uid user_text cart input st in
                        rw (e, c, u, b, g, create_for)
                          (
                            refused,
                            λ id h.
                                let items = items_of cart.id st.shop.items in
                                let (same, is_placed) = placed id h in
                                (
                                  cart,
                                  order_for s fault fails tid cart uid items input st,
                                  same,
                                  record {
                                    cart_id = cid;
                                    parsed = c;
                                    row = found_of cid st cart g;
                                    caller = user_text;
                                    given = refl;
                                    user = u;
                                  },
                                  is_placed,
                                ),
                          )
                  ]
            ]
          ]
        ]
      ]

  caller_of :
      (user_id : Option Text) (text : Text) → present user_id ≡ some text → some text ≡ user_id
  caller_of none text e = cc
  caller_of (some t) text e = ground arith

  -- `Create` that fails leaves everything as it was. Otherwise it adds one order of the caller that waits
  -- for payment, for the row of the cart that the input names, which has lines and no other owner, with a
  -- copy of each of the cart's lines and the figures of the pricing engine for them; it changes neither the
  -- cart nor the vouchers.
  pub create-places :
      (tenant user_id : Option Text) (input : Input) (st : State)
      → HasPlaced user_id input st (create s fault fails tenant user_id input st)
  unfolding create
  create-places tenant user_id input st = elim (Option-cases (present user_id)) [
    | inl e ↦ rw (e, create) (refused-HasPlaced user_id input st _)
    | inr (user_text, e) ↦ elim (Bool-cases (is_empty input.cart_id)) [
      | inl c ↦ rw (e, c, create) (refused-HasPlaced user_id input st _)
      | inr c ↦ elim (Option-cases (present tenant)) [
        | inl t ↦ rw (e, c, t, create) (refused-HasPlaced user_id input st _)
        | inr (tenant_text, t) ↦
            rw (e, c, t, create)
              (subst
                (λ u.
                  HasPlaced u input st (create_for s fault fails tenant_text user_text input st))
                (caller_of user_id user_text e)
                (create_for-HasPlaced tenant_text user_text input st))
      ]
    ]
  ]
