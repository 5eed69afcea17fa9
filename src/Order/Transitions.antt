-- ===== src/Order/Transitions.antt =====
-- Which changes of an order's status the handlers of internal/order make.
use toko_api.Prelude.{
  ℕ, ◌≡◌, refl, ◌≢◌, inl, inr, Bool, true, false, Option, some, List, Text, arith, Option-cases,
  ◌==◌, leb_ℤ, is_empty,
}
use toko_api.Order.Status.{
  Status, pending_payment, paid, packed, shipped, out_for_delivery, delivered, canceled, other,
  of_text, rank, is_update_allowed,
}
use toko_api.Order.Store.{
  Order, find_order, set_status_if_allowed, find_order-set_status, with_status, find_order_for_user,
}
use toko_api.Order.Handlers.{
  Query, no_content, success, invalid_state, patch_from, patch_status, cancel,
  is_allowed_admin_target,
}

-- The steps that an administrator can make.
pub data AdminStep : Status → Status → Type 0 where
  pack : AdminStep paid packed
  ship : AdminStep packed shipped
  send_out : AdminStep shipped out_for_delivery
  deliver : AdminStep out_for_delivery delivered

admin_step :
    (current target : Status)
    → is_allowed_admin_target target ≡ true
    → leb_ℤ (rank target) (rank current) ≡ false
    → is_update_allowed current target ≡ true
    → AdminStep current target
unfolding rank is_update_allowed is_allowed_admin_target
admin_step paid packed a b c = pack
admin_step packed shipped a b c = ship
admin_step shipped out_for_delivery a b c = send_out
admin_step out_for_delivery delivered a b c = deliver
admin_step pending_payment canceled a b c = absurd (ground arith)
admin_step paid canceled a b c = absurd (ground arith)
admin_step _ _ a b c = absurd (ground arith)

AdminStep-allowed :
    (current target : Status)
    → AdminStep current target
    → (is_allowed_admin_target target ≡ true)
      × (leb_ℤ (rank target) (rank current) ≡ false)
      × (is_update_allowed current target ≡ true)
unfolding rank is_update_allowed is_allowed_admin_target
AdminStep-allowed _ _ pack = (refl, refl, refl)
AdminStep-allowed _ _ ship = (refl, refl, refl)
AdminStep-allowed _ _ send_out = (refl, refl, refl)
AdminStep-allowed _ _ deliver = (refl, refl, refl)

rank-canceled : (s : Status) → ((t : Text) → s ≢ other t) → leb_ℤ (rank canceled) (rank s) ≡ true
unfolding rank
rank-canceled pending_payment h = refl
rank-canceled (other t) h = absurd (h t refl)
rank-canceled _ h = refl

-- The order of the id, the status that it had, and the status that the update gives it alone.
pub record IsPatched (orders orders' : List Order) (id : ℕ) (target : Status) : Type 0 where
  pub order : Order
  pub was_found : find_order id orders ≡ some order
  pub step : AdminStep order.status target
  pub changed : (j : ℕ) → find_order j orders' ≡ with_status (find_order j orders) (j == id) target

module _ (parse_uuid : Text → Option ℕ) (fault : Query → Bool) where
  patch_from-no_content :
      (orders : List Order) (id : ℕ) (o : Order) (target : Status)
      → find_order id orders ≡ some o
      → is_allowed_admin_target target ≡ true
      → (patch_from parse_uuid fault orders id o.status target).0 ≡ no_content
      → IsPatched orders (patch_from parse_uuid fault orders id o.status target).1 id target
  unfolding patch_from set_status_if_allowed
  patch_from-no_content orders id o target found allowed h = record {
    order = o;
    was_found = found;
    step = admin_step o.status target allowed (ground arith) (ground arith);
    changed = λ j. ground (arith, find_order-set_status id j target orders);
  }

  -- A status that an administrator patches with 204 moved the order, whose id parses, one step from PAID to
  -- PACKED, SHIPPED, OUT_FOR_DELIVERY or DELIVERED, and no other order changed.
  pub patch_status-IsPatched :
      (orders : List Order) (order_id status : Text) (id : ℕ)
      → parse_uuid order_id ≡ some id
      → (patch_status parse_uuid fault orders order_id (some status)).0 ≡ no_content
      → IsPatched orders
          (patch_status parse_uuid fault orders order_id (some status)).1
          id
          (of_text status)
  unfolding patch_status
  patch_status-IsPatched orders order_id status id parsed h =
      elim (Option-cases (find_order id orders)) [
        | inl unknown ↦ absurd (ground arith)
        | inr (o, found) ↦ grind (arith, patch_from-no_content orders id o (of_text status))
      ]

-- Without database faults, each of those steps is answered with 204.
pub patch_status-AdminStep :
    (parse_uuid : Text → Option ℕ) (fault : Query → Bool) (orders : List Order)
    (order_id status : Text) (id : ℕ) (o : Order)
    → ((q : Query) → fault q ≡ false)
    → parse_uuid order_id ≡ some id
    → find_order id orders ≡ some o
    → is_empty status ≡ false
    → AdminStep o.status (of_text status)
    → (patch_status parse_uuid fault orders order_id (some status)).0 ≡ no_content
unfolding patch_status set_status_if_allowed
patch_status-AdminStep parse_uuid fault orders order_id status id o sound parsed found given step =
    ground (
      arith,
      AdminStep-allowed o.status (of_text status) step,
      sound Query.get_order_status,
      sound Query.update_order_status_if_allowed,
    )

-- CANCELED is on the list of statuses that an administrator may set, and no order in one of the seven
-- known statuses can be given it: the rank of CANCELED is below all others, so the answer is 409.
pub patch_status-canceled :
    (parse_uuid : Text → Option ℕ) (fault : Query → Bool) (orders : List Order)
    (order_id status : Text) (id : ℕ) (o : Order)
    → fault Query.get_order_status ≡ false
    → parse_uuid order_id ≡ some id
    → find_order id orders ≡ some o
    → ((s : Text) → o.status ≢ other s)
    → is_empty status ≡ false
    → of_text status ≡ canceled
    → (is_allowed_admin_target canceled ≡ true)
      × (patch_status parse_uuid fault orders order_id (some status) ≡ (invalid_state, orders))
unfolding patch_status is_allowed_admin_target
patch_status-canceled parse_uuid fault orders order_id status id o sound parsed found known given
      target =
    (refl, ground (arith, rank-canceled o.status known))

-- A cancellation that succeeds was asked for by the order's user while the order waited for payment,
-- and cancels that order alone.
pub cancel-pending :
    (parse_uuid : Text → Option ℕ) (fault : Query → Bool) (orders : List Order)
    (user order_id : Text) (id uid : ℕ)
    → parse_uuid order_id ≡ some id
    → parse_uuid user ≡ some uid
    → (cancel parse_uuid fault orders (some user) order_id).0 ≡ success
    → (o : Order) × (find_order_for_user id uid orders ≡ some o)
      × (o.status ≡ pending_payment)
      × ((j : ℕ)
          → find_order j (cancel parse_uuid fault orders (some user) order_id).1
            ≡ with_status (find_order j orders) (j == o.id) canceled)
unfolding cancel
cancel-pending parse_uuid fault orders user order_id id uid p q h =
    elim (Option-cases (find_order_for_user id uid orders)) [
      | inl unknown ↦ absurd (ground arith)
      | inr (o, found) ↦ (
        o,
        found,
        ground arith,
        λ j. ground (arith, find_order-set_status o.id j canceled orders),
      )
    ]
