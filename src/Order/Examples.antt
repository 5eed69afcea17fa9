-- ===== src/Order/Examples.antt =====
-- The theorems on order statuses at concrete orders.
use toko_api.Prelude.{
  ℕ, ◌≡◌, ◌≢◌, refl, Bool, true, false, Option, none, some, List, [], ◌∷◌, Text, codes, text_eq,
  pos, if◌then◌else◌,
}
use toko_api.Order.Status.{
  paid, packed, pending_payment, canceled, other, of_text, rank, is_update_allowed,
}
use toko_api.Order.Store.{Order, find_order, find_order_for_user, set_status, set_status_if_allowed}
use toko_api.Order.Handlers.{
  Query, no_content, invalid_state, success, patch_status, patch_order, patch_from,
  is_allowed_admin_target, cancel, cancel_order,
}
use toko_api.Order.Transitions.{AdminStep, IsPatched, patch_status-IsPatched, patch_status-canceled}

abbrev paid_order : Order
paid_order = record {
  id = 50;
  user_id = some 9;
  status = paid;
  pricing_discount = pos 0;
  pricing_total = pos 35000;
  applied_voucher_code = none;
}

abbrev waiting_order : Order
waiting_order = record paid_order { id = 51; status = pending_payment }

abbrev orders : List Order
orders = paid_order ∷ waiting_order ∷ []

-- one letter stands for a UUID
abbrev parse : Text → Option ℕ
parse t =
    if text_eq t (codes "p")
    then some 50
    else if text_eq t (codes "w")
    then some 51
    else if text_eq t (codes "u")
    then some 9
    else none

abbrev sound : Query → Bool
sound q = false

parse_p : parse (codes "p") ≡ some 50
unfolding text_eq
parse_p = refl

parse_w : parse (codes "w") ≡ some 51
unfolding text_eq
parse_w = refl

parse_u : parse (codes "u") ≡ some 9
unfolding text_eq
parse_u = refl

is_packed : of_text (codes "PACKED") ≡ packed
unfolding of_text text_eq
is_packed = refl

is_canceled : of_text (codes "CANCELED") ≡ canceled
unfolding of_text text_eq
is_canceled = refl

paid_found : find_order 50 orders ≡ some paid_order
unfolding find_order
paid_found = refl

patched : (patch_status parse sound orders (codes "p") (some (codes "PACKED"))).0 ≡ no_content
unfolding patch_status patch_order patch_from of_text text_eq find_order is_allowed_admin_target
    rank set_status_if_allowed set_status is_update_allowed
patched = refl

patch_status-IsPatched_example :
    IsPatched orders
      (patch_status parse sound orders (codes "p") (some (codes "PACKED"))).1
      50
      (of_text (codes "PACKED"))
patch_status-IsPatched_example =
    patch_status-IsPatched parse sound orders (codes "p") (codes "PACKED") 50 parse_p patched

packs : AdminStep paid (of_text (codes "PACKED"))
packs = rw is_packed AdminStep.pack

paid_is_known : (s : Text) → paid ≢ other s
paid_is_known s e = cc

patch_status-canceled_example :
    (is_allowed_admin_target canceled ≡ true)
    × (patch_status parse sound orders (codes "p") (some (codes "CANCELED"))
        ≡ (invalid_state, orders))
patch_status-canceled_example =
    patch_status-canceled parse sound orders (codes "p") (codes "CANCELED") 50 paid_order refl
      parse_p paid_found paid_is_known refl is_canceled

done : (cancel parse sound orders (some (codes "u")) (codes "w")).0 ≡ success
unfolding cancel cancel_order find_order_for_user text_eq
done = refl
