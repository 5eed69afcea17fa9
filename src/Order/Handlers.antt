-- ===== src/Order/Handlers.antt =====
-- internal/order/admin_handlers.go (`PatchStatus`) and internal/order/handlers.go (`Cancel`): the
-- response with its error code, and the orders table afterwards. `parse_uuid` is `uuid.Parse`. The body
-- is given decoded, `none` where the JSON decoder fails.
use toko_api.Prelude.{
  ℕ, Bool, true, false, not, Option, none, some, List, if◌then◌else◌, Text, is_empty, leb_ℤ,
}
use toko_api.Order.Status.{
  Status, pending_payment, packed, shipped, out_for_delivery, delivered, canceled, of_text, rank,
}
use toko_api.Order.Store.{Order, find_order, find_order_for_user, set_status, set_status_if_allowed}

pub data Query : Type 0 where
  get_order_status update_order_status_if_allowed get_order_by_id_for_user update_order_status :
      Query

pub data Response : Type 0 where
  no_content success bad_request unauthorized not_found invalid_state internal : Response

-- `isAllowedAdminTarget`
unfoldable pub is_allowed_admin_target : Status → Bool
is_allowed_admin_target packed = true
is_allowed_admin_target shipped = true
is_allowed_admin_target out_for_delivery = true
is_allowed_admin_target delivered = true
is_allowed_admin_target canceled = true
is_allowed_admin_target _ = false

module _ (parse_uuid : Text → Option ℕ) (fault : Query → Bool) where
  -- `PatchStatus` from the status that the order has
  unfoldable pub patch_from : List Order → ℕ → Status → Status → Response × List Order
  patch_from orders id current target =
      if leb_ℤ (rank target) (rank current)
      then (invalid_state, orders)
      else if fault update_order_status_if_allowed
      then (internal, orders)
      else elim (set_status_if_allowed id target orders) [
        | none ↦ (invalid_state, orders)
        | some orders' ↦ (no_content, orders')
      ]

  unfoldable pub patch_order : List Order → ℕ → Status → Response × List Order
  unfolding patch_from
  patch_order orders id target =
      if not (is_allowed_admin_target target)
      then (bad_request, orders)
      else if fault get_order_status
      then (internal, orders)
      else elim (find_order id orders) [
        | none ↦ (not_found, orders)
        | some o ↦ patch_from orders id o.status target
      ]

  -- `AdminHandler.PatchStatus`
  unfoldable pub patch_status : List Order → Text → Option Text → Response × List Order
  unfolding patch_order
  patch_status orders order_id body = elim (parse_uuid order_id) [
    | none ↦ (bad_request, orders)
    | some id ↦ elim body [
      | none ↦ (bad_request, orders)
      | some status ↦
          if is_empty status then (bad_request, orders) else patch_order orders id (of_text status)
    ]
  ]

  abbrev is_pending : Status → Bool
  is_pending pending_payment = true
  is_pending _ = false

  unfoldable pub cancel_order : List Order → ℕ → ℕ → Response × List Order
  cancel_order orders id user =
      if fault get_order_by_id_for_user
      then (internal, orders)
      else elim (find_order_for_user id user orders) [
        | none ↦ (not_found, orders)
        | some o ↦
            if not (is_pending o.status)
            then (invalid_state, orders)
            else if fault update_order_status
            then (internal, orders)
            else (success, set_status o.id canceled orders)
      ]

  -- `Handler.Cancel`; the user id is that of the request's context. The refusal of an order that is not
  -- pending is a 400 with the code INVALID_STATE.
  unfoldable pub cancel : List Order → Option Text → Text → Response × List Order
  unfolding cancel_order
  cancel orders user_id order_id = elim user_id [
    | none ↦ (unauthorized, orders)
    | some user ↦ if is_empty user then (unauthorized, orders) else elim (parse_uuid order_id) [
      | none ↦ (bad_request, orders)
      | some id ↦ elim (parse_uuid user) [
        | none ↦ (bad_request, orders)
        | some uid ↦ cancel_order orders id uid
      ]
    ]
  ]
