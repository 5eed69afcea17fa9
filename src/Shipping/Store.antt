-- ===== src/Shipping/Store.antt =====
-- The tables that internal/shipping/service.go works on, with the mails and events that it sends, and
-- the queries of internal/db/gen/shipments.sql.go.
use toko_api.Prelude.{
  ℕ, Bool, Option, none, some, List, [], ◌∷◌, ◌==◌, if◌then◌else◌, Text, ◌≡◌, arith, refl,
}
use toko_api.Order.Store.{Order}
use toko_api.Shipping.Status.{Status, Topic}

pub record Shipment : Type 0 where
  pub id : ℕ
  pub order_id : ℕ
  pub status : Status
  pub courier : Option Text
  pub tracking_number : Option Text
  pub last_status : Option Status
  pub last_event_at : Option ℕ

pub record Event : Type 0 where
  pub id : ℕ
  pub shipment_id : ℕ
  pub status : Status
  pub description : Option Text
  pub location : Option Text
  pub occurred_at : ℕ
  pub raw_payload : Text

pub record User : Type 0 where
  pub id : ℕ
  pub email : Text

pub record Mail : Type 0 where
  pub to : Text
  pub subject : Text
  pub body : Text

pub record Emission : Type 0 where
  pub topic : Topic
  pub order_id : ℕ
  pub shipment_id : ℕ
  pub status : Status
  pub has_payload : Bool
  pub email : Option Text

pub record Tables : Type 0 where
  pub orders : List Order
  pub shipments : List Shipment
  pub events : List Event
  pub users : List User
  pub mails : List Mail
  pub emitted : List Emission

pub data Query : Type 0 where
  get_order_by_id get_shipment_by_order create_shipment update_order_status_if_allowed
        insert_shipment_event update_shipment_status get_order_status get_user_by_id :
      Query

-- `GetShipmentByOrder`
unfoldable pub find_shipment : ℕ → List Shipment → Option Shipment
find_shipment order [] = none
find_shipment order (s ∷ ss) = if s.order_id == order then some s else find_shipment order ss

-- `GetUserByID`
unfoldable pub find_user : ℕ → List User → Option User
find_user id [] = none
find_user id (u ∷ us) = if u.id == id then some u else find_user id us

-- `UpdateShipmentStatus` on the row of the id: `SET status = $2, last_status = $2, last_event_at = now()`
unfoldable pub set_shipment_status : ℕ → ℕ → Status → List Shipment → List Shipment
set_shipment_status now id status [] = []
set_shipment_status now id status (s ∷ ss) =
    (if s.id == id
      then record s { status = status; last_status = some status; last_event_at = some now }
      else s)
    ∷ set_shipment_status now id status ss

abbrev pub with_status : Option Shipment → ℕ → ℕ → Status → Option Shipment
with_status none now id status = none
with_status (some s) now id status = some (
    if s.id == id
    then record s { status = status; last_status = some status; last_event_at = some now }
    else s)

pub find_shipment-set_status :
    (now id order : ℕ) (status : Status) (ss : List Shipment)
    → find_shipment order (set_shipment_status now id status ss)
      ≡ with_status (find_shipment order ss) now id status
unfolding find_shipment set_shipment_status
find_shipment-set_status now id order status [] = refl
find_shipment-set_status now id order status (s ∷ ss) =
    ground (arith, find_shipment-set_status now id order status ss)
