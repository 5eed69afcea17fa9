-- ===== src/Shipping/Route.antt =====
-- The statuses that shipments reach under any calls of internal/shipping/service.go.
use toko_api.Prelude.{
  ℕ, ◌≡◌, refl, inl, inr, Bool, true, false, Option, some, List, [], ◌∷◌, ◌++◌, All, Text, arith,
  Option-cases, Bool-cases,
}
use toko_api.Shipping.Status.{
  Status, pending, shipped, out_for_delivery, delivered, is_transition_allowed,
}
use toko_api.Shipping.Store.{Shipment, Event, Tables, Query, find_shipment, set_shipment_status}
use toko_api.Shipping.Service.{
  Service, err, invalid_transition, create, append_event, append_to, current_status,
}
use toko_api.Shipping.Progress.{
  deliver, ship, follow_up-keeps, Follows-of_allowed, again, send_out, hand_over, with_event,
  Follows, moved,
}
use toko_api.Shipping.Appended.{entry, append_event-refused}

-- On the way to the customer: what `Create` and the transitions reach.
abbrev pub is_on_route : Status → Bool
is_on_route pending = true
is_on_route shipped = true
is_on_route out_for_delivery = true
is_on_route delivered = true
is_on_route _ = false

abbrev pub IsOnRoute : Shipment → Type 0
IsOnRoute s = is_on_route (current_status s) ≡ true

Follows-is_on_route : {s t : Status} → Follows s t → is_on_route s ≡ true → is_on_route t ≡ true
Follows-is_on_route again h = h
Follows-is_on_route ship h = refl
Follows-is_on_route send_out h = refl
Follows-is_on_route hand_over h = refl
Follows-is_on_route deliver h = refl

All-set_status :
    (now id : ℕ) (status : Status) (ss : List Shipment)
    → is_on_route status ≡ true
    → All IsOnRoute ss
    → All IsOnRoute (set_shipment_status now id status ss)
unfolding set_shipment_status
All-set_status now id status [] h a = a
All-set_status now id status (s ∷ ss) h a =
    (ground (arith, a.0), All-set_status now id status ss h a.1)

All-find :
    (order : ℕ) (ss : List Shipment) (s : Shipment)
    → All IsOnRoute ss
    → find_shipment order ss ≡ some s
    → IsOnRoute s
unfolding find_shipment
All-find order [] s a h = cc
All-find order (x ∷ ss) s a h = ground (arith, All-find order ss s a.1)

All-append :
    (ss : List Shipment) (s : Shipment)
    → All IsOnRoute ss
    → IsOnRoute s
    → All IsOnRoute (ss ++ s ∷ [])
All-append [] s a h = (h, tt)
All-append (x ∷ ss) s a h = (a.0, All-append ss s a.1 h)

module _ (svc : Service) (fault : Query → Bool) (now fresh : ℕ) where
  append_to-IsOnRoute :
      (db : Tables) (order : ℕ) (s : Shipment) (event : Event) (at : Option ℕ) (payload : Text)
      → IsOnRoute s
      → All IsOnRoute db.shipments
      → All IsOnRoute (append_to svc fault now fresh db order s event at payload).1.shipments
  unfolding append_to
  append_to-IsOnRoute db order s event at payload h a =
      elim (Bool-cases (is_transition_allowed (current_status s) event.status)) [
        | inr refused ↦ rw refused a
        | inl allowed ↦
            let on : is_on_route event.status ≡ true =
              Follows-is_on_route (Follows-of_allowed _ _ allowed) h in
            let keeps =
              follow_up-keeps svc fault now fresh (with_event now db s event) order event
                (moved s event at) payload in
            ground (arith, keeps, All-set_status now s.id event.status db.shipments on a)
      ]

  append_event-IsOnRoute :
      (db : Tables) (order : ℕ) (status : Status) (description location : Option Text)
      (at : Option ℕ) (payload : Text)
      → All IsOnRoute db.shipments
      → All IsOnRoute
          (append_event svc fault now fresh db order status description location at
            payload).1.shipments
  unfolding append_event
  append_event-IsOnRoute db order status description location at payload a =
      elim (Option-cases (find_shipment order db.shipments)) [
        | inl unknown ↦ ground arith
        | inr (s, found) ↦ ground (
          arith,
          append_to-IsOnRoute db order s
              (entry svc fault now fresh s status description location at payload) at payload
              (All-find order db.shipments s a found) a,
        )
      ]

  create-IsOnRoute :
      (db : Tables) (order : ℕ) (courier tracking : Text)
      → All IsOnRoute db.shipments
      → All IsOnRoute (create svc fault now fresh db order courier tracking).1.shipments
  unfolding create
  create-IsOnRoute db order courier tracking a = grind (arith, All-append)

-- What can happen to the tables: calls of the service, with any faults, and changes of the orders and
-- users by other components.
pub data Step (svc : Service) : Tables → Tables → Type 0 where
  created :
      (fault : Query → Bool) (now fresh : ℕ) (db db' : Tables) (order : ℕ) (courier tracking : Text)
      → (create svc fault now fresh db order courier tracking).1 ≡ db'
      → Step svc db db'
  appended :
      (fault : Query → Bool) (now fresh : ℕ) (db db' : Tables) (order : ℕ) (status : Status)
      (description location : Option Text) (at : Option ℕ) (payload : Text)
      → (append_event svc fault now fresh db order status description location at payload).1 ≡ db'
      → Step svc db db'
  elsewhere : (db db' : Tables) → db'.shipments ≡ db.shipments → Step svc db db'

pub data Reach (svc : Service) (db : Tables) : Tables → Type 0 where
  here : Reach svc db db
  next : {t u : Tables} → Reach svc db t → Step svc t u → Reach svc db u

Step-IsOnRoute :
    {svc : Service} {t u : Tables}
    → Step svc t u
    → All IsOnRoute t.shipments
    → All IsOnRoute u.shipments
Step-IsOnRoute {svc} (created fault now fresh db db' order courier tracking e) a =
    rw (← e) (create-IsOnRoute svc fault now fresh db order courier tracking a)
Step-IsOnRoute {svc}
      (appended fault now fresh db db' order status description location at payload e) a =
    rw (← e)
      (append_event-IsOnRoute svc fault now fresh db order status description location at payload a)
Step-IsOnRoute (elsewhere db db' e) a = rw e a

-- From a table in which every shipment is PENDING, SHIPPED, OUT_FOR_DELIVERY or DELIVERED, an empty one for
-- instance, whatever calls of the service are made, every shipment is so.
pub Reach-IsOnRoute :
    {svc : Service} {db t : Tables}
    → Reach svc db t
    → All IsOnRoute db.shipments
    → All IsOnRoute t.shipments
Reach-IsOnRoute here a = a
Reach-IsOnRoute (next r st) a = Step-IsOnRoute st (Reach-IsOnRoute r a)

-- From tables without shipments no calls lead to one that accepts PICKED, IN_TRANSIT or RETURNED: an
-- event with such a status is always refused, and changes nothing.
pub append_event-off_route :
    (svc : Service) (db t : Tables) (fault : Query → Bool) (now fresh order : ℕ) (status : Status)
    (description location : Option Text) (at : Option ℕ) (payload : Text) (s : Shipment)
    → db.shipments ≡ []
    → Reach svc db t
    → is_on_route status ≡ false
    → find_shipment order t.shipments ≡ some s
    → fault Query.get_shipment_by_order ≡ false
    → append_event svc fault now fresh t order status description location at payload
      ≡ (err invalid_transition, t)
append_event-off_route svc db t fault now fresh order status description location at payload s empty
      r off found sound =
    append_event-refused svc fault now fresh t order status description location at payload s found
      sound
      λ f. cc (
        off,
        Follows-is_on_route f
            (All-find order t.shipments s (Reach-IsOnRoute r (rw empty tt)) found),
      )
