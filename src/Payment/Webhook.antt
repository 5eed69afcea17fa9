-- ===== src/Payment/Webhook.antt =====
-- `Webhook.Handle` of internal/payment/webhook.go. The providers' `VerifyWebhook`, SHA-256 and `uuid.Parse`
-- are parameters. With a pool every query goes through the handle of a transaction.
use toko_api.Prelude.{
  ℕ, ℤ, pos, Bool, false, not, ◌&&◌, ◌||◌, Option, none, some, List, [], ◌∷◌, ◌++◌, ◌+ℤ◌, ltb_ℤ,
  leb_ℤ, if◌then◌else◌, Text, codes, is_empty, trim_space, to_lower,
}
use toko_api.Order.Store.{Order, find_order}
use toko_api.Shipping.Store.{find_user}
use toko_api.Queue.Redis.{Held, is_held}
use toko_api.Payment.Status.{
  Status, pending, paid, failed, expired, refunded, is_paid, normalise_webhook_status,
}
use toko_api.Payment.Store.{
  Payment, Db, Query, begin_tx, get_latest_payment_by_order, update_payment_status,
  insert_payment_event, get_order_by_id, commit, get_user_by_id, find_payment, set_payment,
}
use toko_api.Payment.Settlement.{
  Response, no_content, provider_not_supported, invalid_body, webhook_invalid, invalid_signature,
  replay_store_error, replay, invalid_order_id, tx_error, payment_not_found, payment_fetch_error,
  amount_mismatch, payment_update_error, order_fetch_error, tx_commit_error, Work, Vouchers,
  follow_status,
}

-- `WebhookVerifyResult`, or an error of `VerifyWebhook`
pub record Verified : Type 0 where
  pub is_valid : Bool
  pub order_id : Text
  pub amount : ℤ
  pub status : Text
  pub provider_payload : Option Text

pub record Request : Type 0 where
  pub provider : Text
  pub body : Option Text
  pub signature : Text

pub data Topic : Type 0 where
  order_paid payment_failed payment_expired order_canceled : Topic

pub record Emission : Type 0 where
  pub topic : Topic
  pub order_id : ℕ
  pub payment_id : ℕ
  pub email : Option Text

pub record State : Type 0 where
  pub work : Work
  pub held : List Held
  pub emitted : List Emission

pub record Webhook : Type 0 where
  pub providers : Text → Option (Request → Text → Option Verified)
  pub replay_ttl : Option ℤ
  pub has_pool : Bool
  pub settler : Option Vouchers
  pub has_events : Bool
  pub sha256_hex : Text → Text
  pub parse_uuid : Text → Option ℕ

-- What the transaction ends with: the answer, and what is emitted if it is 204.
pub record Ended : Type 0 where
  pub response : Response
  pub work : Work
  pub emissions : List Emission

abbrev is_mismatch : ℤ → Option ℤ → Bool
is_mismatch claimed none = false
is_mismatch claimed (some amount) =
    ltb_ℤ (pos 0) claimed && (ltb_ℤ claimed amount || ltb_ℤ amount claimed)

abbrev topics : Status → Bool → List Topic
topics paid canceled = order_paid ∷ []
topics failed canceled = payment_failed ∷ (if canceled then order_canceled ∷ [] else [])
topics expired canceled = payment_expired ∷ (if canceled then order_canceled ∷ [] else [])
topics pending canceled = []
topics refunded canceled = []

abbrev emissions_of : List Topic → ℕ → ℕ → Option Text → List Emission
emissions_of [] order payment email = []
emissions_of (t ∷ ts) order payment email =
    record { topic = t; order_id = order; payment_id = payment; email = email }
    ∷ emissions_of ts order payment email

abbrev given : Option Text → Text
given none = []
given (some email) = email

abbrev pub payload_or : Option Text → Text → Text
payload_or none body = body
payload_or (some payload) body = payload

abbrev refuse : Response → Work → Ended
refuse r w = record { response = r; work = w; emissions = [] }

module _ (h : Webhook) (fault : Query → Bool) (now : ℤ) where
  -- the address of the user of an order, if there is one
  abbrev email_of : Db → Option ℕ → Option Text
  email_of db none = none
  email_of db (some user) = if fault get_user_by_id then none else elim (find_user user db.users) [
    | none ↦ none
    | some u ↦ if is_empty u.email then none else some u.email
  ]

  -- the commit, and the events after it
  unfoldable pub finish : Status → Payment → Order → Bool → Work → Ended
  finish status p o canceled w =
      if h.has_pool && fault commit then refuse tx_commit_error w else record {
        response = no_content;
        work = record w { committed = w.db };
        emissions =
            if h.has_events
            then emissions_of (topics status canceled) o.id p.id (email_of w.db o.user_id)
            else [];
      }

  unfoldable pub follow_order : Status → Bool → Payment → Work → Order → Ended
  unfolding finish
  follow_order status settles p w o =
      let (failure, canceled, w') = follow_status h.settler fault status settles w o in
      elim failure [ some r ↦ refuse r w' | none ↦ finish status p o canceled w' ]

  -- the payment and its event are written
  abbrev pub record_payment : Work → Payment → Status → Text → Work
  record_payment w p status payload =
      let db = w.db in
      record w {
        db = record db {
          payments = set_payment p.id status payload db.payments;
          events =
              if fault insert_payment_event
              then db.events
              else db.events
                ++ record { payment_id = p.id; status = status; payload = payload } ∷ [];
        };
      }

  unfoldable pub update_payment : Work → Payment → Verified → Text → Ended
  unfolding follow_order
  update_payment w p v body =
      let status = normalise_webhook_status v.status in
      let w' = record_payment w p status (payload_or v.provider_payload body) in
      if is_mismatch v.amount p.amount
      then refuse amount_mismatch w
      else if fault update_payment_status
      then refuse payment_update_error w
      else if fault get_order_by_id
      then refuse order_fetch_error w'
      else elim (find_order p.order_id w.db.orders) [
        | none ↦ refuse order_fetch_error w'
        | some o ↦ follow_order status (is_paid status && not (is_paid p.status)) p w' o
      ]

  -- the queries, in their order
  unfoldable pub process : Work → ℕ → Verified → Text → Ended
  unfolding update_payment
  process w order_id v body =
      if fault get_latest_payment_by_order
      then refuse payment_fetch_error w
      else elim (find_payment order_id w.db.payments) [
        | none ↦ refuse payment_not_found w
        | some p ↦ update_payment w p v body
      ]

  -- `BeginTx`: the handle shows what is committed.
  abbrev pub begin : Work → Work
  begin w = record w { committed = w.db }

  -- What is left of a run: the deferred `Rollback` drops what is not committed.
  unfoldable pub kept : Ended → Work
  kept e = let w = e.work in if h.has_pool then record w { db = w.committed } else w

  unfoldable pub handle_order : State → ℕ → Verified → Text → Response × State
  unfolding process kept
  handle_order s order_id v body =
      let e = process (begin s.work) order_id v body in
      if h.has_pool && fault begin_tx
      then (tx_error, s)
      else (e.response, record s { work = kept e; emitted = s.emitted ++ e.emissions })

  unfoldable pub handle_verified : State → Verified → Text → Response × State
  unfolding handle_order
  handle_verified s v body = elim (h.parse_uuid v.order_id) [
    | none ↦ (invalid_order_id, s)
    | some order_id ↦ handle_order s order_id v body
  ]

  abbrev pub replay_key : Text → Text → Text
  replay_key provider body = codes "wh:" ++ provider ++ codes ":" ++ h.sha256_hex body

  -- the replay protection, where a store and a positive lifetime are configured
  unfoldable pub handle_valid : Bool → State → Text → Verified → Text → Response × State
  unfolding handle_verified
  handle_valid redis_fails s provider v body = elim h.replay_ttl [
    | none ↦ handle_verified s v body
    | some ttl ↦
        if leb_ℤ ttl (pos 0)
        then handle_verified s v body
        else if redis_fails
        then (replay_store_error, s)
        else if is_held now (replay_key provider body) s.held
        then (replay, s)
        else handle_verified
            (record s {
              held = record { key = replay_key provider body; expires = now +ℤ ttl } ∷ s.held;
            })
            v body
  ]

  -- `Handle` of a configured webhook
  unfoldable pub handle : Bool → State → Request → Response × State
  unfolding handle_valid
  handle redis_fails s r =
      let provider = to_lower (trim_space r.provider) in
      elim (h.providers provider) [
        | none ↦ (provider_not_supported, s)
        | some verify ↦ elim r.body [
          | none ↦ (invalid_body, s)
          | some body ↦ elim (verify r body) [
            | none ↦ (webhook_invalid, s)
            | some v ↦
                if not v.is_valid
                then (invalid_signature, s)
                else handle_valid redis_fails s provider v body
          ]
        ]
      ]
