-- ===== src/Lib.antt =====
-- Verification of toko-api, the back end of a shop (Go, package paths from the repository's root).
--
-- Parts and their modules:
--   * Pricing: internal/pricing/engine.go. `compute` is `Compute`; `subtotal_from` is its loop and
--     `summarise` the figures after it.
--   * Voucher: internal/voucher. Engine has `Rule.Validate`, `EligibleSubtotal`, `ruleMatchesItem` and
--     `Compute` of engine.go; Store the two tables and the generated queries on them; Service has
--     `Preview` and `Settle` of service.go. Scope, Discount, Preview, Settlement and Limits hold proofs.
--   * Order: internal/order. Status has the statuses, their rank and the `WHERE` clause of
--     `UpdateOrderStatusIfAllowed`; Store the orders table; Handlers `PatchStatus` and `Cancel`.
--     Transitions holds proofs.
--   * Shipping: internal/shipping. Status has the transition table and the status maps; Store the tables;
--     Service has `Create` and `AppendEvent` of service.go, which also moves the order through the
--     queries of Order.Store; Webhook the handler of webhook.go, which calls `AppendEvent`. Progress,
--     Appended, Route, Sync, Stand, Stuck and Callbacks hold proofs.
--   * Resilience: internal/resilience. Breaker and Backoff are circuit.go, Client is `HTTPClient.Do` of
--     httpwrap.go on top of the breaker. Counters, Cycle and Retries hold proofs.
--   * Queue: internal/queue. Keys, Sets and Redis are the keys and the sorted sets of queue.go, Enqueuer is
--     `Enqueue`; Worker has `take`, one round of `Run` up to the handler, `ack` and `handleFailure`, which
--     follow it, and `requeueExpired`; Deadline is the soft deadline of `Run`. Apart, Enqueuer.Dedup,
--     Worker.Delivery and Worker.Redelivery hold proofs.
--   * Payment: internal/payment. Status has the names of the statuses; Store the rows of payments, items and
--     stock; Settlement what follows a status, with `Settle` of Voucher.Service outside of the transaction;
--     Webhook the handler of webhook.go. Stock, Effects and Callbacks hold proofs.
--   * Cart: internal/cart/service.go. Store has the tables of carts and lines with the generated queries;
--     Service `EnsureCart`, `AddItem`, `UpdateQty`, `RemoveItem` and `RemoveVoucher`; Evaluate
--     `evaluateVoucher` and `ApplyVoucher`; Merge `Merge`; Commands any sequence of them. Rows, Written,
--     Lines, Merge.Raised, Priced, Commands.Single and Commands.Sound hold proofs; Scope, Amounts and
--     Agreement compare the vouchers of a cart with `Preview` of Voucher.Service.
--   * Checkout: internal/checkout/service.go. `create` is `Create`, over the cart's tables, `compute` of
--     Pricing and `evaluate_cart` of Cart. Placed and Figures hold proofs.
--   * Notify: internal/notify. Store has the tables of webhooks with the generated queries; Dispatcher
--     `DeliverByID` of webhook.go with what it calls, and `EnqueueDelivery`, over Queue.Enqueuer; Worker
--     `Schedule`, the body of `Handle` and `ReplayDelivery`; Batch `WorkOnce`. Progress, Rounds, Replay,
--     Coverage and Unqueued hold proofs. The request itself, with its JSON body and signature, is the
--     parameter `exchange`.
--   * RateLimit: internal/ratelimit. `allow` is `Limiter.Allow` and `middleware` the handler. Counts and
--     Windows hold proofs.
--   * Auth: internal/auth/service.go. Store has the tables of users, sessions and password resets, Service
--     `Login`, `Logout`, `Refresh` and `Reset`; Rotation holds proofs.
--   * Lock: internal/lock/redislock.go. `acquire` is an attempt of `WithLock`, `wait_for` its loop,
--     `run_script` the script and `release` the method around it, which takes how `Eval` ends and deletes
--     the key on an unknown command; Exclusion has the runs of many callers.
--   * Prelude: Boolean tests, lists, Go's fixed-width integers and strings, for all of them.
--   Each Examples module runs the theorems of its part on concrete data.
--
-- Conventions. An int64 or int32 is an integer ℤ, and each operation of the code on it that can overflow
-- is followed by `wrap64` or `wrap32`. A `time.Time` or `time.Duration` is a number of nanoseconds, a UUID
-- a number, a pointer or a nullable column an `Option`, a string the list of its code points. A table is
-- the list of its rows. Each query can fail: a parameter `fault` says which ones do, and a handler returns
-- its result with the tables afterwards, so that partial writes show. Payment and Checkout keep the database
-- as the open transaction sees it beside the committed one, which a rollback leaves. Code from outside the
-- repository is a parameter: `uuid.Parse`, the JSON decoder, SHA-256, `time.Parse`, the clock, the hash of a
-- password, random and signed tokens, the HTTP exchange of an attempt, `float64` with the laws in
-- Resilience.Floats, its rounding of an instant in Queue and RateLimit, and the
-- whole seconds that go-redis makes of the lifetime of a key in RateLimit. So is the
-- verification of a callback by a payment provider, which has several implementations.
--
-- Bounds. Every loop is structural recursion over its list. The retries of `HTTPClient.Do` recurse on the
-- number of attempts that are left, which is the number that the client allows, so they always end. The
-- counters of the breaker are natural numbers; they are bounded by twice the minimum number of requests.
--
-- Not modelled: payment intents, the administration of the queue, e-mails, the administration of webhook
-- endpoints, catalogue, registration, tenants, configuration and start-up; metrics, traces and logs; the nil
-- checks of handlers that are not configured; concurrent calls on the same rows, since each call is taken
-- as one step.
pub mod Prelude
pub mod Pricing
pub mod Voucher
pub mod Order
pub mod Shipping
pub mod Resilience
pub mod Queue
pub mod RateLimit
pub mod Auth
pub mod Payment
pub mod Cart
pub mod Checkout
pub mod Notify
pub mod Lock
