-- ===== src/Voucher/Settlement.antt =====
-- What `Settle` of internal/voucher/service.go does to the tables, whichever queries fail.
use toko_api.Prelude.{
  ℕ, ℤ, pos, ◌≡◌, refl, ◌≢◌, true, false, ◌&&◌, ◌||◌, Option, none, some, List, [], ◌∷◌, ◌++◌, ◌==◌,
  ◌+ℤ◌, if◌then◌else◌, Text, text_eq, arith, Option-cases, inl, inr, Bool-cases,
}
use toko_api.Voucher.Store.{
  Voucher, Usage, Tables, get_voucher_by_code_for_update, get_voucher_usage_by_order,
  insert_voucher_usage, increase_voucher_used_count, Faults, find_voucher, find_usage, insert_usage,
  increase_used_count, has_room,
}
use toko_api.Voucher.Service.{Error, Service, settle, settle_order, settle_voucher}

-- Inserting a usage makes it, or the one that was there, findable.
find_usage-append :
    (u : Usage) (us : List Usage)
    → find_usage u.voucher_id u.order_id us ≡ none
    → find_usage u.voucher_id u.order_id (us ++ u ∷ []) ≡ some u
unfolding find_usage
find_usage-append u [] h = ground arith
find_usage-append u (w ∷ us) h = ground (arith, find_usage-append u us)

find_usage-insert :
    (u : Usage) (us : List Usage)
    → find_usage u.voucher_id u.order_id us ≡ none
    → find_usage u.voucher_id u.order_id (insert_usage u us) ≡ some u
unfolding insert_usage
find_usage-insert u us h = rw (h, insert_usage) (find_usage-append u us h)

-- The counter changes neither the code nor the id under which a voucher is found.
find_voucher-increase :
    (code : Text) (id : ℕ) (vs : List Voucher) {v : Voucher}
    → find_voucher code vs ≡ some v
    → (w : Voucher) × (find_voucher code (increase_used_count id vs) ≡ some w) × (w.id ≡ v.id)
unfolding find_voucher increase_used_count
find_voucher-increase code id [] h = cc
find_voucher-increase code id (x ∷ vs) h = elim (Bool-cases (text_eq x.code code)) [
  | inl same ↦ (
    if x.id == id && has_room x then record x { used_count = x.used_count +ℤ pos 1 } else x,
    ground arith,
    ground arith,
  )
  | inr other ↦
      let (w, found, same_id) = find_voucher-increase code id vs (rw other at h) in
      (w, ground arith, same_id)
]

module _ (s : Service) (fault : Faults) where
  -- A settlement that reports an error has changed nothing.
  pub settle-error :
      (db : Tables) (code : Text) (order user : Option ℕ) (amount : ℤ) {e : Error}
      → (settle s fault db code order user amount).0 ≡ some e
      → (settle s fault db code order user amount).1 ≡ db
  unfolding settle
  settle-error db code none user amount h = refl
  settle-error db code (some order) user amount h = ground arith

  -- The usage of a known voucher is on record after a settlement without error.
  settle_voucher-records :
      (db : Tables) (v : Voucher) (order : ℕ) (user : Option ℕ) (amount : ℤ)
      → (settle_voucher s fault db v order user amount).0 ≡ none
      → (u : Usage) × (find_usage v.id order
            (settle_voucher s fault db v order user amount).1.usages
          ≡ some u)
  unfolding settle_voucher
  settle_voucher-records db v order user amount h =
      elim (Option-cases (find_usage v.id order db.usages)) [
        | inl fresh ↦
            let u : Usage = record {
              voucher_id = v.id;
              user_id = user;
              order_id = order;
              amount = amount;
            } in
            (u, ground (arith, find_usage-insert u db.usages))
        | inr (u, old) ↦ (u, ground arith)
      ]

  -- The voucher is found under the same code and id after a settlement.
  settle_voucher-finds :
      (db : Tables) (v : Voucher) (code : Text) (order : ℕ) (user : Option ℕ) (amount : ℤ)
      → find_voucher code db.vouchers ≡ some v
      → (w : Voucher) × (find_voucher code
            (settle_voucher s fault db v order user amount).1.vouchers
          ≡ some w)
        × (w.id ≡ v.id)
  unfolding settle_voucher
  settle_voucher-finds db v code order user amount h =
      let (w, found, same) = find_voucher-increase code v.id db.vouchers h in
      elim (Option-cases (find_usage v.id order db.usages)) [
        | inl fresh ↦
            elim (Bool-cases (
              fault get_voucher_usage_by_order
              || fault insert_voucher_usage
              || fault increase_voucher_used_count)) [
                | inl broken ↦
                    elim (Bool-cases
                      (fault get_voucher_usage_by_order || fault insert_voucher_usage)) [
                        | inl early ↦ (v, ground arith, refl)
                        | inr late ↦ (v, ground arith, refl)
                      ]
                | inr sound ↦ (w, ground arith, same)
              ]
        | inr (u, old) ↦ (v, ground arith, refl)
      ]

-- A voucher with its usage on record is settled again without effect.
settle_order-same :
    (s : Service) (fault : Faults) (db : Tables) (code : Text) (order : ℕ) (user : Option ℕ)
    (amount : ℤ) (w : Voucher) (u : Usage)
    → find_voucher code db.vouchers ≡ some w
    → find_usage w.id order db.usages ≡ some u
    → (settle_order s fault db code order user amount).1 ≡ db
unfolding settle_order settle_voucher
settle_order-same s fault db code order user amount w u hv hu = ground arith

settle_order-known :
    (s : Service) (fault : Faults) (db : Tables) (code : Text) (order : ℕ) (user : Option ℕ)
    (amount : ℤ) (v : Voucher)
    → find_voucher code db.vouchers ≡ some v
    → fault get_voucher_by_code_for_update ≡ false
    → settle_order s fault db code order user amount ≡ settle_voucher s fault db v order user amount
unfolding settle_order
settle_order-known s fault db code order user amount v known sound = ground arith

settle_order-unknown :
    (s : Service) (fault : Faults) (db : Tables) (code : Text) (order : ℕ) (user : Option ℕ)
    (amount : ℤ)
    → find_voucher code db.vouchers ≡ none
    → (settle_order s fault db code order user amount).1 ≡ db
unfolding settle_order
settle_order-unknown s fault db code order user amount unknown = ground arith

settle_order-broken :
    (s : Service) (fault : Faults) (db : Tables) (code : Text) (order : ℕ) (user : Option ℕ)
    (amount : ℤ)
    → fault get_voucher_by_code_for_update ≡ true
    → (settle_order s fault db code order user amount).0 ≢ none
unfolding settle_order
settle_order-broken s fault db code order user amount broken = ground arith

settle_order-once :
    (s : Service) (fault again : Faults) (db : Tables) (code : Text) (order : ℕ) (user : Option ℕ)
    (amount : ℤ)
    → (settle_order s fault db code order user amount).0 ≡ none
    → let t = (settle_order s fault db code order user amount).1 in
      (settle_order s again t code order user amount).1 ≡ t
settle_order-once s fault again db code order user amount h =
    elim (Option-cases (find_voucher code db.vouchers)) [
      | inl unknown ↦
          let e = settle_order-unknown s fault db code order user amount unknown in
          rw e (settle_order-unknown s again db code order user amount unknown)
      | inr (v, known) ↦ elim (Bool-cases (fault get_voucher_by_code_for_update)) [
        | inl broken ↦ absurd (settle_order-broken s fault db code order user amount broken h)
        | inr sound ↦
            let e = settle_order-known s fault db code order user amount v known sound in
            let (w, found, same) = settle_voucher-finds s fault db v code order user amount known in
            let (u, recorded) = settle_voucher-records s fault db v order user amount (rw e at h) in
            rw e (
              settle_order-same s again (settle_voucher s fault db v order user amount).1 code order
                user amount w u found (rw same recorded))
      ]
    ]

-- A settlement that reports no error is final: repeated, whichever queries fail then, it changes nothing.
pub settle-once :
    (s : Service) (fault again : Faults) (db : Tables) (code : Text) (order user : Option ℕ)
    (amount : ℤ)
    → (settle s fault db code order user amount).0 ≡ none
    → let t = (settle s fault db code order user amount).1 in
      (settle s again t code order user amount).1 ≡ t
unfolding settle
settle-once s fault again db code none user amount h = refl
settle-once s fault again db code (some order) user amount h =
    ground (arith, settle_order-once s fault again db code order user amount)
