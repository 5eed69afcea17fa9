-- ===== src/Notify/Rounds.antt =====
-- The attempts at a delivery come to an end (internal/notify/webhook.go).
use toko_api.Prelude.{
  ℕ, zero, suc, ◌+◌, ◌≤◌, ◌<◌, pos, ◌≡◌, refl, sym, ◌∙◌, ap, inl, inr, true, false, none, some,
  ◌+ℤ◌, leb_ℤ, if◌then◌else◌, wrap32_of_Fits32, half32, add_pos, arith,
}
use toko_api.Notify.Store.{Delivery, find_delivery}
use toko_api.Notify.Dispatcher.{World, Dispatcher, Env, is_last, is_final, process_delivery}
use toko_api.Notify.Progress.{
  IsWritable, row_in, find_delivery-id, process_delivery-IsMoved, IsOver,
}

module _ (d : Dispatcher) (envs : ℕ → Env) where
  -- At most `n` attempts at the delivery with the id, while its status is not final; each has its own
  -- instant, answer and faults.
  unfoldable pub rounds : ℕ → ℕ → World → World
  rounds zero id w = w
  rounds (suc n) id w = elim (row_in d (envs n) id w) [
    | none ↦ w
    | some del ↦
        let next = rounds n id (process_delivery d (envs n) del w).1 in
        if is_final d (envs n) del.status then w else next
  ]

  rounds-IsFinal :
      (n id : ℕ) (w : World) (del : Delivery)
      → row_in d (envs n) id w ≡ some del
      → is_final d (envs n) del.status ≡ true
      → rounds n id w ≡ w
  unfolding rounds
  rounds-IsFinal zero id w del found final = refl
  rounds-IsFinal (suc n) id w del found final = rw (found, final, rounds) refl

  going_on :
      (a m : ℕ) (v : Env) (del : Delivery)
      → del.attempt ≡ pos a
      → del.max_attempt ≡ pos m
      → m < half32
      → a < m
      → is_last d v del ≡ false
      → a + 1 < m
  going_on a m v del ha hm small below more =
      let fits = wrap32_of_Fits32 (pos (a + 1)) (omega arith, omega arith) in
      let seen : leb_ℤ (pos m) (pos (a + 1)) ≡ false = rw (ha, hm, add_pos a 1, fits) at more in
      ground arith

  pub record HasEnded (id : ℕ) (w : World) : Type 0 where
    pub row : Delivery
    pub found : find_delivery id w.tables.deliveries ≡ some row
    pub over : IsOver row w

  is_final_of :
      (v : Env) (row : Delivery) (w : World) → IsOver row w → is_final d v row.status ≡ true
  is_final_of v row w (inl e) = rw e refl
  is_final_of v row w (inr (e, _)) = rw e refl

  -- Where the database answers, a delivery with `a` of `m` attempts made that is neither DELIVERED nor DLQ
  -- is DELIVERED, or DLQ with a row in the table of dead letters, after at most `m` - `a` more attempts,
  -- whatever the endpoint answers; `m` is below 2 ^ 31.
  pub rounds-HasEnded :
      (n id a m : ℕ) (w : World) (del : Delivery)
      → ((k : ℕ) → IsWritable (envs k))
      → find_delivery id w.tables.deliveries ≡ some del
      → del.attempt ≡ pos a
      → del.max_attempt ≡ pos m
      → m < half32
      → a < m
      → m ≤ a + n
      → is_final d (envs 0) del.status ≡ false
      → HasEnded id (rounds n id w)
  unfolding rounds
  rounds-HasEnded zero id a m w del ok found ha hm small below enough going = absurd (omega arith)
  rounds-HasEnded (suc n) id a m w del ok found ha hm small below enough going =
      let same : del.id ≡ id = find_delivery-id id w.tables.deliveries del found in
      let m' =
        process_delivery-IsMoved d (envs n) del w (ok n)
          (ap (λ z. find_delivery z w.tables.deliveries) same ∙ found) in
      let w' = (process_delivery d (envs n) del w).1 in
      let row : find_delivery id w'.tables.deliveries ≡ some m'.row =
        sym (ap (λ z. find_delivery z w'.tables.deliveries) same) ∙ m'.found in
      rw (found, going, rounds)
        (elim m'.moved [
          | inl ended ↦
              rw (rounds-IsFinal n id w' m'.row row (is_final_of (envs n) m'.row w' ended))
                record { row = m'.row; found = row; over = ended }
          | inr (more, counted, kept, not_over) ↦
              let next : m'.row.attempt ≡ pos (a + 1) =
                counted ∙ ap (λ z. z +ℤ pos 1) ha ∙ add_pos a 1 in
              let left : a + 1 < m = going_on a m (envs n) del ha hm small below more in
              rounds-HasEnded n id (a + 1) m w' m'.row ok row next (kept ∙ hm) small left
                (omega arith) (rw not_over refl)
        ])
