-- ===== src/Voucher/Scope.antt =====
-- Which items a voucher of internal/voucher/engine.go covers.
use toko_api.Prelude.{
  ℕ, ℤ, pos, ◌≡◌, ap, ◌∙◌, Bool, true, false, not, ◌||◌, List, [], ◌∷◌, ◌+ℤ◌, ◌<◌, ◌+◌, pos_part,
  leb_ℤ, if◌then◌else◌, wrap64, wrap64_pos, add_pos, half64, arith,
}
use toko_api.Voucher.Engine.{
  Rule, Item, is_scoped, rule_matches_item, eligible_from, eligible_subtotal,
}

-- The item counts towards the eligible subtotal.
abbrev pub is_covered : Rule → Item → Bool
is_covered r it = not (is_scoped r) || rule_matches_item r it

-- The sum over the covered items in unbounded numbers; a line of zero or less adds nothing.
unfoldable pub ideal_eligible : Rule → List Item → ℕ
ideal_eligible r [] = 0
ideal_eligible r (it ∷ items) =
    let rest = ideal_eligible r items in
    if is_covered r it then pos_part it.subtotal + rest else rest

step_exact :
    (acc rest : ℕ) (z : ℤ) (b : Bool)
    → acc + (if b then pos_part z + rest else rest) < half64
    → (if leb_ℤ z (pos 0) then pos acc else if b then wrap64 (pos acc +ℤ z) else pos acc)
      ≡ pos (acc + (if b then pos_part z else 0))
step_exact acc rest (pos n) true h =
    rw (add_pos acc n, wrap64_pos (acc + n) (omega arith)) (ground arith)
step_exact acc rest (pos n) false h = ground arith
step_exact acc rest (ℤ.negsuc n) true h = ground arith
step_exact acc rest (ℤ.negsuc n) false h = ground arith

eligible_from_exact :
    (r : Rule) (acc : ℕ) (items : List Item)
    → acc + ideal_eligible r items < half64
    → eligible_from r (pos acc) items ≡ pos (acc + ideal_eligible r items)
unfolding eligible_from ideal_eligible
eligible_from_exact r acc [] h = ground arith
eligible_from_exact r acc (it ∷ items) h =
    rw (step_exact acc (ideal_eligible r items) it.subtotal (is_covered r it) h) (
      eligible_from_exact r (acc + (if is_covered r it then pos_part it.subtotal else 0)) items
        (ground arith)
      ∙ ground arith)

-- Where the sum over the covered items fits int64, it is what `EligibleSubtotal` returns.
pub eligible_subtotal_exact :
    (items : List Item) (r : Rule)
    → ideal_eligible r items < half64
    → eligible_subtotal items r ≡ pos (ideal_eligible r items)
unfolding eligible_subtotal
eligible_subtotal_exact items r h =
    eligible_from_exact r 0 items (omega arith) ∙ ap pos (omega arith)
