-- ===== src/Queue/Deadline.antt =====
-- The soft deadline of a job, from the settings of `Run` in internal/queue/queue.go.
use toko_api.Prelude.{
  ℕ, ℤ, pos, ◌||◌, ◌-ℤ◌, ◌/ℤ◌, ◌≤ℤ◌, ◌<ℤ◌, leb_ℤ, ◌<◌, half64, div_pos, -ℤ_parts, sub_pos,
  wrap64_of_Fits64, if◌then◌else◌, wrap64, arith,
}

abbrev margin_of : ℤ → ℤ
margin_of v = if leb_ℤ (v /ℤ 4) (pos 0) then pos 1000000000 else v /ℤ 4

abbrev half_of : ℤ → ℤ
half_of v = if leb_ℤ (v /ℤ 2) (pos 0) then v else v /ℤ 2

abbrev without_margin : ℤ → ℤ
without_margin v = let d = wrap64 (v -ℤ margin_of v) in if leb_ℤ d (pos 0) then half_of v else d

-- the deadline of a job under a positive visibility timeout
unfoldable pub soft_deadline : ℤ → ℤ → ℤ
soft_deadline v soft = if leb_ℤ soft (pos 0) || leb_ℤ v soft then without_margin v else soft

-- Under a positive visibility timeout within int64, the soft deadline is positive and not after the
-- timeout, and before it unless the timeout is a single nanosecond.
pub soft_deadline-bounds :
    (v : ℕ) (soft : ℤ)
    → 0 < v
    → v < half64
    → (pos 0 <ℤ soft_deadline (pos v) soft)
      × (soft_deadline (pos v) soft ≤ℤ pos v)
      × (1 < v → soft_deadline (pos v) soft <ℤ pos v)
unfolding soft_deadline
soft_deadline-bounds v soft h fits = grind (arith, div_pos, sub_pos, wrap64_of_Fits64, -ℤ_parts)
