-- ===== src/Voucher/Limits.antt =====
-- The usage limits that the counter of internal/voucher/service.go keeps to.
use toko_api.Prelude.{
  ℕ, ℤ, pos, ◌≡◌, Bool, true, false, ◌&&◌, Option, none, some, List, [], ◌∷◌, ◌==◌, ◌≤ℤ◌, ◌+ℤ◌,
  if◌then◌else◌, Text, arith, All, Bool-cases, inl, inr, +ℤ_parts,
}
use toko_api.Voucher.Store.{Voucher, Tables, Faults, increase_used_count, has_room, is_below}
use toko_api.Voucher.Service.{Service, settle}

abbrev pub IsAtMost : ℤ → Option ℤ → Type 0
IsAtMost used none = Unit
IsAtMost used (some limit) = used ≤ℤ limit

-- A voucher with a limit has been counted at most that often.
abbrev pub IsWithinLimit : Voucher → Type 0
IsWithinLimit v = IsAtMost v.used_count v.usage_limit

counted_once :
    (used : ℤ) (limit : Option ℤ) → is_below used limit ≡ true → IsAtMost (used +ℤ pos 1) limit
counted_once used none h = tt
counted_once used (some l) h = ground (arith, +ℤ_parts used (pos 1))

has_room-is_below : (v : Voucher) → has_room v ≡ true → is_below v.used_count v.usage_limit ≡ true
has_room-is_below v h = ground (arith, h)

count_if : Bool → Voucher → Voucher
count_if b v = if b then record v { used_count = v.used_count +ℤ pos 1 } else v

count_if-IsWithinLimit :
    (b : Bool) (v : Voucher) → IsWithinLimit v → IsWithinLimit (count_if (b && has_room v) v)
unfolding count_if
count_if-IsWithinLimit false v h = h
count_if-IsWithinLimit true v h = elim (Bool-cases (has_room v)) [
  | inl room ↦
      let below : is_below v.used_count v.usage_limit ≡ true = has_room-is_below v room in
      rw room (counted_once v.used_count v.usage_limit below)
  | inr full ↦ rw full h
]

increase-IsWithinLimit :
    (id : ℕ) (vs : List Voucher)
    → All IsWithinLimit vs
    → All IsWithinLimit (increase_used_count id vs)
unfolding increase_used_count count_if
increase-IsWithinLimit id [] h = h
increase-IsWithinLimit id (v ∷ vs) h =
    (count_if-IsWithinLimit (v.id == id) v h.0, increase-IsWithinLimit id vs h.1)

-- Settlements never count a voucher beyond its usage limit, whichever queries fail.
pub settle-IsWithinLimit :
    (s : Service) (fault : Faults) (db : Tables) (code : Text) (order user : Option ℕ) (amount : ℤ)
    → All IsWithinLimit db.vouchers
    → All IsWithinLimit (settle s fault db code order user amount).1.vouchers
unfolding settle
settle-IsWithinLimit s fault db code none user amount h = h
settle-IsWithinLimit s fault db code (some order) user amount h =
    grind (arith, increase-IsWithinLimit)
