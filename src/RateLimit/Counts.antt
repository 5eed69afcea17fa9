-- ===== src/RateLimit/Counts.antt =====
-- How many instants or scores lie above a cutoff, for the sorted sets of
-- internal/ratelimit/slidingredis.go.
use toko_api.Prelude.{
  ℕ, suc, ◌≤◌, ℤ, ◌≤ℤ◌, ◌≡◌, refl, List, [], ◌∷◌, leb_ℤ, length, if◌then◌else◌, All, arith,
}
use toko_api.RateLimit.{drop_until}

-- how many of the instants have a score above the cutoff
unfoldable pub count_after : (ℤ → ℤ) → ℤ → List ℤ → ℕ
count_after rounded cutoff [] = 0
count_after rounded cutoff (t ∷ ts) =
    let rest = count_after rounded cutoff ts in if leb_ℤ (rounded t) cutoff then rest else suc rest

-- how many of the scores are above the cutoff
unfoldable pub above : ℤ → List ℤ → ℕ
above cutoff [] = 0
above cutoff (s ∷ ss) = let rest = above cutoff ss in if leb_ℤ s cutoff then rest else suc rest

pub above-length : (c : ℤ) (ss : List ℤ) → above c ss ≤ length ss
unfolding above
above-length c [] = omega arith
above-length c (s ∷ ss) = ground (arith, above-length c ss)

pub above-drop_until : (c d : ℤ) (ss : List ℤ) → c ≤ℤ d → above d (drop_until c ss) ≡ above d ss
unfolding above drop_until
above-drop_until c d [] h = refl
above-drop_until c d (s ∷ ss) h = ground (arith, above-drop_until c d ss h)

pub count_after-later :
    (rounded : ℤ → ℤ) (c d : ℤ) (ts : List ℤ)
    → c ≤ℤ d
    → count_after rounded d ts ≤ count_after rounded c ts
unfolding count_after
count_after-later rounded c d [] h = omega arith
count_after-later rounded c d (t ∷ ts) h = ground (arith, count_after-later rounded c d ts h)

pub count_after-old :
    (rounded : ℤ → ℤ) (c : ℤ) (ts : List ℤ)
    → All (λ t. rounded t ≤ℤ c) ts
    → count_after rounded c ts ≡ 0
unfolding count_after
count_after-old rounded c [] h = refl
count_after-old rounded c (t ∷ ts) (h, hs) = ground (arith, h, count_after-old rounded c ts hs)
