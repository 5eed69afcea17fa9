-- ===== src/Queue/Sets.antt =====
-- Redis sorted sets, as internal/queue/queue.go uses them: the entries in the order of their scores, and
-- of their members where the scores are equal.
use toko_api.Prelude.{
  ℤ, ◌≡◌, refl, Bool, true, false, not, ◌&&◌, ◌||◌, List, [], ◌∷◌, ◌==◌, ltb, ltb_ℤ, leb_ℤ,
  if◌then◌else◌, Text, text_eq, eq_of_text_eq, arith, Bool-cases, inl, inr,
}

pub record Entry : Type 0 where
  pub score : ℤ
  pub member : Text

abbrev pub SortedSet : Type 0
SortedSet = List Entry

text_less : Text → Text → Bool
text_less s [] = false
text_less [] (d ∷ t) = true
text_less (c ∷ s) (d ∷ t) = ltb c d || (c == d && text_less s t)

is_before : Entry → Entry → Bool
unfolding text_less
is_before e f = ltb_ℤ e.score f.score || (leb_ℤ e.score f.score && text_less e.member f.member)

unfoldable pub insert : Entry → SortedSet → SortedSet
unfolding is_before
insert e [] = e ∷ []
insert e (f ∷ z) = let rest = insert e z in if is_before f e then f ∷ rest else e ∷ f ∷ z

-- `ZREM`
unfoldable pub zrem : Text → SortedSet → SortedSet
zrem m [] = []
zrem m (e ∷ z) = let rest = zrem m z in if text_eq e.member m then rest else e ∷ rest

-- `ZADD`; the score of a member that is there is replaced.
unfoldable pub zadd : ℤ → Text → SortedSet → SortedSet
zadd score m z = insert (record { score = score; member = m }) (zrem m z)

-- `ZRANGEBYSCORE` from -inf to a score: the members
unfoldable pub zrange_until : ℤ → SortedSet → List Text
zrange_until max [] = []
zrange_until max (e ∷ z) =
    let rest = zrange_until max z in if leb_ℤ e.score max then e.member ∷ rest else rest

-- The member is in the set.
unfoldable pub has : Text → SortedSet → Bool
has m [] = false
has m (e ∷ z) = text_eq e.member m || has m z

has-insert :
    (m : Text) (e : Entry) (z : SortedSet) → has m (insert e z) ≡ (text_eq e.member m || has m z)
unfolding has insert
has-insert m e [] = refl
has-insert m e (f ∷ z) = ground (arith, has-insert m e z)

-- Two members that are equal as texts are interchangeable.
text_eq_same : (a b m : Text) → text_eq a b ≡ true → text_eq a m ≡ text_eq b m
text_eq_same a b m h = rw (eq_of_text_eq a b h) refl

pub has-zrem : (m n : Text) (z : SortedSet) → has m (zrem n z) ≡ (not (text_eq n m) && has m z)
unfolding has zrem
has-zrem m n [] = ground arith
has-zrem m n (e ∷ z) = elim (Bool-cases (text_eq e.member n)) [
  | inl same ↦ ground (arith, has-zrem m n z, text_eq_same e.member n m same)
  | inr other ↦ elim (Bool-cases (text_eq n m)) [
    | inl hit ↦ ground (arith, has-zrem m n z, eq_of_text_eq n m hit)
    | inr miss ↦ ground (arith, has-zrem m n z)
  ]
]

pub has-zadd :
    (score : ℤ) (m n : Text) (z : SortedSet) → has m (zadd score n z) ≡ (text_eq n m || has m z)
unfolding zadd
has-zadd score m n z =
    ground (arith, has-insert m (record { score = score; member = n }) (zrem n z), has-zrem m n z)
