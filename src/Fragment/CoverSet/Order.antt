-- ===== src/Fragment/CoverSet/Order.antt =====
-- The order of a CoverSet: no fragment is empty, and both offsets rise strictly along the set.
use gazette.Prelude.{
  ℕ, zero, suc, ◌≤◌, ◌<◌, ◌≡◌, Bool, true, false, ◌&&◌, ◌||◌, [], ◌∷◌, arith, ltb, leb, length,
  test_at, last, init, All,
}
use gazette.Go.Search.{IsMonotone}
use gazette.Fragment.Types.{LocalFragment}
use gazette.Fragment.CoverSet.{CoverSet, ends_after}

abbrev pub Before : LocalFragment → LocalFragment → Type 0
Before x y = (x.begin < y.begin) × (x.end < y.end)

abbrev pub BeforeHead : LocalFragment → CoverSet → Type 0
BeforeHead x [] = Unit
BeforeHead x (y ∷ ys) = Before x y

abbrev pub IsCover : CoverSet → Type 0
IsCover [] = Unit
IsCover (x ∷ xs) = (x.begin < x.end) × BeforeHead x xs × IsCover xs

-- Does a fragment hold an offset, and does any of a set?
abbrev pub spans : ℕ → LocalFragment → Bool
spans o x = leb x.begin o && ltb o x.end

abbrev pub covered : ℕ → CoverSet → Bool
covered o [] = false
covered o (x ∷ xs) = spans o x || covered o xs

-- All fragments past the head of an ordered set come after it.
Before-weaken :
    (x y : LocalFragment) (zs : CoverSet) → Before x y → All (Before y) zs → All (Before x) zs
Before-weaken x y [] b a = tt
Before-weaken x y (z ∷ zs) b (p, a) = (omega arith, Before-weaken x y zs b a)

pub Before-All :
    (x : LocalFragment) (xs : CoverSet) → BeforeHead x xs → IsCover xs → All (Before x) xs
Before-All x [] b c = tt
Before-All x (y ∷ ys) b (n, b', c) = (b, Before-weaken x y ys b (Before-All y ys b' c))

test_at-All :
    (x : LocalFragment) (o m : ℕ) (xs : CoverSet)
    → All (Before x) xs
    → ends_after o x ≡ true
    → m < length xs
    → test_at (ends_after o) xs m ≡ true
test_at-All x o m [] a h l = absurd (omega arith)
test_at-All x o zero (y ∷ ys) (p, a) h l = ground arith
test_at-All x o (suc m) (y ∷ ys) (p, a) h l = test_at-All x o m ys a h (omega arith)

pub ends_after-IsMonotone : (o : ℕ) (xs : CoverSet) → IsCover xs → IsMonotone (ends_after o) xs
ends_after-IsMonotone o [] c = tt
ends_after-IsMonotone o (x ∷ xs) (n, b, c) =
    (λ h m l. test_at-All x o m xs (Before-All x xs b c) h l, ends_after-IsMonotone o xs c)

pub end-le-last : (x : LocalFragment) (xs : CoverSet) → IsCover (x ∷ xs) → x.end ≤ (last x xs).end
end-le-last x [] c = omega arith
end-le-last x (y ∷ ys) (n, b, c) = omega (arith, end-le-last y ys c)

pub begin-le-last :
    (x : LocalFragment) (xs : CoverSet) → IsCover (x ∷ xs) → x.begin ≤ (last x xs).begin
begin-le-last x [] c = omega arith
begin-le-last x (y ∷ ys) (n, b, c) = omega (arith, begin-le-last y ys c)

-- Where `f` ends past the whole set, only the last fragment may begin at or after `f` does.
abbrev pub FitsLast : CoverSet → LocalFragment → Type 0
FitsLast [] f = Unit
FitsLast (x ∷ xs) f = (last x xs).end < f.end → All (λ y. y.begin < f.begin) (init x xs)
