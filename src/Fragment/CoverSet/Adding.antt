-- ===== src/Fragment/CoverSet/Adding.antt =====
-- What CoverSet.Add promises: the offsets covered, the order kept, and when it has no effect.
use gazette.Prelude.{ℕ, ◌≤◌, ◌<◌, ◌≡◌, refl, ◌||◌, [], ◌∷◌, arith, leb, Bool-cases, inl, inr, All}
use gazette.Fragment.Types.{LocalFragment}
use gazette.Fragment.CoverSet.{CoverSet, covers_more}
use gazette.Fragment.CoverSet.Order.{Before, BeforeHead, Before-All, IsCover, spans, covered}
use gazette.Fragment.CoverSet.Insert.{drop_within, insert}

-- Dropping the fragments within `f` keeps the order, and puts `f` before what is left.
drop_within-IsCover : (f : LocalFragment) (s : CoverSet) → IsCover s → IsCover (drop_within f s)
drop_within-IsCover f [] c = tt
drop_within-IsCover f (x ∷ xs) c = elim (Bool-cases (leb x.end f.end)) [
  | inl e ↦ rw e (drop_within-IsCover f xs c.2)
  | inr e ↦ rw e c
]

drop_within-BeforeHead :
    (f : LocalFragment) (s : CoverSet)
    → All (λ y. f.end < y.end → f.begin < y.begin) s
    → BeforeHead f (drop_within f s)
drop_within-BeforeHead f [] a = tt
drop_within-BeforeHead f (x ∷ xs) (p, a) = elim (Bool-cases (leb x.end f.end)) [
  | inl e ↦ rw e (drop_within-BeforeHead f xs a)
  | inr e ↦ rw e (ground arith)
]

insert-BeforeHead :
    (w : LocalFragment) (s : CoverSet) (f : LocalFragment)
    → BeforeHead w s
    → Before w f
    → BeforeHead w (insert s f).0
insert-BeforeHead w [] f b p = p
insert-BeforeHead w (x ∷ xs) f b p = elim (Bool-cases (covers_more x f)) [
  | inl k ↦ rw k b
  | inr k ↦ rw k (elim (Bool-cases (leb f.begin x.begin)) [ inl l ↦ rw l p | inr l ↦ rw l b ])
]

All-after :
    (f x : LocalFragment) (xs : CoverSet)
    → f.begin ≤ x.begin
    → All (Before x) xs
    → All (λ y. f.end < y.end → f.begin < y.begin) xs
All-after f x [] l a = tt
All-after f x (y ∷ ys) l (p, a) = ((λ h. omega arith), All-after f x ys l a)

pub insert-IsCover :
    (s : CoverSet) (f : LocalFragment) → IsCover s → f.begin < f.end → IsCover (insert s f).0
insert-IsCover [] f c n = (n, tt, tt)
insert-IsCover (x ∷ xs) f (m, b, c) n = elim (Bool-cases (covers_more x f)) [
  | inl k ↦ rw k (m, b, c)
  | inr k ↦ rw k (elim (Bool-cases (leb f.begin x.begin)) [
    | inl l ↦ rw l (
      n,
      drop_within-BeforeHead f (x ∷ xs)
          ((λ h. ground arith), All-after f x xs (ground arith) (Before-All x xs b c)),
      drop_within-IsCover f (x ∷ xs) (m, b, c),
    )
    | inr l ↦ rw l (m, insert-BeforeHead x xs f b (ground arith), insert-IsCover xs f c n)
  ])
]

-- The offsets covered.
pub drop_within-covered :
    (o : ℕ) (f : LocalFragment) (s : CoverSet)
    → All (λ y. f.begin ≤ y.begin) s
    → (spans o f || covered o (drop_within f s)) ≡ (spans o f || covered o s)
drop_within-covered o f [] a = refl
drop_within-covered o f (x ∷ xs) (p, a) = ground (arith, drop_within-covered o f xs a)

All-from :
    (f x : LocalFragment) (xs : CoverSet)
    → f.begin ≤ x.begin
    → All (Before x) xs
    → All (λ y. f.begin ≤ y.begin) xs
All-from f x [] l a = tt
All-from f x (y ∷ ys) l (p, a) = (omega arith, All-from f x ys l a)

pub insert-covered :
    (o : ℕ) (s : CoverSet) (f : LocalFragment)
    → IsCover s
    → covered o (insert s f).0 ≡ (spans o f || covered o s)
insert-covered o [] f c = refl
insert-covered o (x ∷ xs) f (m, b, c) = elim (Bool-cases (covers_more x f)) [
  | inl k ↦ rw k (ground arith)
  | inr k ↦ rw k (elim (Bool-cases (leb f.begin x.begin)) [
    | inl l ↦ rw l (
        drop_within-covered o f (x ∷ xs)
          (ground arith, All-from f x xs (ground arith) (Before-All x xs b c)))
    | inr l ↦ rw l (ground (arith, insert-covered o xs f c))
  ])
]
