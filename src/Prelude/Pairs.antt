-- ===== src/Prelude/Pairs.antt =====
-- Lists in which each element stands in a relation to all later ones.
use mathlib.Core.List.{List, [], ◌∷◌, ◌++◌}
use gazette.Prelude.Lists.{All}

module _ {ℓ κ} {A : Type ℓ} (P : A → Type κ) where
  pub All-append : (xs ys : List A) → All P xs → All P ys → All P (xs ++ ys)
  All-append [] ys a b = b
  All-append (x ∷ xs) ys a b = (a.0, All-append xs ys a.1 b)

  pub All-append_left : (xs ys : List A) → All P (xs ++ ys) → All P xs
  All-append_left [] ys a = tt
  All-append_left (x ∷ xs) ys a = (a.0, All-append_left xs ys a.1)

  pub All-append_right : (xs ys : List A) → All P (xs ++ ys) → All P ys
  All-append_right [] ys a = a
  All-append_right (x ∷ xs) ys a = All-append_right xs ys a.1

module _ {ℓ κ} {A : Type ℓ} (R : A → A → Type κ) where
  abbrev pub Pairwise : List A → Type κ
  Pairwise [] = Unit
  Pairwise (x ∷ xs) = All (R x) xs × Pairwise xs

  -- All of the first list stand so to all of the second.
  abbrev pub Crosses : List A → List A → Type κ
  Crosses xs ys = All (λ x. All (R x) ys) xs

  pub Pairwise-append :
      (xs ys : List A) → Pairwise xs → Pairwise ys → Crosses xs ys → Pairwise (xs ++ ys)
  Pairwise-append [] ys p q c = q
  Pairwise-append (x ∷ xs) ys p q c =
      (All-append (R x) xs ys p.0 c.0, Pairwise-append xs ys p.1 q c.1)

  pub Pairwise-append_left : (xs ys : List A) → Pairwise (xs ++ ys) → Pairwise xs
  Pairwise-append_left [] ys p = tt
  Pairwise-append_left (x ∷ xs) ys p =
      (All-append_left (R x) xs ys p.0, Pairwise-append_left xs ys p.1)

  pub Pairwise-append_right : (xs ys : List A) → Pairwise (xs ++ ys) → Pairwise ys
  Pairwise-append_right [] ys p = p
  Pairwise-append_right (x ∷ xs) ys p = Pairwise-append_right xs ys p.1

  pub Pairwise-Crosses : (xs ys : List A) → Pairwise (xs ++ ys) → Crosses xs ys
  Pairwise-Crosses [] ys p = tt
  Pairwise-Crosses (x ∷ xs) ys p = (All-append_right (R x) xs ys p.0, Pairwise-Crosses xs ys p.1)
