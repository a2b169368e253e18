-- ===== src/Protocol/Label/Join/Values.antt =====
-- The walk over the values of two groups of labels in matchSelector
-- (v2/pkg/protocol/label_extensions.go) finds a match exactly if there is one.
use gazette.Prelude.{
  ℕ, zero, suc, ◌+◌, ◌≤◌, ◌≡◌, inl, inr, refl, sym, ap, ◌∙◌, Bool, true, false, ◌||◌, ◌&&◌, List,
  [], ◌∷◌, ◌++◌, arith, Bool-cases, Bytes, bytes_eq, bytes_lt, bytes_eq_iff, bytes_lt_irrefl,
  bytes_lt_trans, bytes_lt_total, All, length, Pairwise,
}
use gazette.Protocol.Label.{Label, LabelSet}
use gazette.Protocol.Label.Join.{values_matched}

module _ {A : Type 0} where
  abbrev pub any : (A → Bool) → List A → Bool
  any p [] = false
  any p (x ∷ xs) = p x || any p xs

  abbrev pub all : (A → Bool) → List A → Bool
  all p [] = true
  all p (x ∷ xs) = p x && all p xs

  pub All-map : {P Q : A → Type 0} (xs : List A) → ((x : A) → P x → Q x) → All P xs → All Q xs
  All-map [] f a = tt
  All-map (x ∷ xs) f a = (f x a.0, All-map xs f a.1)

  pub any-same : (p q : A → Bool) (xs : List A) → All (λ x. p x ≡ q x) xs → any p xs ≡ any q xs
  any-same p q [] a = refl
  any-same p q (x ∷ xs) a = ground (arith, a.0, any-same p q xs a.1)

  pub all-same : (p q : A → Bool) (xs : List A) → All (λ x. p x ≡ q x) xs → all p xs ≡ all q xs
  all-same p q [] a = refl
  all-same p q (x ∷ xs) a = ground (arith, a.0, all-same p q xs a.1)

  pub any-none : (p : A → Bool) (xs : List A) → All (λ x. p x ≡ false) xs → any p xs ≡ false
  any-none p [] a = refl
  any-none p (x ∷ xs) a = ground (arith, a.0, any-none p xs a.1)

  pub any-append : (p : A → Bool) (xs ys : List A) → any p (xs ++ ys) ≡ (any p xs || any p ys)
  any-append p [] ys = refl
  any-append p (x ∷ xs) ys = ground (arith, any-append p xs ys)

  pub all-append : (p : A → Bool) (xs ys : List A) → all p (xs ++ ys) ≡ (all p xs && all p ys)
  all-append p [] ys = refl
  all-append p (x ∷ xs) ys = ground (arith, all-append p xs ys)

-- A selector's label fits a label of its name: the empty value fits all.
abbrev pub fits : Label → Label → Bool
fits x y = bytes_eq x.value [] || bytes_eq x.value y.value

abbrev pub ValueLe : Label → Label → Type 0
ValueLe x y = bytes_lt y.value x.value ≡ false

bytes_lt_empty : (a : Bytes) → bytes_lt a [] ≡ false
unfolding bytes_lt
bytes_lt_empty [] = refl
bytes_lt_empty (b ∷ bs) = refl

-- A value that is less than another, and not empty, fits nothing from there on.
less-fits :
    (x y z : Label)
    → bytes_eq x.value [] ≡ false
    → bytes_lt x.value y.value ≡ true
    → ValueLe y z
    → fits x z ≡ false
less-fits x y z h l e = ground (arith, h, l, e, bytes_eq_iff x.value z.value)

-- A value that is less than another is fitted by nothing from there on.
fitted-less : (x y z : Label) → bytes_lt y.value x.value ≡ true → ValueLe x z → fits z y ≡ false
fitted-less x y z l e = ground (
  arith,
  l,
  e,
  bytes_eq_iff z.value y.value,
  bytes_eq_iff z.value [],
  bytes_lt_empty y.value,
  bytes_lt_total x.value z.value,
  bytes_lt_trans y.value x.value z.value,
  bytes_lt_irrefl y.value,
)

head-ValueLe : (x : Label) → ValueLe x x
head-ValueLe x = bytes_lt_irrefl x.value

drop-head :
    (a : LabelSet) (y : Label) (ys : LabelSet)
    → All (λ z. fits z y ≡ false) a
    → any (λ z. any (fits z) (y ∷ ys)) a ≡ any (λ z. any (fits z) ys) a
drop-head a y ys h =
    any-same (λ z. any (fits z) (y ∷ ys)) (λ z. any (fits z) ys) a (All-map a (λ z q. rw q refl) h)

pub values_matched-any :
    (fuel : ℕ) (a b : LabelSet)
    → length a + length b ≤ fuel
    → Pairwise ValueLe a
    → Pairwise ValueLe b
    → values_matched fuel a b ≡ any (λ x. any (fits x) b) a
unfolding values_matched
values_matched-any zero [] b n s t = refl
values_matched-any zero (x ∷ xs) b n s t = absurd (omega arith)
values_matched-any (suc fuel) [] b n s t = refl
values_matched-any (suc fuel) (x ∷ xs) [] n s t =
    sym (any-none (λ x. any (fits x) []) (x ∷ xs) (refl, all_false xs))
  where
    all_false : (xs : LabelSet) → All (λ x. false ≡ false) xs
    all_false [] = tt
    all_false (x ∷ xs) = (refl, all_false xs)
values_matched-any (suc fuel) (x ∷ xs) (y ∷ ys) n s t = elim (Bool-cases (fits x y)) [
  | inl q ↦ rw (values_matched, q) refl
  | inr q ↦ elim (Bool-cases (bytes_lt x.value y.value)) [
    | inl l ↦
        let e : bytes_eq x.value [] ≡ false = ground arith in
        let none_fit : any (fits x) (y ∷ ys) ≡ false =
          any-none (fits x) (y ∷ ys) (q, All-map ys (λ z k. less-fits x y z e l k) t.0) in
        let step : values_matched (suc fuel) (x ∷ xs) (y ∷ ys) ≡ values_matched fuel xs (y ∷ ys) =
          rw (values_matched, q, l) refl in
        step
        ∙ values_matched-any fuel xs (y ∷ ys) (omega arith) s.1 t
        ∙ sym (ap (λ f. f || any (λ z. any (fits z) (y ∷ ys)) xs) none_fit)
    | inr l ↦
        let g : bytes_lt y.value x.value ≡ true =
          ground (arith, bytes_eq_iff x.value y.value, bytes_lt_total x.value y.value) in
        let step : values_matched (suc fuel) (x ∷ xs) (y ∷ ys) ≡ values_matched fuel (x ∷ xs) ys =
          rw (values_matched, q, l) refl in
        step
        ∙ values_matched-any fuel (x ∷ xs) ys (omega arith) s t.1
        ∙ sym (
            drop-head (x ∷ xs) y ys
              (fitted-less x y x g (head-ValueLe x), All-map xs (λ z k. fitted-less x y z g k) s.0))
  ]
]
