-- ===== src/Protocol/Label/Adding.antt =====
-- AddValue of v2/pkg/protocol/label_extensions.go keeps the order of labels and adds one.
use gazette.Prelude.{
  ℕ, zero, suc, ◌<◌, ◌≡◌, inl, inr, refl, ap, ◌∙◌, Bool, true, false, not, ◌||◌, ◌&&◌, some, [],
  ◌∷◌, ◌++◌, arith, if◌then◌else◌, Bool-cases, Bytes, bytes_eq, bytes_lt, bytes_eq_iff,
  bytes_lt_irrefl, bytes_lt_trans, bytes_lt_total, All, length, take, drop, test_at, get_elem?,
  Pairwise,
}
use gazette.Go.Search.{prefix_length, IsMonotone, search_index-prefix_length}
use gazette.Protocol.Label.{Label, LabelSet, pair_from, is_label, add_value}

-- By name, then by value.
abbrev pub label_less : Label → Label → Bool
label_less x y = bytes_lt x.name y.name || (bytes_eq x.name y.name && bytes_lt x.value y.value)

abbrev pub LabelLess : Label → Label → Type 0
LabelLess x y = label_less x y ≡ true

abbrev pub Ascends : LabelSet → Type 0
Ascends set = Pairwise LabelLess set

abbrev pub label_of_pair : Bytes → Bytes → Label
label_of_pair name value = record { name = name; value = value }

module _ (name value : Bytes) where
  -- The place of the label.
  abbrev place : LabelSet → LabelSet
  place [] = label_of_pair name value ∷ []
  place (x ∷ xs) =
      let rest = place xs in
      if not (pair_from name value x)
      then x ∷ rest
      else if is_label name value (some x)
      then x ∷ xs
      else label_of_pair name value ∷ x ∷ xs

  from_less :
      (x y : Label) → pair_from name value x ≡ true → LabelLess x y → pair_from name value y ≡ true
  from_less x y h l = ground (
    arith,
    h,
    l,
    bytes_eq_iff x.name name,
    bytes_eq_iff y.name name,
    bytes_eq_iff x.name y.name,
    bytes_lt_trans name x.name y.name,
    bytes_lt_total name y.name,
    bytes_lt_trans x.name y.name name,
    bytes_lt_irrefl name,
    bytes_lt_trans x.value y.value value,
  )

  All-test_at :
      (xs : LabelSet)
      → All (λ y. pair_from name value y ≡ true) xs
      → (m : ℕ) → m < length xs
      → test_at (pair_from name value) xs m ≡ true
  All-test_at [] a m l = absurd (omega arith)
  All-test_at (x ∷ xs) a zero l = a.0
  All-test_at (x ∷ xs) a (suc m) l = All-test_at xs a.1 m (omega arith)

  All-from_less :
      (x : Label) (ys : LabelSet)
      → pair_from name value x ≡ true
      → All (LabelLess x) ys
      → All (λ y. pair_from name value y ≡ true) ys
  All-from_less x [] h a = tt
  All-from_less x (y ∷ ys) h a = (from_less x y h a.0, All-from_less x ys h a.1)

  pair_from-IsMonotone : (xs : LabelSet) → Ascends xs → IsMonotone (pair_from name value) xs
  pair_from-IsMonotone [] o = tt
  pair_from-IsMonotone (x ∷ xs) o =
      (λ q m l. All-test_at xs (All-from_less x xs q o.0) m l, pair_from-IsMonotone xs o.1)

  abbrev at_prefix : LabelSet → ℕ → LabelSet
  at_prefix set ind =
      if is_label name value (get_elem? set ind)
      then set
      else take ind set ++ label_of_pair name value ∷ drop ind set

  at_prefix-place :
      (xs : LabelSet) → at_prefix xs (prefix_length (pair_from name value) xs) ≡ place xs
  at_prefix-place [] = refl
  at_prefix-place (x ∷ xs) = elim (Bool-cases (pair_from name value x)) [
    | inl q ↦ rw q refl
    | inr q ↦
        elim (Bool-cases
          (is_label name value (get_elem? xs (prefix_length (pair_from name value) xs)))) [
            | inl k ↦
                let r = at_prefix-place xs in let t = (rw k at r) in rw (q, k) (ap (λ t. x ∷ t) t)
            | inr k ↦
                let r = at_prefix-place xs in let t = (rw k at r) in rw (q, k) (ap (λ t. x ∷ t) t)
          ]
  ]

  add_value-place : (set : LabelSet) → Ascends set → add_value set name value ≡ place set
  unfolding add_value
  add_value-place set o =
      ap (at_prefix set)
        (search_index-prefix_length (pair_from name value) set (pair_from-IsMonotone set o))
      ∙ at_prefix-place set

  before_less :
      (x : Label) → pair_from name value x ≡ false → LabelLess x (label_of_pair name value)
  before_less x h = ground (arith, bytes_eq_iff x.name name, bytes_lt_total x.name name)

  after_less :
      (x : Label)
      → pair_from name value x ≡ true
      → is_label name value (some x) ≡ false
      → LabelLess (label_of_pair name value) x
  after_less x h k = ground (
    arith,
    bytes_eq_iff x.name name,
    bytes_eq_iff name x.name,
    bytes_eq_iff x.value value,
    bytes_lt_total name x.name,
    bytes_lt_total value x.value,
  )

  LabelLess-trans : (a b c : Label) → LabelLess a b → LabelLess b c → LabelLess a c
  LabelLess-trans a b c p q = ground (
    arith,
    bytes_lt_trans a.name b.name c.name,
    bytes_lt_trans a.value b.value c.value,
    bytes_eq_iff a.name b.name,
    bytes_eq_iff b.name c.name,
    bytes_eq_iff a.name c.name,
  )

  LabelLess-All :
      (a b : Label) (xs : LabelSet) → LabelLess a b → All (LabelLess b) xs → All (LabelLess a) xs
  LabelLess-All a b [] p q = tt
  LabelLess-All a b (x ∷ xs) p q = (LabelLess-trans a b x p q.0, LabelLess-All a b xs p q.1)

  place-All :
      (P : Label → Type 0) (xs : LabelSet)
      → P (label_of_pair name value)
      → All P xs
      → All P (place xs)
  place-All P [] p a = (p, tt)
  place-All P (x ∷ xs) p a = elim (Bool-cases (pair_from name value x)) [
    | inr q ↦ rw q (a.0, place-All P xs p a.1)
    | inl q ↦ elim (Bool-cases (is_label name value (some x))) [
      | inl k ↦ rw (q, k) a
      | inr k ↦ rw (q, k) (p, a)
    ]
  ]

  place-Ascends : (xs : LabelSet) → Ascends xs → Ascends (place xs)
  place-Ascends [] o = (tt, tt)
  place-Ascends (x ∷ xs) o = elim (Bool-cases (pair_from name value x)) [
    | inr q ↦ rw q (place-All (LabelLess x) xs (before_less x q) o.0, place-Ascends xs o.1)
    | inl q ↦ elim (Bool-cases (is_label name value (some x))) [
      | inl k ↦ rw (q, k) o
      | inr k ↦
          let l = after_less x q k in
          rw (q, k) ((l, LabelLess-All (label_of_pair name value) x xs l o.0), o)
    ]
  ]

-- Whether a set has a label.
abbrev pub has_label : Label → LabelSet → Bool
has_label z [] = false
has_label z (x ∷ xs) = (bytes_eq x.name z.name && bytes_eq x.value z.value) || has_label z xs

place-has_label :
    (name value : Bytes) (z : Label) (xs : LabelSet)
    → has_label z (place name value xs)
      ≡ ((bytes_eq name z.name && bytes_eq value z.value) || has_label z xs)
place-has_label name value z [] = refl
place-has_label name value z (x ∷ xs) = elim (Bool-cases (pair_from name value x)) [
  | inr q ↦ rw q (ground (arith, place-has_label name value z xs))
  | inl q ↦ elim (Bool-cases (is_label name value (some x))) [
    | inl k ↦
        rw (q, k)
          (ground (
            arith,
            k,
            bytes_eq_iff x.name name,
            bytes_eq_iff x.value value,
            bytes_eq_iff name z.name,
            bytes_eq_iff value z.value,
            bytes_eq_iff x.name z.name,
            bytes_eq_iff x.value z.value,
          ))
    | inr k ↦ rw (q, k) refl
  ]
]

-- In a set whose labels ascend by name and value, AddValue keeps them so, and the set then has the
-- label and those that it had, and no other.
pub add_value-Ascends :
    (set : LabelSet) (name value : Bytes)
    → Ascends set
    → Ascends (add_value set name value)
      × ((z : Label)
          → has_label z (add_value set name value)
            ≡ ((bytes_eq name z.name && bytes_eq value z.value) || has_label z set))
add_value-Ascends set name value o =
    let e = add_value-place name value set o in
    (
      rw e (place-Ascends name value set o),
      λ z. ap (has_label z) e ∙ place-has_label name value z set,
    )
