-- ===== src/Protocol/Label/Join/Groups.antt =====
-- A step of the join (labelJoin.next of v2/pkg/protocol/label_extensions.go) takes the labels of the
-- least name off both sets.
use gazette.Prelude.{
  ◌+◌, ◌≤◌, ◌<◌, ◌≡◌, ◌⊎◌, inl, inr, refl, sym, ap, none, some, true, false, [], ◌∷◌, ◌++◌, arith,
  Bool-cases, Bytes, bytes_eq, bytes_lt, bytes_eq_iff, bytes_lt_irrefl, bytes_lt_trans,
  bytes_lt_total, All, length,
}
use gazette.Protocol.Label.{Label, LabelSet}
use gazette.Protocol.Label.Split.{IsSorted}
use gazette.Protocol.Label.Join.{Joined, name_group, step_left, step_right, step_both, next}

abbrev pub Later : Bytes → LabelSet → Type 0
Later name xs = All (λ x. bytes_lt name x.name ≡ true) xs

-- The labels of the name come first, and all others are later.
pub record Groups (name : Bytes) (xs group rest : LabelSet) : Type 0 where
  pub whole : xs ≡ group ++ rest
  pub named : All (λ x. bytes_eq x.name name ≡ true) group
  pub later : Later name rest
  pub sorted : IsSorted rest

-- No label of the set comes before the name.
abbrev pub From : Bytes → LabelSet → Type 0
From name xs = All (λ x. bytes_lt x.name name ≡ false) xs

head-Later :
    (name : Bytes) (x : Label) (ys : LabelSet)
    → bytes_lt name x.name ≡ true
    → From x.name ys
    → Later name ys
head-Later name x [] h a = tt
head-Later name x (y ∷ ys) h a = (
  ground (arith, h, a.0, bytes_lt_trans name x.name y.name, bytes_lt_total x.name y.name),
  head-Later name x ys h a.1,
)

Later-From : (name : Bytes) (xs : LabelSet) → Later name xs → From name xs
Later-From name [] a = tt
Later-From name (x ∷ xs) a = (
  ground (arith, a.0, bytes_lt_irrefl name, bytes_lt_trans name x.name name),
  Later-From name xs a.1,
)

pub name_group-Groups :
    (name : Bytes) (xs : LabelSet)
    → IsSorted xs
    → From name xs
    → Groups name xs (name_group name xs).0 (name_group name xs).1
name_group-Groups name [] s f = record { whole = refl; named = tt; later = tt; sorted = tt }
name_group-Groups name (x ∷ xs) s f = elim (Bool-cases (bytes_eq x.name name)) [
  | inl q ↦
      let g = name_group-Groups name xs s.1 f.1 in
      rw q record {
        whole = ap (λ t. x ∷ t) g.whole;
        named = (q, g.named);
        later = g.later;
        sorted = g.sorted;
      }
  | inr q ↦
      let l : bytes_lt name x.name ≡ true =
        ground (arith, f.0, bytes_eq_iff x.name name, bytes_lt_total name x.name) in
      rw q record { whole = refl; named = tt; later = (l, head-Later name x xs l s.0); sorted = s }
]

-- What a step gives: groups of one name, of both sets.
pub record Steps (ls rs : LabelSet) (j : Joined) : Type 0 where
  pub name : Bytes
  pub left : Groups name ls j.cursor.left j.left
  pub right : Groups name rs j.cursor.right j.right
  pub less : length j.left + length j.right < length ls + length rs

-- What comes after a name has no group of it.
empty-Groups : (name : Bytes) (xs : LabelSet) → IsSorted xs → Later name xs → Groups name xs [] xs
empty-Groups name xs s l = record { whole = refl; named = tt; later = l; sorted = s }

head-Groups :
    (x : Label) (xs : LabelSet)
    → IsSorted (x ∷ xs)
    → Groups x.name (x ∷ xs) (x ∷ (name_group x.name xs).0) (name_group x.name xs).1
head-Groups x xs s =
    let g = name_group-Groups x.name xs s.1 s.0 in
    record {
      whole = ap (λ t. x ∷ t) g.whole;
      named = (ground (arith, bytes_eq_iff x.name x.name), g.named);
      later = g.later;
      sorted = g.sorted;
    }

length-name_group : (name : Bytes) (xs : LabelSet) → length (name_group name xs).1 ≤ length xs
length-name_group name [] = omega arith
length-name_group name (x ∷ xs) = ground (arith, length-name_group name xs)

same-Groups :
    (a b : Bytes) (xs group rest : LabelSet)
    → a ≡ b
    → Groups a xs group rest
    → Groups b xs group rest
same-Groups a b xs group rest e g = record {
  whole = g.whole;
  named = (rw e at g.named);
  later = (rw e at g.later);
  sorted = g.sorted;
}

step_left-Steps :
    (x : Label) (xs rs : LabelSet)
    → IsSorted (x ∷ xs)
    → IsSorted rs
    → Later x.name rs
    → Steps (x ∷ xs) rs (step_left x xs rs)
step_left-Steps x xs rs s t l = record {
  name = x.name;
  left = head-Groups x xs s;
  right = empty-Groups x.name rs t l;
  less = omega (arith, length-name_group x.name xs);
}

step_right-Steps :
    (y : Label) (ys ls : LabelSet)
    → IsSorted (y ∷ ys)
    → IsSorted ls
    → Later y.name ls
    → Steps ls (y ∷ ys) (step_right y ys ls)
step_right-Steps y ys ls s t l = record {
  name = y.name;
  left = empty-Groups y.name ls t l;
  right = head-Groups y ys s;
  less = omega (arith, length-name_group y.name ys);
}

pub next-Steps :
    (ls rs : LabelSet)
    → IsSorted ls
    → IsSorted rs
    → ((ls ≡ []) × (rs ≡ []) × (next ls rs ≡ none))
      ⊎ ((j : Joined) × (next ls rs ≡ some j) × Steps ls rs j)
unfolding next
next-Steps [] [] s t = inl (refl, refl, refl)
next-Steps [] (y ∷ ys) s t = inr (step_right y ys [], refl, step_right-Steps y ys [] t s tt)
next-Steps (x ∷ xs) [] s t = inr (step_left x xs [], refl, step_left-Steps x xs [] s t tt)
next-Steps (x ∷ xs) (y ∷ ys) s t = elim (Bool-cases (bytes_eq x.name y.name)) [
  | inl q ↦
      let e = (bytes_eq_iff x.name y.name).0 q in
      inr (
        step_both x xs y ys,
        rw q refl,
        record {
          name = x.name;
          left = head-Groups x xs s;
          right = same-Groups y.name x.name (y ∷ ys) _ _ (sym e) (head-Groups y ys t);
          less = omega (arith, length-name_group x.name xs, length-name_group y.name ys);
        },
      )
  | inr q ↦ elim (Bool-cases (bytes_lt x.name y.name)) [
    | inl h ↦ inr (
      step_left x xs (y ∷ ys),
      rw (q, h) refl,
      step_left-Steps x xs (y ∷ ys) s t (h, head-Later x.name y ys h t.0),
    )
    | inr h ↦
        let l : bytes_lt y.name x.name ≡ true =
          ground (arith, bytes_eq_iff x.name y.name, bytes_lt_total x.name y.name) in
        inr (
          step_right y ys (x ∷ xs),
          rw (q, h) refl,
          step_right-Steps y ys (x ∷ xs) t s (l, head-Later y.name x xs l s.0),
        )
  ]
]
