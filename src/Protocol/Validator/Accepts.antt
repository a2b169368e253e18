-- ===== src/Protocol/Validator/Accepts.antt =====
-- What v2/pkg/protocol accepts as a token, a label and a label set (validator.go and
-- label_extensions.go).
use gazette.Prelude.{
  ℕ, suc, ◌≤◌, ◌≡◌, ◌↔◌, inl, inr, refl, ap, arith, Bool, true, false, ◌||◌, ◌&&◌, not, Option,
  none, some, [], ◌∷◌, ◌==◌, if◌then◌else◌, Bytes, bytes_eq, bytes_lt, bytes_eq_iff, bytes_lt_trans,
  length, All, Bool-cases, Option-cases, Pairwise,
}
use gazette.Protocol.Label.{Label, LabelSet}
use gazette.Protocol.Validator.{
  token_alphabet, trim_left, trim_right, validate_token, validate_label, order_fault, validate_from,
  validate_labels,
}

abbrev pub InAlphabet : Bytes → Type 0
InAlphabet n = All (λ c. token_alphabet c ≡ true) n

trim_right-InAlphabet : (n : Bytes) → InAlphabet n → trim_right token_alphabet n ≡ []
trim_right-InAlphabet [] a = refl
trim_right-InAlphabet (c ∷ cs) a = rw (trim_right-InAlphabet cs a.1, a.0) refl

trim_left-InAlphabet : (n : Bytes) → InAlphabet n → trim_left token_alphabet n ≡ []
trim_left-InAlphabet [] a = refl
trim_left-InAlphabet (c ∷ cs) a = rw a.0 (trim_left-InAlphabet cs a.1)

-- What Trim leaves of text that does not begin within the alphabet is not empty.
trim_right-head :
    (c : ℕ) (cs : Bytes)
    → token_alphabet c ≡ false
    → (length (trim_right token_alphabet (c ∷ cs)) == 0) ≡ false
trim_right-head c cs h = by_rest (trim_right token_alphabet cs)
  where
    by_rest :
        (r : Bytes)
        → (length (elim r [ [] ↦ if token_alphabet c then [] else c ∷ [] | d ∷ ds ↦ c ∷ d ∷ ds ])
            == 0)
          ≡ false
    by_rest [] = rw h refl
    by_rest (d ∷ ds) = ground arith

trimmed-InAlphabet :
    (n : Bytes)
    → (length (trim_right token_alphabet (trim_left token_alphabet n)) == 0) ≡ true
    → InAlphabet n
trimmed-InAlphabet [] h = tt
trimmed-InAlphabet (c ∷ cs) h = elim (Bool-cases (token_alphabet c)) [
  | inl q ↦ (q, trimmed-InAlphabet cs (rw q at h))
  | inr q ↦ absurd (ground (arith, trim_right-head c cs q, (rw q at h)))
]

-- ValidateToken accepts exactly the texts of a length within the bounds whose characters are all of
-- the alphabet.
pub validate_token_lem :
    (n : Bytes) (min max : ℕ)
    → (validate_token n min max ≡ none) ↔ ((min ≤ length n) × (length n ≤ max) × InAlphabet n)
unfolding validate_token
validate_token_lem n min max = (accepts, accepted)
  where
    accepts : validate_token n min max ≡ none → (min ≤ length n) × (length n ≤ max) × InAlphabet n
    accepts h =
        elim (Bool-cases (length (trim_right token_alphabet (trim_left token_alphabet n)) == 0)) [
          | inl q ↦ (ground arith, ground arith, trimmed-InAlphabet n q)
          | inr q ↦ absurd (ground arith)
        ]

    accepted : (min ≤ length n) × (length n ≤ max) × InAlphabet n → validate_token n min max ≡ none
    accepted (l, u, a) =
        let t : trim_right token_alphabet (trim_left token_alphabet n) ≡ [] =
          ap (trim_right token_alphabet) (trim_left-InAlphabet n a) in
        rw t (ground arith)

-- A name of 2 to 64 characters, and a value of at most 1024.
abbrev pub IsLabel : Label → Type 0
IsLabel x =
    ((2 ≤ length x.name) × (length x.name ≤ 64) × InAlphabet x.name)
    × ((0 ≤ length x.value) × (length x.value ≤ 1024) × InAlphabet x.value)

validate_label-IsLabel : (x : Label) → (validate_label x ≡ none) ↔ IsLabel x
unfolding validate_label
validate_label-IsLabel x = (
  λ h. elim (Option-cases (validate_token x.name 2 64)) [
    | inr (e, q) ↦ absurd (ground arith)
    | inl q ↦ elim (Option-cases (validate_token x.value 0 1024)) [
      | inr (e, k) ↦ absurd (ground arith)
      | inl k ↦ ((validate_token_lem x.name 2 64).0 q, (validate_token_lem x.value 0 1024).0 k)
    ]
  ],
  λ (a, b).
      rw
        (
          validate_label,
          (validate_token_lem x.name 2 64).1 a,
          (validate_token_lem x.value 0 1024).1 b,
        )
        refl,
)

-- A label may come before another: of a lesser name, or of the same name and a lesser value, not
-- empty.
abbrev pub precedes : Label → Label → Bool
precedes w x =
    bytes_lt w.name x.name
    || (bytes_eq w.name x.name && bytes_lt w.value x.value && not (bytes_eq w.value []))

abbrev pub Precedes : Label → Label → Type 0
Precedes w x = precedes w x ≡ true

Precedes-trans : (a b c : Label) → Precedes a b → Precedes b c → Precedes a c
Precedes-trans a b c p q = ground (
  arith,
  bytes_lt_trans a.name b.name c.name,
  bytes_lt_trans a.value b.value c.value,
  bytes_eq_iff a.name b.name,
  bytes_eq_iff b.name c.name,
  bytes_eq_iff a.name c.name,
)

order_fault-Precedes : (w x : Label) → (order_fault (some w) x ≡ none) ↔ Precedes w x
order_fault-Precedes w x = ground arith

Precedes-All :
    (w x : Label) (xs : LabelSet) → Precedes w x → All (Precedes x) xs → All (Precedes w) xs
Precedes-All w x [] p a = tt
Precedes-All w x (y ∷ ys) p a = (Precedes-trans w x y p a.0, Precedes-All w x ys p a.1)

abbrev BeforeAll : Option Label → LabelSet → Type 0
BeforeAll none xs = Unit
BeforeAll (some w) xs = All (Precedes w) xs

abbrev Follows : Option Label → LabelSet → Type 0
Follows before xs = All IsLabel xs × Pairwise Precedes xs × BeforeAll before xs

order_fault-BeforeAll :
    (before : Option Label) (x : Label) (xs : LabelSet)
    → order_fault before x ≡ none
    → All (Precedes x) xs
    → BeforeAll before (x ∷ xs)
order_fault-BeforeAll none x xs h a = tt
order_fault-BeforeAll (some w) x xs h a =
    let p = (order_fault-Precedes w x).0 h in (p, Precedes-All w x xs p a)

BeforeAll-order_fault :
    (before : Option Label) (x : Label) (xs : LabelSet)
    → BeforeAll before (x ∷ xs)
    → order_fault before x ≡ none
BeforeAll-order_fault none x xs a = refl
BeforeAll-order_fault (some w) x xs a = (order_fault-Precedes w x).1 a.0

validate_from-Follows :
    (i : ℕ) (before : Option Label) (xs : LabelSet)
    → validate_from i before xs ≡ none
    → Follows before xs
unfolding validate_from
validate_from-Follows i none [] h = (tt, tt, tt)
validate_from-Follows i (some w) [] h = (tt, tt, tt)
validate_from-Follows i before (x ∷ xs) h = elim (Option-cases (validate_label x)) [
  | inr (e, q) ↦ absurd (ground arith)
  | inl q ↦ elim (Option-cases (order_fault before x)) [
    | inr (e, k) ↦ absurd (ground arith)
    | inl k ↦
        let (v, p, b) = validate_from-Follows (suc i) (some x) xs (rw (validate_from, q, k) at h) in
        (((validate_label-IsLabel x).0 q, v), (b, p), order_fault-BeforeAll before x xs k b)
  ]
]

Follows-validate_from :
    (i : ℕ) (before : Option Label) (xs : LabelSet)
    → Follows before xs
    → validate_from i before xs ≡ none
unfolding validate_from
Follows-validate_from i before [] f = refl
Follows-validate_from i before (x ∷ xs) (v, p, b) =
    rw (validate_from, (validate_label-IsLabel x).1 v.0, BeforeAll-order_fault before x xs b)
      (Follows-validate_from (suc i) (some x) xs (v.1, p.1, p.0))

abbrev pub IsValid : LabelSet → Type 0
IsValid set = All IsLabel set × Pairwise Precedes set

-- LabelSet.Validate accepts exactly the sets of labels with names of 2 to 64 and values of at most
-- 1024 characters of the alphabet, in which each label comes before all later ones by name and then
-- by value, and no empty value is beside another of its name.
pub validate_labels-IsValid : (set : LabelSet) → (validate_labels set ≡ none) ↔ IsValid set
unfolding validate_labels
validate_labels-IsValid set = (
  λ h. let (v, p, b) = validate_from-Follows 0 none set h in (v, p),
  λ (v, p). Follows-validate_from 0 none set (v, p, tt),
)
