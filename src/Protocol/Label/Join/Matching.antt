-- ===== src/Protocol/Label/Join/Matching.antt =====
-- What a selector matches (LabelSelector.Matches of v2/pkg/protocol/label_extensions.go).
use gazette.Prelude.{
  ◌+◌, ◌≡◌, refl, ap, ◌∙◌, Bool, true, false, ◌||◌, ◌&&◌, [], ◌∷◌, arith, Bytes, bytes_eq, bytes_lt,
  bytes_eq_iff, bytes_lt_irrefl, bytes_lt_trans, All, length, Pairwise,
}
use gazette.Protocol.Label.{Label, LabelSet}
use gazette.Protocol.Label.Split.{IsSorted}
use gazette.Protocol.Label.Join.{Cursor, cursor_matched}
use gazette.Protocol.Label.Join.Groups.{Later, Groups}
use gazette.Protocol.Label.Join.Algebra.{Named}
use gazette.Protocol.Label.Join.Values.{
  any, All-map, any-same, any-none, any-append, fits, ValueLe, values_matched-any,
}
use gazette.Protocol.Validator.Accepts.{Precedes}

-- The set has a label of the name, of the value or, if that is empty, of any.
abbrev pub meets : Label → Label → Bool
meets x y = bytes_eq y.name x.name && fits x y

abbrev pub has_match : LabelSet → Label → Bool
has_match set x = any (meets x) set

abbrev pub IsOrdered : LabelSet → Type 0
IsOrdered set = Pairwise Precedes set

NameLe-All :
    (x : Label) (xs : LabelSet) → All (Precedes x) xs → All (λ y. bytes_lt y.name x.name ≡ false) xs
NameLe-All x xs a =
    All-map xs
      (λ y h. ground (
        arith,
        h,
        bytes_lt_irrefl x.name,
        bytes_lt_trans x.name y.name x.name,
        bytes_eq_iff x.name y.name,
      ))
      a

pub IsOrdered-IsSorted : (xs : LabelSet) → IsOrdered xs → IsSorted xs
IsOrdered-IsSorted [] o = tt
IsOrdered-IsSorted (x ∷ xs) o = (NameLe-All x xs o.0, IsOrdered-IsSorted xs o.1)

-- The values of one name ascend.
Precedes-ValueLe :
    (name : Bytes) (x y : Label)
    → bytes_eq x.name name ≡ true
    → bytes_eq y.name name ≡ true
    → Precedes x y
    → ValueLe x y
Precedes-ValueLe name x y h k p = ground (
  arith,
  h,
  k,
  p,
  bytes_eq_iff x.name name,
  bytes_eq_iff y.name name,
  bytes_lt_irrefl name,
  bytes_lt_irrefl x.value,
  bytes_lt_trans x.value y.value x.value,
)

Named-ValueLe :
    (name : Bytes) (x : Label) (xs : LabelSet)
    → bytes_eq x.name name ≡ true
    → Named name xs
    → All (Precedes x) xs
    → All (ValueLe x) xs
Named-ValueLe name x [] h n a = tt
Named-ValueLe name x (y ∷ ys) h n a =
    (Precedes-ValueLe name x y h n.0 a.0, Named-ValueLe name x ys h n.1 a.1)

group-ValueLe : (name : Bytes) (xs : LabelSet) → Named name xs → IsOrdered xs → Pairwise ValueLe xs
group-ValueLe name [] n o = tt
group-ValueLe name (x ∷ xs) n o =
    (Named-ValueLe name x xs n.0 n.1 o.0, group-ValueLe name xs n.1 o.1)

-- A label of the name has a match exactly in the set's group of it, and one of a later name in the
-- rest.
meets-named :
    (name : Bytes) (x y : Label)
    → bytes_eq x.name name ≡ true
    → bytes_eq y.name name ≡ true
    → meets x y ≡ fits x y
meets-named name x y h k =
    ground
      (arith, h, k, bytes_eq_iff x.name name, bytes_eq_iff y.name name, bytes_eq_iff y.name x.name)

meets-later :
    (name : Bytes) (x y : Label)
    → bytes_eq x.name name ≡ true
    → bytes_lt name y.name ≡ true
    → meets x y ≡ false
meets-later name x y h k =
    ground (arith, h, k, bytes_eq_iff x.name name, bytes_eq_iff y.name x.name, bytes_lt_irrefl name)

later-meets :
    (name : Bytes) (x y : Label)
    → bytes_lt name x.name ≡ true
    → bytes_eq y.name name ≡ true
    → meets x y ≡ false
later-meets name x y h k =
    ground (arith, h, k, bytes_eq_iff y.name name, bytes_eq_iff y.name x.name, bytes_lt_irrefl name)

pub or_false : (b : Bool) → (b || false) ≡ b
or_false true = refl
or_false false = refl

named-has_match :
    (name : Bytes) (x : Label) (set group rest : LabelSet)
    → bytes_eq x.name name ≡ true
    → Groups name set group rest
    → has_match set x ≡ any (fits x) group
named-has_match name x set group rest h g =
    ap (any (meets x)) g.whole
    ∙ any-append (meets x) group rest
    ∙ ap (λ t. any (meets x) group || t)
        (any-none (meets x) rest (All-map rest (λ y k. meets-later name x y h k) g.later))
    ∙ or_false (any (meets x) group)
    ∙ any-same (meets x) (fits x) group (All-map group (λ y k. meets-named name x y h k) g.named)

pub later-has_match :
    (name : Bytes) (x : Label) (set group rest : LabelSet)
    → bytes_lt name x.name ≡ true
    → Groups name set group rest
    → has_match set x ≡ has_match rest x
later-has_match name x set group rest h g =
    ap (any (meets x)) g.whole
    ∙ any-append (meets x) group rest
    ∙ ap (λ t. t || any (meets x) rest)
        (any-none (meets x) group (All-map group (λ y k. later-meets name x y h k) g.named))

pub cursor_matched-any :
    (name : Bytes) (c : Cursor)
    → Named name c.left
    → Named name c.right
    → IsOrdered c.left
    → IsOrdered c.right
    → cursor_matched c ≡ any (λ x. any (fits x) c.right) c.left
unfolding cursor_matched
cursor_matched-any name c n m o p =
    values_matched-any (length c.left + length c.right) c.left c.right (omega arith)
      (group-ValueLe name c.left n o) (group-ValueLe name c.right m p)

-- The matches of a group of the selector, and of the selector's other labels.
pub group-has_match :
    (name : Bytes) (set group rest a : LabelSet)
    → Named name a
    → Groups name set group rest
    → any (has_match set) a ≡ any (λ x. any (fits x) group) a
group-has_match name set group rest a n g =
    any-same (has_match set) (λ x. any (fits x) group) a
      (All-map a (λ x h. named-has_match name x set group rest h g) n)

pub rest-has_match :
    (name : Bytes) (set group rest a : LabelSet)
    → Later name a
    → Groups name set group rest
    → any (has_match set) a ≡ any (has_match rest) a
rest-has_match name set group rest a n g =
    any-same (has_match set) (has_match rest) a
      (All-map a (λ x h. later-has_match name x set group rest h g) n)
