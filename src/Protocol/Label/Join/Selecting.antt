-- ===== src/Protocol/Label/Join/Selecting.antt =====
-- The loop of matchSelector (v2/pkg/protocol/label_extensions.go) over the join of two label sets.
use gazette.Prelude.{
  ℕ, zero, suc, ◌+◌, ◌≤◌, ◌≡◌, inl, inr, refl, sym, ap, ◌∙◌, Bool, true, false, not, ◌||◌, ◌&&◌,
  List, [], ◌∷◌, ◌++◌, arith, Bool-cases, Bytes, bytes_eq, bytes_lt, bytes_eq_iff, bytes_lt_irrefl,
  length, Pairwise-append_left, Pairwise-append_right,
}
use gazette.Protocol.Label.{Label, LabelSet}
use gazette.Protocol.Label.Join.{
  Cursor, cursors, all_cursors, cursor_matched, values_matched, match_cursors, match_selector,
  LabelSelector, matches,
}
use gazette.Protocol.Label.Join.Groups.{Groups, next-Steps}
use gazette.Protocol.Label.Join.Values.{
  any, all, All-map, any-same, all-same, any-none, any-append, all-append,
}
use gazette.Protocol.Label.Join.Matching.{
  has_match, IsOrdered, IsOrdered-IsSorted, or_false, cursor_matched-any, group-has_match,
  rest-has_match, later-has_match,
}
use gazette.Protocol.Validator.Accepts.{Precedes}

values_matched-none : (fuel : ℕ) (b : LabelSet) → values_matched fuel [] b ≡ false
unfolding values_matched
values_matched-none zero b = refl
values_matched-none (suc fuel) b = refl

-- Whether a cursor with labels of the selector is matched, in both uses of the loop.
match_any :
    (a b : LabelSet) (cs : List Cursor)
    → match_cursors false (record { left = a; right = b } ∷ cs)
      ≡ (cursor_matched (record { left = a; right = b }) || match_cursors false cs)
unfolding match_cursors cursor_matched
match_any [] b cs =
    sym (ap (λ t. t || match_cursors false cs) (values_matched-none (0 + length b) b))
match_any (x ∷ xs) b cs = elim (Bool-cases (cursor_matched (record { left = x ∷ xs; right = b }))) [
  | inl h ↦ rw (match_cursors, h) refl
  | inr h ↦ rw (match_cursors, h) refl
]

all_same_test : (m : Bool) (x : Label) (xs : LabelSet) → all (λ y. m) (x ∷ xs) ≡ m
all_same_test false x xs = refl
all_same_test true x [] = refl
all_same_test true x (y ∷ ys) = all_same_test true y ys

match_all :
    (a b : LabelSet) (cs : List Cursor)
    → match_cursors true (record { left = a; right = b } ∷ cs)
      ≡ (all (λ x. cursor_matched (record { left = a; right = b })) a && match_cursors true cs)
unfolding match_cursors cursor_matched
match_all [] b cs = refl
match_all (x ∷ xs) b cs =
    let m = cursor_matched (record { left = x ∷ xs; right = b }) in
    let one : match_cursors true (record { left = x ∷ xs; right = b } ∷ cs)
        ≡ (m && match_cursors true cs) =
      elim (Bool-cases m) [
        | inl h ↦ rw (match_cursors, h) refl
        | inr h ↦ rw (match_cursors, h) refl
      ] in
    one ∙ sym (ap (λ t. t && match_cursors true cs) (all_same_test m x xs))

left-IsOrdered :
    (xs group rest : LabelSet)
    → xs ≡ group ++ rest
    → IsOrdered xs
    → IsOrdered group × IsOrdered rest
left-IsOrdered xs group rest e o =
    let o' : IsOrdered (group ++ rest) = (rw e at o) in
    (Pairwise-append_left Precedes group rest o', Pairwise-append_right Precedes group rest o')

pub match_excluded :
    (fuel : ℕ) (ls rs : LabelSet)
    → length ls + length rs ≤ fuel
    → IsOrdered ls
    → IsOrdered rs
    → match_cursors false (cursors fuel ls rs) ≡ any (has_match rs) ls
unfolding cursors match_cursors
match_excluded zero [] rs n o p = refl
match_excluded zero (x ∷ xs) rs n o p = absurd (omega arith)
match_excluded (suc fuel) ls rs n o p =
    elim (next-Steps ls rs (IsOrdered-IsSorted ls o) (IsOrdered-IsSorted rs p)) [
      | inl (e, f, h) ↦ rw (cursors, h, e) refl
      | inr (d, h, st) ↦
          let a = d.cursor.left in
          let b = d.cursor.right in
          let lo = left-IsOrdered ls a d.left st.left.whole o in
          let ro = left-IsOrdered rs b d.right st.right.whole p in
          let step : match_cursors false (cursors (suc fuel) ls rs)
              ≡ match_cursors false (d.cursor ∷ cursors fuel d.left d.right) =
            rw (cursors, h) refl in
          step
          ∙ match_any a b (cursors fuel d.left d.right)
          ∙ ap (λ t. t || match_cursors false (cursors fuel d.left d.right))
              (cursor_matched-any st.name d.cursor st.left.named st.right.named lo.0 ro.0
                ∙ sym (group-has_match st.name rs b d.right a st.left.named st.right))
          ∙ ap (λ t. any (has_match rs) a || t)
              (match_excluded fuel d.left d.right (omega (arith, n, st.less)) lo.1 ro.1
                ∙ sym (rest-has_match st.name rs b d.right d.left st.left.later st.right))
          ∙ sym (any-append (has_match rs) a d.left)
          ∙ ap (any (has_match rs)) (sym st.left.whole)
    ]

-- A label of the selector's name has a match.
abbrev pub name_met : LabelSet → LabelSet → Label → Bool
name_met sel set x = any (λ z. bytes_eq z.name x.name && has_match set z) sel

own_met :
    (name : Bytes) (x z : Label) (m : Bool)
    → bytes_eq x.name name ≡ true
    → bytes_eq z.name name ≡ true
    → (bytes_eq z.name x.name && m) ≡ m
own_met name x z m h k =
    ground
      (arith, h, k, bytes_eq_iff x.name name, bytes_eq_iff z.name name, bytes_eq_iff z.name x.name)

later_met :
    (name : Bytes) (x z : Label) (m : Bool)
    → bytes_eq x.name name ≡ true
    → bytes_lt name z.name ≡ true
    → (bytes_eq z.name x.name && m) ≡ false
later_met name x z m h k =
    ground (arith, h, k, bytes_eq_iff x.name name, bytes_eq_iff z.name x.name, bytes_lt_irrefl name)

earlier_met :
    (name : Bytes) (x z : Label) (m : Bool)
    → bytes_lt name x.name ≡ true
    → bytes_eq z.name name ≡ true
    → (bytes_eq z.name x.name && m) ≡ false
earlier_met name x z m h k =
    ground (arith, h, k, bytes_eq_iff z.name name, bytes_eq_iff z.name x.name, bytes_lt_irrefl name)

group-name_met :
    (name : Bytes) (sel set a rest : LabelSet) (x : Label)
    → Groups name sel a rest
    → bytes_eq x.name name ≡ true
    → name_met sel set x ≡ any (has_match set) a
group-name_met name sel set a rest x g h =
    let p : Label → Bool = λ z. bytes_eq z.name x.name && has_match set z in
    ap (any p) g.whole
    ∙ any-append p a rest
    ∙ ap (λ t. any p a || t)
        (any-none p rest (All-map rest (λ z k. later_met name x z (has_match set z) h k) g.later))
    ∙ or_false (any p a)
    ∙ any-same p (has_match set) a
        (All-map a (λ z k. own_met name x z (has_match set z) h k) g.named)

rest-name_met :
    (name : Bytes) (sel set a rest b set' : LabelSet) (x : Label)
    → Groups name sel a rest
    → Groups name set b set'
    → bytes_lt name x.name ≡ true
    → name_met sel set x ≡ name_met rest set' x
rest-name_met name sel set a rest b set' x g k h =
    let p : Label → Bool = λ z. bytes_eq z.name x.name && has_match set z in
    let q : Label → Bool = λ z. bytes_eq z.name x.name && has_match set' z in
    ap (any p) g.whole
    ∙ any-append p a rest
    ∙ ap (λ t. t || any p rest)
        (any-none p a (All-map a (λ z l. earlier_met name x z (has_match set z) h l) g.named))
    ∙ any-same p q rest (
        All-map rest
          (λ z l. ap (λ t. bytes_eq z.name x.name && t) (later-has_match name z set b set' l k))
          g.later)

pub match_included :
    (fuel : ℕ) (ls rs : LabelSet)
    → length ls + length rs ≤ fuel
    → IsOrdered ls
    → IsOrdered rs
    → match_cursors true (cursors fuel ls rs) ≡ all (name_met ls rs) ls
unfolding cursors match_cursors
match_included zero [] rs n o p = refl
match_included zero (x ∷ xs) rs n o p = absurd (omega arith)
match_included (suc fuel) ls rs n o p =
    elim (next-Steps ls rs (IsOrdered-IsSorted ls o) (IsOrdered-IsSorted rs p)) [
      | inl (e, f, h) ↦ rw (cursors, h, e) refl
      | inr (d, h, st) ↦
          let a = d.cursor.left in
          let b = d.cursor.right in
          let lo = left-IsOrdered ls a d.left st.left.whole o in
          let ro = left-IsOrdered rs b d.right st.right.whole p in
          let m : cursor_matched d.cursor ≡ any (has_match rs) a =
            cursor_matched-any st.name d.cursor st.left.named st.right.named lo.0 ro.0
            ∙ sym (group-has_match st.name rs b d.right a st.left.named st.right) in
          let step : match_cursors true (cursors (suc fuel) ls rs)
              ≡ match_cursors true (d.cursor ∷ cursors fuel d.left d.right) =
            rw (cursors, h) refl in
          step
          ∙ match_all a b (cursors fuel d.left d.right)
          ∙ ap (λ t. t && match_cursors true (cursors fuel d.left d.right))
              (all-same (λ x. cursor_matched d.cursor) (name_met ls rs) a
                (All-map a (λ x k. m ∙ sym (group-name_met st.name ls rs a d.left x st.left k))
                  st.left.named))
          ∙ ap (λ t. all (name_met ls rs) a && t)
              (match_included fuel d.left d.right (omega (arith, n, st.less)) lo.1 ro.1
                ∙ sym (
                    all-same (name_met ls rs) (name_met d.left d.right) d.left (
                      All-map d.left
                        (λ x k. rest-name_met st.name ls rs a d.left b d.right x st.left st.right k)
                        st.left.later)))
          ∙ sym (all-append (name_met ls rs) a d.left)
          ∙ ap (all (name_met ls rs)) (sym st.left.whole)
    ]

-- Where the selector's sets and the label set are in the order that validation asks for, Matches is
-- that no label excluded has a match in the set, and that for each label included, one of its name
-- has. A label matches one of its name and value or, if its value is empty, of its name.
pub matches-has_match :
    (m : LabelSelector) (s : LabelSet)
    → IsOrdered m.include
    → IsOrdered m.exclude
    → IsOrdered s
    → matches m s ≡ (not (any (has_match s) m.exclude) && all (name_met m.include s) m.include)
unfolding matches match_selector all_cursors
matches-has_match m s i e o =
    let x = match_excluded (length m.exclude + length s) m.exclude s (omega arith) e o in
    let n = match_included (length m.include + length s) m.include s (omega arith) i o in
    ground (arith, x, n)
