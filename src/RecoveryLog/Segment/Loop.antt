-- ===== src/RecoveryLog/Segment/Loop.antt =====
-- The loop of SegmentSet.Add (v2/pkg/recoverylog/segment.go) over the segments that follow.
use gazette.Prelude.{
  ℕ, suc, ◌+◌, ◌≤◌, ◌≡◌, ◌≢◌, inl, inr, refl, true, [], ◌∷◌, arith, leb, Bool-cases, All, drop,
}
use gazette.RecoveryLog.Segment.{
  Segment, SegmentSet, Error, Reduction, reduced, not_reducible, inconsistent, unreachable,
  reduce_ordered, reduce_segment, out_of_order, Result, ok, err, panics, reduce_following,
}
use gazette.RecoveryLog.Segment.Order.{
  Follows, Follows-trans, IsRange, reduce_segment-later, reduce_segment-kept_later,
}

-- Each segment follows all the earlier ones.
abbrev pub IsOrdered : SegmentSet → Type 0
IsOrdered [] = Unit
IsOrdered (x ∷ xs) = IsRange x × All (Follows x) xs × IsOrdered xs

abbrev pub FromSeqNo : ℕ → SegmentSet → Type 0
FromSeqNo n xs = All (λ x. n ≤ x.first_seq_no) xs

reduce_ordered-total :
    (a b : Segment) → leb a.first_seq_no b.first_seq_no ≡ true → reduce_ordered a b ≢ unreachable
unfolding reduce_ordered
reduce_ordered-total a b h k = ground arith

-- The switch of reduceSegment never reaches its panic.
pub reduce_segment-total : (a b : Segment) → reduce_segment a b ≢ unreachable
unfolding reduce_segment
reduce_segment-total a b h = elim (Bool-cases (out_of_order a b)) [
  | inl q ↦ reduce_ordered-total b a (ground arith) (ground (arith, h, q))
  | inr q ↦ reduce_ordered-total a b (ground arith) (ground (arith, h, q))
]

pub data Reduces (x cur : Segment) : Type 0 where
  joins : (s : Segment) → reduce_segment x cur ≡ reduced s → Reduces x cur
  apart : reduce_segment x cur ≡ not_reducible → Reduces x cur
  clashes : (e : Error) → reduce_segment x cur ≡ inconsistent e → Reduces x cur

pub reduce_segment-cases : (x cur : Segment) → Reduces x cur
reduce_segment-cases x cur = go (reduce_segment x cur) refl
  where
    go : (r : Reduction) → reduce_segment x cur ≡ r → Reduces x cur
    go (reduced s) h = joins s h
    go not_reducible h = apart h
    go (inconsistent e) h = clashes e h
    go unreachable h = absurd (reduce_segment-total x cur h)

-- Where the loop ends: past `k` segments, at one that all others follow; what came before them all
-- comes before it.
pub record IsPlaced (cur : Segment) (xs : SegmentSet) (end : ℕ) (c : Segment) (stop : ℕ)
    : Type 0 where
  pub passed : ℕ
  pub stops : stop ≡ passed + end
  pub range : IsRange c
  pub following : All (Follows c) (drop passed xs)
  pub preceding : (p : Segment) → Follows p cur → All (Follows p) xs → Follows p c

abbrev pub IsReached : Segment → SegmentSet → ℕ → Result (Segment × ℕ) → Type 0
IsReached cur xs end (ok (c, stop)) = IsPlaced cur xs end c stop
IsReached cur xs end (err e) = Unit
IsReached cur xs end panics = ⊥

All-Follows :
    (x y : Segment) (ys : SegmentSet)
    → IsRange y
    → Follows x y
    → All (Follows y) ys
    → All (Follows x) ys
All-Follows x y [] r f a = tt
All-Follows x y (z ∷ zs) r f a = (Follows-trans x y z r f a.0, All-Follows x y zs r f a.1)

onward :
    (cur s x : Segment) (xs : SegmentSet) (end : ℕ) (r : Result (Segment × ℕ))
    → ((p : Segment) → Follows p cur → Follows p x → Follows p s)
    → IsReached s xs (suc end) r
    → IsReached cur (x ∷ xs) end r
onward cur s x xs end (ok (c, stop)) f h = record {
  passed = suc h.passed;
  stops = omega (arith, h.stops);
  range = h.range;
  following = h.following;
  preceding = λ p g a. h.preceding p (f p g a.0) a.1;
}
onward cur s x xs end (err e) f h = tt
onward cur s x xs end panics f h = h

pub reduce_following-IsReached :
    (cur : Segment) (xs : SegmentSet) (end : ℕ)
    → IsRange cur
    → IsOrdered xs
    → FromSeqNo cur.first_seq_no xs
    → IsReached cur xs end (reduce_following cur xs end)
unfolding reduce_following
reduce_following-IsReached cur [] end r o a = record {
  passed = 0;
  stops = omega arith;
  range = r;
  following = tt;
  preceding = λ p f g. f;
}
reduce_following-IsReached cur (x ∷ xs) end r o a = elim (reduce_segment-cases x cur) [
  | joins s h ↦
      let (e, rs, f) = reduce_segment-later x cur s o.0 r a.0 h in
      rw (reduce_following, h)
        (onward cur s x xs end (reduce_following s xs (suc end)) f
          (reduce_following-IsReached s xs (suc end) rs o.2 (rw e a.1)))
  | apart h ↦
      let f = reduce_segment-kept_later x cur o.0 r a.0 h in
      rw (reduce_following, h)
        (record {
          passed = 0;
          stops = omega arith;
          range = r;
          following = (f, All-Follows cur x xs o.0 f o.1);
          preceding = λ p g b. g;
        })
  | clashes e h ↦ rw (reduce_following, h) tt
]
