-- ===== src/RecoveryLog/Segment/Placing.antt =====
-- Where SegmentSet.Add of v2/pkg/recoverylog/segment.go begins, and the order that it keeps.
use gazette.Prelude.{
  ℕ, zero, suc, ◌≤◌, ◌<◌, ◌≡◌, inl, inr, refl, sym, ap, true, none, some, [], ◌∷◌, ◌++◌, arith, leb,
  Bool-cases, Option-cases, All, take, drop, length, test_at, get_elem?,
}
use gazette.Go.Search.{prefix_length, IsMonotone, search_index-prefix_length}
use gazette.RecoveryLog.Segment.{Segment, SegmentSet, add_at, starts_from, add, validate}
use gazette.RecoveryLog.Segment.Order.{
  Follows, Follows-trans, IsRange, reduce_segment-earlier, reduce_segment-kept_earlier,
}
use gazette.RecoveryLog.Segment.Loop.{
  IsOrdered, FromSeqNo, joins, apart, clashes, reduce_segment-cases,
}
use gazette.RecoveryLog.Segment.Adding.{All-append, IsSound, insert_at-IsSound}

All-starts_from :
    (n : ℕ) (x : Segment) (xs : SegmentSet)
    → IsRange x
    → leb n x.first_seq_no ≡ true
    → All (Follows x) xs
    → FromSeqNo n xs
All-starts_from n x [] r h a = tt
All-starts_from n x (y ∷ ys) r h a = (ground (arith, a.0.after), All-starts_from n x ys r h a.1)

drop-FromSeqNo :
    (n : ℕ) (xs : SegmentSet)
    → IsOrdered xs
    → FromSeqNo n (drop (prefix_length (starts_from n) xs) xs)
drop-FromSeqNo n [] o = tt
drop-FromSeqNo n (x ∷ xs) o = elim (Bool-cases (leb n x.first_seq_no)) [
  | inl q ↦ rw q (ground (arith, q), All-starts_from n x xs o.0 q o.1)
  | inr q ↦ rw q (drop-FromSeqNo n xs o.2)
]

test_at-FromSeqNo :
    (n : ℕ) (xs : SegmentSet)
    → FromSeqNo n xs
    → (m : ℕ) → m < length xs
    → test_at (starts_from n) xs m ≡ true
test_at-FromSeqNo n [] a m l = absurd (omega arith)
test_at-FromSeqNo n (x ∷ xs) a zero l = ground (arith, a.0)
test_at-FromSeqNo n (x ∷ xs) a (suc m) l = test_at-FromSeqNo n xs a.1 m (omega arith)

starts_from-IsMonotone : (n : ℕ) (xs : SegmentSet) → IsOrdered xs → IsMonotone (starts_from n) xs
starts_from-IsMonotone n [] o = tt
starts_from-IsMonotone n (x ∷ xs) o = (
  λ q m l. test_at-FromSeqNo n xs (All-starts_from n x xs o.0 q o.1) m l,
  starts_from-IsMonotone n xs o.2,
)

-- The segment before the place, all that come before it, and the rest of the set.
record IsBefore (n : ℕ) (set : SegmentSet) (before : ℕ) (x : Segment) : Type 0 where
  at : get_elem? set before ≡ some x
  earlier : x.first_seq_no < n
  range : IsRange x
  preceding : All (λ p. Follows p x) (take before set)
  head : drop before set ≡ x ∷ drop (suc before) set

All-get_elem? {κ} :
    (P : Segment → Type κ) (xs : SegmentSet) (i : ℕ) (y : Segment)
    → All P xs
    → get_elem? xs i ≡ some y
    → P y
All-get_elem? P [] i y a h = cc
All-get_elem? P (x ∷ xs) zero y a h = let e : x ≡ y = cc in rw (sym e) a.0
All-get_elem? P (x ∷ xs) (suc i) y a h = All-get_elem? P xs i y a.1 h

segment_at :
    (n : ℕ) (set : SegmentSet) (before : ℕ)
    → IsOrdered set
    → suc before ≡ prefix_length (starts_from n) set
    → (x : Segment) × IsBefore n set before x
segment_at n [] before o h = absurd (omega arith)
segment_at n (x ∷ xs) zero o h =
    (x, record { at = refl; earlier = ground (arith, h); range = o.0; preceding = tt; head = refl })
segment_at n (x ∷ xs) (suc before) o h =
    let (y, b) = segment_at n xs before o.2 (ground (arith, h)) in
    (
      y,
      record {
        at = b.at;
        earlier = b.earlier;
        range = b.range;
        head = b.head;
        preceding = (All-get_elem? (Follows x) xs before y o.1 b.at, b.preceding);
      },
    )

All-map_to :
    (pre : SegmentSet) (x y : Segment)
    → ((p : Segment) → Follows p x → Follows p y)
    → All (λ p. Follows p x) pre
    → All (λ p. Follows p y) pre
All-map_to [] x y f a = tt
All-map_to (p ∷ pre) x y f a = (f p a.0, All-map_to pre x y f a.1)

take-suc :
    (n : ℕ) (xs : SegmentSet) (x : Segment)
    → get_elem? xs n ≡ some x
    → take (suc n) xs ≡ take n xs ++ x ∷ []
take-suc n [] x h = cc
take-suc zero (y ∷ xs) x h = let e : y ≡ x = cc in ap (λ z. z ∷ []) e
take-suc (suc n) (y ∷ xs) x h = ap (λ t. y ∷ t) (take-suc n xs x h)

All-starts_later : (n : ℕ) (xs : SegmentSet) (m : ℕ) → m ≤ n → FromSeqNo n xs → FromSeqNo m xs
All-starts_later n [] m l a = tt
All-starts_later n (x ∷ xs) m l a = (omega (arith, a.0), All-starts_later n xs m l a.1)

from_place :
    (n begin : ℕ) (set : SegmentSet)
    → IsOrdered set
    → begin ≡ prefix_length (starts_from n) set
    → FromSeqNo n (drop begin set)
from_place n begin set o h = rw h (drop-FromSeqNo n set o)

-- With the reduction of the segment before the place.
reduced-IsSound :
    (set : SegmentSet) (before : ℕ) (x segment : Segment)
    → IsOrdered set
    → IsRange segment
    → IsBefore segment.first_seq_no set before x
    → FromSeqNo segment.first_seq_no (drop (suc before) set)
    → IsSound (add_at set (suc before) segment)
unfolding add_at
reduced-IsSound set before x segment o r b from = elim (reduce_segment-cases x segment) [
  | joins s e ↦
      let (first, rs, f) = reduce_segment-earlier x segment s b.range r b.earlier e in
      rw (add_at, b.at, e)
        (insert_at-IsSound set before s o rs (All-map_to (take before set) x s f b.preceding) (
          rw b.head (
            omega (arith, first),
            All-starts_later segment.first_seq_no (drop (suc before) set) s.first_seq_no
                (omega (arith, first, b.earlier)) from,
          )))
  | apart e ↦
      let f = reduce_segment-kept_earlier x segment b.range r b.earlier e in
      rw (add_at, b.at, e)
        (insert_at-IsSound set (suc before) segment o r
          (rw (take-suc before set x b.at) (
            All-append (λ p. Follows p segment) (take before set) (x ∷ [])
              (All-map_to (take before set) x segment (λ p g. Follows-trans p x segment b.range g f)
                b.preceding)
              (f, tt)))
          from)
  | clashes c e ↦ rw (add_at, b.at, e) tt
]

add_at-IsSound :
    (set : SegmentSet) (begin : ℕ) (segment : Segment)
    → IsOrdered set
    → IsRange segment
    → begin ≡ prefix_length (starts_from segment.first_seq_no) set
    → IsSound (add_at set begin segment)
unfolding add_at
add_at-IsSound set zero segment o r h =
    insert_at-IsSound set zero segment o r tt (from_place segment.first_seq_no 0 set o h)
add_at-IsSound set (suc before) segment o r h =
    let (x, b) = segment_at segment.first_seq_no set before o h in
    reduced-IsSound set before x segment o r b
      (from_place segment.first_seq_no (suc before) set o h)

validate-IsRange : (s : Segment) → validate s ≡ none → IsRange s
unfolding validate
validate-IsRange s h = ground arith

-- Adding a segment to a set in order gives an error or a set in order, and never panics. In order
-- means that each segment has its first sequence number no greater than its last and lies, for its
-- sequence numbers, first offset and last offset, after all earlier ones, where a last offset of
-- zero may only be followed by zeros.
pub add-IsSound : (set : SegmentSet) (segment : Segment) → IsOrdered set → IsSound (add set segment)
unfolding add
add-IsSound set segment o = elim (Option-cases (validate segment)) [
  | inr (e, h) ↦ rw (add, h) tt
  | inl h ↦
      rw (add, h)
        (add_at-IsSound set _ segment o (validate-IsRange segment h) (
          search_index-prefix_length (starts_from segment.first_seq_no) set
            (starts_from-IsMonotone segment.first_seq_no set o)))
]
