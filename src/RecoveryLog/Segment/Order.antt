-- ===== src/RecoveryLog/Segment/Order.antt =====
-- The order that a SegmentSet of v2/pkg/recoverylog/segment.go documents, and what a reduction of
-- two segments does to it.
use gazette.Prelude.{
  ◌≤◌, ◌<◌, ◌≡◌, ◌≢◌, ◌⊎◌, inl, inr, true, false, not, ◌&&◌, arith, ltb, leb, ◌==◌, Bool-cases,
}
use gazette.RecoveryLog.Segment.{
  Segment, reduced, not_reducible, reduce_ordered, reduce_segment, out_of_order, merge,
  non_zero_and_less,
}

-- `y` begins after all of `x`, at no lesser offsets; a last offset of zero stands for none.
pub record Follows (x y : Segment) : Type 0 where
  pub after : x.last_seq_no < y.first_seq_no
  pub first_offsets : x.first_offset ≤ y.first_offset
  pub last_offsets : (y.last_offset ≡ 0) ⊎ ((x.last_offset ≢ 0) × (x.last_offset ≤ y.last_offset))

abbrev pub IsRange : Segment → Type 0
IsRange x = x.first_seq_no ≤ x.last_seq_no

pub Follows-trans : (x y z : Segment) → IsRange y → Follows x y → Follows y z → Follows x z
Follows-trans x y z r f g = record {
  after = omega (arith, f.after, g.after, r);
  first_offsets = omega (arith, f.first_offsets, g.first_offsets);
  last_offsets = ground (arith, f.last_offsets, g.last_offsets);
}

-- What a reduction of `a` and the later `b` is made of.
reduce_ordered-reduced :
    (a b s : Segment)
    → reduce_ordered a b ≡ reduced s
    → (s ≡ merge a b)
      × (leb a.first_seq_no b.first_seq_no ≡ true)
      × ((ltb a.first_seq_no b.first_seq_no && ltb b.first_offset a.first_offset) ≡ false)
      × ((ltb a.first_seq_no b.first_seq_no && a.last_offset == 0 && not (b.last_offset == 0))
          ≡ false)
      × ((leb a.last_seq_no b.last_seq_no && non_zero_and_less b.last_offset a.last_offset) ≡ false)
unfolding reduce_ordered
reduce_ordered-reduced a b s h = ground arith

reduce_ordered-kept :
    (a b : Segment)
    → reduce_ordered a b ≡ not_reducible
    → IsRange a
    → IsRange b
    → leb a.first_seq_no b.first_seq_no ≡ true
    → Follows a b
unfolding reduce_ordered
reduce_ordered-kept a b h ra rb q = record {
  after = ground arith;
  first_offsets = ground arith;
  last_offsets = ground arith;
}

merge-IsRange : (a b : Segment) → IsRange a → IsRange b → IsRange (merge a b)
merge-IsRange a b h k = ground arith

-- What comes before both comes before the merged, and so does what comes before an earlier `a`.
merge-after :
    (p a b : Segment)
    → ((ltb a.first_seq_no b.first_seq_no && a.last_offset == 0 && not (b.last_offset == 0))
        ≡ false)
    → ((leb a.last_seq_no b.last_seq_no && non_zero_and_less b.last_offset a.last_offset) ≡ false)
    → leb a.first_seq_no b.first_seq_no ≡ true
    → out_of_order a b ≡ false
    → Follows p a
    → Follows p b
    → Follows p (merge a b)
merge-after p a b q r o w f g = record {
  after = ground (arith, f.after);
  first_offsets = ground (arith, f.first_offsets);
  last_offsets = ground (arith, f.last_offsets, g.last_offsets);
}

merge-after_first :
    (p a b : Segment)
    → a.first_seq_no < b.first_seq_no
    → ((ltb a.first_seq_no b.first_seq_no && a.last_offset == 0 && not (b.last_offset == 0))
        ≡ false)
    → ((leb a.last_seq_no b.last_seq_no && non_zero_and_less b.last_offset a.last_offset) ≡ false)
    → Follows p a
    → Follows p (merge a b)
merge-after_first p a b o q r f = record {
  after = ground (arith, f.after);
  first_offsets = ground (arith, f.first_offsets);
  last_offsets = ground (arith, f.last_offsets);
}

swapped : (a b : Segment) → out_of_order a b ≡ true → out_of_order b a ≡ false
swapped a b h = ground arith

begins_once :
    (x cur : Segment)
    → IsRange x
    → cur.first_seq_no ≤ x.first_seq_no
    → out_of_order x cur ≡ false
    → ¬ Follows x cur
begins_once x cur r le q f = ground (arith, f.after)

-- A reduction with a segment that begins no earlier.
pub reduce_segment-later :
    (x cur s : Segment)
    → IsRange x
    → IsRange cur
    → cur.first_seq_no ≤ x.first_seq_no
    → reduce_segment x cur ≡ reduced s
    → (s.first_seq_no ≡ cur.first_seq_no)
      × IsRange s
      × ((p : Segment) → Follows p cur → Follows p x → Follows p s)
unfolding reduce_segment
reduce_segment-later x cur s rx rc le h = elim (Bool-cases (out_of_order x cur)) [
  | inl q ↦
      let (e, o, a, b, c) = reduce_ordered-reduced cur x s (ground (arith, h, q)) in
      rw e (
        ground (arith, o),
        merge-IsRange cur x rc rx,
        λ p f g. merge-after p cur x b c o (swapped x cur q) f g,
      )
  | inr q ↦
      let (e, o, a, b, c) = reduce_ordered-reduced x cur s (ground (arith, h, q)) in
      rw e
        (ground (arith, o, q), merge-IsRange x cur rx rc, λ p f g. merge-after p x cur b c o q g f)
]

pub reduce_segment-earlier :
    (x cur s : Segment)
    → IsRange x
    → IsRange cur
    → x.first_seq_no < cur.first_seq_no
    → reduce_segment x cur ≡ reduced s
    → (s.first_seq_no ≡ x.first_seq_no) × IsRange s × ((p : Segment) → Follows p x → Follows p s)
unfolding reduce_segment
reduce_segment-earlier x cur s rx rc lt h =
    let (e, o, a, b, c) = reduce_ordered-reduced x cur s (ground (arith, h)) in
    rw e (ground arith, merge-IsRange x cur rx rc, λ p f. merge-after_first p x cur lt b c f)

pub reduce_segment-kept_later :
    (x cur : Segment)
    → IsRange x
    → IsRange cur
    → cur.first_seq_no ≤ x.first_seq_no
    → reduce_segment x cur ≡ not_reducible
    → Follows cur x
unfolding reduce_segment
reduce_segment-kept_later x cur rx rc le h = elim (Bool-cases (out_of_order x cur)) [
  | inl q ↦ reduce_ordered-kept cur x (ground (arith, h, q)) rc rx (ground arith)
  | inr q ↦ absurd (
      begins_once x cur rx le q
        (reduce_ordered-kept x cur (ground (arith, h, q)) rx rc (ground arith)))
]

pub reduce_segment-kept_earlier :
    (x cur : Segment)
    → IsRange x
    → IsRange cur
    → x.first_seq_no < cur.first_seq_no
    → reduce_segment x cur ≡ not_reducible
    → Follows x cur
unfolding reduce_segment
reduce_segment-kept_earlier x cur rx rc lt h =
    reduce_ordered-kept x cur (ground (arith, h)) rx rc (ground arith)
