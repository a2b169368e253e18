-- ===== src/RecoveryLog/Segment.antt =====
-- Segments and segment sets of v2/pkg/recoverylog/segment.go. Sequence numbers and offsets are
-- `int64`s below the largest one; Validate rejects what is negative.
pub mod Order
pub mod Loop
pub mod Adding
pub mod Placing
pub mod Overlap
use gazette.Prelude.{
  ℕ, zero, suc, ◌+◌, Bool, true, false, ◌&&◌, ◌||◌, not, Option, none, some, List, [], ◌∷◌, ◌++◌,
  ltb, leb, ◌==◌, if◌then◌else◌, length, take, drop, test_at, get_elem?,
}
use gazette.Go.Search.{search_index}

pub record Segment : Type 0 where
  pub author : ℕ
  pub first_seq_no : ℕ
  pub first_offset : ℕ
  pub first_checksum : ℕ
  pub last_seq_no : ℕ
  pub last_offset : ℕ

pub data Error : Type 0 where
  author_is_zero first_seq_no_not_positive first_offset_negative last_before_first : Error
  last_offset_not_after_first : Error
  first_offset_order preceding_last_offset last_offset_order checksum_mismatch : Error
  author_mismatch : Error

unfoldable pub validate : Segment → Option Error
validate s =
    if s.author == 0
    then some author_is_zero
    else if leb s.first_seq_no 0
    then some first_seq_no_not_positive
    else if ltb s.first_offset 0
    then some first_offset_negative
    else if ltb s.last_seq_no s.first_seq_no
    then some last_before_first
    else if not (s.last_offset == 0) && leb s.last_offset s.first_offset
    then some last_offset_not_after_first
    else none

abbrev pub non_zero_and_less : ℕ → ℕ → Bool
non_zero_and_less a b = not (a == 0) && ltb a b

-- The result of reduceSegment; `unreachable` is its panic.
pub data Reduction : Type 0 where
  reduced : Segment → Reduction
  not_reducible : Reduction
  inconsistent : Error → Reduction
  unreachable : Reduction

-- The last case of the switch, where `a` and `b` overlap or touch and have one author.
abbrev pub merge : Segment → Segment → Segment
merge a b =
    let fo =
      if a.first_seq_no == b.first_seq_no && ltb a.first_offset b.first_offset
      then b.first_offset
      else a.first_offset in
    let lo =
      if a.last_seq_no == b.last_seq_no && a.last_offset == 0
      then b.last_offset
      else a.last_offset in
    let grows = ltb a.last_seq_no b.last_seq_no in
    record a {
      first_offset = fo;
      last_seq_no = if grows then b.last_seq_no else a.last_seq_no;
      last_offset = if grows then b.last_offset else lo;
    }

-- The switch, on segments put in order.
unfoldable pub reduce_ordered : Segment → Segment → Reduction
reduce_ordered a b =
    let starts_before = ltb a.first_seq_no b.first_seq_no in
    if starts_before && ltb b.first_offset a.first_offset
    then inconsistent first_offset_order
    else if starts_before && a.last_offset == 0 && not (b.last_offset == 0)
    then inconsistent preceding_last_offset
    else if leb a.last_seq_no b.last_seq_no && non_zero_and_less b.last_offset a.last_offset
    then inconsistent last_offset_order
    else if leb b.last_seq_no a.last_seq_no && non_zero_and_less a.last_offset b.last_offset
    then inconsistent last_offset_order
    else if a.first_seq_no == b.first_seq_no && not (a.first_checksum == b.first_checksum)
    then inconsistent checksum_mismatch
    else if ltb (a.last_seq_no + 1) b.first_seq_no
    then not_reducible
    else if a.last_seq_no + 1 == b.first_seq_no && not (a.author == b.author)
    then not_reducible
    else if not (a.author == b.author)
    then inconsistent author_mismatch
    else if leb a.first_seq_no b.first_seq_no
    then reduced (merge a b)
    else unreachable

-- Does `b` come first, or cover `a` from the same start?
abbrev pub out_of_order : Segment → Segment → Bool
out_of_order a b =
    ltb b.first_seq_no a.first_seq_no
    || (a.first_seq_no == b.first_seq_no && ltb a.last_seq_no b.last_seq_no)

unfoldable pub reduce_segment : Segment → Segment → Reduction
unfolding reduce_ordered
reduce_segment a b = if out_of_order a b then reduce_ordered b a else reduce_ordered a b

abbrev pub SegmentSet : Type 0
SegmentSet = List Segment

-- A set, an error that leaves the set as it was, or a panic.
pub data Result {ℓ} (A : Type ℓ) : Type ℓ where
  ok : A → Result A
  err : Error → Result A
  panics : Result A

-- The loop of Add, on the segments from `end` on: the reduction, and the index that it stops at.
unfoldable pub reduce_following : Segment → SegmentSet → ℕ → Result (Segment × ℕ)
reduce_following segment [] end = ok (segment, end)
reduce_following segment (x ∷ xs) end = elim (reduce_segment x segment) [
  | reduced s ↦ reduce_following s xs (suc end)
  | not_reducible ↦ ok (segment, end)
  | inconsistent e ↦ err e
  | unreachable ↦ panics
]

-- The splice at [begin, end).
abbrev pub splice_from : SegmentSet → ℕ → Result (Segment × ℕ) → Result SegmentSet
splice_from set begin (err e) = err e
splice_from set begin panics = panics
splice_from set begin (ok (segment, end)) = ok (take begin set ++ segment ∷ drop end set)

unfoldable pub insert_at : SegmentSet → ℕ → Segment → Result SegmentSet
unfolding reduce_following
insert_at set begin segment =
    splice_from set begin (reduce_following segment (drop begin set) begin)

-- The reduction with the segment before `begin`, if there is one.
unfoldable pub add_at : SegmentSet → ℕ → Segment → Result SegmentSet
unfolding insert_at
add_at set zero segment = insert_at set zero segment
add_at set (suc before) segment = elim (get_elem? set before) [
  | none ↦ panics
  | some x ↦ elim (reduce_segment x segment) [
    | reduced s ↦ insert_at set before s
    | not_reducible ↦ insert_at set (suc before) segment
    | inconsistent e ↦ err e
    | unreachable ↦ panics
  ]
]

abbrev pub starts_from : ℕ → Segment → Bool
starts_from n x = leb n x.first_seq_no

unfoldable pub add : SegmentSet → Segment → Result SegmentSet
unfolding add_at
add set segment = elim (validate segment) [
  | some e ↦ err e
  | none ↦
      add_at set (search_index (length set) (test_at (starts_from segment.first_seq_no) set))
        segment
]

-- Intersect: a segment that may reach past an offset, the walk back from `j`, and s[i:j].
abbrev pub reaches_past : ℕ → Segment → Bool
reaches_past first_offset x = x.last_offset == 0 || ltb first_offset x.last_offset

unfoldable pub walk_back : SegmentSet → ℕ → ℕ → ℕ
walk_back set first_offset zero = zero
walk_back set first_offset (suc i) =
    let rest = walk_back set first_offset i in
    if test_at (reaches_past first_offset) set i then rest else suc i

abbrev pub begins_from : ℕ → Segment → Bool
begins_from offset x = leb offset x.first_offset

unfoldable pub intersect : SegmentSet → ℕ → ℕ → Option SegmentSet
unfolding walk_back
intersect set first_offset last_offset =
    let j = search_index (length set) (test_at (begins_from last_offset) set) in
    let i = walk_back set first_offset j in
    if ltb last_offset first_offset then none else some (drop i (take j set))
