-- ===== src/Fragment/CoverSet.antt =====
-- CoverSet of v2/pkg/fragment/cover_set.go: the operations. A set is the slice of its fragments; the
-- slice that an operation returns replaces the caller's, and its backing array is not modelled.
pub mod Order
pub mod Insert
pub mod Adding
pub mod Invariant
pub mod Longest
pub mod Difference
use gazette.Prelude.{
  ℕ, zero, suc, ◌+◌, Bool, true, false, ◌&&◌, ◌||◌, not, Option, none, some, List, [], ◌∷◌, ◌++◌,
  arith, ltb, leb, ◌==◌, if◌then◌else◌, Bytes, bytes_eq, length, take, drop, last, init, test_at,
  get_elem?,
}
use gazette.Go.Search.{search_index}
use gazette.Protocol.Fragment.{Fragment, is_empty}
use gazette.Fragment.Types.{LocalFragment}

abbrev pub CoverSet : Type 0
CoverSet = List LocalFragment

pub begin_offset : CoverSet → ℕ
begin_offset [] = 0
begin_offset (x ∷ xs) = x.begin

unfoldable pub end_offset : CoverSet → ℕ
end_offset [] = 0
end_offset (x ∷ xs) = (last x xs).end

-- The test of the searches: `s[i].End > offset`.
abbrev pub ends_after : ℕ → LocalFragment → Bool
ends_after offset x = ltb offset x.end

-- Does `x` fully cover `f` without being equal to it?
abbrev pub covers_more : LocalFragment → LocalFragment → Bool
covers_more x f =
    (leb x.begin f.begin && ltb f.end x.end) || (ltb x.begin f.begin && leb f.end x.end)

-- The loop over `rBegin`, on the fragments from it on: none where one of them covers `f`.
find_begin : LocalFragment → CoverSet → ℕ → Option ℕ
find_begin f [] r = some r
find_begin f (x ∷ xs) r =
    let rest = find_begin f xs (suc r) in
    if covers_more x f then none else if leb f.begin x.begin then some r else rest

-- The loop over `rEnd`, likewise.
find_end : LocalFragment → CoverSet → ℕ → ℕ
find_end f [] r = r
find_end f (x ∷ xs) r = let rest = find_end f xs (suc r) in if leb x.end f.end then rest else r

-- The slow path: replace s[rBegin:rEnd] by `f`.
splice : CoverSet → LocalFragment → Option ℕ → CoverSet × Bool
splice s f none = (s, false)
splice s f (some b) = (take b s ++ f ∷ drop (find_end f (drop b s) b) s, true)

pub slow_path : CoverSet → LocalFragment → CoverSet × Bool
unfolding find_begin find_end splice
slow_path s f =
    let b = search_index (length s) (test_at (ends_after f.begin) s) in
    splice s f (find_begin f (drop b s) b)

-- The fast path where the last fragment ends before `f` does, else the slow path.
pub add_nonempty : CoverSet → LocalFragment → CoverSet × Bool
unfolding slow_path
add_nonempty [] f = (f ∷ [], true)
add_nonempty (x ∷ xs) f =
    let slow = slow_path (x ∷ xs) f in
    if ltb (last x xs).end f.end
    then (if leb f.begin (last x xs).begin
        then (init x xs ++ f ∷ [], true)
        else ((x ∷ xs) ++ f ∷ [], true))
    else slow

abbrev same_journal : CoverSet → LocalFragment → Bool
same_journal [] f = true
same_journal (x ∷ xs) f = bytes_eq f.journal x.journal

-- Add; none is the panic on a fragment of another journal.
unfoldable pub add : CoverSet → LocalFragment → Option (CoverSet × Bool)
unfolding add_nonempty
add s f =
    if not (same_journal s f)
    then none
    else if is_empty f.proto
    then some (s, false)
    else some (add_nonempty s f)

-- The test `s[i].Begin <= offset`.
abbrev pub begins_by : ℕ → LocalFragment → Bool
begins_by offset x = leb x.begin offset

-- The loop that skips forward, on the fragments after `ind`.
pub skip_forward : ℕ → CoverSet → ℕ → ℕ
skip_forward offset [] ind = ind
skip_forward offset (x ∷ xs) ind =
    let next = skip_forward offset xs (suc ind) in if begins_by offset x then next else ind

-- LongestOverlappingFragment: the index, and whether the offset is covered there.
unfoldable pub longest_overlapping_fragment : CoverSet → ℕ → ℕ × Bool
unfolding skip_forward
longest_overlapping_fragment s offset =
    let ind = search_index (length s) (test_at (ends_after offset) s) in
    (skip_forward offset (drop (suc ind) s) ind, test_at (begins_by offset) s ind)

-- The loop over `ind` in CoverSetDifference, on the fragments after b[ind]: the fragment where the
-- span contiguous with it ends, or reaches the end of `x`.
pub contiguous : LocalFragment → LocalFragment → CoverSet → LocalFragment
contiguous x y [] = y
contiguous x y (z ∷ zs) =
    let next = contiguous x z zs in if ltb y.end x.end && leb z.begin y.end then next else y

-- The condition under which `x` goes to the output, on `b` from the index found.
unfoldable pub not_covered : LocalFragment → CoverSet → Bool
unfolding contiguous
not_covered x [] = true
not_covered x (y ∷ ys) = ltb x.begin y.begin || ltb (contiguous x y ys).end x.end

unfoldable pub cover_set_difference : CoverSet → CoverSet → CoverSet
cover_set_difference [] b = []
cover_set_difference (x ∷ xs) b =
    let b' = drop (longest_overlapping_fragment b x.begin).0 b in
    let rest = cover_set_difference xs b' in if not_covered x b' then x ∷ rest else rest
