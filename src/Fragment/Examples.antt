-- ===== src/Fragment/Examples.antt =====
-- The theorems on fragments at concrete sets, and runs of the operations.
use gazette.Prelude.{
  ℕ, ◌≡◌, refl, true, false, ◌||◌, Option, none, some, [], ◌∷◌, arith, Bytes, bytes_eq,
}
use gazette.Go.Search.{search_index}
use gazette.Protocol.Fragment.{Fragment, zero_sum, codec_none, is_empty}
use gazette.Fragment.Types.{LocalFragment}
use gazette.Fragment.CoverSet.{
  CoverSet, add, cover_set_difference, not_covered, longest_overlapping_fragment,
}
use gazette.Fragment.CoverSet.Order.{IsCover, covered}
use gazette.Fragment.CoverSet.Invariant.{add-IsCover, add-covered, add_breaks_order}
use gazette.Fragment.CoverSet.Longest.{Found, longest_overlapping_fragment-Found}
use gazette.Fragment.CoverSet.Difference.{Uncovered, cover_set_difference-Uncovered}
use gazette.Fragment.Index.{Index, ReadRequest, query, woken, replace_remote}
use gazette.Fragment.Index.Query.{Settles, query-Settles}
use gazette.Fragment.Index.Refresh.{replace_remote-covers}

abbrev frag : ℕ → ℕ → LocalFragment
frag b e = record {
  proto = record {
    journal = 97 ∷ [];
    begin = b;
    end = e;
    sum = zero_sum;
    compression_codec = codec_none;
    backing_store = [];
    mod_time = 0;
  };
  file = none;
}

abbrev stored : CoverSet
stored = frag 0 10 ∷ frag 5 20 ∷ frag 30 40 ∷ []

-- A run of the slow path: the fragment replaces the one within it.
abbrev filled : CoverSet
filled = frag 0 10 ∷ frag 5 30 ∷ frag 30 40 ∷ []

add_runs : add stored (frag 5 30) ≡ some (filled, true)
unfolding add is_empty search_index bytes_eq
add_runs = refl

difference_runs : cover_set_difference stored (frag 0 7 ∷ frag 7 25 ∷ []) ≡ frag 30 40 ∷ []
unfolding cover_set_difference not_covered longest_overlapping_fragment search_index
difference_runs = refl

stored-IsCover : IsCover stored
stored-IsCover = omega arith

add-IsCover_example : IsCover filled
add-IsCover_example =
    add-IsCover stored (frag 5 30) stored-IsCover (omega arith) (λ h. omega arith) add_runs

add-covered_example : covered 25 filled ≡ true
add-covered_example = add-covered stored (frag 5 30) stored-IsCover (omega arith) add_runs 25

-- Two small fragments, and a larger one that another store lists after them.
abbrev misplaced : CoverSet
misplaced = frag 10 20 ∷ frag 5 40 ∷ []

misplaced_runs : add (frag 10 20 ∷ frag 20 30 ∷ []) (frag 5 40) ≡ some (misplaced, true)
unfolding add is_empty search_index bytes_eq
misplaced_runs = refl

add_breaks_order_example : ¬ IsCover misplaced
add_breaks_order_example =
    add_breaks_order (frag 10 20) (frag 20 30 ∷ []) (frag 5 40) (omega arith) (omega arith)
      (λ fits. omega (arith, fits (omega arith))) misplaced_runs

longest_example : Found stored 7 1 true
unfolding longest_overlapping_fragment search_index
longest_example = longest_overlapping_fragment-Found stored 7 stored-IsCover

cover_set_difference_example : Uncovered (frag 0 7 ∷ frag 7 25 ∷ []) stored (frag 30 40 ∷ [])
unfolding cover_set_difference not_covered longest_overlapping_fragment search_index
cover_set_difference_example =
    cover_set_difference-Uncovered stored (frag 0 7 ∷ frag 7 25 ∷ []) stored-IsCover (omega arith)

abbrev no_sign : Fragment → Bytes × Option Bytes
no_sign f = ([], none)

abbrev fresh : Index
fresh = record { set = stored; local = stored; wakes = 0; refreshed = false }

-- A read in the gap waits, and the next update serves it.
abbrev gap_read : ReadRequest
gap_read = record { offset = some 25; block = true }

query_example :
    Settles 25 true
      (woken stored 50 ∷ woken filled 60 ∷ [])
      (query no_sign fresh 50 gap_read (woken filled 60 ∷ []))
query_example =
    query-Settles no_sign fresh 50 gap_read (woken filled 60 ∷ []) stored-IsCover (omega arith)

replace_remote_example :
    (fi' : Index) × (replace_remote fresh (frag 0 20 ∷ []) ≡ some fi')
    × IsCover fi'.set
    × IsCover fi'.local
    × ((o : ℕ) → covered o fi'.set ≡ (covered o (frag 0 20 ∷ []) || covered o stored))
replace_remote_example =
    replace_remote-covers (97 ∷ []) fresh (frag 0 20 ∷ []) (refl, tt) (refl, (refl, (refl, tt)))
      (omega arith) stored-IsCover
      (unfold cover_set_difference not_covered longest_overlapping_fragment search_index in
        omega arith)
