-- ===== src/Fragment/Index/Query.antt =====
-- What Query (v2/pkg/fragment/index.go) answers, whatever the index becomes while it waits.
use mathlib.Core.Path.{subst}
use gazette.Prelude.{
  sym, ◌∙◌, ltb, if◌then◌else◌, ◌⊎◌, ℕ, zero, suc, ◌+◌, ◌≤◌, ◌<◌, ◌≡◌, refl, Bool, true, false,
  Option, none, some, List, [], ◌∷◌, arith, Bytes, Bool-cases, Option-cases, inl, inr, All, take,
  drop, get_elem?,
}
use gazette.Protocol.Fragment.{Fragment}
use gazette.Fragment.Types.{LocalFragment}
use gazette.Fragment.CoverSet.{CoverSet, end_offset}
use gazette.Fragment.CoverSet.Order.{IsCover, spans, covered}
use gazette.Fragment.CoverSet.Longest.{
  Found, at_element, between, longest_overlapping_fragment-Found,
}
use gazette.Fragment.Index.{
  Index, ReadRequest, ReadResponse, ok, offset_not_yet_available, Pass, respond, stall,
  out_of_range, query_pass, at_index, offset_jump_age_threshold, Wake, woken, cancelled, Outcome,
  returned, failed, waiting, panicked, query, query_loop, serve, unavailable, start_offset, is_old,
}

-- An element that was stored long enough ago is served in place of the offset before it.
abbrev pub IsOld : ℕ → LocalFragment → Type 0
IsOld now x = (0 < x.mod_time) × (x.mod_time + offset_jump_age_threshold < now)

-- The first element that begins after the offset.
unfoldable pub next_after : ℕ → CoverSet → Option LocalFragment
next_after o [] = none
next_after o (x ∷ xs) = if ltb o x.begin then some x else next_after o xs

-- There is no element to jump to.
abbrev pub Lands : ℕ → Option LocalFragment → Type 0
Lands now none = Unit
Lands now (some x) = (x.mod_time ≡ 0) ⊎ (now ≤ x.mod_time + offset_jump_age_threshold)

-- The answer that a pass over `set` at time `now` may give for an offset.
pub data Answers (set : CoverSet) (now offset : ℕ) (block : Bool) : Pass → Type 0 where
  serves :
      {r : ReadResponse} {file : Option ℕ} {e : Option Bytes} (i : ℕ) (x : LocalFragment)
      → get_elem? set i ≡ some x
      → r.status ≡ ok
      → r.fragment ≡ some x.proto
      → r.write_head ≡ end_offset set
      → file ≡ x.file
      → r.offset ≡ offset
      → spans offset x ≡ true
      → All (λ y. spans offset y ≡ true → y.end ≤ x.end) set
      → Answers set now offset block (respond r file e)
  jumps :
      {r : ReadResponse} {file : Option ℕ} {e : Option Bytes} (x : LocalFragment)
      → r.status ≡ ok
      → r.fragment ≡ some x.proto
      → r.write_head ≡ end_offset set
      → file ≡ x.file
      → r.offset ≡ x.begin
      → next_after offset set ≡ some x
      → IsOld now x
      → covered offset set ≡ false
      → Answers set now offset block (respond r file e)
  misses :
      {r : ReadResponse}
      → block ≡ false
      → r.status ≡ offset_not_yet_available
      → r.offset ≡ offset
      → r.write_head ≡ end_offset set
      → covered offset set ≡ false
      → Lands now (next_after offset set)
      → Answers set now offset block (respond r none none)
  stalls :
      block ≡ true
      → covered offset set ≡ false
      → Lands now (next_after offset set)
      → Answers set now offset block (stall offset)

ended_covered :
    (o i : ℕ) (s : CoverSet)
    → All (λ y. y.end ≤ o) (take i s)
    → All (λ y. o < y.begin) (drop i s)
    → covered o s ≡ false
ended_covered o i [] a b = refl
ended_covered o zero (x ∷ xs) a (p, b) = ground (arith, ended_covered o zero xs tt b)
ended_covered o (suc i) (x ∷ xs) (p, a) b = ground (arith, ended_covered o i xs a b)

-- Where the elements before an index end by the offset, the next one is at the index.
next_after-index :
    (o i : ℕ) (s : CoverSet)
    → IsCover s
    → All (λ y. y.end ≤ o) (take i s)
    → All (λ y. o < y.begin) (drop i s)
    → next_after o s ≡ get_elem? s i
unfolding next_after
next_after-index o i [] c a b = refl
next_after-index o zero (x ∷ xs) c a (p, b) = ground arith
next_after-index o (suc i) (x ∷ xs) (n, l, c) (p, a) b =
    ground (arith, n, next_after-index o i xs c a b)

-- How a query comes to its outcome: it passes over what it sees until one pass answers.
pub data Settles (offset : ℕ) (block : Bool) : List Wake → Outcome → Type 0 where
  still_waiting : Settles offset block [] (waiting offset)
  is_cancelled :
      {rest : List Wake} (e : Bytes) → Settles offset block (cancelled e ∷ rest) (failed e)
  answers :
      {set : CoverSet} {now : ℕ} {rest : List Wake} {r : ReadResponse} {file : Option ℕ}
      {e : Option Bytes}
      → Answers set now offset block (respond r file e)
      → Settles offset block (woken set now ∷ rest) (returned r file e)
  resumes :
      {set : CoverSet} {now : ℕ} {rest : List Wake} {out : Outcome}
      → block ≡ true
      → covered offset set ≡ false
      → Lands now (next_after offset set)
      → Settles offset block rest out
      → Settles offset block (woken set now ∷ rest) out

abbrev pub SeesOrder : Wake → Type 0
SeesOrder (woken set now) = IsCover set
SeesOrder (cancelled e) = Unit

module _ (sign_get_url : Fragment → Bytes × Option Bytes) where
  unavailable-Answers :
      (set : CoverSet) (now offset : ℕ) (block : Bool)
      → covered offset set ≡ false
      → Lands now (next_after offset set)
      → Answers set now offset block (unavailable sign_get_url set offset block)
  unfolding unavailable
  unavailable-Answers set now offset true c l = stalls refl c l
  unavailable-Answers set now offset false c l = misses refl refl refl refl c l

  is_old-Lands : (now : ℕ) (x : LocalFragment) → is_old now x ≡ false → Lands now (some x)
  is_old-Lands now x h = ground arith

  at_index-Answers :
      (set : CoverSet) (now offset i : ℕ) (block found : Bool)
      → IsCover set
      → Found set offset i found
      → Answers set now offset block
          (at_index sign_get_url set now offset block found (get_elem? set i))
  unfolding at_index
  at_index-Answers set now offset i block true c (at_element x e sp a) =
      rw e (unfold serve in serves i x e refl refl refl refl refl sp a)
  at_index-Answers set now offset i block false c (between a b) =
      let gap = ended_covered offset i set a b in
      let next = next_after-index offset i set c a b in
      elim (Option-cases (get_elem? set i)) [
        | inl e ↦
            rw e
              (unavailable-Answers set now offset block gap (subst (Lands now) (sym (next ∙ e)) tt))
        | inr (x, e) ↦ rw e (elim (Bool-cases (is_old now x)) [
          | inl old ↦ rw old (
              unfold serve in
              jumps x refl refl refl refl refl (next ∙ e) (ground arith, ground arith) gap)
          | inr new ↦ rw new (
              unavailable-Answers set now offset block gap
                (subst (Lands now) (sym (next ∙ e)) (is_old-Lands now x new)))
        ])
      ]

  query_pass-Answers :
      (set : CoverSet) (now offset : ℕ) (block : Bool)
      → IsCover set
      → Answers set now offset block (query_pass sign_get_url set now offset block)
  unfolding query_pass
  query_pass-Answers set now offset block c =
      at_index-Answers set now offset _ block _ c (longest_overlapping_fragment-Found set offset c)

  resume :
      (set : CoverSet) (now offset : ℕ) (block : Bool) (rest : List Wake) (p : Pass)
      → Answers set now offset block p
      → Settles offset block rest (query_loop sign_get_url offset block rest)
      → Settles offset block (woken set now ∷ rest) (elim p [
        | respond r file e ↦ returned r file e
        | stall offset' ↦ query_loop sign_get_url offset' block rest
        | out_of_range ↦ panicked
      ])
  resume set now offset block rest p (serves i x m a b c d e f g) s =
      answers (serves i x m a b c d e f g)
  resume set now offset block rest p (jumps x a b c d e f g h) s = answers (jumps x a b c d e f g h)
  resume set now offset block rest p (misses a b c d e f) s = answers (misses a b c d e f)
  resume set now offset block rest p (stalls a b c) s = resumes a b c s

  query_loop-Settles :
      (offset : ℕ) (block : Bool) (wakes : List Wake)
      → All SeesOrder wakes
      → Settles offset block wakes (query_loop sign_get_url offset block wakes)
  unfolding query_loop
  query_loop-Settles offset block [] a = still_waiting
  query_loop-Settles offset block (cancelled e ∷ rest) a = is_cancelled e
  query_loop-Settles offset block (woken set now ∷ rest) (c, a) =
      resume set now offset block rest _ (query_pass-Answers set now offset block c)
        (query_loop-Settles offset block rest a)

  -- While the sets it sees are ordered, a query serves the element of the set that covers the offset
  -- and has the greatest end. Where none covers it, and the first element that begins after the
  -- offset is old, it serves that one from its begin; where that one is not old or there is none, it
  -- reports the offset as not available or, if it may block, waits for the next update or
  -- cancellation. It never indexes out of range.
  pub query-Settles :
      (fi : Index) (now : ℕ) (req : ReadRequest) (wakes : List Wake)
      → IsCover fi.set
      → All SeesOrder wakes
      → Settles
          (start_offset fi req)
          req.block
          (woken fi.set now ∷ wakes)
          (query sign_get_url fi now req wakes)
  unfolding query
  query-Settles fi now req wakes c a =
      query_loop-Settles (start_offset fi req) req.block (woken fi.set now ∷ wakes) (c, a)
