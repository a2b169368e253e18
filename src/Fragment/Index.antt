-- ===== src/Fragment/Index.antt =====
-- Index of v2/pkg/fragment/index.go. A method runs under the index's lock, so it is one step on its
-- state; a wait in Query gives the lock up, and goes on with whatever the index then is.
pub mod Refresh
pub mod Query
use gazette.Prelude.{
  ℕ, zero, suc, ◌+◌, Bool, true, false, ◌&&◌, ◌||◌, not, Option, none, some, List, [], ◌∷◌, ltb,
  leb, ◌==◌, if◌then◌else◌, Bytes, bytes_eq, get_elem?, length,
}
use gazette.Protocol.Fragment.{Fragment}
use gazette.Fragment.Types.{LocalFragment}
use gazette.Fragment.CoverSet.{
  CoverSet, add, end_offset, cover_set_difference, longest_overlapping_fragment,
}

pub record Index : Type 0 where
  pub set : CoverSet
  pub local : CoverSet
  pub wakes : ℕ  -- how often condCh was closed and made anew
  pub refreshed : Bool  -- whether firstRefreshCh is closed

unfoldable pub new_index : Index
new_index = record { set = []; local = []; wakes = 0; refreshed = false }

abbrev wake_blocked_queries : Index → Index
wake_blocked_queries fi = record fi { wakes = suc fi.wakes }

-- A panic is none.
unfoldable pub spool_commit : Index → LocalFragment → Option Index
spool_commit fi frag = elim (add fi.set frag) [
  | none ↦ none
  | some (set', _) ↦ elim (add fi.local frag) [
    | none ↦ none
    | some (local', _) ↦ some (wake_blocked_queries (record fi { set = set'; local = local' }))
  ]
]

-- The loop of ReplaceRemote over the local fragments that remain: none is its panic.
pub extend_set : CoverSet → CoverSet → Option CoverSet
extend_set set [] = some set
extend_set set (frag ∷ frags) = elim (add set frag) [
  | none ↦ none
  | some (set', ok) ↦ elim ok [ true ↦ extend_set set' frags | false ↦ none ]
]

unfoldable pub replace_remote : Index → CoverSet → Option Index
replace_remote fi set =
    let local' = cover_set_difference fi.local set in
    elim (extend_set set local') [
      | none ↦ none
      | some set' ↦
          some (wake_blocked_queries (record fi { set = set'; local = local'; refreshed = true }))
    ]

-- A ReadRequest as Query reads it: no offset is -1, the write head.
pub record ReadRequest : Type 0 where
  pub offset : Option ℕ
  pub block : Bool

pub data Status : Type 0 where
  ok offset_not_yet_available : Status

pub record ReadResponse : Type 0 where
  pub status : Status
  pub offset : ℕ
  pub write_head : ℕ
  pub fragment : Option Fragment
  pub fragment_url : Bytes

-- What one pass of Query's loop does: return a response, a file and perhaps an error; stall at an
-- offset; or index the set out of range, which would panic.
pub data Pass : Type 0 where
  respond : ReadResponse → Option ℕ → Option Bytes → Pass
  stall : ℕ → Pass
  out_of_range : Pass

-- offsetJumpAgeThreshold, in seconds.
abbrev pub offset_jump_age_threshold : ℕ
offset_jump_age_threshold = 21600

-- Stored, and last modified longer ago than the threshold.
abbrev pub is_old : ℕ → LocalFragment → Bool
is_old now x = not (x.mod_time == 0) && ltb (x.mod_time + offset_jump_age_threshold) now

-- Reads are signed by code of the fragment store, which returns a URL and perhaps an error.
module _ (sign_get_url : Fragment → Bytes × Option Bytes) where
  pub serve : CoverSet → ℕ → LocalFragment → Pass
  serve set offset x =
      let signed = not (bytes_eq x.backing_store []) && not (x.mod_time == 0) in
      let signature = sign_get_url x.proto in
      respond
        (record {
          status = ok;
          offset = offset;
          write_head = end_offset set;
          fragment = some x.proto;
          fragment_url = if signed then signature.0 else [];
        })
        x.file (if signed then signature.1 else none)

  pub unavailable : CoverSet → ℕ → Bool → Pass
  unavailable set offset block =
      if block
      then stall offset
      else respond
          (record {
            status = offset_not_yet_available;
            offset = offset;
            write_head = end_offset set;
            fragment = none;
            fragment_url = [];
          })
          none none

  -- The element that the search stopped at, and whether it covers the offset.
  pub at_index : CoverSet → ℕ → ℕ → Bool → Bool → Option LocalFragment → Pass
  unfolding serve unavailable
  at_index set now offset block true none = out_of_range
  at_index set now offset block true (some x) = serve set offset x
  at_index set now offset block false none = unavailable set offset block
  at_index set now offset block false (some x) =
      if is_old now x then serve set x.begin x else unavailable set offset block

  unfoldable pub query_pass : CoverSet → ℕ → ℕ → Bool → Pass
  unfolding at_index
  query_pass set now offset block =
      let r = longest_overlapping_fragment set offset in
      at_index set now offset block r.1 (get_elem? set r.0)

-- What ends a wait: an update of the index, seen at some time, or a cancelled context.
pub data Wake : Type 0 where
  woken : CoverSet → ℕ → Wake
  cancelled : Bytes → Wake

pub data Outcome : Type 0 where
  returned : ReadResponse → Option ℕ → Option Bytes → Outcome
  failed : Bytes → Outcome
  waiting : ℕ → Outcome
  panicked : Outcome

-- Reads at the write head begin at the end of the set.
abbrev pub start_offset : Index → ReadRequest → ℕ
start_offset fi req = elim req.offset [ none ↦ end_offset fi.set | some o ↦ o ]

module _ (sign_get_url : Fragment → Bytes × Option Bytes) where
  -- The loop of Query over what it sees, one pass for each update.
  pub query_loop : ℕ → Bool → List Wake → Outcome
  query_loop offset block [] = waiting offset
  query_loop offset block (cancelled e ∷ rest) = failed e
  query_loop offset block (woken set now ∷ rest) =
      elim (query_pass sign_get_url set now offset block) [
        | respond r file e ↦ returned r file e
        | stall offset' ↦ query_loop offset' block rest
        | out_of_range ↦ panicked
      ]

  unfoldable pub query : Index → ℕ → ReadRequest → List Wake → Outcome
  unfolding query_loop
  query fi now req wakes = query_loop (start_offset fi req) req.block (woken fi.set now ∷ wakes)
