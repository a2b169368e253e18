-- ===== src/RecoveryLog/Fsm.antt =====
-- The state machine over recorded operations of v2/pkg/recoverylog/fsm.go. A pointer to a node's
-- state is only held by the map of live nodes, so a write through it is a write of the map.
pub mod Invariant
pub mod Steps
pub mod Unlink
pub mod Kept
pub mod Dispatch
pub mod Apply
use gazette.Prelude.{
  ℕ, zero, suc, ◌+◌, Bool, true, false, ◌&&◌, ◌||◌, not, Option, none, some, List, [], ◌∷◌, ◌++◌,
  ltb, leb, ◌==◌, if◌then◌else◌, Bytes, bytes_eq, length,
}
use gazette.Go.Map.{Map, nat_key, bytes_key, lookup, insert, delete}
use gazette.RecoveryLog.Segment.{Segment, SegmentSet, Result, ok, err, panics}
use gazette.RecoveryLog.Segment

pub record FnodeState : Type 0 where
  pub links : Map Bytes (Unit {0})
  pub segments : List Segment

pub record Fsm : Type 0 where
  pub log : Bytes
  pub next_seq_no : ℕ
  pub next_checksum : ℕ
  pub properties : Map Bytes Bytes
  pub live_nodes : Map ℕ FnodeState
  pub links : Map Bytes ℕ
  pub hinted_segments : List Segment
  pub hinted_fnodes : List ℕ

-- An operation; at most one of its last five fields is used, the first that is set.
pub record RecordedOp : Type 0 where
  pub seq_no : ℕ
  pub checksum : ℕ
  pub author : ℕ
  pub first_offset : ℕ
  pub last_offset : ℕ
  pub create : Option Bytes
  pub link : Option (ℕ × Bytes)
  pub unlink : Option (ℕ × Bytes)
  pub write : Option (ℕ × ℕ × ℕ)  -- the Fnode, the offset and the length, as the bits of an int64
  pub property : Option (Bytes × Bytes)

pub data Error : Type 0 where
  checksum_mismatch expected_hinted_fnode fnode_not_tracked link_exists no_such_link : Error
  not_hinted_author property_exists wrong_seq_no : Error

pub record FnodeSegments : Type 0 where
  pub fnode : ℕ
  pub segments : List Segment

pub record FsmHints : Type 0 where
  pub log : Bytes
  pub live_nodes : List FnodeSegments
  pub properties : List (Bytes × Bytes)

-- What becomes of the machine, and the error returned.
abbrev pub Outcome : Type 0
Outcome = Fsm × Option Error

abbrev pub segment_of : RecordedOp → Segment
segment_of op = record {
  author = op.author;
  first_seq_no = op.seq_no;
  first_offset = op.first_offset;
  first_checksum = op.checksum;
  last_seq_no = op.seq_no;
  last_offset = op.last_offset;
}

unfoldable pub extend_segments : List Segment → RecordedOp → List Segment
extend_segments [] op = segment_of op ∷ []
extend_segments (s ∷ []) op =
    if s.author == op.author
    then record s { last_seq_no = op.seq_no; last_offset = op.last_offset } ∷ []
    else s ∷ segment_of op ∷ []
extend_segments (s ∷ t ∷ ts) op = s ∷ extend_segments (t ∷ ts) op

abbrev pub is_set {ℓ} : {A : Type ℓ} → Option A → Bool
is_set none = false
is_set (some a) = true

abbrev pub node_of : Bytes → RecordedOp → FnodeState
node_of path op = record { links = insert path tt []; segments = extend_segments [] op }

abbrev pub add_node : Fsm → Bytes → RecordedOp → Fsm
add_node m path op = record m {
  live_nodes = insert op.seq_no (node_of path op) m.live_nodes;
  links = insert path op.seq_no m.links;
}

-- The hint that remains for the next created Fnode: a mismatch is not tracked, a match is popped.
abbrev pub create_hinted : Fsm → List ℕ → Bytes → RecordedOp → Outcome
create_hinted m [] path op = (add_node m path op, none)
create_hinted m (f ∷ fs) path op =
    if f == op.seq_no
    then (add_node (record m { hinted_fnodes = fs }) path op, none)
    else (m, some fnode_not_tracked)

unfoldable pub apply_create : Fsm → Bytes → RecordedOp → Outcome
apply_create m path op =
    if is_set (lookup path m.links)
    then (m, some link_exists)
    else if is_set (lookup path m.properties)
    then (m, some property_exists)
    else create_hinted m m.hinted_fnodes path op

unfoldable pub apply_link : Fsm → ℕ → Bytes → RecordedOp → Outcome
apply_link m fnode path op =
    if is_set (lookup path m.links)
    then (m, some link_exists)
    else if is_set (lookup path m.properties)
    then (m, some property_exists)
    else elim (lookup fnode m.live_nodes) [
      | none ↦ (m, some fnode_not_tracked)
      | some node ↦ (
        record m {
          live_nodes =
              insert fnode
                (record node {
                  links = insert path tt node.links;
                  segments = extend_segments node.segments op;
                })
                m.live_nodes;
          links = insert path fnode m.links;
        },
        none,
      )
    ]

abbrev pub no_links : Map Bytes (Unit {0}) → Bool
no_links [] = true
no_links (l ∷ ls) = false

unfoldable pub apply_unlink : Fsm → ℕ → Bytes → RecordedOp → Outcome
apply_unlink m fnode path op = elim (lookup fnode m.live_nodes) [
  | none ↦ (m, some fnode_not_tracked)
  | some node ↦
      let rest = delete path node.links in
      if is_set (lookup path node.links)
      then (
        record m {
          live_nodes =
              if no_links rest
              then delete fnode m.live_nodes
              else insert fnode
                  (record { links = rest; segments = extend_segments node.segments op })
                  m.live_nodes;
          links = delete path m.links;
        },
        none,
      )
      else (m, some no_such_link)
]

unfoldable pub apply_write : Fsm → ℕ → RecordedOp → Outcome
apply_write m fnode op = elim (lookup fnode m.live_nodes) [
  | none ↦ (m, some fnode_not_tracked)
  | some node ↦ (
    record m {
      live_nodes =
          insert fnode (record node { segments = extend_segments node.segments op }) m.live_nodes;
    },
    none,
  )
]

-- The content held for a path differs from the content given.
abbrev pub differs : Option Bytes → Bytes → Bool
differs none content = false
differs (some held) content = not (bytes_eq held content)

unfoldable pub apply_property : Fsm → Bytes → Bytes → Outcome
apply_property m path content =
    if is_set (lookup path m.links)
    then (m, some link_exists)
    else if differs (lookup path m.properties) content
    then (m, some property_exists)
    else (record m { properties = insert path content m.properties }, none)

abbrev pub expects : List ℕ → ℕ → Bool
expects [] seq_no = false
expects (f ∷ fs) seq_no = f == seq_no

-- The cases on the operation, in the order of the code.
unfoldable pub apply_property_op : Fsm → RecordedOp → Outcome
apply_property_op m op = elim op.property [
  | none ↦ (m, none)
  | some (path, content) ↦ apply_property m path content
]

unfoldable pub apply_write_op : Fsm → RecordedOp → Outcome
unfolding apply_property_op
apply_write_op m op = elim op.write [
  | none ↦ apply_property_op m op
  | some (fnode, offset, size) ↦ apply_write m fnode op
]

unfoldable pub apply_unlink_op : Fsm → RecordedOp → Outcome
unfolding apply_write_op
apply_unlink_op m op = elim op.unlink [
  | none ↦ apply_write_op m op
  | some (fnode, path) ↦ apply_unlink m fnode path op
]

unfoldable pub apply_link_op : Fsm → RecordedOp → Outcome
unfolding apply_unlink_op
apply_link_op m op = elim op.link [
  | none ↦ apply_unlink_op m op
  | some (fnode, path) ↦ apply_link m fnode path op
]

unfoldable pub apply_op : Fsm → RecordedOp → Outcome
unfolding apply_link_op
apply_op m op = elim op.create [
  | some path ↦ apply_create m path op
  | none ↦
      if expects m.hinted_fnodes op.seq_no
      then (m, some expected_hinted_fnode)
      else apply_link_op m op
]

-- An exhausted hinted segment is popped, and the machine skips to the next one.
unfoldable pub pop_segment : Fsm → List Segment → Fsm
pop_segment m [] = m
pop_segment m (s ∷ []) =
    if ltb s.last_seq_no m.next_seq_no then record m { hinted_segments = [] } else m
pop_segment m (s ∷ t ∷ ts) =
    if ltb s.last_seq_no m.next_seq_no
    then record m {
      hinted_segments = t ∷ ts;
      next_seq_no = t.first_seq_no;
      next_checksum = t.first_checksum;
    }
    else m

abbrev pub other_author : List Segment → ℕ → Bool
other_author [] author = false
other_author (s ∷ ss) author = not (s.author == author)

abbrev pub is_applied : Option Error → Bool
is_applied none = true
is_applied (some fnode_not_tracked) = true
is_applied (some _) = false

-- `crc_update` is crc32.Update of the Castagnoli table.
module _ (crc_update : ℕ → Bytes → ℕ) where
  unfoldable pub step_next : Fsm → Bytes → Fsm
  unfolding pop_segment
  step_next m frame =
      pop_segment
        (record m {
          next_seq_no = suc m.next_seq_no;
          next_checksum = crc_update m.next_checksum frame;
        })
        m.hinted_segments

  unfoldable pub apply : Fsm → RecordedOp → Bytes → Outcome
  apply m op frame =
      let r = apply_op m op in
      if other_author m.hinted_segments op.author
      then (m, some not_hinted_author)
      else if not (op.seq_no == m.next_seq_no)
      then (m, some wrong_seq_no)
      else if not (op.checksum == m.next_checksum)
      then (m, some checksum_mismatch)
      else if is_applied r.1
      then (step_next r.0 frame, r.1)
      else r

abbrev no_fnodes : List ℕ → Bool
no_fnodes [] = true
no_fnodes (f ∷ fs) = false

abbrev no_segments : List Segment → Bool
no_segments [] = true
no_segments (s ∷ ss) = false

abbrev pub has_remaining_hints : Fsm → Bool
has_remaining_hints m = not (no_segments m.hinted_segments) || not (no_fnodes m.hinted_fnodes)
