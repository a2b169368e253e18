-- ===== src/RecoveryLog/Fsm/Kept.antt =====
-- What no operation of the machine (v2/pkg/recoverylog/fsm.go) touches, with or without an error.
use gazette.Prelude.{
  ℕ, ◌≡◌, refl, none, some, List, [], ◌∷◌, Bytes, ◌==◌, Bool-cases, Option-cases, inl, inr,
}
use gazette.Go.Map.{lookup, nat_key, bytes_key}
use gazette.RecoveryLog.Fsm.{
  Fsm, RecordedOp, Outcome, Error, apply_op, apply_create, apply_link, apply_unlink, apply_write,
  apply_property, apply_property_op, apply_write_op, apply_unlink_op, apply_link_op, expects,
  create_hinted, is_set, differs,
}

-- The position and the hinted segments stay, and an error leaves all of the machine.
pub record IsKept (m : Fsm) (r : Outcome) : Type 0 where
  pub same_seq_no : r.0.next_seq_no ≡ m.next_seq_no
  pub same_checksum : r.0.next_checksum ≡ m.next_checksum
  pub same_segments : r.0.hinted_segments ≡ m.hinted_segments
  pub unchanged : (e : Error) → r.1 ≡ some e → r.0 ≡ m

failed : (m : Fsm) (e : Error) → IsKept m (m, some e)
failed m e = record {
  same_seq_no = refl;
  same_checksum = refl;
  same_segments = refl;
  unchanged = λ f h. refl;
}

passed :
    (m n : Fsm)
    → n.next_seq_no ≡ m.next_seq_no
    → n.next_checksum ≡ m.next_checksum
    → n.hinted_segments ≡ m.hinted_segments
    → IsKept m (n, none)
passed m n a b c = record {
  same_seq_no = a;
  same_checksum = b;
  same_segments = c;
  unchanged = λ f h. cc;
}

create_hinted-IsKept :
    (m : Fsm) (fs : List ℕ) (path : Bytes) (op : RecordedOp) → IsKept m (create_hinted m fs path op)
create_hinted-IsKept m [] path op = passed m _ refl refl refl
create_hinted-IsKept m (f ∷ fs) path op = elim (Bool-cases (f == op.seq_no)) [
  | inl q ↦ rw q (passed m _ refl refl refl)
  | inr q ↦ rw q (failed m _)
]

apply_create-IsKept : (m : Fsm) (path : Bytes) (op : RecordedOp) → IsKept m (apply_create m path op)
unfolding apply_create
apply_create-IsKept m path op = elim (Bool-cases (is_set (lookup path m.links))) [
  | inl q ↦ rw (apply_create, q) (failed m _)
  | inr q ↦ elim (Bool-cases (is_set (lookup path m.properties))) [
    | inl r ↦ rw (apply_create, q, r) (failed m _)
    | inr r ↦ rw (apply_create, q, r) (create_hinted-IsKept m m.hinted_fnodes path op)
  ]
]

apply_link-IsKept :
    (m : Fsm) (fnode : ℕ) (path : Bytes) (op : RecordedOp) → IsKept m (apply_link m fnode path op)
unfolding apply_link
apply_link-IsKept m fnode path op = elim (Bool-cases (is_set (lookup path m.links))) [
  | inl q ↦ rw (apply_link, q) (failed m _)
  | inr q ↦ elim (Bool-cases (is_set (lookup path m.properties))) [
    | inl r ↦ rw (apply_link, q, r) (failed m _)
    | inr r ↦ elim (Option-cases (lookup fnode m.live_nodes)) [
      | inl h ↦ rw (apply_link, q, r, h) (failed m _)
      | inr (node, h) ↦ rw (apply_link, q, r, h) (passed m _ refl refl refl)
    ]
  ]
]

apply_unlink-IsKept :
    (m : Fsm) (fnode : ℕ) (path : Bytes) (op : RecordedOp) → IsKept m (apply_unlink m fnode path op)
unfolding apply_unlink
apply_unlink-IsKept m fnode path op = elim (Option-cases (lookup fnode m.live_nodes)) [
  | inl h ↦ rw (apply_unlink, h) (failed m _)
  | inr (node, h) ↦ elim (Bool-cases (is_set (lookup path node.links))) [
    | inr q ↦ rw (apply_unlink, h, q) (failed m _)
    | inl q ↦ rw (apply_unlink, h, q) (passed m _ refl refl refl)
  ]
]

apply_property-IsKept : (m : Fsm) (path content : Bytes) → IsKept m (apply_property m path content)
unfolding apply_property
apply_property-IsKept m path content = elim (Bool-cases (is_set (lookup path m.links))) [
  | inl q ↦ rw (apply_property, q) (failed m _)
  | inr q ↦ elim (Bool-cases (differs (lookup path m.properties) content)) [
    | inl r ↦ rw (apply_property, q, r) (failed m _)
    | inr r ↦ rw (apply_property, q, r) (passed m _ refl refl refl)
  ]
]

apply_property_op-IsKept : (m : Fsm) (op : RecordedOp) → IsKept m (apply_property_op m op)
unfolding apply_property_op
apply_property_op-IsKept m op = elim (Option-cases op.property) [
  | inl h ↦ rw (apply_property_op, h) (passed m m refl refl refl)
  | inr ((path, content), h) ↦ rw (apply_property_op, h) (apply_property-IsKept m path content)
]

apply_write_op-IsKept : (m : Fsm) (op : RecordedOp) → IsKept m (apply_write_op m op)
unfolding apply_write_op apply_write
apply_write_op-IsKept m op = elim (Option-cases op.write) [
  | inl h ↦ rw (apply_write_op, h) (apply_property_op-IsKept m op)
  | inr ((fnode, offset, size), h) ↦ elim (Option-cases (lookup fnode m.live_nodes)) [
    | inl k ↦ rw (apply_write_op, h, apply_write, k) (failed m _)
    | inr (node, k) ↦ rw (apply_write_op, h, apply_write, k) (passed m _ refl refl refl)
  ]
]

apply_unlink_op-IsKept : (m : Fsm) (op : RecordedOp) → IsKept m (apply_unlink_op m op)
unfolding apply_unlink_op
apply_unlink_op-IsKept m op = elim (Option-cases op.unlink) [
  | inl h ↦ rw (apply_unlink_op, h) (apply_write_op-IsKept m op)
  | inr ((fnode, path), h) ↦ rw (apply_unlink_op, h) (apply_unlink-IsKept m fnode path op)
]

apply_link_op-IsKept : (m : Fsm) (op : RecordedOp) → IsKept m (apply_link_op m op)
unfolding apply_link_op
apply_link_op-IsKept m op = elim (Option-cases op.link) [
  | inl h ↦ rw (apply_link_op, h) (apply_unlink_op-IsKept m op)
  | inr ((fnode, path), h) ↦ rw (apply_link_op, h) (apply_link-IsKept m fnode path op)
]

pub apply_op-IsKept : (m : Fsm) (op : RecordedOp) → IsKept m (apply_op m op)
unfolding apply_op
apply_op-IsKept m op = elim (Option-cases op.create) [
  | inr (path, h) ↦ rw (apply_op, h) (apply_create-IsKept m path op)
  | inl h ↦ elim (Bool-cases (expects m.hinted_fnodes op.seq_no)) [
    | inl q ↦ rw (apply_op, h, q) (failed m _)
    | inr q ↦ rw (apply_op, h, q) (apply_link_op-IsKept m op)
  ]
]
