-- ===== src/RecoveryLog/Fsm/Dispatch.antt =====
-- The dispatch on the kind of an operation (v2/pkg/recoverylog/fsm.go) keeps the maps in agreement.
use gazette.Prelude.{ℕ, suc, arith, Bool-cases, Option-cases, inl, inr}
use gazette.RecoveryLog.Fsm.{
  Fsm, RecordedOp, apply_op, apply_property_op, apply_write_op, apply_unlink_op, apply_link_op,
  expects,
}
use gazette.RecoveryLog.Fsm.Invariant.{IsConsistent}
use gazette.RecoveryLog.Fsm.Steps.{
  raise-IsConsistent, apply_create-IsConsistent, apply_link-IsConsistent, apply_write-IsConsistent,
  apply_property-IsConsistent,
}
use gazette.RecoveryLog.Fsm.Unlink.{apply_unlink-IsConsistent}

apply_property_op-IsConsistent :
    (bound : ℕ) (m : Fsm) (op : RecordedOp)
    → IsConsistent bound m
    → IsConsistent bound (apply_property_op m op).0
unfolding apply_property_op
apply_property_op-IsConsistent bound m op c = elim (Option-cases op.property) [
  | inl h ↦ rw (apply_property_op, h) c
  | inr ((path, content), h) ↦
      rw (apply_property_op, h) (apply_property-IsConsistent bound m path content c)
]

apply_write_op-IsConsistent :
    (bound : ℕ) (m : Fsm) (op : RecordedOp)
    → IsConsistent bound m
    → IsConsistent bound (apply_write_op m op).0
unfolding apply_write_op
apply_write_op-IsConsistent bound m op c = elim (Option-cases op.write) [
  | inl h ↦ rw (apply_write_op, h) (apply_property_op-IsConsistent bound m op c)
  | inr ((fnode, offset, size), h) ↦
      rw (apply_write_op, h) (apply_write-IsConsistent bound m fnode op c)
]

apply_unlink_op-IsConsistent :
    (bound : ℕ) (m : Fsm) (op : RecordedOp)
    → IsConsistent bound m
    → IsConsistent bound (apply_unlink_op m op).0
unfolding apply_unlink_op
apply_unlink_op-IsConsistent bound m op c = elim (Option-cases op.unlink) [
  | inl h ↦ rw (apply_unlink_op, h) (apply_write_op-IsConsistent bound m op c)
  | inr ((fnode, path), h) ↦
      rw (apply_unlink_op, h) (apply_unlink-IsConsistent bound m fnode path op c)
]

apply_link_op-IsConsistent :
    (bound : ℕ) (m : Fsm) (op : RecordedOp)
    → IsConsistent bound m
    → IsConsistent bound (apply_link_op m op).0
unfolding apply_link_op
apply_link_op-IsConsistent bound m op c = elim (Option-cases op.link) [
  | inl h ↦ rw (apply_link_op, h) (apply_unlink_op-IsConsistent bound m op c)
  | inr ((fnode, path), h) ↦ rw (apply_link_op, h) (apply_link-IsConsistent bound m fnode path op c)
]

pub apply_op-IsConsistent :
    (m : Fsm) (op : RecordedOp)
    → IsConsistent op.seq_no m
    → IsConsistent (suc op.seq_no) (apply_op m op).0
unfolding apply_op
apply_op-IsConsistent m op c = elim (Option-cases op.create) [
  | inr (path, h) ↦ rw (apply_op, h) (apply_create-IsConsistent m path op c)
  | inl h ↦ elim (Bool-cases (expects m.hinted_fnodes op.seq_no)) [
    | inl q ↦ rw (apply_op, h, q) later
    | inr q ↦ rw (apply_op, h, q) (apply_link_op-IsConsistent (suc op.seq_no) m op later)
  ]
]
  where
    later : IsConsistent (suc op.seq_no) m
    later = raise-IsConsistent op.seq_no (suc op.seq_no) m m.hinted_fnodes (omega arith) c
