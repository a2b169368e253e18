-- ===== src/RecoveryLog/Player/Facts.antt =====
-- Which Fnodes are live after an operation that applies, by the kind of the operation
-- (v2/pkg/recoverylog/fsm.go).
use gazette.Prelude.{ℕ, ◌≡◌, none, some, refl, Bytes, Bool-cases, Option-cases, inl, inr}
use gazette.RecoveryLog.Fsm.{
  Fsm, RecordedOp, Outcome, apply_link, apply_op, apply_link_op, apply_unlink_op, apply_write_op,
  apply_property_op, expects,
}
use gazette.RecoveryLog.Player.Nodes.{
  Adds, Touches, Keeps, KeepsAll, apply_create-Adds, apply_link-Keeps, apply_unlink-Touches,
  apply_write-Keeps, apply_property-KeepsAll,
}

module _ (m : Fsm) (op : RecordedOp) where
  pub create-Adds : (path : Bytes) → op.create ≡ some path → Adds op.seq_no m (apply_op m op)
  unfolding apply_op
  create-Adds path h = rw (apply_op, h) (apply_create-Adds m path op)

  unlink_op-Touches :
      (f : ℕ) (path : Bytes) → op.unlink ≡ some (f, path) → Touches f m (apply_unlink_op m op)
  unfolding apply_unlink_op
  unlink_op-Touches f path h = rw (apply_unlink_op, h) (apply_unlink-Touches m f path op)

  unlink_after_link :
      (f : ℕ) (path : Bytes)
      → op.link ≡ none
      → op.unlink ≡ some (f, path)
      → Touches f m (apply_link_op m op)
  unfolding apply_link_op
  unlink_after_link f path g h = rw (apply_link_op, g) (unlink_op-Touches f path h)

  pub unlink-Touches :
      (f : ℕ) (path : Bytes)
      → op.create ≡ none
      → op.link ≡ none
      → op.unlink ≡ some (f, path)
      → Touches f m (apply_op m op)
  unfolding apply_op
  unlink-Touches f path e g h = elim (Bool-cases (expects m.hinted_fnodes op.seq_no)) [
    | inl q ↦ rw (apply_op, e, q) tt
    | inr q ↦ rw (apply_op, e, q) (unlink_after_link f path g h)
  ]

  write_op-Keeps :
      (f offset size : ℕ) → op.write ≡ some (f, offset, size) → Keeps f m (apply_write_op m op)
  unfolding apply_write_op
  write_op-Keeps f offset size h = rw (apply_write_op, h) (apply_write-Keeps m f op)

  write_after_unlink :
      (f offset size : ℕ)
      → op.unlink ≡ none
      → op.write ≡ some (f, offset, size)
      → Keeps f m (apply_unlink_op m op)
  unfolding apply_unlink_op
  write_after_unlink f offset size g h = rw (apply_unlink_op, g) (write_op-Keeps f offset size h)

  write_after_link :
      (f offset size : ℕ)
      → op.link ≡ none
      → op.unlink ≡ none
      → op.write ≡ some (f, offset, size)
      → Keeps f m (apply_link_op m op)
  unfolding apply_link_op
  write_after_link f offset size e g h =
      rw (apply_link_op, e) (write_after_unlink f offset size g h)

  pub write-Keeps :
      (f offset size : ℕ)
      → op.create ≡ none
      → op.link ≡ none
      → op.unlink ≡ none
      → op.write ≡ some (f, offset, size)
      → Keeps f m (apply_op m op)
  unfolding apply_op
  write-Keeps f offset size c e g h = elim (Bool-cases (expects m.hinted_fnodes op.seq_no)) [
    | inl q ↦ rw (apply_op, c, q) tt
    | inr q ↦ rw (apply_op, c, q) (write_after_link f offset size e g h)
  ]

  property_op-KeepsAll : KeepsAll m (apply_property_op m op)
  unfolding apply_property_op
  property_op-KeepsAll = elim (Option-cases op.property) [
    | inl h ↦ rw (apply_property_op, h) (λ g. refl)
    | inr ((path, content), h) ↦ rw (apply_property_op, h) (apply_property-KeepsAll m path content)
  ]

  after_write-KeepsAll : op.write ≡ none → KeepsAll m (apply_write_op m op)
  unfolding apply_write_op
  after_write-KeepsAll h = rw (apply_write_op, h) property_op-KeepsAll

  after_unlink-KeepsAll : op.unlink ≡ none → op.write ≡ none → KeepsAll m (apply_unlink_op m op)
  unfolding apply_unlink_op
  after_unlink-KeepsAll g h = rw (apply_unlink_op, g) (after_write-KeepsAll h)

  Keeps-KeepsAll : (f : ℕ) (r : Outcome) → Keeps f m r → KeepsAll m r
  Keeps-KeepsAll f (n, none) k = k.1
  Keeps-KeepsAll f (n, some e) k = tt

  after_link-KeepsAll : op.unlink ≡ none → op.write ≡ none → KeepsAll m (apply_link_op m op)
  unfolding apply_link_op
  after_link-KeepsAll g h = elim (Option-cases op.link) [
    | inl e ↦ rw (apply_link_op, e) (after_unlink-KeepsAll g h)
    | inr ((f, path), e) ↦
        rw (apply_link_op, e)
          (Keeps-KeepsAll f (apply_link m f path op) (apply_link-Keeps m f path op))
  ]

  pub other-KeepsAll :
      op.create ≡ none → op.unlink ≡ none → op.write ≡ none → KeepsAll m (apply_op m op)
  unfolding apply_op
  other-KeepsAll c g h = elim (Bool-cases (expects m.hinted_fnodes op.seq_no)) [
    | inl q ↦ rw (apply_op, c, q) tt
    | inr q ↦ rw (apply_op, c, q) (after_link-KeepsAll g h)
  ]
