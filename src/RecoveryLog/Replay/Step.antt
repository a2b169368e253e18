-- ===== src/RecoveryLog/Replay/Step.antt =====
-- A whole step of the machine, Apply of v2/pkg/recoverylog/fsm.go, without segments and offsets.
use gazette.Prelude.{
  ℕ, ◌≡◌, refl, sym, ap, ◌∙◌, none, List, [], ◌∷◌, Bytes, ◌==◌, ltb, Bool-cases, Option-cases, inl,
  inr,
}
use gazette.RecoveryLog.Segment.{Segment}
use gazette.RecoveryLog.Fsm.{
  Fsm, RecordedOp, Outcome, expected_hinted_fnode, not_hinted_author, wrong_seq_no,
  checksum_mismatch, apply_op, apply_link_op, apply_unlink_op, apply_write_op, apply_property_op,
  expects, pop_segment, step_next, other_author, is_applied, apply,
}
use gazette.RecoveryLog.Replay.{bare, bared, plain, Alike}
use gazette.RecoveryLog.Replay.Bare.{
  untouched, refused, apply_write-bare, apply_link-bare, apply_unlink-bare, apply_property-bare,
  apply_create-bare,
}

module _ (m : Fsm) (op : RecordedOp) where
  apply_property_op-bare :
      bared (apply_property_op m op) ≡ bared (apply_property_op (bare m) (plain op))
  unfolding apply_property_op
  apply_property_op-bare = elim (Option-cases op.property) [
    | inl h ↦ rw (apply_property_op, h) (ap (λ x. (x, none)) (untouched m))
    | inr ((path, content), h) ↦ rw (apply_property_op, h) (apply_property-bare m path content)
  ]

  apply_write_op-bare : bared (apply_write_op m op) ≡ bared (apply_write_op (bare m) (plain op))
  unfolding apply_write_op
  apply_write_op-bare = elim (Option-cases op.write) [
    | inl h ↦ rw (apply_write_op, h) apply_property_op-bare
    | inr ((f, offset, size), h) ↦ rw (apply_write_op, h) (apply_write-bare m f op)
  ]

  apply_unlink_op-bare : bared (apply_unlink_op m op) ≡ bared (apply_unlink_op (bare m) (plain op))
  unfolding apply_unlink_op
  apply_unlink_op-bare = elim (Option-cases op.unlink) [
    | inl h ↦ rw (apply_unlink_op, h) apply_write_op-bare
    | inr ((f, path), h) ↦ rw (apply_unlink_op, h) (apply_unlink-bare m f path op)
  ]

  apply_link_op-bare : bared (apply_link_op m op) ≡ bared (apply_link_op (bare m) (plain op))
  unfolding apply_link_op
  apply_link_op-bare = elim (Option-cases op.link) [
    | inl h ↦ rw (apply_link_op, h) apply_unlink_op-bare
    | inr ((f, path), h) ↦ rw (apply_link_op, h) (apply_link-bare m f path op)
  ]

  pub apply_op-bare : bared (apply_op m op) ≡ bared (apply_op (bare m) (plain op))
  unfolding apply_op
  apply_op-bare = elim (Option-cases op.create) [
    | inr (path, h) ↦ rw (apply_op, h) (apply_create-bare m path op)
    | inl h ↦ elim (Bool-cases (expects m.hinted_fnodes op.seq_no)) [
      | inl q ↦ rw (apply_op, h, q) (refused m expected_hinted_fnode)
      | inr q ↦ rw (apply_op, h, q) apply_link_op-bare
    ]
  ]

pop_segment-bare : (m : Fsm) (ss : List Segment) → bare (pop_segment m ss) ≡ pop_segment (bare m) ss
unfolding pop_segment
pop_segment-bare m [] = refl
pop_segment-bare m (s ∷ []) = elim (Bool-cases (ltb s.last_seq_no m.next_seq_no)) [
  | inl q ↦ rw q refl
  | inr q ↦ rw q refl
]
pop_segment-bare m (s ∷ t ∷ ts) = elim (Bool-cases (ltb s.last_seq_no m.next_seq_no)) [
  | inl q ↦ rw q refl
  | inr q ↦ rw q refl
]

module _ (crc_update : ℕ → Bytes → ℕ) where
  step_next-bare :
      (m : Fsm) (body : Bytes)
      → bare (step_next crc_update m body) ≡ step_next crc_update (bare m) body
  unfolding step_next
  step_next-bare m body = pop_segment-bare _ m.hinted_segments

  -- Steps from outcomes that are the same without segments.
  step_next-same :
      (a b : Outcome) (body : Bytes)
      → bared a ≡ bared b
      → bared (step_next crc_update a.0 body, a.1) ≡ bared (step_next crc_update b.0 body, b.1)
  step_next-same a b body e =
      ap (λ k. (k, a.1)) (step_next-bare a.0 body)
      ∙ ap (λ x. (step_next crc_update x.0 body, x.1)) e
      ∙ ap (λ k. (k, b.1)) (sym (step_next-bare b.0 body))

  apply-bare :
      (m : Fsm) (op : RecordedOp) (body : Bytes)
      → bared (apply crc_update m op body) ≡ bared (apply crc_update (bare m) (plain op) body)
  unfolding apply
  apply-bare m op body =
      let e = apply_op-bare m op in
      elim (Bool-cases (other_author m.hinted_segments op.author)) [
        | inl q ↦ rw (apply, q) (refused m not_hinted_author)
        | inr q ↦ elim (Bool-cases (op.seq_no == m.next_seq_no)) [
          | inr r ↦ rw (apply, q, r) (refused m wrong_seq_no)
          | inl r ↦ elim (Bool-cases (op.checksum == m.next_checksum)) [
            | inr t ↦ rw (apply, q, r, t) (refused m checksum_mismatch)
            | inl t ↦ elim (Bool-cases (is_applied (apply_op m op).1)) [
              | inr u ↦ rw (apply, q, r, t, u, ap (λ x. is_applied x.1) (sym e) ∙ u) e
              | inl u ↦
                  rw (apply, q, r, t, u, ap (λ x. is_applied x.1) (sym e) ∙ u)
                    (step_next-same _ _ body e)
            ]
          ]
        ]
      ]

  -- A step on alike machines with operations alike but for their offsets.
  pub apply-Alike :
      (m n : Fsm) (a b : RecordedOp) (body : Bytes)
      → Alike m n
      → plain a ≡ plain b
      → bared (apply crc_update m a body) ≡ bared (apply crc_update n b body)
  apply-Alike m n a b body e f =
      apply-bare m a body
      ∙ ap (λ x. bared (apply crc_update x (plain a) body)) e
      ∙ ap (λ x. bared (apply crc_update (bare n) x body)) f
      ∙ sym (apply-bare n b body)
