-- ===== src/RecoveryLog/Fsm/Apply.antt =====
-- A whole step of the machine, Apply of v2/pkg/recoverylog/fsm.go.
use gazette.Prelude.{
  ℕ, suc, ◌≤◌, ◌<◌, ◌≡◌, refl, sym, ap, ◌∙◌, true, false, Option, none, some, List, [], ◌∷◌, arith,
  Bytes, ◌==◌, ltb, Bool-cases, inl, inr, ◌⊎◌,
}
use gazette.RecoveryLog.Segment.{Segment}
use gazette.RecoveryLog.Fsm.{
  Fsm, RecordedOp, Error, apply_op, pop_segment, other_author, is_applied, step_next, apply,
  fnode_not_tracked,
}
use gazette.RecoveryLog.Fsm.Invariant.{IsConsistent}
use gazette.RecoveryLog.Fsm.Steps.{raise-IsConsistent}
use gazette.RecoveryLog.Fsm.Kept.{apply_op-IsKept}
use gazette.RecoveryLog.Fsm.Dispatch.{apply_op-IsConsistent}

-- The hinted segments ascend, and the first is not yet played past.
abbrev pub Ahead : ℕ → List Segment → Type 0
Ahead n [] = Unit
Ahead n (s ∷ []) = n ≤ s.last_seq_no
Ahead n (s ∷ t ∷ ts) =
    (n ≤ s.last_seq_no) × (s.last_seq_no < t.first_seq_no) × Ahead t.first_seq_no (t ∷ ts)

-- What the machine needs to go on.
pub record IsPlayable (m : Fsm) : Type 0 where
  pub consistent : IsConsistent m.next_seq_no m
  pub ahead : Ahead m.next_seq_no m.hinted_segments

-- Only the position and the hints change.
move-IsConsistent :
    (bound top n sum : ℕ) (m : Fsm) (hinted : List Segment)
    → bound ≤ top
    → IsConsistent bound m
    → IsConsistent top (record m { next_seq_no = n; next_checksum = sum; hinted_segments = hinted })
move-IsConsistent bound top n sum m hinted b c = record {
  linked = c.linked;
  indexed = c.indexed;
  apart = c.apart;
  held = c.held;
  below = λ f node h. ground (arith, c.below f node h);
}

pop_segment-IsPlayable :
    (n sum : ℕ) (m : Fsm) (segments : List Segment)
    → Ahead n segments
    → IsConsistent (suc n) m
    → IsPlayable (
        pop_segment
          (record m { next_seq_no = suc n; next_checksum = sum; hinted_segments = segments })
          segments)
unfolding pop_segment
pop_segment-IsPlayable n sum m [] a c = record {
  consistent = move-IsConsistent (suc n) (suc n) (suc n) sum m [] (omega arith) c;
  ahead = tt;
}
pop_segment-IsPlayable n sum m (s ∷ []) a c = elim (Bool-cases (ltb s.last_seq_no (suc n))) [
  | inl q ↦ rw q (record {
    consistent = move-IsConsistent (suc n) (suc n) (suc n) sum m [] (omega arith) c;
    ahead = tt;
  })
  | inr q ↦ rw q (record {
    consistent = move-IsConsistent (suc n) (suc n) (suc n) sum m (s ∷ []) (omega arith) c;
    ahead = ground (arith, q);
  })
]
pop_segment-IsPlayable n sum m (s ∷ t ∷ ts) a c = elim (Bool-cases (ltb s.last_seq_no (suc n))) [
  | inl q ↦ rw q (record {
    consistent =
        move-IsConsistent (suc n) t.first_seq_no t.first_seq_no t.first_checksum m (t ∷ ts)
          (omega (arith, a.0, a.1)) c;
    ahead = a.2;
  })
  | inr q ↦ rw q (record {
    consistent = move-IsConsistent (suc n) (suc n) (suc n) sum m (s ∷ t ∷ ts) (omega arith) c;
    ahead = (ground (arith, q), a.1, a.2);
  })
]

pop_segment-later :
    (n sum : ℕ) (m : Fsm) (segments : List Segment)
    → Ahead n segments
    → n
      < (pop_segment
          (record m { next_seq_no = suc n; next_checksum = sum; hinted_segments = segments })
          segments).next_seq_no
unfolding pop_segment
pop_segment-later n sum m [] a = omega arith
pop_segment-later n sum m (s ∷ []) a = ground arith
pop_segment-later n sum m (s ∷ t ∷ ts) a = ground (arith, a.0, a.1)

Ahead-same : (a b : ℕ) (xs ys : List Segment) → a ≡ b → xs ≡ ys → Ahead b ys → Ahead a xs
Ahead-same a b xs ys p q h = rw (p, q) h

error_of : (o : Option Error) → is_applied o ≡ false → (e : Error) × (o ≡ some e)
error_of none h = cc
error_of (some e) h = (e, refl)

module _ (crc_update : ℕ → Bytes → ℕ) where
  step_next-IsPlayable :
      (m : Fsm) (frame : Bytes)
      → IsConsistent (suc m.next_seq_no) m
      → Ahead m.next_seq_no m.hinted_segments
      → IsPlayable (step_next crc_update m frame)
  unfolding step_next
  step_next-IsPlayable m frame c a =
      pop_segment-IsPlayable m.next_seq_no (crc_update m.next_checksum frame) m m.hinted_segments a
        c

  step_next-later :
      (m : Fsm) (frame : Bytes)
      → Ahead m.next_seq_no m.hinted_segments
      → m.next_seq_no < (step_next crc_update m frame).next_seq_no
  unfolding step_next
  step_next-later m frame a =
      pop_segment-later m.next_seq_no (crc_update m.next_checksum frame) m m.hinted_segments a

  -- The machine that an operation leaves, and the error returned, whatever the guards say.
  pub apply-cases :
      (m : Fsm) (op : RecordedOp) (frame : Bytes)
      → ((is_applied (apply crc_update m op frame).1 ≡ false)
          × ((apply crc_update m op frame).0 ≡ m))
        ⊎ ((other_author m.hinted_segments op.author ≡ false)
            × (op.seq_no ≡ m.next_seq_no)
            × (op.checksum ≡ m.next_checksum)
            × (is_applied (apply_op m op).1 ≡ true)
            × (apply crc_update m op frame
                ≡ (step_next crc_update (apply_op m op).0 frame, (apply_op m op).1)))
  unfolding apply
  apply-cases m op frame = elim (Bool-cases (other_author m.hinted_segments op.author)) [
    | inl q ↦ rw q (inl (refl, refl))
    | inr q ↦ elim (Bool-cases (op.seq_no == m.next_seq_no)) [
      | inr r ↦ rw (q, r) (inl (refl, refl))
      | inl r ↦ elim (Bool-cases (op.checksum == m.next_checksum)) [
        | inr t ↦ rw (q, r, t) (inl (refl, refl))
        | inl t ↦ elim (Bool-cases (is_applied (apply_op m op).1)) [
          | inr u ↦
              rw (q, r, t, u)
                (inl (u, let e = error_of _ u in (apply_op-IsKept m op).unchanged e.0 e.1))
          | inl u ↦ rw (q, r, t, u) (inr (refl, ground (arith, r), ground (arith, t), refl, refl))
        ]
      ]
    ]
  ]

  -- A step keeps a machine playable, whatever the operation and the error: its maps of links, live
  -- nodes and properties agree with one another, each live Fnode is below the next sequence number,
  -- and the hinted segments still ascend from there.
  pub apply-IsPlayable :
      (m : Fsm) (op : RecordedOp) (frame : Bytes)
      → IsPlayable m
      → IsPlayable (apply crc_update m op frame).0
  apply-IsPlayable m op frame p = elim (apply-cases m op frame) [
    | inl (_, same) ↦ rw same p
    | inr (_, seq, _, _, result) ↦
        let n = (apply_op m op).0 in
        let k = apply_op-IsKept m op in
        let was =
          raise-IsConsistent m.next_seq_no op.seq_no m m.hinted_fnodes (omega arith) p.consistent in
        let c =
          raise-IsConsistent (suc op.seq_no) (suc n.next_seq_no) n n.hinted_fnodes
            (omega (arith, k.same_seq_no)) (apply_op-IsConsistent m op was) in
        rw result (
          step_next-IsPlayable n frame c (
            Ahead-same n.next_seq_no m.next_seq_no n.hinted_segments m.hinted_segments k.same_seq_no
              k.same_segments p.ahead))
  ]

  -- From a playable machine, an operation either fails and leaves the machine as it was, or it has
  -- the expected author, sequence number and checksum and the machine moves on to a later sequence
  -- number. If the error is that the Fnode is not tracked, only the position moves on.
  pub apply-transition :
      (m : Fsm) (op : RecordedOp) (frame : Bytes)
      → IsPlayable m
      → ((is_applied (apply crc_update m op frame).1 ≡ false)
          × ((apply crc_update m op frame).0 ≡ m))
        ⊎ ((is_applied (apply crc_update m op frame).1 ≡ true)
            × (other_author m.hinted_segments op.author ≡ false)
            × (op.seq_no ≡ m.next_seq_no)
            × (op.checksum ≡ m.next_checksum)
            × (m.next_seq_no < (apply crc_update m op frame).0.next_seq_no)
            × ((apply crc_update m op frame).1 ≡ some fnode_not_tracked
                → (apply crc_update m op frame).0 ≡ step_next crc_update m frame))
  unfolding step_next
  apply-transition m op frame p = elim (apply-cases m op frame) [
    | inl rejected ↦ inl rejected
    | inr (author, seq, sum, passed, result) ↦
        let n = (apply_op m op).0 in
        let k = apply_op-IsKept m op in
        inr (
          rw result passed,
          author,
          seq,
          sum,
          rw result (
              omega (
                arith,
                k.same_seq_no,
                step_next-later n frame (
                    Ahead-same n.next_seq_no m.next_seq_no n.hinted_segments m.hinted_segments
                      k.same_seq_no k.same_segments p.ahead),
              )),
          λ e.
              ap (λ r. r.0) result
              ∙ ap (λ x. step_next crc_update x frame)
                  (k.unchanged fnode_not_tracked (sym (ap (λ r. r.1) result) ∙ e)),
        )
  ]
