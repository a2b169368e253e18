-- ===== src/RecoveryLog/Player/Staged.antt =====
-- The staged files of a player (v2/pkg/recoverylog/playback.go) are those of the live Fnodes.
use mathlib.Core.Path.{subst}
use gazette.Prelude.{
  ℕ, ◌≡◌, ◌⊎◌, refl, sym, ap, ◌∙◌, Bool, true, false, Option, none, some, [], arith, Bytes,
  if◌then◌else◌, ◌==◌, Bool-cases, Option-cases, inl, inr,
}
use gazette.Go.Map.{bytes_key, nat_key, lookup, insert, delete, lookup-insert, lookup-delete}
use gazette.Message.Reader.{Reader}
use gazette.Message.FixedFraming.Unpacking.{IsReader}
use gazette.RecoveryLog.Fsm.{Fsm, RecordedOp, is_set, apply_op}
use gazette.RecoveryLog.Copy.{
  Copied, copied, cut_short, write_failed, copy_panics, out_of_fuel, is_negative,
}
use gazette.RecoveryLog.Copy.Total.{TakesAll, Copies, copy_signed-Copies}
use gazette.RecoveryLog.Player.{
  Disk, file_exists, not_opened, not_removed, invalid_file, unwritten, unread, not_unmarshaled,
  Playing, played, aborted, crashed, Files, create, removed, unlink, wrote, write, with_reader,
  reenact_operation, size_of, write_size,
}
use gazette.RecoveryLog.Player.Facts.{create-Adds, unlink-Touches, write-Keeps, other-KeepsAll}
use gazette.RecoveryLog.Player.Nodes.{is_live, Adds, Touches, Keeps, KeepsAll}

abbrev pub is_staged : Files → ℕ → Bool
is_staged files f = is_set (lookup f files)

-- Each live Fnode has a file, and no other has.
abbrev pub Matches : Fsm → Files → Type 0
Matches m files = (f : ℕ) → is_live m f ≡ is_staged files f

-- A reenactment leaves matching files, unless the disk or the log fails: it finds each file that it
-- needs, and none that it creates.
abbrev pub Reenacts : Fsm → Playing (Files × Reader) → Type 0
Reenacts m (played (files, r)) = Matches m files × IsReader r
Reenacts m (aborted file_exists) = ⊥
Reenacts m (aborted invalid_file) = ⊥
Reenacts m (aborted not_opened) = Unit
Reenacts m (aborted not_removed) = Unit
Reenacts m (aborted unwritten) = Unit
Reenacts m (aborted (unread e)) = Unit
Reenacts m (aborted (not_unmarshaled e)) = ⊥
Reenacts m crashed = ⊥

staged-insert :
    (f g : ℕ) (content : Bytes) (files : Files)
    → is_staged (insert f content files) g ≡ (if f == g then true else is_staged files g)
staged-insert f g content files = ground (arith, lookup-insert f g content files)

staged-delete :
    (f g : ℕ) (files : Files)
    → is_staged (delete f files) g ≡ (if f == g then false else is_staged files g)
staged-delete f g files = ground (arith, lookup-delete f g files)

module _ (disk : Disk) (r : Reader) (buffer : IsReader r) (files : Files) where
  create-Reenacts :
      (f : ℕ) (m n : Fsm)
      → Matches m files
      → is_live m f ≡ false
      → Adds f m (n, none)
      → Reenacts n (with_reader r (create disk f files))
  unfolding create
  create-Reenacts f m n same fresh adds =
      let a : is_staged files f ≡ false = sym (same f) ∙ fresh in
      elim (Bool-cases (disk.opens f)) [
        | inr q ↦ rw (create, a, q) tt
        | inl q ↦
            rw (create, a, q)
              (
                λ g.
                    adds g
                    ∙ ap (λ x. if f == g then true else x) (same g)
                    ∙ sym (staged-insert f g [] files),
                buffer,
              )
      ]

  removed-Reenacts :
      (f : ℕ) (n : Fsm) (o : Option Bytes)
      → is_set o ≡ true
      → Matches n (delete f files)
      → Reenacts n (with_reader r (removed disk f files o))
  removed-Reenacts f n none h same = cc
  removed-Reenacts f n (some content) h same = elim (Bool-cases (disk.removes f)) [
    | inl q ↦ rw q (same, buffer)
    | inr q ↦ rw q tt
  ]

  unlink-Reenacts :
      (f : ℕ) (m n : Fsm)
      → Matches m files
      → Touches f m (n, none)
      → Reenacts n (with_reader r (unlink disk f n files))
  unfolding unlink
  unlink-Reenacts f m n same (live, others) =
      let a : is_staged files f ≡ true = sym (same f) ∙ live in
      elim (Bool-cases (is_live n f)) [
        | inl q ↦
            rw (unlink, q)
              (
                λ g. elim (Bool-cases (f == g)) [
                  | inl e ↦
                      let fg : f ≡ g = ground (arith, e) in
                      subst (λ k. is_live n k ≡ is_staged files k) fg (q ∙ sym a)
                  | inr e ↦ others g e ∙ same g
                ],
                buffer,
              )
        | inr q ↦
            rw (unlink, q)
              (removed-Reenacts f n (lookup f files) a λ g. elim (Bool-cases (f == g)) [
                | inl e ↦
                    let fg : f ≡ g = ground (arith, e) in
                    subst (λ k. is_live n k ≡ is_staged (delete f files) k) fg
                      (q ∙ sym (staged-delete f f files ∙ ground arith))
                | inr e ↦ others g e ∙ same g ∙ sym (staged-delete f g files ∙ (rw e refl))
              ])
      ]

  wrote-Reenacts :
      (f offset size : ℕ) (content : Bytes) (n : Fsm) (c : Copied)
      → Matches n files
      → is_live n f ≡ true
      → Copies r size [] c
      → Reenacts n (wrote disk f offset content files c)
  wrote-Reenacts f offset size content n (copied b rest) same live h = (
    λ g. elim (Bool-cases (f == g)) [
      | inl e ↦
          let fg : f ≡ g = ground (arith, e) in
          ap (λ k. is_live n k) (sym fg) ∙ live ∙ sym (staged-insert f g _ files ∙ (rw e refl))
      | inr e ↦ same g ∙ sym (staged-insert f g _ files ∙ (rw e refl))
    ],
    h.3,
  )
  wrote-Reenacts f offset size content n (cut_short e) same live h = tt
  wrote-Reenacts f offset size content n write_failed same live h = tt
  wrote-Reenacts f offset size content n copy_panics same live h = h
  wrote-Reenacts f offset size content n out_of_fuel same live h = h

  write-Reenacts :
      (extras : ℕ → ℕ) (f offset size : ℕ) (m n : Fsm)
      → TakesAll disk.writer
      → Matches m files
      → Keeps f m (n, none)
      → is_negative size ≡ false
      → Reenacts n (write disk extras f offset size r files)
  unfolding write
  write-Reenacts extras f offset size m n takes same (live, all) positive =
      elim (Option-cases (lookup f files)) [
        | inl h ↦ absurd (ground (arith, live, same f, h))
        | inr (content, h) ↦ elim (Bool-cases (is_negative offset)) [
          | inl q ↦ rw (write, h, q) tt
          | inr q ↦
              rw (write, h, q)
                (wrote-Reenacts f offset size content n _ (λ g. all g ∙ same g) (all f ∙ live)
                  (copy_signed-Copies disk.writer takes extras r size positive buffer))
        ]
      ]

-- The length of a write is not negative.
abbrev pub IsSized : RecordedOp → Type 0
IsSized op = is_negative (write_size op) ≡ false

-- An operation is of one kind, as far as a player can tell.
abbrev pub IsSingle : RecordedOp → Type 0
IsSingle op = (op.link ≡ none) ⊎ ((op.unlink ≡ none) × (op.write ≡ none))

module _ (disk : Disk) (takes : TakesAll disk.writer) (extras : ℕ → ℕ) (m n k : Fsm)
    (op : RecordedOp) (e : apply_op m op ≡ (n, none)) (w : (g : ℕ) → is_live k g ≡ is_live n g)
    (r : Reader) (buffer : IsReader r) (files : Files) (same : Matches m files) where
  other-Reenacts :
      op.create ≡ none
      → op.unlink ≡ none
      → op.write ≡ none
      → Reenacts k (reenact_operation disk extras op k r files)
  unfolding reenact_operation
  other-Reenacts a b c =
      let all = subst (λ x. KeepsAll m x) e (other-KeepsAll m op a b c) in
      rw (reenact_operation, a, b, c) (λ g. w g ∙ all g ∙ same g, buffer)

  pub reenact-Reenacts :
      IsSingle op
      → IsSized op
      → is_live m op.seq_no ≡ false
      → Reenacts k (reenact_operation disk extras op k r files)
  unfolding reenact_operation
  reenact-Reenacts single sized fresh = elim (Option-cases op.create) [
    | inr (path, a) ↦
        let adds = subst (λ x. Adds op.seq_no m x) e (create-Adds m op path a) in
        rw (reenact_operation, a)
          (create-Reenacts disk r buffer files op.seq_no m k same fresh (λ g. w g ∙ adds g))
    | inl a ↦ elim single [
      | inr (b, c) ↦ other-Reenacts a b c
      | inl l ↦ elim (Option-cases op.unlink) [
        | inr ((f, path), b) ↦
            let t = subst (λ x. Touches f m x) e (unlink-Touches m op f path a l b) in
            rw (reenact_operation, a, b)
              (unlink-Reenacts disk r buffer files f m k same (t.0, λ g h. w g ∙ t.1 g h))
        | inl b ↦ elim (Option-cases op.write) [
          | inl c ↦ other-Reenacts a b c
          | inr ((f, offset, size), c) ↦
              let t = subst (λ x. Keeps f m x) e (write-Keeps m op f offset size a l b c) in
              rw (reenact_operation, a, b, c)
                (write-Reenacts disk r buffer files extras f offset size m k takes same
                  (t.0, λ g. w g ∙ t.1 g) (sym (ap (λ o. is_negative (size_of o)) c) ∙ sized))
        ]
      ]
    ]
  ]
