-- ===== src/RecoveryLog/Player/Play.antt =====
-- A played operation (v2/pkg/recoverylog/playback.go) keeps the machine and the files in agreement.
use gazette.Prelude.{
  ℕ, ◌≡◌, ◌≢◌, refl, sym, ap, ◌∙◌, true, false, Option, none, some, [], arith, Bytes, Bool-cases,
  Option-cases, inl, inr, drop,
}
use gazette.Go.Map.{bytes_key, nat_key, lookup}
use gazette.Message.Reader.{Reader}
use gazette.Message.FixedFraming.{
  header_length, unpacked, not_unpacked, unpack_panics, Unpacked, unpack, Unmarshaled, unmarshaled,
  refused, unmarshal_panics, unmarshal, not_frameable, marshal_failed, desync_detected,
  unmarshal_failed, fixup_failed,
}
use gazette.Message.FixedFraming.Unpacking.{IsReader, Taken, unpack-Taken}
use gazette.RecoveryLog.Fsm.{Fsm, RecordedOp, Error, is_set, is_applied, apply_op, apply}
use gazette.RecoveryLog.Fsm.Kept.{apply_op-IsKept}
use gazette.RecoveryLog.Fsm.Apply.{IsPlayable, apply-IsPlayable, apply-cases}
use gazette.RecoveryLog.Copy.{Copied, copied, cut_short, write_failed, copy_panics, out_of_fuel}
use gazette.RecoveryLog.Copy.Total.{TakesAll, Copies, copy_signed-Copies}
use gazette.RecoveryLog.Player.{
  Disk, PlayError, file_exists, not_opened, not_removed, invalid_file, unwritten, unread,
  not_unmarshaled, Playing, played, aborted, crashed, Files, discarding, write_size, Decoded,
  decoded, desynced, undecoded, decode_panics, Step, step_of, skipped, is_success, decode_frame,
  decode_unpacked, decode_operation, apply_operation, after_apply, play_decoded, play_operation,
}
use gazette.RecoveryLog.Player.Nodes.{is_live, step_next-live}
use gazette.RecoveryLog.Player.Staged.{Matches, Reenacts, IsSingle, IsSized, reenact-Reenacts}

-- What playing an operation may come to: it goes on in agreement, or stops at an error of the disk or
-- of the log, never at a file that is missing or already there.
abbrev pub Plays : Playing Step → Type 0
Plays (played s) = IsPlayable s.fsm × Matches s.fsm s.files × IsReader s.reader
Plays (aborted file_exists) = ⊥
Plays (aborted invalid_file) = ⊥
Plays (aborted not_opened) = Unit
Plays (aborted not_removed) = Unit
Plays (aborted unwritten) = Unit
Plays (aborted (unread e)) = Unit
Plays (aborted (not_unmarshaled e)) = Unit
Plays crashed = ⊥

step_of-Plays :
    (op : RecordedOp) (m : Fsm) (x : Playing (Files × Reader))
    → IsPlayable m
    → Reenacts m x
    → Plays (step_of op m x)
step_of-Plays op m (played (files, r)) p h = (p, h.0, h.1)
step_of-Plays op m (aborted file_exists) p h = h
step_of-Plays op m (aborted invalid_file) p h = h
step_of-Plays op m (aborted not_opened) p h = tt
step_of-Plays op m (aborted not_removed) p h = tt
step_of-Plays op m (aborted unwritten) p h = tt
step_of-Plays op m (aborted (unread e)) p h = tt
step_of-Plays op m (aborted (not_unmarshaled e)) p h = absurd h
step_of-Plays op m crashed p h = h

skipped-Plays :
    (op : RecordedOp) (m : Fsm) (files : Files) (r : Reader) (c : Copied)
    → IsPlayable m
    → Matches m files
    → Copies r (write_size op) [] c
    → Plays (skipped op m files c)
skipped-Plays op m files r (copied b rest) p same h = (p, same, h.3)
skipped-Plays op m files r (cut_short e) p same h = tt
skipped-Plays op m files r write_failed p same h = tt
skipped-Plays op m files r copy_panics p same h = h
skipped-Plays op m files r out_of_fuel p same h = h

none_of : (o : Option Error) → is_success o ≡ true → o ≡ none
none_of none h = refl
none_of (some e) h = cc

module _ (crc_update : ℕ → Bytes → ℕ) (m : Fsm) (op : RecordedOp) (body : Bytes) where
  -- Without success, the live Fnodes are as before.
  unapplied-live :
      is_success (apply crc_update m op body).1 ≡ false
      → (g : ℕ) → is_live (apply crc_update m op body).0 g ≡ is_live m g
  unapplied-live h g = elim (apply-cases crc_update m op body) [
    | inl (a, same) ↦ ap (λ k. is_live k g) same
    | inr (a, b, c, d, result) ↦
        let x = apply_op m op in
        let (err, e) = some_of x.1 (sym (ap (λ y. is_success y.1) result) ∙ h) in
        ap (λ y. is_live y.0 g) result
        ∙ ap (λ l. is_set (lookup g l)) (step_next-live crc_update x.0 body)
        ∙ ap (λ k. is_live k g) ((apply_op-IsKept m op).unchanged err e)
  ]
    where
      some_of : (o : Option Error) → is_success o ≡ false → (e : Error) × (o ≡ some e)
      some_of none q = cc
      some_of (some e) q = (e, refl)

  -- With success, the operation is applied and the machine is moved on.
  applied-live :
      is_success (apply crc_update m op body).1 ≡ true
      → (op.seq_no ≡ m.next_seq_no)
        × (apply_op m op ≡ ((apply_op m op).0, none))
        × ((g : ℕ) → is_live (apply crc_update m op body).0 g ≡ is_live (apply_op m op).0 g)
  applied-live h = elim (apply-cases crc_update m op body) [
    | inl (a, same) ↦
        absurd (ground (arith, a, ap is_applied (none_of (apply crc_update m op body).1 h)))
    | inr (a, b, c, d, result) ↦
        let x = apply_op m op in
        (
          b,
          ap (λ o. (x.0, o)) (none_of x.1 (sym (ap (λ y. is_success y.1) result) ∙ h)),
          λ g.
              ap (λ y. is_live y.0 g) result
              ∙ ap (λ l. is_set (lookup g l)) (step_next-live crc_update x.0 body),
        )
  ]

-- The next sequence number is that of no live Fnode.
next-fresh : (m : Fsm) (f : ℕ) → IsPlayable m → f ≡ m.next_seq_no → is_live m f ≡ false
next-fresh m f p e = elim (Option-cases (lookup f m.live_nodes)) [
  | inl h ↦ ap is_set h
  | inr (node, h) ↦ absurd (omega (arith, e, p.consistent.below f node h))
]

error-Plays : (e : PlayError) → e ≢ file_exists → e ≢ invalid_file → Plays (aborted e)
error-Plays file_exists a b = a refl
error-Plays invalid_file a b = b refl
error-Plays not_opened a b = tt
error-Plays not_removed a b = tt
error-Plays unwritten a b = tt
error-Plays (unread e) a b = tt
error-Plays (not_unmarshaled e) a b = tt

-- What decoding leaves.
abbrev DecodesWell : Decoded → Type 0
DecodesWell (decoded op frame r) = IsReader r
DecodesWell (desynced op r) = IsReader r
DecodesWell (undecoded e) = (e ≢ file_exists) × (e ≢ invalid_file)
DecodesWell decode_panics = Unit

decode_frame-Well :
    (offset : ℕ) (frame : Bytes) (r : Reader) (u : Unmarshaled RecordedOp)
    → IsReader r
    → DecodesWell (decode_frame offset frame r u)
decode_frame-Well offset frame r (unmarshaled op) h = h
decode_frame-Well offset frame r (refused not_frameable) h = (λ e. cc, λ e. cc)
decode_frame-Well offset frame r (refused marshal_failed) h = (λ e. cc, λ e. cc)
decode_frame-Well offset frame r (refused desync_detected) h = h
decode_frame-Well offset frame r (refused unmarshal_failed) h = (λ e. cc, λ e. cc)
decode_frame-Well offset frame r (refused fixup_failed) h = (λ e. cc, λ e. cc)
decode_frame-Well offset frame r unmarshal_panics h = tt

decode_unpacked-Well :
    (parse : Bytes → Option RecordedOp) (offset : ℕ) (r : Reader) (u : Unpacked)
    → Taken r u
    → DecodesWell (decode_unpacked parse offset u)
decode_unpacked-Well parse offset r (unpacked frame s) h =
    decode_frame-Well offset frame s (unmarshal (some parse) none frame) h.1
decode_unpacked-Well parse offset r (not_unpacked e s) h = (λ e. cc, λ e. cc)
decode_unpacked-Well parse offset r unpack_panics h = absurd h

module _ (crc_update : ℕ → Bytes → ℕ) (parse : Bytes → Option RecordedOp) (disk : Disk)
    (takes : TakesAll disk.writer) (extras : ℕ → ℕ) (m : Fsm) (files : Files)
    (playable : IsPlayable m) (same : Matches m files) where
  after_apply-Plays :
      (op : RecordedOp) (frame : Bytes) (r : Reader)
      → IsReader r
      → IsSingle op × IsSized op
      → Plays (after_apply disk extras op files r (apply_operation crc_update op frame m))
  after_apply-Plays op frame r buffer single =
      let body = drop header_length frame in
      let k = (apply crc_update m op body).0 in
      let p = apply-IsPlayable crc_update m op body playable in
      elim (Bool-cases (is_success (apply crc_update m op body).1)) [
        | inl q ↦
            let (seq, e, w) = applied-live crc_update m op body q in
            rw q (
              step_of-Plays op k _ p (
                reenact-Reenacts disk takes extras m _ k op e w r buffer files same single.0
                  single.1 (next-fresh m op.seq_no playable seq)))
        | inr q ↦ rw q (
            skipped-Plays op k files r _ p (λ g. unapplied-live crc_update m op body q g ∙ same g)
              (copy_signed-Copies discarding (λ out b e. refl) extras r (write_size op) single.1
                buffer))
      ]

  play_decoded-Plays :
      (d : Decoded)
      → DecodesWell d
      → d ≢ decode_panics
      → ((op : RecordedOp) (frame : Bytes) (r : Reader)
          → d ≡ decoded op frame r
          → IsSingle op × IsSized op)
      → Plays (play_decoded disk extras crc_update m files d)
  play_decoded-Plays (decoded op frame r) h safe single =
      after_apply-Plays op frame r h (single op frame r refl)
  play_decoded-Plays (desynced op r) h safe single = (playable, same, h)
  play_decoded-Plays (undecoded e) h safe single = error-Plays e h.0 h.1
  play_decoded-Plays decode_panics h safe single = absurd (safe refl)

  -- The machine is playable, the staged files are those of the live Fnodes, and the reader is in
  -- order; the frame decodes without a panic, its operation is of one kind, a write in it is not of
  -- negative length, and a write to a file that returns no error takes all bytes. Then playing the
  -- operation does not panic, never finds a file to create that exists, and never misses a file to
  -- unlink or to write; if it returns without an error, the machine, the files and the reader are as
  -- they were required. Other errors of the disk and of the log are returned.
  pub play_operation-Plays :
      (extra more offset : ℕ) (r : Reader)
      → IsReader r
      → decode_operation parse extra more r offset ≢ decode_panics
      → ((op : RecordedOp) (frame : Bytes) (s : Reader)
          → decode_operation parse extra more r offset ≡ decoded op frame s
          → IsSingle op × IsSized op)
      → Plays (play_operation disk extras crc_update parse extra more r offset m files)
  unfolding play_operation decode_operation
  play_operation-Plays extra more offset r buffer safe single =
      play_decoded-Plays _
        (decode_unpacked-Well parse offset r (unpack extra more r)
          (unpack-Taken extra more r buffer))
        safe single
