-- ===== src/RecoveryLog/Replay/Frames.antt =====
-- An operation that a recorder (v2/pkg/recoverylog/recorder.go) has processed, read and applied by a
-- player (v2/pkg/recoverylog/playback.go).
use gazette.Prelude.{
  ℕ, ◌≡◌, refl, sym, ap, ◌∙◌, true, Option, none, some, [], ◌++◌, Bytes, length, drop,
}
use gazette.Message.Reader.{Reader}
use gazette.Message.FixedFraming.{header_length, Marshaler, encoded}
use gazette.Message.FixedFraming.Unpacking.{IsReader}
use gazette.Message.FixedFraming.RoundTrip.{
  IsFramable, IsFrame, encode-IsFrame, unpack-IsFrame, unmarshal-IsFrame,
}
use gazette.RecoveryLog.Fsm.{Fsm, RecordedOp, Outcome, apply}
use gazette.RecoveryLog.Recorder.{
  Run, returned, panicked, Session, stamped, applied, process_frame, process,
}
use gazette.RecoveryLog.Player.{
  is_success, at_offset, Decoded, decoded, decode_unpacked, decode_frame, decode_operation,
  apply_operation,
}
use gazette.RecoveryLog.Replay.{bared, Alike}
use gazette.RecoveryLog.Replay.Step.{apply-Alike}

-- What a run returned; `m` or `b` if it panicked.
abbrev fsm_or : Fsm → Run Session → Fsm
fsm_or m (returned t) = t.recorder.fsm
fsm_or m (panicked p) = m

abbrev written_or : Bytes → Run Session → Bytes
written_or b (returned t) = t.written
written_or b (panicked p) = b

applied-result :
    (s t : Session) (o : Outcome)
    → applied s o ≡ returned t
    → (o ≡ (t.recorder.fsm, none)) × (s.written ≡ t.written)
applied-result s t (m, none) e = (ap (λ x. (fsm_or m x, none)) e, ap (written_or []) e)
applied-result s t (m, some err) e = cc

module _ (crc_update : ℕ → Bytes → ℕ) (marshaler : RecordedOp → Option Marshaler)
    (parse : Bytes → Option RecordedOp) where
  -- The operation that the recorder's machine is given.
  abbrev given : Session → RecordedOp → RecordedOp
  given s op = record (stamped s.recorder op) { first_offset = s.recorder.write_head }

  -- The frame that is written is given to the machine.
  record IsProcessed (s t : Session) (op : RecordedOp) (frame : Bytes) : Type 0 where
    pub framed : IsFrame marshaler parse none (stamped s.recorder op) frame
    pub appends : t.written ≡ s.written ++ frame
    pub applies :
        apply crc_update s.recorder.fsm (given s op) (drop header_length frame)
        ≡ (t.recorder.fsm, none)

  process-IsProcessed :
      (s t : Session) (op : RecordedOp)
      → process crc_update marshaler s op ≡ returned t
      → IsFramable marshaler parse none (stamped s.recorder op)
      → (frame : Bytes) × IsProcessed s t op frame
  unfolding process
  process-IsProcessed s t op e framable =
      let (frame, f, is_frame) =
        encode-IsFrame marshaler parse none (stamped s.recorder op) s.recorder.buf framable in
      let e' : process_frame crc_update marshaler s (stamped s.recorder op) (encoded frame)
          ≡ returned t =
        ap (process_frame crc_update marshaler s (stamped s.recorder op)) (sym f) ∙ e in
      let mid : Session = record s {
        recorder = record s.recorder { buf = frame ++ drop (length frame) s.recorder.buf };
        written = s.written ++ frame;
      } in
      let (o, w) = applied-result mid t _ e' in
      (frame, record { framed = is_frame; appends = sym w; applies = o })

  -- What a player of an alike machine makes of content that begins with a frame: the operation with
  -- its place in the log, a reader of what follows, and again an alike machine.
  pub record PlaysBack (s t : Session) (op : RecordedOp) (frame : Bytes) (m : Fsm) (offset : ℕ)
      (rest : Bytes) (d : Decoded) : Type 0 where
    pub reader : Reader
    pub decodes : d ≡ decoded (at_offset (stamped s.recorder op) offset frame) frame reader
    pub is_reader : IsReader reader
    pub follows : reader.content ≡ rest
    pub applied :
        (apply_operation crc_update (at_offset (stamped s.recorder op) offset frame) frame m).1
        ≡ true
    pub alike :
        Alike
          (apply_operation crc_update (at_offset (stamped s.recorder op) offset frame) frame m).0
          t.recorder.fsm

  -- An operation that a recorder processes without a panic appends one frame to its transaction. A
  -- player whose machine equals the recorder's except in the segments of live nodes, and which
  -- reads content that begins with that frame, decodes the same operation with its place in the
  -- log, leaves its reader after the frame, and applies the operation without an error; its machine
  -- then again equals the recorder's in that way. The operation as stamped marshals within 32 bits
  -- of size, and parses back.
  pub process-PlaysBack :
      (s t : Session) (op : RecordedOp)
      → process crc_update marshaler s op ≡ returned t
      → IsFramable marshaler parse none (stamped s.recorder op)
      → (frame : Bytes) × (t.written ≡ s.written ++ frame)
        × ((m : Fsm) (r : Reader) (rest : Bytes) (extra more offset : ℕ)
            → Alike m s.recorder.fsm
            → IsReader r
            → r.content ≡ frame ++ rest
            → PlaysBack s t op frame m offset rest (decode_operation parse extra more r offset))
  unfolding decode_operation
  process-PlaysBack s t op e framable =
      let (frame, p) = process-IsProcessed s t op e framable in
      (
        frame,
        p.appends,
        λ m r rest extra more offset alike buffer c.
            let msg = stamped s.recorder op in
            let (r', u, h, follows) =
              unpack-IsFrame marshaler parse none msg frame rest extra more r buffer p.framed c in
            let same =
              apply-Alike crc_update m s.recorder.fsm (at_offset msg offset frame) (given s op)
                (drop header_length frame) alike refl
              ∙ ap bared p.applies in
            record {
              reader = r';
              decodes =
                  ap (λ x. decode_unpacked parse offset x) u
                  ∙ ap (λ x. decode_frame offset frame r' x)
                      (unmarshal-IsFrame marshaler parse none msg frame p.framed);
              is_reader = h;
              follows = follows;
              applied = ap (λ x. is_success x.1) same;
              alike = ap (λ x. x.0) same;
            },
      )
