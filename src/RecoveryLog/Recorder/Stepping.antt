-- ===== src/RecoveryLog/Recorder/Stepping.antt =====
-- How one operation that the recorder processes (v2/pkg/recoverylog/recorder.go) moves its machine.
use mathlib.Core.Path.{subst}
use gazette.Prelude.{
  ℕ, suc, ◌+◌, ◌≡◌, refl, sym, ap, ◌∙◌, true, false, Option, none, some, List, [], ◌∷◌, ◌++◌, arith,
  Bytes, ◌==◌, length, drop,
}
use gazette.Go.Map.{bytes_key, nat_key, lookup}
use gazette.Message.FixedFraming.{
  header_length, magic_word, put_uint32, Marshaler, encoded, encode, frame_region,
}
use gazette.RecoveryLog.Segment.{Segment}
use gazette.RecoveryLog.Fsm.{
  Fsm, RecordedOp, apply_op, expects, pop_segment, other_author, step_next, apply,
}
use gazette.RecoveryLog.Fsm.Kept.{apply_op-IsKept}
use gazette.RecoveryLog.Fsm.Apply.{IsPlayable, apply-IsPlayable}
use gazette.RecoveryLog.Recorder.{is_property_path, Run, returned, ◌>>=◌, Session, stamped, process}

-- A call that does not panic, with what holds of its result.
pub data Returns {a p} {A : Type a} (P : A → Type p) : Run A → Type (a ⊔ p) where
  returns : {result : A} → P result → Returns P (returned result)

-- A part of a call that returns, and the rest of the call.
module _ {a b p q} {A : Type a} {B : Type b} {P : A → Type p} {Q : B → Type q} where
  pub Returns-bind :
      {first : Run A} {next : A → Run B}
      → Returns P first
      → ((result : A) → P result → Returns Q (next result))
      → Returns Q (first >>= next)
  Returns-bind (returns holds) rest = rest _ holds

-- A recorder's machine plays no hints, and only the property file has a property.
pub record IsRecording (m : Fsm) : Type 0 where
  pub playable : IsPlayable m
  pub no_segments : m.hinted_segments ≡ []
  pub no_fnodes : m.hinted_fnodes ≡ []
  pub files : (p : Bytes) (f : ℕ) → lookup p m.links ≡ some f → is_property_path p ≡ false
  pub properties_held : (p c : Bytes) → lookup p m.properties ≡ some c → is_property_path p ≡ true

-- Each marshaler writes what it is asked to.
abbrev pub Marshals : (RecordedOp → Option Marshaler) → Type 0
Marshals marshaler =
    (op : RecordedOp)
    → (q : Marshaler) × (marshaler op ≡ some q)
      × ((dst : Bytes) → (payload : Bytes) × (q.marshal_to dst ≡ some payload))

other_author-none : (ss : List Segment) (author : ℕ) → ss ≡ [] → other_author ss author ≡ false
other_author-none [] author h = refl
other_author-none (s ∷ ss) author h = cc

pop_segment-none : (m : Fsm) (ss : List Segment) → ss ≡ [] → pop_segment m ss ≡ m
unfolding pop_segment
pop_segment-none m [] h = refl
pop_segment-none m (s ∷ ss) h = cc

pub expects-none : (fs : List ℕ) (n : ℕ) → fs ≡ [] → expects fs n ≡ false
expects-none [] n h = refl
expects-none (f ∷ fs) n h = cc

module _ (crc_update : ℕ → Bytes → ℕ) where
  -- The machine at the next sequence number.
  abbrev pub stepped : Fsm → Bytes → Fsm
  stepped m frame = record m {
    next_seq_no = suc m.next_seq_no;
    next_checksum = crc_update m.next_checksum frame;
  }

  pub apply-stepped :
      (m n : Fsm) (op : RecordedOp) (frame : Bytes)
      → m.hinted_segments ≡ []
      → op.seq_no ≡ m.next_seq_no
      → op.checksum ≡ m.next_checksum
      → apply_op m op ≡ (n, none)
      → apply crc_update m op frame ≡ (stepped n frame, none)
  unfolding apply step_next
  apply-stepped m n op frame none_hinted seq sum e =
      let a = other_author-none m.hinted_segments op.author none_hinted in
      let b : (op.seq_no == m.next_seq_no) ≡ true = ground (arith, seq) in
      let c : (op.checksum == m.next_checksum) ≡ true = ground (arith, sum) in
      let d : n.hinted_segments ≡ [] =
        sym (ap (λ r. r.0.hinted_segments) e)
        ∙ (apply_op-IsKept m op).same_segments
        ∙ none_hinted in
      rw (apply, a, b, c, e)
        (ap (λ x. (x, none)) (pop_segment-none (stepped n frame) n.hinted_segments d))

  module _ (marshaler : RecordedOp → Option Marshaler) where
    -- The session after a frame that took the machine to `n`.
    abbrev pub after : Session → Bytes → Fsm → Session
    after s frame n = record {
      recorder = record s.recorder {
        buf = frame ++ drop (length frame) s.recorder.buf;
        fsm = stepped n (drop header_length frame);
      };
      written = s.written ++ frame;
    }

    -- The operation that the machine is given.
    abbrev pub given : Session → RecordedOp → RecordedOp
    given s op = record (stamped s.recorder op) { first_offset = s.recorder.write_head }

    encode-succeeds :
        (op : RecordedOp) (spare : Bytes)
        → Marshals marshaler
        → (frame : Bytes) × (encode marshaler op [] spare ≡ encoded frame)
    unfolding encode
    encode-succeeds op spare marshals =
        let (q, e, writes) = marshals op in
        let (payload, w) =
          writes (drop header_length (frame_region (header_length + q.proto_size) spare)) in
        (magic_word ++ put_uint32 q.proto_size ++ payload, rw (encode, e, w) refl)

    pub process-Returns {κ} :
        {P : Session → Type κ} (s : Session) (op : RecordedOp) (n : Fsm)
        → Marshals marshaler
        → s.recorder.fsm.hinted_segments ≡ []
        → apply_op s.recorder.fsm (given s op) ≡ (n, none)
        → ((frame : Bytes) → P (after s frame n))
        → Returns P (process crc_update marshaler s op)
    unfolding process
    process-Returns s op n marshals hinted e k =
        let (frame, f) = encode-succeeds (stamped s.recorder op) s.recorder.buf marshals in
        let g =
          apply-stepped s.recorder.fsm n (given s op) (drop header_length frame) hinted refl refl
            e in
        rw (process, f, g) (returns (k frame))

    -- The invariant of the machine after an operation that keeps links off property files.
    pub after-IsRecording :
        (s : Session) (op : RecordedOp) (n : Fsm) (frame : Bytes)
        → IsRecording s.recorder.fsm
        → apply_op s.recorder.fsm (given s op) ≡ (n, none)
        → n.hinted_fnodes ≡ s.recorder.fsm.hinted_fnodes
        → ((p : Bytes) (f : ℕ) → lookup p n.links ≡ some f → is_property_path p ≡ false)
        → ((p c : Bytes) → lookup p n.properties ≡ some c → is_property_path p ≡ true)
        → IsRecording (after s frame n).recorder.fsm
    after-IsRecording s op n frame rec e fnodes files props =
        let m = s.recorder.fsm in
        let body = drop header_length frame in
        let g = apply-stepped m n (given s op) body rec.no_segments refl refl e in
        let k = apply_op-IsKept m (given s op) in
        record {
          playable =
              subst (λ r. IsPlayable r.0) g
                (apply-IsPlayable crc_update m (given s op) body rec.playable);
          no_segments = sym (ap (λ r. r.0.hinted_segments) e) ∙ k.same_segments ∙ rec.no_segments;
          no_fnodes = fnodes ∙ rec.no_fnodes;
          files = files;
          properties_held = props;
        }
