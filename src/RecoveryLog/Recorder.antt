-- ===== src/RecoveryLog/Recorder.antt =====
-- v2/pkg/recoverylog/recorder.go. An append transaction of the client is a number with a status, and
-- its writer is the list of bytes it has been given. A panic ends a call; a file system's answer, the
-- transactions and the message's own encoding are parameters.
pub mod Stepping
pub mod Turning
pub mod Operations
pub mod Moves
pub mod Calls
use gazette.Prelude.{
  ℕ, ◌+◌, ◌-◌, Bool, true, false, Option, none, some, List, [], ◌∷◌, ◌++◌, ltb, if◌then◌else◌,
  Bytes, bytes_eq, length, drop,
}
use gazette.Go.Map.{bytes_key, lookup}
use gazette.Message.FixedFraming.{
  header_length, FrameError, Marshaler, Encoded, encoded, not_encoded, encode,
}
use gazette.RecoveryLog.Fsm.{Fsm, RecordedOp, Error, Outcome, apply}

-- "/IDENTITY", the one property file.
abbrev pub identity_path : Bytes
identity_path = 47 ∷ 73 ∷ 68 ∷ 69 ∷ 78 ∷ 84 ∷ 73 ∷ 84 ∷ 89 ∷ []

abbrev pub is_property_path : Bytes → Bool
is_property_path path = bytes_eq identity_path path

-- A transaction that is still under way, that failed, or that committed up to an offset.
pub data TxnStatus : Type 0 where
  pending aborted : TxnStatus
  committed : ℕ → TxnStatus

-- `buf` is the scratch buffer up to its capacity.
pub record Recorder : Type 0 where
  pub fsm : Fsm
  pub id : ℕ
  pub strip_len : ℕ
  pub write_head : ℕ
  pub recent_txn : Option ℕ
  pub buf : Bytes

pub data Panic : Type 0 where
  property_path unknown_path unread_property invalid_write_head slice_bounds release_failed : Panic
  encode_failed : FrameError → Panic
  fsm_error : Error → Panic

pub data Run {ℓ} (A : Type ℓ) : Type ℓ where
  returned : A → Run A
  panicked : Panic → Run A

infixl 5 ◌>>=◌
abbrev pub ◌>>=◌ {ℓ κ} : {A : Type ℓ} {B : Type κ} → Run A → (A → Run B) → Run B
returned a >>= f = f a
panicked p >>= f = panicked p

-- A recorder that holds a transaction, with what has been written to it.
pub record Session : Type 0 where
  pub recorder : Recorder
  pub written : Bytes

-- The transaction that a call begins, what is known of transactions then, and whether it is released.
pub record Append : Type 0 where
  pub txn : ℕ
  pub status : ℕ → TxnStatus
  pub releases : Bool

abbrev pub blank_op : RecordedOp
blank_op = record {
  seq_no = 0;
  checksum = 0;
  author = 0;
  first_offset = 0;
  last_offset = 0;
  create = none;
  link = none;
  unlink = none;
  write = none;
  property = none;
}

abbrev pub new_create_op : Bytes → RecordedOp
new_create_op path = record blank_op { create = some path }

abbrev pub new_link_op : ℕ → Bytes → RecordedOp
new_link_op fnode path = record blank_op { link = some (fnode, path) }

abbrev pub new_unlink_op : ℕ → Bytes → RecordedOp
new_unlink_op fnode path = record blank_op { unlink = some (fnode, path) }

abbrev pub new_write_op : ℕ → ℕ → ℕ → RecordedOp
new_write_op fnode offset size = record blank_op { write = some (fnode, offset, size) }

abbrev pub new_property_op : Bytes → Bytes → RecordedOp
new_property_op path content = record blank_op { property = some (path, content) }

abbrev pub recent_of : Option ℕ → ℕ → ℕ
recent_of none txn = txn
recent_of (some recent) txn = recent

-- What the status of the recent transaction does to the write head.
unfoldable pub observe_recent : Recorder → ℕ → ℕ → TxnStatus → Run Session
observe_recent r recent txn pending =
    returned (record { recorder = record r { recent_txn = some recent }; written = [] })
observe_recent r recent txn aborted =
    returned (record { recorder = record r { recent_txn = some recent }; written = [] })
observe_recent r recent txn (committed end) =
    if ltb end r.write_head
    then panicked invalid_write_head
    else returned
        (record { recorder = record r { write_head = end; recent_txn = some txn }; written = [] })

abbrev pub lock_and_begin_txn : Recorder → Append → Run Session
lock_and_begin_txn r a =
    let recent = recent_of r.recent_txn a.txn in observe_recent r recent a.txn (a.status recent)

abbrev pub unlock_and_release_txn : Append → Session → Run Session
unlock_and_release_txn a s = if a.releases then returned s else panicked release_failed

-- `clean` is path.Clean after filepath.ToSlash.
module _ (clean : Bytes → Bytes) where
  abbrev pub normalize_path : Recorder → Bytes → Run Bytes
  normalize_path r fpath =
      if ltb (length fpath) r.strip_len
      then panicked slice_bounds
      else returned (clean (drop r.strip_len fpath))

-- The operation as the recorder's machine expects it next.
abbrev pub stamped : Recorder → RecordedOp → RecordedOp
stamped r op = record op {
  author = r.id;
  seq_no = r.fsm.next_seq_no;
  checksum = r.fsm.next_checksum;
}

abbrev pub applied : Session → Outcome → Run Session
applied s (m, none) = returned (record s { recorder = record s.recorder { fsm = m } })
applied s (m, some e) = panicked (fsm_error e)

abbrev pub not_property : Bytes → Run (Unit {0})
not_property path = if is_property_path path then panicked property_path else returned tt

abbrev pub fnode_of : Session → Bytes → Run ℕ
fnode_of s path = elim (lookup path s.recorder.fsm.links) [
  | none ↦ panicked unknown_path
  | some fnode ↦ returned fnode
]

-- A file that is recorded, and the next offset to write.
pub record FileRecorder : Type 0 where
  pub fnode : ℕ
  pub offset : ℕ

abbrev pub zero_or : Option ℕ → ℕ
zero_or none = 0
zero_or (some fnode) = fnode

abbrev pub file_at : Session → Bytes → FileRecorder
file_at s path = record { fnode = zero_or (lookup path s.recorder.fsm.links); offset = 0 }

abbrev pub read_content : Option Bytes → Run Bytes
read_content none = panicked unread_property
read_content (some content) = returned content

module _ (crc_update : ℕ → Bytes → ℕ) (marshaler : RecordedOp → Option Marshaler) where
  -- The frame is written, and the machine is given it without its header.
  abbrev pub process_frame : Session → RecordedOp → Encoded → Run Session
  process_frame s op (not_encoded e) = panicked (encode_failed e)
  process_frame s op (encoded frame) =
      applied
        (record s {
          recorder = record s.recorder { buf = frame ++ drop (length frame) s.recorder.buf };
          written = s.written ++ frame;
        })
        (apply crc_update s.recorder.fsm (record op { first_offset = s.recorder.write_head })
          (drop header_length frame))

  unfoldable pub process : Session → RecordedOp → Run Session
  unfolding apply encode
  process s op =
      process_frame s (stamped s.recorder op)
        (encode marshaler (stamped s.recorder op) [] s.recorder.buf)

  -- Unlinks what is linked at a path, if anything is.
  abbrev pub unlink_previous : Session → Bytes → Run Session
  unlink_previous s path = elim (lookup path s.recorder.fsm.links) [
    | none ↦ returned s
    | some fnode ↦ process s (new_unlink_op fnode path)
  ]

  -- A target that is a property gets the content of the file, any other a link.
  abbrev pub property_or_link : Session → ℕ → Bytes → Option Bytes → Run Session
  property_or_link s fnode target content =
      if is_property_path target
      then read_content content >>= (λ c. process s (new_property_op target c))
      else process s (new_link_op fnode target)

  module _ (clean : Bytes → Bytes) where
    unfoldable pub record_create : Recorder → Append → Bytes → Run (Session × FileRecorder)
    unfolding process
    record_create r a fpath = do
      path ← normalize_path clean r fpath
      _ ← not_property path
      s ← lock_and_begin_txn r a
      s ← unlink_previous s path
      s ← process s (new_create_op path)
      done ← unlock_and_release_txn a s
      returned (done, file_at s path)

    unfoldable pub record_remove : Recorder → Append → Bytes → Run Session
    unfolding process
    record_remove r a fpath = do
      path ← normalize_path clean r fpath
      _ ← not_property path
      s ← lock_and_begin_txn r a
      fnode ← fnode_of s path
      s ← process s (new_unlink_op fnode path)
      unlock_and_release_txn a s

    unfoldable pub record_link : Recorder → Append → Bytes → Bytes → Run Session
    unfolding process
    record_link r a src_path target_path = do
      src ← normalize_path clean r src_path
      target ← normalize_path clean r target_path
      _ ← not_property target
      s ← lock_and_begin_txn r a
      fnode ← fnode_of s src
      s ← process s (new_link_op fnode target)
      unlock_and_release_txn a s

    -- `content` is what reading the target yields.
    unfoldable pub record_rename : Recorder → Append → Bytes → Bytes → Option Bytes → Run Session
    unfolding process
    record_rename r a src_path target_path content = do
      src ← normalize_path clean r src_path
      target ← normalize_path clean r target_path
      s ← lock_and_begin_txn r a
      fnode ← fnode_of s src
      s ← unlink_previous s target
      s ← property_or_link s fnode target content
      s ← process s (new_unlink_op fnode src)
      unlock_and_release_txn a s

  -- The operation, then the data.
  abbrev pub frame_append : Session → FileRecorder → Bytes → Run (Session × FileRecorder)
  frame_append s file b = do
    s ← process s (new_write_op file.fnode file.offset (length b))
    returned
        (record s { written = s.written ++ b }, record file { offset = file.offset + length b })

  unfoldable pub record_write :
      Recorder → Append → FileRecorder → Bytes → Run (Session × FileRecorder)
  unfolding process
  record_write r a file data' = do
    s ← lock_and_begin_txn r a
    (s, file) ← frame_append s file data'
    s ← unlock_and_release_txn a s
    returned (s, file)
