-- ===== src/RecoveryLog/Player.antt =====
-- How v2/pkg/recoverylog/playback.go plays one operation. The staged files, on disk and open alike,
-- are a map of contents by Fnode; what else the disk does to a call is a parameter. A nil file
-- returns an error from each of its methods.
pub mod Nodes
pub mod Facts
pub mod Staged
pub mod Play
use gazette.Prelude.{
  ℕ, ◌+◌, ◌-◌, ◌%◌, ◌^◌, Bool, true, false, Option, none, some, List, [], ◌∷◌, ◌++◌, Bytes,
  if◌then◌else◌, length, take, drop,
}
use gazette.Go.Map.{Map, bytes_key, nat_key, lookup, insert, delete}
use gazette.Message.Reader.{ReadError, Reader}
use gazette.Message.FixedFraming.{
  header_length, FrameError, desync_detected, zeros, Unpacked, unpacked, not_unpacked,
  unpack_panics, Unmarshaled, unmarshaled, refused, unmarshal_panics, unpack, unmarshal,
}
use gazette.RecoveryLog.Fsm.{Fsm, RecordedOp, Outcome, Error, is_set, apply}
use gazette.RecoveryLog.Recorder.{blank_op}
use gazette.RecoveryLog.Copy.{
  Copied, copied, cut_short, write_failed, copy_panics, out_of_fuel, is_negative, copy_signed,
}

-- Whether a file is opened, closed and removed, and what a write takes.
pub record Disk : Type 0 where
  pub opens : ℕ → Bool
  pub removes : ℕ → Bool
  pub writer : Bytes → Bytes → ℕ × Bool

pub data PlayError : Type 0 where
  file_exists not_opened not_removed invalid_file unwritten : PlayError
  unread : ReadError → PlayError
  not_unmarshaled : FrameError → PlayError

pub data Playing {ℓ} (A : Type ℓ) : Type ℓ where
  played : A → Playing A
  aborted : PlayError → Playing A
  crashed : Playing A

abbrev pub Files : Type 0
Files = Map ℕ Bytes

abbrev pub with_reader : Reader → Playing Files → Playing (Files × Reader)
with_reader r (played files) = played (files, r)
with_reader r (aborted e) = aborted e
with_reader r crashed = crashed

module _ (disk : Disk) where
  -- O_EXCL: the file must not exist.
  unfoldable pub create : ℕ → Files → Playing Files
  create fnode files =
      if is_set (lookup fnode files)
      then aborted file_exists
      else if disk.opens fnode
      then played (insert fnode [] files)
      else aborted not_opened

  abbrev pub removed : ℕ → Files → Option Bytes → Playing Files
  removed fnode files none = aborted invalid_file
  removed fnode files (some content) =
      if disk.removes fnode then played (delete fnode files) else aborted not_removed

  unfoldable pub unlink : ℕ → Fsm → Files → Playing Files
  unlink fnode fsm files =
      if is_set (lookup fnode fsm.live_nodes)
      then played files
      else removed fnode files (lookup fnode files)

  -- A file's content after a write at an offset; a gap is filled with zeros.
  abbrev pub overlay : Bytes → ℕ → Bytes → Bytes
  overlay content offset b =
      take offset (content ++ zeros (offset - length content))
      ++ b
      ++ drop (offset + length b) content

  abbrev pub wrote : ℕ → ℕ → Bytes → Files → Copied → Playing (Files × Reader)
  wrote fnode offset content files (copied b r) =
      played (insert fnode (overlay content offset b) files, r)
  wrote fnode offset content files (cut_short e) = aborted (unread e)
  wrote fnode offset content files write_failed = aborted unwritten
  wrote fnode offset content files copy_panics = crashed
  wrote fnode offset content files out_of_fuel = crashed

  module _ (extras : ℕ → ℕ) where
    -- Seek returns an error for a negative offset.
    abbrev pub write_to : ℕ → ℕ → ℕ → Reader → Files → Option Bytes → Playing (Files × Reader)
    write_to fnode offset size r files none = aborted invalid_file
    write_to fnode offset size r files (some content) =
        if is_negative offset
        then aborted unwritten
        else wrote fnode offset content files (copy_signed disk.writer extras r size)

    unfoldable pub write : ℕ → ℕ → ℕ → Reader → Files → Playing (Files × Reader)
    unfolding copy_signed
    write fnode offset size r files = write_to fnode offset size r files (lookup fnode files)

    -- The cases of the operation, in the order of the code.
    unfoldable pub reenact_operation : RecordedOp → Fsm → Reader → Files → Playing (Files × Reader)
    unfolding create unlink write
    reenact_operation op fsm r files = elim op.create [
      | some path ↦ with_reader r (create op.seq_no files)
      | none ↦ elim op.unlink [
        | some (fnode, path) ↦ with_reader r (unlink fnode fsm files)
        | none ↦ elim op.write [
          | some (fnode, offset, size) ↦ write fnode offset size r files
          | none ↦ played (files, r)
        ]
      ]
    ]

-- Writes that are discarded.
abbrev pub discarding : Bytes → Bytes → ℕ × Bool
discarding out b = (length b, false)

abbrev pub size_of : Option (ℕ × ℕ × ℕ) → ℕ
size_of none = 0
size_of (some (fnode, offset, size)) = size

abbrev pub write_size : RecordedOp → ℕ
write_size op = size_of op.write

-- The offsets, which the recorder does not write; the sums are those of int64.
abbrev pub at_offset : RecordedOp → ℕ → Bytes → RecordedOp
at_offset op offset frame = record op {
  first_offset = offset;
  last_offset = (offset + length frame + write_size op) % 2 ^ 64;
}

pub data Decoded : Type 0 where
  decoded : RecordedOp → Bytes → Reader → Decoded
  desynced : RecordedOp → Reader → Decoded
  undecoded : PlayError → Decoded
  decode_panics : Decoded

-- What a call of PlayOperation comes to, other than by an error.
pub record Step : Type 0 where
  pub op : RecordedOp
  pub applied : Bool
  pub fsm : Fsm
  pub files : Files
  pub reader : Reader

abbrev pub step_of : RecordedOp → Fsm → Playing (Files × Reader) → Playing Step
step_of op fsm (played (files, r)) =
    played (record { op = op; applied = true; fsm = fsm; files = files; reader = r })
step_of op fsm (aborted e) = aborted e
step_of op fsm crashed = crashed

-- An operation that is not applied: its data is skipped.
abbrev pub skipped : RecordedOp → Fsm → Files → Copied → Playing Step
skipped op fsm files (copied b r) =
    played (record { op = op; applied = false; fsm = fsm; files = files; reader = r })
skipped op fsm files (cut_short e) = aborted (unread e)
skipped op fsm files write_failed = aborted unwritten
skipped op fsm files copy_panics = crashed
skipped op fsm files out_of_fuel = crashed

abbrev pub is_success : Option Error → Bool
is_success none = true
is_success (some e) = false

abbrev pub decode_frame : ℕ → Bytes → Reader → Unmarshaled RecordedOp → Decoded
decode_frame offset frame r (unmarshaled op) = decoded (at_offset op offset frame) frame r
decode_frame offset frame r (refused desync_detected) = desynced (at_offset blank_op offset frame) r
decode_frame offset frame r (refused e) = undecoded (not_unmarshaled e)
decode_frame offset frame r unmarshal_panics = decode_panics

-- `parse` is the generated Unmarshal of RecordedOp.
module _ (parse : Bytes → Option RecordedOp) where
  abbrev pub decode_unpacked : ℕ → Unpacked → Decoded
  decode_unpacked offset (unpacked frame r) =
      decode_frame offset frame r (unmarshal (some parse) none frame)
  decode_unpacked offset (not_unpacked e r) = undecoded (unread e)
  decode_unpacked offset unpack_panics = decode_panics

  unfoldable pub decode_operation : ℕ → ℕ → Reader → ℕ → Decoded
  unfolding unpack unmarshal
  decode_operation extra more r offset = decode_unpacked offset (unpack extra more r)

-- The machine after the operation, and whether it is applied.
abbrev pub apply_operation : (ℕ → Bytes → ℕ) → RecordedOp → Bytes → Fsm → Fsm × Bool
apply_operation crc_update op frame fsm =
    let r = apply crc_update fsm op (drop header_length frame) in (r.0, is_success r.1)

module _ (disk : Disk) (extras : ℕ → ℕ) where
  abbrev pub after_apply : RecordedOp → Files → Reader → Fsm × Bool → Playing Step
  after_apply op files r (fsm, true) = step_of op fsm (reenact_operation disk extras op fsm r files)
  after_apply op files r (fsm, false) =
      skipped op fsm files (copy_signed discarding extras r (write_size op))

  abbrev pub play_decoded : (ℕ → Bytes → ℕ) → Fsm → Files → Decoded → Playing Step
  play_decoded crc_update fsm files (decoded op frame r) =
      after_apply op files r (apply_operation crc_update op frame fsm)
  play_decoded crc_update fsm files (desynced op r) =
      played (record { op = op; applied = false; fsm = fsm; files = files; reader = r })
  play_decoded crc_update fsm files (undecoded e) = aborted e
  play_decoded crc_update fsm files decode_panics = crashed

  unfoldable pub play_operation :
      (ℕ → Bytes → ℕ)
      → (Bytes → Option RecordedOp)
      → ℕ
      → ℕ
      → Reader
      → ℕ
      → Fsm
      → Files
      → Playing Step
  unfolding decode_operation apply reenact_operation
  play_operation crc_update parse extra more r offset fsm files =
      play_decoded crc_update fsm files (decode_operation parse extra more r offset)
