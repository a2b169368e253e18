-- ===== src/RecoveryLog/PlayerExamples.antt =====
-- The theorems on copies, played operations and played-back recordings at concrete logs.
use gazette.Prelude.{
  ℕ, ◌≡◌, refl, sym, ap, arith, Bool, true, false, Option, none, some, [], ◌∷◌, ◌++◌, Bytes, inl,
}
use gazette.Go.Map.{bytes_key, nat_key, lookup, insert, delete}
use gazette.Message.Reader.{eof, Reader, peek}
use gazette.Message.FixedFraming.{
  magic_word, encode, unpack, unpack_jumbled, unpack_frame, unmarshal, matches_word,
}
use gazette.Message.FixedFraming.Unpacking.{IsReader}
use gazette.RecoveryLog.Fsm.{
  Fsm, RecordedOp, apply, apply_op, apply_link_op, apply_unlink_op, apply_write_op, apply_write,
  extend_segments, step_next, pop_segment,
}
use gazette.RecoveryLog.Recorder.{returned, Session, stamped, new_write_op, process}
use gazette.RecoveryLog.RecorderExamples.{crc, marshaler, a_path, opened, opened-Shows}
use gazette.RecoveryLog.Copy.{copied, copy_panics, is_negative, copy_fixed, copy_signed}
use gazette.RecoveryLog.Copy.Total.{Copies, copy_fixed-Copies}
use gazette.RecoveryLog.Player.{
  Disk, Files, Decoded, decoded, discarding, decode_operation, write_size, play_operation,
}
use gazette.RecoveryLog.Player.Staged.{Matches}
use gazette.RecoveryLog.Player.Play.{Plays, play_operation-Plays}
use gazette.RecoveryLog.Replay.{Alike}
use gazette.RecoveryLog.Replay.Frames.{PlaysBack, process-PlaysBack}

abbrev reader : Bytes → Reader
reader content = record { content = content; held = 0; capacity = 16; ending = eof }

abbrev no_extras : ℕ → ℕ
no_extras round = 0

-- One byte in each round.
copy_fixed_runs :
    copy_fixed discarding 3 no_extras (reader (1 ∷ 2 ∷ 3 ∷ 4 ∷ [])) 3 []
    ≡ copied (1 ∷ 2 ∷ 3 ∷ []) (reader (4 ∷ []))
unfolding copy_fixed peek
copy_fixed_runs = refl

copy_fixed-Copies_example :
    Copies
      (reader (1 ∷ 2 ∷ 3 ∷ 4 ∷ []))
      3
      []
      (copy_fixed discarding 3 no_extras (reader (1 ∷ 2 ∷ 3 ∷ 4 ∷ [])) 3 [])
copy_fixed-Copies_example =
    copy_fixed-Copies discarding (λ out b e. refl) 3 no_extras (reader (1 ∷ 2 ∷ 3 ∷ 4 ∷ [])) 3 []
      (omega arith) (omega arith, omega arith, omega arith)

-- A write of two bytes to the file that is open.
abbrev write_op : RecordedOp
write_op = new_write_op 1 0 2

abbrev parse : Bytes → Option RecordedOp
parse b = some (stamped opened write_op)

abbrev disk : Disk
disk = record { opens = λ f. true; removes = λ f. true; writer = discarding }

abbrev frame : Bytes
frame = magic_word ++ 1 ∷ 0 ∷ 0 ∷ 0 ∷ 2 ∷ []

abbrev log_reader : Reader
log_reader = reader (frame ++ 65 ∷ 66 ∷ [])

abbrev staged : Files
staged = (1, []) ∷ []

staged-Matches : Matches opened.fsm staged
unfolding lookup
staged-Matches f = ground arith

abbrev link_of : Decoded → Option (ℕ × Bytes)
link_of (decoded op _ r) = op.link
link_of d = none

abbrev size_in : Decoded → Bool
size_in (decoded op _ r) = is_negative (write_size op)
size_in d = false

abbrev decodes : Decoded → Bool
decodes (decoded op _ r) = true
decodes d = false

-- A write of length -1.
abbrev negative : ℕ
negative = 0xffff_ffff_ffff_ffff

copy_signed_panics : copy_signed discarding no_extras (reader (1 ∷ 2 ∷ [])) negative ≡ copy_panics
unfolding copy_signed peek
copy_signed_panics = refl

play_operation-Plays_example :
    Plays (play_operation disk no_extras crc parse 0 0 log_reader 50 opened.fsm staged)
unfolding decode_operation unpack peek unpack_jumbled unpack_frame unmarshal matches_word
play_operation-Plays_example =
    play_operation-Plays crc parse disk (λ out b e. refl) no_extras opened.fsm staged
      opened-Shows.recording.playable staged-Matches 0 0 50 log_reader
      (omega arith, omega arith, omega arith) (λ e. let h : true ≡ false = ap decodes e in cc)
      λ op f s e. (inl (sym (ap link_of e)), sym (ap size_in e))

abbrev writing : Session
writing = record { recorder = opened; written = [] }

abbrev written : Session
written = record {
  recorder = record opened {
    buf = frame;
    fsm = record opened.fsm {
      next_seq_no = 3;
      next_checksum = 2;
      live_nodes =
          (
            1,
            record {
              links = (a_path, tt) ∷ [];
              segments =
                  record {
                    author = 100;
                    first_seq_no = 1;
                    first_offset = 0;
                    first_checksum = 0;
                    last_seq_no = 2;
                    last_offset = 0;
                  }
                  ∷ [];
            },
          )
          ∷ [];
    };
  };
  written = frame;
}

process_runs : process crc marshaler writing write_op ≡ returned written
unfolding process encode apply apply_op apply_link_op apply_unlink_op apply_write_op apply_write
    insert delete extend_segments step_next pop_segment lookup
process_runs = refl

process-PlaysBack_example :
    (f : Bytes) × (frame ≡ f)
    × ((m : Fsm) (r : Reader) (rest : Bytes) (extra more offset : ℕ)
        → Alike m opened.fsm
        → IsReader r
        → r.content ≡ f ++ rest
        → PlaysBack crc marshaler parse writing written write_op f m offset rest
            (decode_operation parse extra more r offset))
process-PlaysBack_example =
    process-PlaysBack crc marshaler parse writing written write_op process_runs
      (_, refl, omega arith, λ dst e. (_, refl, refl, refl))
