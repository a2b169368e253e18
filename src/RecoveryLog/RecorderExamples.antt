-- ===== src/RecoveryLog/RecorderExamples.antt =====
-- The theorems on a recorder at concrete file systems.
use mathlib.Core.Path.{subst}
use gazette.Prelude.{
  if◌then◌else◌, bytes_eq, ℕ, ◌+◌, ◌≡◌, refl, true, Option, none, some, [], ◌∷◌, Bytes, length,
}
use gazette.Go.Map.{bytes_key, nat_key, lookup, insert, delete}
use gazette.Message.FixedFraming.{Marshaler, encode}
use gazette.RecoveryLog.Fsm.{
  Fsm, RecordedOp, fnode_not_tracked, apply, apply_op, apply_create, apply_link_op, apply_link,
  apply_unlink_op, apply_unlink, extend_segments, step_next, pop_segment,
}
use gazette.RecoveryLog.Recorder.{
  Recorder, returned, panicked, fsm_error, Append, pending, process, observe_recent, record_create,
  record_rename,
}
use gazette.RecoveryLog.Recorder.Stepping.{Returns, returns, Marshals}
use gazette.RecoveryLog.Recorder.Operations.{Shows}
use gazette.RecoveryLog.Recorder.Moves.{IsReady, SessionShows, renamed}
use gazette.RecoveryLog.Recorder.Calls.{Created, record_create-Created, record_rename-Shows}

abbrev pub crc : ℕ → Bytes → ℕ
crc sum frame = sum + length frame

abbrev pub marshaler : RecordedOp → Option Marshaler
marshaler op = some (record { proto_size = 1; marshal_to = λ dst. some (op.seq_no ∷ []) })

-- Paths here are clean.
abbrev clean : Bytes → Bytes
clean path = path

abbrev empty : Fsm
empty = record {
  log = 108 ∷ [];
  next_seq_no = 1;
  next_checksum = 0;
  properties = [];
  live_nodes = [];
  links = [];
  hinted_segments = [];
  hinted_fnodes = [];
}

abbrev nothing_linked : Bytes → Option ℕ
nothing_linked path = none

abbrev pub nothing_held : Bytes → Option Bytes
nothing_held path = none

empty-Shows : Shows 1 nothing_linked nothing_held empty
unfolding lookup
empty-Shows = record {
  recording = record {
    playable = record {
      consistent = record {
        linked = λ p f h. cc;
        indexed = λ f node p h i. cc;
        apart = λ p f h. cc;
        held = λ f node h. cc;
        below = λ f node h. cc;
      };
      ahead = tt;
    };
    no_segments = refl;
    no_fnodes = refl;
    files = λ p f h. cc;
    properties_held = λ p c h. cc;
  };
  linked = λ p. refl;
  holds = λ p. refl;
  counted = refl;
}

abbrev fresh : Recorder
fresh = record { fsm = empty; id = 100; strip_len = 2; write_head = 0; recent_txn = none; buf = [] }

abbrev append : Append
append = record { txn = 7; status = λ txn. pending; releases = true }

fresh-IsReady : IsReady fresh append
fresh-IsReady = record { in_order = tt; released = refl }

-- "/d/a" in the directory "/d" is "/a".
abbrev pub a_path : Bytes
a_path = 47 ∷ 97 ∷ []

abbrev b_path : Bytes
b_path = 47 ∷ 98 ∷ []

abbrev in_dir : Bytes → Bytes
in_dir path = 47 ∷ 100 ∷ path

marshals : Marshals marshaler
marshals op = (_, refl, λ dst. (_, refl))

record_create-Created_example :
    Returns
      (Created 1 nothing_linked nothing_held a_path)
      (record_create crc marshaler clean fresh append (in_dir a_path))
unfolding bytes_eq
record_create-Created_example =
    record_create-Created crc marshaler clean marshals fresh append empty-Shows fresh-IsReady
      (in_dir a_path) a_path refl refl

-- What RecordCreate makes of the recorder.
abbrev pub opened : Recorder
opened = record {
  fsm = record {
    log = 108 ∷ [];
    next_seq_no = 2;
    next_checksum = 1;
    properties = [];
    live_nodes =
        (
          1,
          record {
            links = (a_path, tt) ∷ [];
            segments =
                record {
                  author = 100;
                  first_seq_no = 1;
                  first_offset = 0;
                  first_checksum = 0;
                  last_seq_no = 1;
                  last_offset = 0;
                }
                ∷ [];
          },
        )
        ∷ [];
    links = (a_path, 1) ∷ [];
    hinted_segments = [];
    hinted_fnodes = [];
  };
  id = 100;
  strip_len = 2;
  write_head = 0;
  recent_txn = some 7;
  buf = 102 ∷ 51 ∷ 147 ∷ 54 ∷ 1 ∷ 0 ∷ 0 ∷ 0 ∷ 1 ∷ [];
}

record_create_runs :
    record_create crc marshaler clean fresh append (in_dir a_path)
    ≡ returned
        (record { recorder = opened; written = opened.buf }, record { fnode = 1; offset = 0 })
unfolding record_create observe_recent process encode apply apply_op apply_create insert delete
    extend_segments step_next pop_segment lookup bytes_eq
record_create_runs = refl

holds_returned {ℓ κ} : {A : Type ℓ} {P : A → Type κ} {a : A} → Returns P (returned a) → P a
holds_returned (returns p) = p

abbrev pub one_file : Bytes → Option ℕ
one_file path = if bytes_eq a_path path then some 1 else none

pub opened-Shows : Shows 2 one_file nothing_held opened.fsm
opened-Shows =
    (holds_returned (
      subst (λ c. Returns (Created 1 nothing_linked nothing_held a_path) c) record_create_runs
        record_create-Created_example)).0

opened-IsReady : IsReady opened append
opened-IsReady = record { in_order = tt; released = refl }

record_rename-Shows_example :
    Returns
      (SessionShows 4 (renamed a_path b_path 1 one_file) nothing_held)
      (record_rename crc marshaler clean opened append (in_dir a_path) (in_dir b_path) none)
unfolding bytes_eq
record_rename-Shows_example =
    record_rename-Shows crc marshaler clean marshals opened append opened-Shows opened-IsReady
      (in_dir a_path) (in_dir b_path) a_path b_path 1 none refl refl refl refl refl

-- A rename of a file to itself, which changes nothing on disk, is a panic of the recorder.
record_rename_itself :
    record_rename crc marshaler clean opened append (in_dir a_path) (in_dir a_path) none
    ≡ panicked (fsm_error fnode_not_tracked)
unfolding record_rename observe_recent process encode apply apply_op apply_link_op apply_link
    apply_unlink_op apply_unlink insert delete extend_segments step_next pop_segment lookup bytes_eq
record_rename_itself = refl
