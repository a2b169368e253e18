-- ===== src/Fragment/Spool.antt =====
-- Spool of v2/pkg/fragment/spool.go. The local file is its bytes, and a SHA1 state is the bytes that
-- were written to it; `sum_of` is SHA1 and `encode` what a codec makes of the bytes fed to it. File
-- operations are retried until they succeed, so each is its success. What the observer is told is
-- returned as a list of notices, in order.
pub mod State
pub mod Commit
pub mod Replication
pub mod Compression
use gazette.Prelude.{
  ℕ, zero, suc, ◌+◌, ◌-◌, Bool, true, false, ◌&&◌, ◌||◌, not, Option, none, some, List, [], ◌∷◌,
  ◌++◌, ltb, leb, ◌==◌, if◌then◌else◌, Bytes, length, take, drop,
}
use gazette.Protocol.Fragment.{Fragment, Sha1Sum, zero_sum, codec_none, fragment_eq, is_empty}

pub record Spool : Type 0 where
  pub fragment : Fragment
  pub file : Option Bytes
  pub first_append_time : Option ℕ
  pub compressed_file : Option Bytes
  pub compressed_length : ℕ
  pub compressor : Option Bytes  -- the bytes fed to it
  pub delta : ℕ
  pub summer : Bytes
  pub sum_state : Bytes

pub data Notice : Type 0 where
  spool_commit : Fragment → Option Bytes → Notice
  spool_complete : Spool → Bool → Notice

pub record ReplicateRequest : Type 0 where
  pub proposal : Option Fragment
  pub content : Bytes
  pub content_delta : ℕ
  pub acknowledge : Bool

-- A response with its status, or the error of an invalid ContentDelta.
pub data Reply : Type 0 where
  ok : Reply
  fragment_mismatch : Fragment → Reply
  invalid_content_delta : Reply

abbrev pub empty_fragment : Bytes → ℕ → ℕ → Fragment
empty_fragment journal offset codec = record {
  journal = journal;
  begin = offset;
  end = offset;
  sum = zero_sum;
  compression_codec = codec;
  backing_store = [];
  mod_time = 0;
}

abbrev pub empty_spool : Fragment → Spool
empty_spool f = record {
  fragment = f;
  file = none;
  first_append_time = none;
  compressed_file = none;
  compressed_length = 0;
  compressor = none;
  delta = 0;
  summer = [];
  sum_state = [];
}

unfoldable pub new_spool : Bytes → Spool
new_spool journal = empty_spool (empty_fragment journal 0 codec_none)

abbrev pub content_length : Fragment → ℕ
content_length f = f.end - f.begin

-- The bytes of a file, `WriteAt`, which fills a gap with zeros, and a section of `n` bytes.
abbrev pub file_bytes : Option Bytes → Bytes
file_bytes none = []
file_bytes (some b) = b

abbrev pub write_at : Bytes → ℕ → Bytes → Bytes
write_at b zero d = d ++ drop (length d) b
write_at [] (suc off) d = 0 ∷ write_at [] off d
write_at (x ∷ b) (suc off) d = x ∷ write_at b off d

abbrev pub section : Bytes → ℕ → ℕ → Bytes
section b off n = take n (drop off b)

-- saveSumState and restoreSumState.
abbrev pub save_sum_state : Spool → Spool
save_sum_state s = record s { sum_state = s.summer }

abbrev pub restore_sum_state : Spool → Spool
restore_sum_state s = record s { summer = s.sum_state }

-- The check of ContentDelta, then the write and the running sum. Here and below a panic is none.
unfoldable pub apply_content : Spool → ReplicateRequest → Option (Spool × Reply)
apply_content s r =
    let written : Spool = record s {
      file = some (write_at (file_bytes s.file) (content_length s.fragment + s.delta) r.content);
      summer = s.summer ++ r.content;
      delta = s.delta + length r.content;
    } in
    if r.content_delta == s.delta
    then elim s.file [
      | none ↦ if is_empty s.fragment then some (written, ok) else none
      | some b ↦ some (written, ok)
    ]
    else some (s, invalid_content_delta)

unfoldable pub compress_through : Spool → ℕ → Option Spool
compress_through s end =
    if s.fragment.compression_codec == codec_none
    then none
    else some (record s {
      compressor = some (elim s.compressor [
        | none ↦ take (end - s.fragment.begin) (file_bytes s.file)
        | some fed ↦
            fed ++ section (file_bytes s.file) (content_length s.fragment) (end - s.fragment.end)
      ]);
      compressed_file = some (file_bytes s.compressed_file);
    })

module _ (sum_of : Bytes → Sha1Sum) (encode : ℕ → Bytes → Bytes) where
  unfoldable pub next : Spool → Fragment
  next s =
      let end = s.fragment.end + s.delta in
      record (s.fragment) {
        end = end;
        sum = if s.fragment.begin == end then zero_sum else sum_of s.summer;
      }

  -- The compressor is closed: what it made of the bytes fed to it is the compressed file.
  abbrev pub close_compressor : Spool → Spool
  close_compressor s = elim s.compressor [
    | none ↦ s
    | some fed ↦
        let b = encode s.fragment.compression_codec fed in
        record s { compressor = none; compressed_file = some b; compressed_length = length b }
  ]

  unfoldable pub finish_compression : Spool → Option Spool
  finish_compression s =
      if s.fragment.compression_codec == codec_none
      then none
      else if not (s.compressed_length == 0)
      then some s
      else elim s.compressor [
        | none ↦ elim (compress_through s s.fragment.end) [
          | none ↦ none
          | some s' ↦ some (close_compressor s')
        ]
        | some fed ↦ some (close_compressor s)
      ]

  -- Is the proposal past all the spool knows of, or does it roll it to a new and empty fragment?
  abbrev pub rolls : Spool → Fragment → Bool
  rolls s p = ltb (s.fragment.end + s.delta) p.end || (p.end == s.fragment.end && is_empty p)

  abbrev pub rolled : Spool → Fragment → Spool
  rolled s p = empty_spool (empty_fragment s.fragment.journal p.end p.compression_codec)

  abbrev pub completes : Spool → Bool → List Notice
  completes s primary = if is_empty s.fragment then [] else spool_complete s primary ∷ []

  unfoldable pub roll_forward : Spool → Fragment → Bool → Option (Spool × List Notice)
  roll_forward s p primary =
      if rolls s p
      then elim s.compressor [
        | none ↦ some (rolled s p, completes s primary)
        | some fed ↦ elim (finish_compression s) [
          | none ↦ none
          | some s' ↦ some (rolled s' p, completes s' primary)
        ]
      ]
      else some (s, [])

  abbrev pub first_time : ℕ → Option ℕ → Option ℕ
  first_time now none = some now
  first_time now (some t) = some t

  -- The spool takes on `Next`, at time `now`.
  abbrev pub commit : Spool → ℕ → Spool
  commit s now = save_sum_state (record s {
    fragment = next s;
    first_append_time = first_time now s.first_append_time;
    delta = 0;
  })

  abbrev pub committed : Spool → ℕ → Spool × Reply × List Notice
  committed s now = (commit s now, ok, spool_commit (next s) s.file ∷ [])

  -- The two cases in which a proposal is accepted, and its refusal.
  unfoldable pub settle : Spool → Fragment → Bool → ℕ → Option (Spool × Reply × List Notice)
  settle s p primary now =
      if fragment_eq s.fragment p
      then some (restore_sum_state (record s { delta = 0 }), ok, [])
      else if fragment_eq (next s) p
      then (if primary && not (s.fragment.compression_codec == codec_none)
          then elim (compress_through s (next s).end) [
            | none ↦ none
            | some s' ↦ some (committed s' now)
          ]
          else some (committed s now))
      else some (s, fragment_mismatch s.fragment, [])

  unfoldable pub apply_commit : Spool → Fragment → Bool → ℕ → Option (Spool × Reply × List Notice)
  apply_commit s p primary now = elim (roll_forward s p primary) [
    | none ↦ none
    | some (s', told) ↦ elim (settle s' p primary now) [
      | none ↦ none
      | some (s'', reply, more) ↦ some (s'', reply, told ++ more)
    ]
  ]

  unfoldable pub apply : Spool → ReplicateRequest → Bool → ℕ → Option (Spool × Reply × List Notice)
  apply s r primary now = elim r.proposal [
    | none ↦ elim (apply_content s r) [ none ↦ none | some (s', reply) ↦ some (s', reply, []) ]
    | some p ↦ apply_commit s p primary now
  ]

  -- MustApply: none is its panic too.
  unfoldable pub must_apply : Spool → ReplicateRequest → ℕ → Option (Spool × List Notice)
  must_apply s r now = elim (apply s r false now) [
    | none ↦ none
    | some (s', reply, told) ↦ elim reply [
      | ok ↦ some (s', told)
      | fragment_mismatch f ↦ none
      | invalid_content_delta ↦ none
    ]
  ]
