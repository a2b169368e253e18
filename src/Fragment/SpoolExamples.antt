-- ===== src/Fragment/SpoolExamples.antt =====
-- The theorems on spools at concrete states.
use gazette.Prelude.{
  ℕ, ◌+◌, ◌≡◌, refl, true, false, Option, none, some, List, [], ◌∷◌, ◌++◌, arith, Bytes, length,
  bytes_eq, if◌then◌else◌, ◌==◌,
}
use gazette.Protocol.Fragment.{Sha1Sum, zero_sum, fragment_eq, is_empty}
use gazette.Fragment.Spool.{
  Spool, Notice, spool_commit, Reply, ok, empty_fragment, empty_spool, apply_content,
  compress_through, next, finish_compression, roll_forward, settle, apply_commit, apply,
}
use gazette.Fragment.Spool.State.{IsConsistent, empty-IsConsistent}
use gazette.Fragment.Spool.Replication.{
  content_of, met_by, Replies, Sent, nothing, chunk, apply-IsConsistent, apply_commit-Replies,
  replicas_agree,
}
use gazette.Fragment.Spool.Compression.{
  IsFed, apply_commit-IsFed, finish_compression-encodes, replica_commit_skips,
}

abbrev sum_of : Bytes → Sha1Sum
sum_of b = record { part1 = length b; part2 = 7; part3 = 7 }

abbrev encode : ℕ → Bytes → Bytes
encode codec b = codec ∷ b

-- Of a journal `a`, at offset 20 and with codec 2: with `b` committed, and `b` and `d` spooled.
abbrev holding : Bytes → Bytes → Option Bytes → Spool
holding b d fed = record {
  fragment = record {
    journal = 97 ∷ [];
    begin = 20;
    end = 20 + length b;
    sum = if length b == 0 then zero_sum else sum_of b;
    compression_codec = 2;
    backing_store = [];
    mod_time = 0;
  };
  file = some (b ++ d);
  first_append_time = some 5;
  compressed_file = elim fed [ none ↦ none | some f ↦ some [] ];
  compressed_length = 0;
  compressor = fed;
  delta = length d;
  summer = b ++ d;
  sum_state = b;
}

abbrev fresh : Spool
fresh = empty_spool (empty_fragment (97 ∷ []) 20 2)

abbrev one_two : Bytes
one_two = 1 ∷ 2 ∷ []

fresh-IsConsistent : IsConsistent sum_of fresh
fresh-IsConsistent = empty-IsConsistent sum_of encode (97 ∷ []) 20 2

holding-IsConsistent : (fed : Option Bytes) → IsConsistent sum_of (holding one_two (3 ∷ []) fed)
holding-IsConsistent none = record {
  extent = refl;
  spooled = refl;
  extends = refl;
  summed = refl;
  stored = refl;
  codec = tt;
  unbacked = refl;
  unstored = refl;
}
holding-IsConsistent (some fed) = record {
  extent = refl;
  spooled = refl;
  extends = refl;
  summed = refl;
  stored = refl;
  codec = omega arith;
  unbacked = refl;
  unstored = refl;
}

apply-IsConsistent_example :
    (s' : Spool) × (reply : Reply) × (told : List Notice) × (apply sum_of encode fresh
        (content_of one_two 0)
        true
        9
      ≡ some (s', reply, told))
    × IsConsistent sum_of s'
apply-IsConsistent_example =
    apply-IsConsistent sum_of encode fresh (content_of one_two 0) true 9 fresh-IsConsistent

abbrev spooled : Spool
spooled = holding one_two (3 ∷ []) none

apply_commit-Replies_example :
    (s' : Spool) × (reply : Reply) × (told : List Notice) × (apply_commit sum_of encode spooled
        (next sum_of encode spooled)
        true
        9
      ≡ some (s', reply, told))
    × Replies sum_of encode
        (met_by sum_of encode spooled (next sum_of encode spooled))
        (next sum_of encode spooled)
        s'
        reply
apply_commit-Replies_example =
    apply_commit-Replies sum_of encode spooled (next sum_of encode spooled) true 9
      (holding-IsConsistent none)

abbrev sent : Spool
sent = record (holding [] (1 ∷ 2 ∷ 3 ∷ []) none) { first_append_time = none }

fresh-Sent : Sent sum_of encode fresh (one_two ∷ (3 ∷ []) ∷ []) sent
unfolding apply_content is_empty
fresh-Sent = chunk one_two refl (chunk (3 ∷ []) refl nothing)

replicas_agree_example :
    (a'' : Spool) × (b'' : Spool) × (told : List Notice) × (told' : List Notice) × (apply_commit
        sum_of encode sent
        (next sum_of encode sent)
        true
        9
      ≡ some (a'', ok, told))
    × (apply_commit sum_of encode sent (next sum_of encode sent) false 11 ≡ some (b'', ok, told'))
    × (a''.fragment ≡ next sum_of encode sent)
    × (b''.fragment ≡ a''.fragment)
replicas_agree_example =
    replicas_agree sum_of encode fresh fresh (one_two ∷ (3 ∷ []) ∷ []) 9 11 {a' = sent} {b' = sent}
      fresh-IsConsistent fresh-IsConsistent
      (record { fragment = refl; summer = refl; delta = refl }) fresh-Sent fresh-Sent (omega arith)

-- The primary, with a compressor that was fed the committed content, commits the rest.
abbrev feeding : Spool
feeding = holding one_two (3 ∷ []) (some one_two)

feeding-IsFed : IsFed feeding
feeding-IsFed fed h = ground (arith, h)

abbrev committed_all : Spool
committed_all = holding (1 ∷ 2 ∷ 3 ∷ []) [] (some (1 ∷ 2 ∷ 3 ∷ []))

feeding_runs :
    apply_commit sum_of encode feeding (next sum_of encode feeding) true 9
    ≡ some (committed_all, ok, spool_commit committed_all.fragment feeding.file ∷ [])
unfolding apply_commit roll_forward settle compress_through next is_empty fragment_eq bytes_eq
feeding_runs = refl

apply_commit-IsFed_example : IsFed committed_all
apply_commit-IsFed_example =
    apply_commit-IsFed sum_of encode feeding (next sum_of encode feeding) 9
      (holding-IsConsistent (some one_two)) feeding-IsFed feeding_runs

finish_compression-encodes_example :
    (s' : Spool) × (finish_compression sum_of encode feeding ≡ some s')
    × (s'.compressed_file ≡ some (2 ∷ one_two))
finish_compression-encodes_example =
    finish_compression-encodes sum_of encode feeding (holding-IsConsistent (some one_two))
      feeding-IsFed (omega arith) refl

replica_commit_skips_example :
    (s' : Spool) × (s'' : Spool) × (told : List Notice) × (apply_commit sum_of encode feeding
        (next sum_of encode feeding)
        false
        9
      ≡ some (s', ok, told))
    × (length s'.sum_state ≡ 3)
    × (finish_compression sum_of encode s' ≡ some s'')
    × (s''.compressed_file ≡ some (2 ∷ one_two))
replica_commit_skips_example =
    replica_commit_skips sum_of encode feeding one_two 9 (holding-IsConsistent (some one_two)) refl
      refl (omega arith)
