-- ===== src/Fragment/Spool/State.antt =====
-- The states of a Spool: the file and the running sums agree with the fragment, between any two
-- requests.
use native.Mathlib.Nat.{zero-add, suc-add}
use gazette.Prelude.{
  ℕ, zero, suc, ◌+◌, ◌≡◌, refl, sym, ap, ◌∙◌, ◌≢◌, Option, none, some, [], ◌∷◌, ◌++◌, arith, ◌==◌,
  if◌then◌else◌, Bytes, length, take, length-append, take-append-of_le, take-length,
  take-take-of_le,
}
use gazette.Protocol.Fragment.{Sha1Sum, zero_sum, codec_none}
use gazette.Fragment.Spool.{
  Spool, empty_fragment, empty_spool, file_bytes, write_at, content_length, next, commit,
  restore_sum_state,
}

-- A compressor is open only where the codec compresses.
abbrev pub HasCodec : Option Bytes → ℕ → Type 0
HasCodec none codec = Unit
HasCodec (some fed) codec = codec ≢ codec_none

pub record IsConsistent (sum_of : Bytes → Sha1Sum) (s : Spool) : Type 0 where
  pub extent : s.fragment.begin + length s.sum_state ≡ s.fragment.end
  pub spooled : length s.summer ≡ length s.sum_state + s.delta
  pub extends : take (length s.sum_state) s.summer ≡ s.sum_state
  pub summed :
      s.fragment.sum ≡ (if s.fragment.begin == s.fragment.end then zero_sum else sum_of s.sum_state)
  pub stored : take (length s.summer) (file_bytes s.file) ≡ s.summer
  pub codec : HasCodec s.compressor s.fragment.compression_codec
  pub unbacked : s.fragment.backing_store ≡ []
  pub unstored : s.fragment.mod_time ≡ 0

-- A write behind a prefix that is known appends to it.
take-write_at :
    (b : Bytes) (off : ℕ) (p d : Bytes)
    → length p ≡ off
    → take off b ≡ p
    → take (off + length d) (write_at b off d) ≡ p ++ d
take-write_at b zero [] d l e =
    rw zero-add (take-append-of_le (length d) d _ (omega arith) ∙ take-length d)
take-write_at b zero (y ∷ ps) d l e = absurd (omega arith)
take-write_at [] (suc off) p d l e = absurd (omega (arith, ap length e))
take-write_at (x ∷ b) (suc off) [] d l e = absurd (omega arith)
take-write_at (x ∷ b) (suc off) (y ∷ ps) d l e =
    rw suc-add (ground (arith, take-write_at b off ps d))

module _ (sum_of : Bytes → Sha1Sum) (encode : ℕ → Bytes → Bytes) where
  pub empty-IsConsistent :
      (journal : Bytes) (offset codec : ℕ)
      → IsConsistent sum_of (empty_spool (empty_fragment journal offset codec))
  empty-IsConsistent journal offset codec = record {
    extent = omega arith;
    spooled = omega arith;
    extends = refl;
    summed = ground arith;
    stored = refl;
    codec = tt;
    unbacked = refl;
    unstored = refl;
  }

  -- Content extends what is spooled, and leaves what is committed.
  pub written-IsConsistent :
      (s : Spool) (d : Bytes)
      → IsConsistent sum_of s
      → IsConsistent sum_of (record s {
        file = some (write_at (file_bytes s.file) (content_length s.fragment + s.delta) d);
        summer = s.summer ++ d;
        delta = s.delta + length d;
      })
  written-IsConsistent s d c = record {
    extent = c.extent;
    spooled = omega (arith, length-append s.summer d, c);
    extends = take-append-of_le (length s.sum_state) s.summer d (omega (arith, c)) ∙ c.extends;
    summed = c.summed;
    stored =
        rw (length-append s.summer d) (
          rw at_end (take-write_at (file_bytes s.file) (length s.summer) s.summer d refl c.stored));
    codec = c.codec;
    unbacked = c.unbacked;
    unstored = c.unstored;
  }
    where
      at_end : content_length s.fragment + s.delta ≡ length s.summer
      at_end = omega (arith, c)

  pub restored-IsConsistent :
      (s : Spool)
      → IsConsistent sum_of s
      → IsConsistent sum_of (restore_sum_state (record s { delta = 0 }))
  restored-IsConsistent s c = record {
    extent = c.extent;
    spooled = omega arith;
    extends = take-length s.sum_state;
    summed = c.summed;
    stored =
        sym (
          take-take-of_le (length s.sum_state) (length s.summer) (file_bytes s.file)
            (omega (arith, c)))
        ∙ ap (take (length s.sum_state)) c.stored
        ∙ c.extends;
    codec = c.codec;
    unbacked = c.unbacked;
    unstored = c.unstored;
  }

  pub commit-IsConsistent :
      (s : Spool) (now : ℕ)
      → IsConsistent sum_of s
      → IsConsistent sum_of (commit sum_of encode s now)
  unfolding next
  commit-IsConsistent s now c = record {
    extent = omega (arith, c);
    spooled = omega arith;
    extends = take-length s.summer;
    summed = refl;
    stored = c.stored;
    codec = c.codec;
    unbacked = c.unbacked;
    unstored = c.unstored;
  }
