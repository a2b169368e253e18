-- ===== src/Protocol/Fragment.antt =====
-- Fragments and their sums (v2/pkg/protocol/fragment_extensions.go and protocol.pb.go). Offsets and
-- times are `int64`s that the program keeps at or above zero; a codec is its number on the wire.
use gazette.Prelude.{ℕ, ◌≡◌, ◌↔◌, Bool, true, ◌&&◌, arith, ◌==◌, Bytes, bytes_eq, bytes_eq_iff}

pub record Sha1Sum : Type 0 where
  pub part1 : ℕ
  pub part2 : ℕ
  pub part3 : ℕ

pub record Fragment : Type 0 where
  pub journal : Bytes
  pub begin : ℕ
  pub end : ℕ
  pub sum : Sha1Sum
  pub compression_codec : ℕ
  pub backing_store : Bytes
  pub mod_time : ℕ

-- The values of the CompressionCodec enumeration that the code names.
abbrev pub codec_invalid : ℕ
codec_invalid = 0

abbrev pub codec_none : ℕ
codec_none = 1

abbrev pub zero_sum : Sha1Sum
zero_sum = record { part1 = 0; part2 = 0; part3 = 0 }

abbrev pub sum_eq : Sha1Sum → Sha1Sum → Bool
sum_eq a b = a.part1 == b.part1 && (a.part2 == b.part2 && a.part3 == b.part3)

-- Go's `==` on two Fragment structs.
unfoldable pub fragment_eq : Fragment → Fragment → Bool
fragment_eq a b =
    bytes_eq a.journal b.journal
    && (a.begin == b.begin
        && (a.end == b.end
            && (sum_eq a.sum b.sum
                && (a.compression_codec == b.compression_codec
                    && (bytes_eq a.backing_store b.backing_store && a.mod_time == b.mod_time)))))

pub fragment_eq_iff : (a b : Fragment) → (fragment_eq a b ≡ true) ↔ (a ≡ b)
unfolding fragment_eq
fragment_eq_iff a b =
    ground (arith, bytes_eq_iff a.journal b.journal, bytes_eq_iff a.backing_store b.backing_store)

-- `ContentLength() == 0`: the `int64` difference of the offsets is 0 exactly if they are equal.
unfoldable pub is_empty : Fragment → Bool
is_empty f = f.begin == f.end
