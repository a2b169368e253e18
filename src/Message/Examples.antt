-- ===== src/Message/Examples.antt =====
-- The theorems on framing at concrete messages and readers.
use gazette.Prelude.{ℕ, ◌≡◌, refl, Option, none, some, List, [], ◌∷◌, ◌++◌, arith, Bytes}
use gazette.Message.Reader.{Reader, eof, buffer_full, peek}
use gazette.Message.FixedFraming.{
  magic_word, matches_word, before_word, Marshaler, encode, marshal, unpacked, unpack_jumbled,
  unpack_frame, unpack, unmarshal, unmarshal_panics,
}
use gazette.Message.Lines.{through_newline, read_slice, read_bytes, unpack_line}
use gazette.Message.Lines.Splitting.{Splits, unpack_line-Splits}
use gazette.Message.FixedFraming.Unpacking.{Taken, unpack-Taken}
use gazette.Message.FixedFraming.RoundTrip.{AllFramable, Reads, marshal_all, marshal-Reads}
use gazette.Message.FixedFraming.Desync.{stray, unpack-stray}

-- Messages of one byte.
abbrev byte_marshaler : ℕ → Option Marshaler
byte_marshaler b = some record { proto_size = 1; marshal_to = λ dst. some (b ∷ []) }

abbrev unmarshal_byte : Bytes → Option ℕ
unmarshal_byte (b ∷ []) = some b
unmarshal_byte _ = none

abbrev reader : Bytes → Reader
reader content = record { content = content; held = 0; capacity = 16; ending = eof }

abbrev sent : List (ℕ × Bytes)
sent = (7, []) ∷ (9, []) ∷ []

sent-AllFramable : AllFramable byte_marshaler unmarshal_byte none sent
sent-AllFramable = (
  (
    record { proto_size = 1; marshal_to = λ dst. some (7 ∷ []) },
    refl,
    omega arith,
    λ dst h. (7 ∷ [], refl, refl, refl),
  ),
  (
    (
      record { proto_size = 1; marshal_to = λ dst. some (9 ∷ []) },
      refl,
      omega arith,
      λ dst h. (9 ∷ [], refl, refl, refl),
    ),
    tt,
  ),
)

sent_runs :
    marshal_all byte_marshaler unmarshal_byte none sent []
    ≡ magic_word ++ 1 ∷ 0 ∷ 0 ∷ 0 ∷ 7 ∷ magic_word ++ 1 ∷ 0 ∷ 0 ∷ 0 ∷ 9 ∷ []
unfolding marshal encode
sent_runs = refl

marshal-Reads_example :
    Reads byte_marshaler unmarshal_byte none sent
      (5 ∷ [])
      (reader (marshal_all byte_marshaler unmarshal_byte none sent [] ++ 5 ∷ []))
unfolding marshal encode
marshal-Reads_example =
    marshal-Reads byte_marshaler unmarshal_byte none sent (5 ∷ [])
      (reader (marshal_all byte_marshaler unmarshal_byte none sent [] ++ 5 ∷ [])) sent-AllFramable
      (omega arith, omega arith, omega arith) refl

abbrev jumbled : Reader
jumbled = reader (1 ∷ 2 ∷ magic_word ++ 1 ∷ 0 ∷ 0 ∷ 0 ∷ 7 ∷ [])

-- The two bytes before the magic word are returned.
unpack_runs :
    unpack 4 0 jumbled
    ≡ unpacked (1 ∷ 2 ∷ []) (record (reader (magic_word ++ 1 ∷ 0 ∷ 0 ∷ 0 ∷ 7 ∷ [])) { held = 9 })
unfolding unpack peek unpack_jumbled unpack_frame before_word matches_word
unpack_runs = refl

unpack-Taken_example : Taken jumbled (unpack 4 0 jumbled)
unpack-Taken_example = unpack-Taken 4 0 jumbled (omega arith, omega arith, omega arith)

unpack-stray_example :
    (r' : Reader) × (unpack 0 0 (reader (stray (1 ∷ 2 ∷ 3 ∷ []))) ≡ unpacked (102 ∷ []) r')
    × (unmarshal {M = ℕ} (some unmarshal_byte) none (102 ∷ []) ≡ unmarshal_panics)
unpack-stray_example =
    unpack-stray unmarshal_byte none (1 ∷ 2 ∷ 3 ∷ []) 0 0 (reader (stray (1 ∷ 2 ∷ 3 ∷ [])))
      (omega arith, omega arith, omega arith) (omega arith) refl

-- Nineteen bytes and a newline, more than the buffer holds.
abbrev long_line : Bytes
long_line = 1 ∷ 1 ∷ 1 ∷ 1 ∷ 1 ∷ 1 ∷ 1 ∷ 1 ∷ 1 ∷ 1 ∷ 1 ∷ 1 ∷ 1 ∷ 1 ∷ 1 ∷ 1 ∷ 1 ∷ 1 ∷ 1 ∷ 10 ∷ []

unpack_line_runs : unpack_line (reader (long_line ++ 2 ∷ [])) ≡ (long_line, none, reader (2 ∷ []))
unfolding unpack_line read_slice read_bytes
unpack_line_runs = refl

unpack_line-Splits_example :
    Splits
      (reader (long_line ++ 2 ∷ []))
      (through_newline (long_line ++ 2 ∷ []))
      (unpack_line (reader (long_line ++ 2 ∷ [])))
unpack_line-Splits_example =
    unpack_line-Splits (reader (long_line ++ 2 ∷ [])) (omega arith) (λ e. absurd (ending_code e))
  where
    ending_code : eof ≡ buffer_full → ⊥
    ending_code e = ground arith
