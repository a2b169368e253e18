-- ===== src/Message/FixedFraming.antt =====
-- v2/pkg/message/fixed_framing.go. What a message implements of ProtoSize, MarshalTo, Unmarshal and
-- Fixup is a parameter; an index out of range is a panic.
pub mod Words
pub mod Unpacking
pub mod RoundTrip
pub mod Desync
use gazette.Prelude.{
  ℕ, zero, suc, ◌+◌, ◌-◌, ◌*◌, ◌/◌, ◌%◌, Bool, true, false, not, Option, none, some, List, [], ◌∷◌,
  ◌++◌, Bytes, ltb, ◌==◌, if◌then◌else◌, length, take, drop,
}
use gazette.Message.Reader.{ReadError, eof, unexpected_eof, Reader, peek, discard}

abbrev pub header_length : ℕ
header_length = 8

abbrev pub magic_word : Bytes
magic_word = 102 ∷ 51 ∷ 147 ∷ 54 ∷ []

-- binary.LittleEndian.PutUint32 and Uint32.
abbrev pub put_uint32 : ℕ → Bytes
put_uint32 v = v % 256 ∷ (v / 256) % 256 ∷ (v / 65536) % 256 ∷ (v / 16777216) % 256 ∷ []

abbrev pub uint32 : Bytes → ℕ
uint32 (a ∷ b ∷ c ∷ d ∷ bs) = a + 256 * b + 65536 * c + 16777216 * d
uint32 _ = 0

-- The comparison with a word, byte by byte; `none` is an index out of range.
unfoldable pub matches_word : Bytes → Bytes → Option Bool
matches_word [] b = some true
matches_word (m ∷ ms) [] = none
matches_word (m ∷ ms) (x ∷ xs) = if x == m then matches_word ms xs else some false

abbrev pub matches_magic_word : Bytes → Option Bool
matches_magic_word b = matches_word magic_word b

pub data FrameError : Type 0 where
  not_frameable marshal_failed desync_detected unmarshal_failed fixup_failed : FrameError

pub record Marshaler : Type 0 where
  pub proto_size : ℕ
  pub marshal_to : Bytes → Option Bytes

pub data Encoded : Type 0 where
  encoded : Bytes → Encoded
  not_encoded : FrameError → Encoded

abbrev pub zeros : ℕ → Bytes
zeros zero = []
zeros (suc n) = 0 ∷ zeros n

-- `spare` is what the buffer has past its length.
abbrev pub frame_region : ℕ → Bytes → Bytes
frame_region size spare = if ltb (length spare) size then zeros size else take size spare

abbrev pub framed : Bytes → ℕ → Option Bytes → Encoded
framed b proto_size none = not_encoded marshal_failed
framed b proto_size (some payload) = encoded (b ++ magic_word ++ put_uint32 proto_size ++ payload)

module _ {M : Type 0} (marshaler : M → Option Marshaler) where
  unfoldable pub encode : M → Bytes → Bytes → Encoded
  encode msg b spare = elim (marshaler msg) [
    | none ↦ not_encoded not_frameable
    | some p ↦
        framed b p.proto_size
          (p.marshal_to (drop header_length (frame_region (header_length + p.proto_size) spare)))
  ]

  -- What the writer has been given, after; `spare` is the pooled buffer.
  unfoldable pub marshal : M → Bytes → Bytes → Bytes × Option FrameError
  unfolding encode
  marshal msg writer spare = elim (encode msg [] spare) [
    | encoded b ↦ (writer ++ b, none)
    | not_encoded err ↦ (writer, some err)
  ]

pub data Unpacked : Type 0 where
  unpacked : Bytes → Reader → Unpacked
  not_unpacked : ReadError → Reader → Unpacked
  unpack_panics : Unpacked

-- An end of content within a frame is unexpected.
abbrev pub cut_error : ReadError → ReadError
cut_error eof = unexpected_eof
cut_error err = err

-- The error of a header that is cut off; a trailing newline is none.
abbrev pub header_error : Bytes → ReadError → ReadError
header_error [] err = err
header_error (b ∷ []) err = if b == 10 then err else cut_error err
header_error (b ∷ c ∷ bs) err = cut_error err

-- How many of the next `n` indices come before one at which a magic word begins.
unfoldable pub before_word : ℕ → Bytes → Option ℕ
before_word zero b = some 0
before_word (suc n) b =
    let rest = before_word n (drop 1 b) in
    elim (matches_magic_word b) [
      | none ↦ none
      | some true ↦ some 0
      | some false ↦ elim rest [ none ↦ none | some i ↦ some (suc i) ]
    ]

-- Content up to the next magic word within the buffer.
unfoldable pub unpack_jumbled : Reader → Unpacked
unfolding before_word
unpack_jumbled r =
    let b = take r.held r.content in
    elim (before_word (length b - 4) (drop 1 b)) [
      | none ↦ unpack_panics
      | some i ↦ unpacked (take (suc i) b) (discard (suc i) r)
    ]

-- io.ReadFull of a frame whose header is there; the content of one that is cut off is of no use.
abbrev pub read_full : ℕ → Reader → Unpacked
read_full size r =
    if ltb (length r.content) size
    then not_unpacked (cut_error r.ending) (discard (length r.content) r)
    else unpacked (take size r.content) (discard size r)

-- By what Peek of the whole frame returned.
abbrev pub frame_peeked : ℕ → Bytes × Option ReadError × Reader → Unpacked
frame_peeked size (b, none, r) = unpacked b (discard size r)
frame_peeked size (b, some e, r) = read_full size r

unfoldable pub unpack_frame : ℕ → ℕ → Reader → Unpacked
unpack_frame size more r = frame_peeked size (peek size more r)

-- By what Peek of the header returned.
abbrev pub header_peeked : ℕ → Bytes × Option ReadError × Reader → Unpacked
unfolding unpack_jumbled unpack_frame
header_peeked more (b, some e, r) = not_unpacked (header_error b e) r
header_peeked more (b, none, r) = elim (matches_magic_word b) [
  | none ↦ unpack_panics
  | some false ↦ unpack_jumbled r
  | some true ↦ unpack_frame (header_length + uint32 (drop 4 b)) more r
]

unfoldable pub unpack : ℕ → ℕ → Reader → Unpacked
unfolding peek
unpack extra more r = header_peeked more (peek header_length extra r)

pub data Unmarshaled (M : Type 0) : Type 0 where
  unmarshaled : M → Unmarshaled M
  refused : FrameError → Unmarshaled M
  unmarshal_panics : Unmarshaled M

module _ {M : Type 0} (unmarshaler : Option (Bytes → Option M))
    (fixup : Option (M → Option M)) where
  abbrev pub fixed_up : M → Unmarshaled M
  fixed_up msg = elim fixup [
    | none ↦ unmarshaled msg
    | some f ↦ elim (f msg) [ none ↦ refused fixup_failed | some msg' ↦ unmarshaled msg' ]
  ]

  abbrev pub unmarshal_payload : (Bytes → Option M) → Bytes → Unmarshaled M
  unmarshal_payload p b = elim (p (drop header_length b)) [
    | none ↦ refused unmarshal_failed
    | some msg ↦ fixed_up msg
  ]

  unfoldable pub unmarshal : Bytes → Unmarshaled M
  unmarshal b = elim unmarshaler [
    | none ↦ refused not_frameable
    | some p ↦ elim (matches_magic_word b) [
      | none ↦ unmarshal_panics
      | some false ↦ refused desync_detected
      | some true ↦ if ltb (length b) header_length then unmarshal_panics else unmarshal_payload p b
    ]
  ]
