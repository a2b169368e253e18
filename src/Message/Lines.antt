-- ===== src/Message/Lines.antt =====
-- UnpackLine of v2/pkg/message/routines.go. ReadSlice and ReadBytes are those
-- of Go's bufio.Reader.
pub mod Splitting
use gazette.Prelude.{
  ℕ, zero, suc, ◌+◌, Bool, Option, none, some, List, [], ◌∷◌, ◌++◌, ltb, leb, ◌==◌, if◌then◌else◌,
  Bytes, length, take, drop,
}
use gazette.Message.Reader.{ReadError, eof, unexpected_eof, buffer_full, Reader, discard}

-- The bytes through the first newline.
abbrev pub through_newline : Bytes → Option Bytes
through_newline [] = none
through_newline (c ∷ cs) =
    let rest = through_newline cs in
    if c == 10 then some (c ∷ []) else elim rest [ none ↦ none | some line ↦ some (c ∷ line) ]

abbrev pub ReadLine : Type 0
ReadLine = Bytes × Option ReadError × Reader

abbrev pub line_read : Reader → Bytes → ReadLine
line_read r line = (line, none, discard (length line) r)

abbrev pub ended : Reader → ReadLine
ended r = (r.content, some r.ending, discard (length r.content) r)

-- ReadSlice: the line has to be within what the buffer can hold.
unfoldable pub read_slice : Reader → ReadLine
read_slice r = elim (through_newline (take r.capacity r.content)) [
  | some line ↦ line_read r line
  | none ↦
      if leb r.capacity (length r.content)
      then (take r.capacity r.content, some buffer_full, discard r.capacity r)
      else ended r
]

unfoldable pub read_bytes : Reader → ReadLine
read_bytes r = elim (through_newline r.content) [ some line ↦ line_read r line | none ↦ ended r ]

-- The end of the content within a line is unexpected.
abbrev pub line_error : Bytes → ReadError → ReadError
line_error [] err = err
line_error (c ∷ cs) eof = unexpected_eof
line_error (c ∷ cs) err = err

abbrev pub line_done : ReadLine → ReadLine
line_done (line, none, r) = (line, none, r)
line_done (line, some err, r) = (line, some (line_error line err), r)

-- The slow path, with what ReadBytes returned after `line`.
abbrev pub line_spilled : Bytes → ReadLine → ReadLine
line_spilled line (rest, none, r) = (line ++ rest, none, r)
line_spilled line (rest, some err, r) = (line, some err, r)

abbrev pub slice_read : ReadLine → ReadLine
unfolding read_bytes
slice_read (line, some buffer_full, r) = line_done (line_spilled line (read_bytes r))
slice_read (line, some err, r) = line_done (line, some err, r)
slice_read (line, none, r) = (line, none, r)

unfoldable pub unpack_line : Reader → ReadLine
unfolding read_slice slice_read
unpack_line r = slice_read (read_slice r)
