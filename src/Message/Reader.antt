-- ===== src/Message/Reader.antt =====
-- bufio.Reader of Go's library, as far as v2/pkg/message uses it. A fill of the buffer may bring any
-- number of bytes past those asked for, which is an argument.
use gazette.Prelude.{
  ℕ, ◌+◌, ◌-◌, Option, none, some, Bytes, ltb, leb, if◌then◌else◌, length, take, drop,
}

pub data ReadError : Type 0 where
  eof unexpected_eof buffer_full failed : ReadError

pub record Reader : Type 0 where
  pub content : Bytes  -- what is left to read; the first of it is in the buffer
  pub held : ℕ  -- how much of it is in the buffer
  pub capacity : ℕ  -- the buffer's size
  pub ending : ReadError  -- what the underlying reader returns at the end of the content

abbrev pub min : ℕ → ℕ → ℕ
min a b = if leb a b then a else b

-- How much is held once `n` bytes, or a full buffer, or all content are.
abbrev pub filled : ℕ → ℕ → Reader → ℕ
filled n extra r =
    if ltb r.held (min n r.capacity)
    then min (min (n + extra) r.capacity) (length r.content)
    else r.held

abbrev pub fill : ℕ → ℕ → Reader → Reader
fill n extra r = record r { held = filled n extra r }

unfoldable pub peek : ℕ → ℕ → Reader → Bytes × Option ReadError × Reader
peek n extra r =
    let r' = fill n extra r in
    if ltb r.capacity n
    then (take r'.held r.content, some buffer_full, r')
    else if ltb r'.held n
    then (take r'.held r.content, some r.ending, r')
    else (take n r.content, none, r')

abbrev pub discard : ℕ → Reader → Reader
discard n r = record r { content = drop n r.content; held = r.held - n }
