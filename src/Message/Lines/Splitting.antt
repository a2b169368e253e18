-- ===== src/Message/Lines/Splitting.antt =====
-- UnpackLine (v2/pkg/message/routines.go) splits the content at newlines, whatever its buffer holds.
use mathlib.Core.Path.{subst}
use gazette.Prelude.{
  ℕ, zero, suc, ◌+◌, ◌≤◌, ◌<◌, ◌≡◌, ◌≢◌, inl, inr, refl, sym, ap, ◌∙◌, arith, Option, none, some,
  [], ◌∷◌, ◌++◌, leb, ◌==◌, if◌then◌else◌, Bool-cases, Option-cases, Bytes, length, take, drop,
  length-append, take-drop, length-take,
}
use gazette.Message.Reader.{ReadError, buffer_full, Reader, discard}
use gazette.Message.Lines.{
  through_newline, ReadLine, line_read, ended, read_slice, read_bytes, line_error, line_done,
  line_spilled, slice_read, unpack_line,
}

abbrev prefixed : Bytes → Option Bytes → Option Bytes
prefixed xs none = none
prefixed xs (some ys) = some (xs ++ ys)

abbrev either : Option Bytes → Option Bytes → Option Bytes
either none b = b
either (some a) b = some a

prefixed-suc :
    (c : ℕ) (xs : Bytes) (o : Option Bytes)
    → prefixed (c ∷ xs) o ≡ elim (prefixed xs o) [ none ↦ none | some line ↦ some (c ∷ line) ]
prefixed-suc c xs none = refl
prefixed-suc c xs (some ys) = refl

-- The first newline is in the first part, or else in the second.
through_newline-append :
    (xs ys : Bytes)
    → through_newline (xs ++ ys) ≡ either (through_newline xs) (prefixed xs (through_newline ys))
through_newline-append [] ys = by_cases (through_newline ys)
  where
    by_cases : (o : Option Bytes) → o ≡ prefixed [] o
    by_cases none = refl
    by_cases (some l) = refl
through_newline-append (c ∷ cs) ys = elim (Bool-cases (c == 10)) [
  | inl q ↦ rw q refl
  | inr q ↦ elim (Option-cases (through_newline cs)) [
    | inl h ↦ rw (q, through_newline-append cs ys, h) (sym (prefixed-suc c cs (through_newline ys)))
    | inr (l, h) ↦ rw (q, through_newline-append cs ys, h) refl
  ]
]

through_newline-take :
    (n : ℕ) (xs : Bytes)
    → through_newline xs
      ≡ either (through_newline (take n xs)) (prefixed (take n xs) (through_newline (drop n xs)))
through_newline-take n xs =
    ap through_newline (sym (take-drop n xs)) ∙ through_newline-append (take n xs) (drop n xs)

take-all : (n : ℕ) (xs : Bytes) → length xs < n → take n xs ≡ xs
take-all zero xs h = absurd (omega arith)
take-all (suc n) [] h = refl
take-all (suc n) (x ∷ xs) h = ap (λ t. x ∷ t) (take-all n xs (omega arith))

drop-drop : (n m : ℕ) (xs : Bytes) → drop m (drop n xs) ≡ drop (n + m) xs
drop-drop zero m xs = ap (λ k. drop k xs) (omega arith)
drop-drop (suc n) m [] = by_size m ∙ sym (by_size (suc n + m))
  where
    by_size : (k : ℕ) → drop {A = ℕ} k [] ≡ []
    by_size zero = refl
    by_size (suc k) = refl
drop-drop (suc n) m (x ∷ xs) = drop-drop n m xs ∙ ap (λ k. drop k (x ∷ xs)) (sym (suc_add n m))
  where
    suc_add : (n m : ℕ) → suc n + m ≡ suc (n + m)
    suc_add n m = omega arith

by_window : Reader → Option Bytes → ReadLine
by_window r (some line) = line_read r line
by_window r none =
    if leb r.capacity (length r.content)
    then (take r.capacity r.content, some buffer_full, discard r.capacity r)
    else ended r

by_line : Reader → Option Bytes → ReadLine
by_line r (some line) = line_read r line
by_line r none = ended r

read_slice-by_window :
    (r : Reader) → read_slice r ≡ by_window r (through_newline (take r.capacity r.content))
unfolding read_slice by_window
read_slice-by_window r = elim (Option-cases (through_newline (take r.capacity r.content))) [
  | inl h ↦ rw (read_slice, by_window, h) refl
  | inr (l, h) ↦ rw (read_slice, by_window, h) refl
]

read_bytes-by_line : (r : Reader) → read_bytes r ≡ by_line r (through_newline r.content)
unfolding read_bytes by_line
read_bytes-by_line r = elim (Option-cases (through_newline r.content)) [
  | inl h ↦ rw (read_bytes, by_line, h) refl
  | inr (l, h) ↦ rw (read_bytes, by_line, h) refl
]

slice_read-ended :
    (line : Bytes) (e : ReadError) (r : Reader)
    → e ≢ buffer_full
    → slice_read (line, some e, r) ≡ (line, some (line_error line e), r)
unfolding slice_read
slice_read-ended line ReadError.eof r n = refl
slice_read-ended line ReadError.unexpected_eof r n = refl
slice_read-ended line ReadError.failed r n = refl
slice_read-ended line buffer_full r n = absurd (n refl)

discard-twice : (n m : ℕ) (r : Reader) → discard m (discard n r) ≡ discard (n + m) r
discard-twice n m r = ground (arith, drop-drop n m r.content)

-- What a newline is found, or not, makes of the reader.
abbrev pub Splits : Reader → Option Bytes → ReadLine → Type 0
Splits r (some line) result = result ≡ line_read r line
Splits r none result =
    (line : Bytes) × (result
      ≡ (line, some (line_error r.content r.ending), discard (length r.content) r))

line_error-same :
    (a b : Bytes) (e : ReadError) → 0 < length a → 0 < length b → line_error a e ≡ line_error b e
line_error-same [] b e h k = absurd (omega arith)
line_error-same (x ∷ a) [] e h k = absurd (omega arith)
line_error-same (x ∷ a) (y ∷ b) ReadError.eof h k = refl
line_error-same (x ∷ a) (y ∷ b) ReadError.unexpected_eof h k = refl
line_error-same (x ∷ a) (y ∷ b) ReadError.failed h k = refl
line_error-same (x ∷ a) (y ∷ b) buffer_full h k = refl

-- The slow path, after a full buffer without a newline.
spilled-Splits :
    (r : Reader)
    → 0 < r.capacity
    → r.capacity ≤ length r.content
    → Splits r
        (prefixed (take r.capacity r.content) (through_newline (drop r.capacity r.content)))
        (slice_read (take r.capacity r.content, some buffer_full, discard r.capacity r))
unfolding slice_read by_line prefixed
spilled-Splits r h l =
    let w = take r.capacity r.content in
    let r' = discard r.capacity r in
    let size = length-take r.capacity r.content l in
    let slow : slice_read (w, some buffer_full, r')
        ≡ line_done (line_spilled w (by_line r' (through_newline r'.content))) =
      ap (λ t. line_done (line_spilled w t)) (read_bytes-by_line r') in
    elim (Option-cases (through_newline r'.content)) [
      | inr (rest, q) ↦
          subst (λ o. Splits r (prefixed w o) (slice_read (w, some buffer_full, r'))) (sym q)
            (slow
              ∙ ap (λ o. line_done (line_spilled w (by_line r' o))) q
              ∙ ap (λ t. (w ++ rest, none, t))
                  (discard-twice r.capacity (length rest) r
                    ∙ ap (λ k. discard k r) (omega (arith, length-append w rest, size))))
      | inl q ↦
          subst (λ o. Splits r (prefixed w o) (slice_read (w, some buffer_full, r'))) (sym q)
            (
              w,
              slow
                  ∙ ap (λ o. line_done (line_spilled w (by_line r' o))) q
                  ∙ ap (λ e. (w, some e, discard (length r'.content) r'))
                      (line_error-same w r.content r.ending (omega (arith, size, h))
                        (omega (arith, h, l)))
                  ∙ ap (λ t. (w, some (line_error r.content r.ending), t))
                      (discard-twice r.capacity (length r'.content) r
                        ∙ ap (λ k. discard k r)
                            (omega (
                              arith,
                              ap length (take-drop r.capacity r.content),
                              length-append w r'.content,
                              size,
                            ))),
            )
    ]

-- For a buffer of at least one byte, and a reader whose error at its end is not that of a full
-- buffer: if the content has a newline, UnpackLine returns the bytes through the first one, without an
-- error, and leaves the rest; otherwise it takes all of the content, and the error is that of the
-- reader, or an unexpected end of file if the content is not empty and the reader's is an end of file.
pub unpack_line-Splits :
    (r : Reader)
    → 0 < r.capacity
    → r.ending ≢ buffer_full
    → Splits r (through_newline r.content) (unpack_line r)
unfolding unpack_line by_window slice_read
unpack_line-Splits r h n =
    let w = take r.capacity r.content in
    let sliced : unpack_line r ≡ slice_read (by_window r (through_newline w)) =
      ap slice_read (read_slice-by_window r) in
    let whole = through_newline-take r.capacity r.content in
    elim (Option-cases (through_newline w)) [
      | inr (line, q) ↦
          subst (λ o. Splits r o (unpack_line r))
            (sym (
              whole
              ∙ ap (λ o. either o (prefixed w (through_newline (drop r.capacity r.content)))) q))
            (sliced ∙ ap (λ o. slice_read (by_window r o)) q)
      | inl q ↦
          let missed : through_newline r.content
              ≡ prefixed w (through_newline (drop r.capacity r.content)) =
            whole
            ∙ ap (λ o. either o (prefixed w (through_newline (drop r.capacity r.content)))) q in
          elim (Bool-cases (leb r.capacity (length r.content))) [
            | inl l ↦
                subst (Splits r (through_newline r.content))
                  (sym (
                    sliced
                    ∙ ap (λ o. slice_read (by_window r o)) q
                    ∙ ap
                        (λ b.
                          slice_read
                            (if b then (w, some buffer_full, discard r.capacity r) else ended r))
                        l))
                  (subst (λ o. Splits r o (slice_read (w, some buffer_full, discard r.capacity r)))
                    (sym missed) (spilled-Splits r h (ground (arith, l))))
            | inr l ↦
                let all : w ≡ r.content = take-all r.capacity r.content (ground (arith, l)) in
                subst (λ o. Splits r o (unpack_line r)) (sym (ap through_newline (sym all) ∙ q))
                  (
                    r.content,
                    sliced
                        ∙ ap (λ o. slice_read (by_window r o)) q
                        ∙ ap
                            (λ b.
                              slice_read (
                                if b then (w, some buffer_full, discard r.capacity r) else ended r))
                            l
                        ∙ slice_read-ended r.content r.ending (discard (length r.content) r) n,
                  )
          ]
    ]
