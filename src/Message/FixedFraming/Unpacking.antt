-- ===== src/Message/FixedFraming/Unpacking.antt =====
-- What fixedFraming.Unpack (v2/pkg/message/fixed_framing.go) takes from its reader.
use mathlib.Core.Path.{subst}
use gazette.Prelude.{
  ℕ, zero, suc, ◌+◌, ◌-◌, ◌≤◌, ◌≡◌, ◌⊎◌, inl, inr, refl, sym, ap, ◌∙◌, arith, Bool, true, false,
  none, some, List, [], ◌∷◌, ◌++◌, Bytes, ltb, length, take, drop, Bool-cases, take-drop,
  length-take, length-drop,
}
use gazette.Message.Reader.{ReadError, buffer_full, Reader, filled, fill, peek, discard}
use gazette.Message.FixedFraming.{
  magic_word, uint32, matches_magic_word, Unpacked, unpacked, not_unpacked, unpack_panics,
  read_full, unpack_jumbled, frame_peeked, header_peeked, unpack_frame, unpack,
}
use gazette.Message.FixedFraming.Words.{
  matches_word-cases, NoWord, NoWord-suc, NoWord-extends, before_word-NoWord, matches_word-extends,
  uint32-take,
}

-- A buffer as bufio makes it, which holds no more than there is, and no more than its size.
abbrev pub IsReader : Reader → Type 0
IsReader r = (16 ≤ r.capacity) × (r.held ≤ length r.content) × (r.held ≤ r.capacity)

take-take : {A : Type 0} (n m : ℕ) (xs : List A) → n ≤ m → take n (take m xs) ≡ take n xs
take-take zero m xs h = refl
take-take (suc n) zero xs h = absurd (omega arith)
take-take (suc n) (suc m) [] h = refl
take-take (suc n) (suc m) (x ∷ xs) h = ap (λ t. x ∷ t) (take-take n m xs (omega arith))

pub filled-length : (n extra : ℕ) (r : Reader) → IsReader r → filled n extra r ≤ length r.content
filled-length n extra r h = ground (arith, h)

pub filled-enough :
    (n extra : ℕ) (r : Reader)
    → IsReader r
    → n ≤ r.capacity
    → n ≤ length r.content
    → n ≤ filled n extra r
filled-enough n extra r h c l = ground (arith, h)

-- The frame that is returned: it is what the reader no longer has. It is a frame with its header and
-- the length stated there, or jumbled bytes with no magic word in them.
abbrev pub Taken : Reader → Unpacked → Type 0
Taken r (unpacked frame r') =
    (frame ++ r'.content ≡ r.content)
    × IsReader r'
    × (((matches_magic_word frame ≡ some true) × (length frame ≡ 8 + uint32 (drop 4 frame)))
        ⊎ ((1 ≤ length frame) × NoWord (length frame) r.content))
Taken r (not_unpacked err r') = Unit
Taken r unpack_panics = ⊥

-- Peek returns what it is asked for, or an error.
pub peek-cases :
    (n extra : ℕ) (r : Reader)
    → IsReader r
    → ((n ≤ filled n extra r) × (peek n extra r ≡ (take n r.content, none, fill n extra r)))
      ⊎ ((b : Bytes) × (e : ReadError) × (peek n extra r ≡ (b, some e, fill n extra r)))
unfolding peek
peek-cases n extra r h = elim (Bool-cases (ltb r.capacity n)) [
  | inl q ↦ inr (take (filled n extra r) r.content, buffer_full, rw (peek, q) refl)
  | inr q ↦ elim (Bool-cases (ltb (filled n extra r) n)) [
    | inl p ↦ inr (take (filled n extra r) r.content, r.ending, rw (peek, q, p) refl)
    | inr p ↦ inl (ground arith, rw (peek, q, p) refl)
  ]
]

pub discard-IsReader :
    (n : ℕ) (r : Reader) → IsReader r → n ≤ length r.content → IsReader (discard n r)
discard-IsReader n r h l = (h.0, omega (arith, length-drop n r.content, h.1), omega (arith, h.2))

pub fill-IsReader : (n extra : ℕ) (r : Reader) → IsReader r → IsReader (fill n extra r)
fill-IsReader n extra r h = (h.0, filled-length n extra r h, ground (arith, h))

matches-whole :
    (n : ℕ) (b : Bytes) (f : Bool)
    → matches_magic_word (take n b) ≡ some f
    → matches_magic_word b ≡ some f
matches-whole n b f h =
    ap matches_magic_word (sym (take-drop n b))
    ∙ matches_word-extends magic_word (take n b) (drop n b) f h

-- A frame with its header is taken whole.
whole-Taken :
    (n : ℕ) (r : Reader)
    → IsReader r
    → matches_magic_word (take 8 r.content) ≡ some true
    → 8 + n ≤ length r.content
    → n ≡ uint32 (drop 4 (take 8 r.content))
    → Taken r (unpacked (take (8 + n) r.content) (discard (8 + n) r))
whole-Taken n r h m l e = (
  take-drop (8 + n) r.content,
  discard-IsReader (8 + n) r h l,
  inl (
    matches-whole 8 (take (8 + n) r.content) true
        (ap matches_magic_word (take-take 8 (8 + n) r.content (omega arith)) ∙ m),
    length-take (8 + n) r.content l ∙ ap (λ t. 8 + t) (e ∙ sym (uint32-take n r.content)),
  ),
)

unpack_jumbled-Taken :
    (r : Reader)
    → IsReader r
    → 8 ≤ r.held
    → matches_magic_word (take 8 r.content) ≡ some false
    → Taken r (unpack_jumbled r)
unfolding unpack_jumbled
unpack_jumbled-Taken r h l m =
    let b = take r.held r.content in
    let n : length b ≡ r.held = length-take r.held r.content h.1 in
    let (i, q, w, u, last) =
      before_word-NoWord (length b - 4) (drop 1 b) (omega (arith, n, length-drop 1 b)) in
    let m' = matches-whole 8 b false (ap matches_magic_word (take-take 8 r.held r.content l) ∙ m) in
    let v : suc i ≤ r.held = omega (arith, n, u, l) in
    let z : length (take (suc i) b) ≡ suc i = length-take (suc i) b (omega (arith, n, v)) in
    let none_within : NoWord (suc i) (b ++ drop r.held r.content) =
      NoWord-extends (suc i) b (drop r.held r.content) (omega (arith, n, v))
        (NoWord-suc i b m' w) in
    rw (unpack_jumbled, q)
      (
        ap (λ t. t ++ drop (suc i) r.content) (take-take (suc i) r.held r.content v)
            ∙ take-drop (suc i) r.content,
        discard-IsReader (suc i) r h (omega (arith, v, h.1)),
        inr (
          omega (arith, z),
          λ k j.
              ap (λ t. matches_magic_word (drop k t)) (sym (take-drop r.held r.content))
              ∙ none_within k (omega (arith, z, j)),
        ),
      )

read_full-Taken :
    (n : ℕ) (r : Reader)
    → (8 + n ≤ length r.content → Taken r (unpacked (take (8 + n) r.content) (discard (8 + n) r)))
    → Taken r (read_full (8 + n) r)
read_full-Taken n r f = elim (Bool-cases (ltb (length r.content) (8 + n))) [
  | inl s ↦ rw (read_full, s) tt
  | inr s ↦ rw (read_full, s) (f (ground arith))
]

unpack_frame-Taken :
    (n more : ℕ) (r : Reader)
    → IsReader r
    → matches_magic_word (take 8 r.content) ≡ some true
    → n ≡ uint32 (drop 4 (take 8 r.content))
    → Taken r (unpack_frame (8 + n) more r)
unfolding unpack_frame
unpack_frame-Taken n more r h m e =
    let whole = whole-Taken n (fill (8 + n) more r) (fill-IsReader (8 + n) more r h) m in
    elim (peek-cases (8 + n) more r h) [
      | inl (l, q) ↦
          subst (λ t. Taken r (frame_peeked (8 + n) t)) (sym q)
            (whole (omega (arith, l, filled-length (8 + n) more r h)) e)
      | inr (b, err, q) ↦
          subst (λ t. Taken r (frame_peeked (8 + n) t)) (sym q)
            (read_full-Taken n (fill (8 + n) more r) (λ l. whole l e))
    ]

-- Unpack, on a reader whose buffer has at least 16 bytes and holds no more than the content, does
-- not panic. Without an error, what it returns is taken off the content, byte for byte, and is
-- either a frame that begins with the magic word and is as long as its header says, or at least one
-- byte, with no magic word beginning in it.
pub unpack-Taken : (extra more : ℕ) (r : Reader) → IsReader r → Taken r (unpack extra more r)
unfolding unpack header_peeked
unpack-Taken extra more r h = elim (peek-cases 8 extra r h) [
  | inr (b, err, q) ↦ subst (λ t. Taken r (header_peeked more t)) (sym q) tt
  | inl (l, q) ↦
      let r' = fill 8 extra r in
      let n : 8 ≤ length r.content = omega (arith, l, filled-length 8 extra r h) in
      subst (λ t. Taken r (header_peeked more t)) (sym q)
        (elim (matches_word-cases magic_word (take 8 r.content)
          (omega (arith, length-take 8 r.content n))) [
            | inl m ↦
                rw (header_peeked, m)
                  (unpack_frame-Taken (uint32 (drop 4 (take 8 r.content))) more r'
                    (fill-IsReader 8 extra r h) m refl)
            | inr m ↦
                rw (header_peeked, m) (unpack_jumbled-Taken r' (fill-IsReader 8 extra r h) l m)
          ])
]
