-- ===== src/Message/FixedFraming/Desync.antt =====
-- A jumbled frame that is cut just before a magic word (v2/pkg/message/fixed_framing.go).
use gazette.Prelude.{
  ℕ, zero, suc, ◌-◌, ◌≤◌, ◌≡◌, refl, ap, ◌∙◌, arith, Option, none, some, [], ◌∷◌, ◌++◌, Bytes,
  length, take, length-take,
}
use gazette.Message.Reader.{Reader, fill, discard}
use gazette.Message.FixedFraming.{
  magic_word, matches_word, before_word, unpacked, header_peeked, unpack_jumbled, unpack, unmarshal,
  unmarshal_panics,
}
use gazette.Message.FixedFraming.Unpacking.{IsReader, fill-IsReader, filled-enough}
use gazette.Message.FixedFraming.RoundTrip.{peek-enough}

-- The first byte of the magic word, then the word.
abbrev pub stray : Bytes → Bytes
stray tail = 102 ∷ magic_word ++ tail

before_word-stray : (n : ℕ) (tail : Bytes) → before_word (suc n) (magic_word ++ tail) ≡ some 0
unfolding before_word matches_word
before_word-stray n tail = refl

take-stray : (n : ℕ) (tail : Bytes) → 8 ≤ n → (rest : Bytes) × (take n (stray tail) ≡ stray rest)
take-stray (suc (suc (suc (suc (suc n))))) tail h = (take n tail, refl)
take-stray zero tail h = absurd (omega arith)
take-stray (suc zero) tail h = absurd (omega arith)
take-stray (suc (suc zero)) tail h = absurd (omega arith)
take-stray (suc (suc (suc zero))) tail h = absurd (omega arith)
take-stray (suc (suc (suc (suc zero)))) tail h = absurd (omega arith)

unpack_jumbled-stray :
    (tail : Bytes) (r : Reader)
    → IsReader r
    → 8 ≤ r.held
    → r.content ≡ stray tail
    → unpack_jumbled r ≡ unpacked (102 ∷ []) (discard 1 r)
unfolding unpack_jumbled
unpack_jumbled-stray tail r h l c =
    let (rest, e) = take-stray r.held tail l in
    let b : take r.held r.content ≡ stray rest = ap (take r.held) c ∙ e in
    let n : length (stray rest) - 4 ≡ suc (length (stray rest) - 5) =
      omega (arith, ap length b, length-take r.held r.content h.1) in
    let s : before_word (length (stray rest) - 4) (magic_word ++ rest) ≡ some 0 =
      ap (λ k. before_word k (magic_word ++ rest)) n
      ∙ before_word-stray (length (stray rest) - 5) rest in
    rw (unpack_jumbled, b, s) (ap (λ t. unpacked (take 1 t) (discard 1 r)) b)

-- Where the content is the first byte of the magic word, then the word and at least three bytes
-- more, and the buffer has at least 16 bytes and holds no more than the content, Unpack returns that
-- one byte as a frame, on which Unmarshal of a message panics.
pub unpack-stray :
    {M : Type 0} (p : Bytes → Option M) (fixup : Option (M → Option M)) (tail : Bytes)
    (extra more : ℕ) (r : Reader)
    → IsReader r
    → 3 ≤ length tail
    → r.content ≡ stray tail
    → (r' : Reader) × (unpack extra more r ≡ unpacked (102 ∷ []) r')
      × (unmarshal (some p) fixup (102 ∷ []) ≡ unmarshal_panics)
unfolding unpack header_peeked unmarshal matches_word
unpack-stray p fixup tail extra more r h l c =
    let n : 8 ≤ length r.content = omega (arith, ap length c) in
    let r' = fill 8 extra r in
    (
      discard 1 r',
      ap (header_peeked more) (peek-enough 8 extra r h (omega (arith, h.0)) n)
          ∙ ap (λ t. header_peeked more (take 8 t, none, r')) c
          ∙ unpack_jumbled-stray tail r' (fill-IsReader 8 extra r h)
              (filled-enough 8 extra r h (omega (arith, h.0)) n) c,
      refl,
    )
