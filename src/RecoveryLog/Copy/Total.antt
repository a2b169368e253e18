-- ===== src/RecoveryLog/Copy/Total.antt =====
-- copyFixed (v2/pkg/recoverylog/playback.go) ends, and copies what it is asked to.
use mathlib.Core.Path.{subst}
use mathlib.Core.List.{append_assoc, append-nil}
use gazette.Prelude.{
  ℕ, zero, suc, ◌-◌, ◌≤◌, ◌<◌, ◌≡◌, refl, sym, ap, ◌∙◌, arith, Bool, true, false, some, [], ◌∷◌,
  ◌++◌, Bytes, ◌==◌, ltb, length, take, drop, Bool-cases, inl, inr, length-drop, length-take,
  take-take-of_le,
}
use gazette.Message.Reader.{Reader, min, peek, discard, fill, filled}
use gazette.Message.FixedFraming.Unpacking.{
  IsReader, fill-IsReader, discard-IsReader, filled-enough,
}
use gazette.Message.FixedFraming.RoundTrip.{peek-enough}
use gazette.RecoveryLog.Copy.{
  Copied, copied, cut_short, write_failed, copy_panics, out_of_fuel, after_write, after_peek,
  after_fill, copy_fixed, is_negative, copy_signed,
}

-- A write without an error takes all bytes.
abbrev pub TakesAll : (Bytes → Bytes → ℕ × Bool) → Type 0
TakesAll writer = (out b : Bytes) → (writer out b).1 ≡ false → (writer out b).0 ≡ length b

-- What a copy of `n` bytes may come to.
abbrev pub Copies : Reader → ℕ → Bytes → Copied → Type 0
Copies r n out (copied all rest) =
    (n ≤ length r.content)
    × (all ≡ out ++ take n r.content)
    × (rest.content ≡ drop n r.content)
    × IsReader rest
Copies r n out (cut_short e) = (length r.content < n) × (e ≡ r.ending)
Copies r n out write_failed = Unit
Copies r n out copy_panics = ⊥
Copies r n out out_of_fuel = ⊥

peek-nothing :
    (extra : ℕ) (r : Reader)
    → IsReader r
    → length r.content ≡ 0
    → peek 1 extra r ≡ (take (filled 1 extra r) r.content, some r.ending, fill 1 extra r)
unfolding peek
peek-nothing extra r h e =
    let a : ltb r.capacity 1 ≡ false = ground (arith, h.0) in
    let b : ltb (filled 1 extra r) 1 ≡ true = ground (arith, h.1, e) in rw (peek, a, b) refl

take-none : (n : ℕ) → take {A = ℕ} n [] ≡ []
take-none zero = refl
take-none (suc n) = refl

drop-none : (n : ℕ) → drop {A = ℕ} n [] ≡ []
drop-none zero = refl
drop-none (suc n) = refl

take-add : (k n : ℕ) (xs : Bytes) → k ≤ n → take k xs ++ take (n - k) (drop k xs) ≡ take n xs
take-add zero n xs h = ap (λ t. take t xs) (omega arith)
take-add (suc k) zero xs h = absurd (omega arith)
take-add (suc k) (suc n) [] h = take-none (suc n - suc k)
take-add (suc k) (suc n) (x ∷ xs) h =
    ap (λ t. x ∷ t)
      (ap (λ t. take k xs ++ take t (drop k xs)) (omega arith) ∙ take-add k n xs (omega arith))

drop-add : (k n : ℕ) (xs : Bytes) → k ≤ n → drop (n - k) (drop k xs) ≡ drop n xs
drop-add zero n xs h = ap (λ t. drop t xs) (omega arith)
drop-add (suc k) zero xs h = absurd (omega arith)
drop-add (suc k) (suc n) [] h = drop-none (suc n - suc k)
drop-add (suc k) (suc n) (x ∷ xs) h =
    ap (λ t. drop t (drop k xs)) (omega arith) ∙ drop-add k n xs (omega arith)

-- After the first `k` bytes, a copy of the rest.
Copies-step :
    (k n : ℕ) (r : Reader) (out : Bytes) (c : Copied)
    → k ≤ n
    → k ≤ length r.content
    → Copies (discard k r) (n - k) (out ++ take k r.content) c
    → Copies r n out c
Copies-step k n r out (copied all rest) a b (l, e, f, g) = (
  omega (arith, l, length-drop k r.content),
  e
      ∙ append_assoc out (take k r.content) (take (n - k) (drop k r.content))
      ∙ ap (λ t. out ++ t) (take-add k n r.content a),
  f ∙ drop-add k n r.content a,
  g,
)
Copies-step k n r out (cut_short e) a b (l, f) = (omega (arith, l, length-drop k r.content), f)
Copies-step k n r out write_failed a b h = tt
Copies-step k n r out copy_panics a b h = h
Copies-step k n r out out_of_fuel a b h = h

done-Copies :
    (r : Reader) (n : ℕ) (out : Bytes) → n ≡ 0 → IsReader r → Copies r n out (copied out r)
done-Copies r n out e h =
    subst (λ k. Copies r k out (copied out r)) (sym e) (omega arith, sym (append-nil out), refl, h)

module _ (writer : Bytes → Bytes → ℕ × Bool) (takes_all : TakesAll writer) where
  after_write-Copies :
      (rest : Reader → ℕ → Bytes → Copied) (n k : ℕ) (out : Bytes) (t : Reader)
      → k ≤ n
      → k ≤ length t.content
      → ((out' : Bytes) → Copies (discard k t) (n - k) out' (rest (discard k t) (n - k) out'))
      → (w : ℕ × Bool) → writer out (take k t.content) ≡ w
      → Copies t n out (after_write writer rest n out (take k t.content) t w)
  after_write-Copies rest n k out t a c more (wrote, true) e = tt
  after_write-Copies rest n k out t a c more (wrote, false) e =
      let b = take k t.content in
      let all : wrote ≡ k =
        sym (ap (λ x. x.0) e) ∙ takes_all out b (ap (λ x. x.1) e) ∙ length-take k t.content c in
      subst (λ j. Copies t n out (rest (discard j t) (n - j) (out ++ take j b))) (sym all)
        (subst (λ x. Copies t n out (rest (discard k t) (n - k) (out ++ x)))
          (sym (take-take-of_le k k t.content (omega arith)))
          (Copies-step k n t out _ a c (more (out ++ b))))

  abbrev loop : ℕ → (ℕ → ℕ) → Reader → ℕ → Bytes → Copied
  loop fuel extras r n out = copy_fixed writer fuel extras r n out

  -- A copy ends within as many rounds as there are bytes to copy, whatever the fills of the buffer
  -- bring. Unless the writer fails, it writes the next `n` bytes, in order, and leaves the reader
  -- after them, or returns the reader's error if it has fewer.
  pub copy_fixed-Copies :
      (fuel : ℕ) (extras : ℕ → ℕ) (r : Reader) (n : ℕ) (out : Bytes)
      → n ≤ fuel
      → IsReader r
      → Copies r n out (copy_fixed writer fuel extras r n out)
  unfolding copy_fixed
  copy_fixed-Copies zero extras r n out l h =
      let q : (n == 0) ≡ true = ground (arith, l) in
      rw (copy_fixed, q) (done-Copies r n out (omega (arith, l)) h)
  copy_fixed-Copies (suc fuel) extras r n out l h = elim (Bool-cases (n == 0)) [
    | inl q ↦ rw (copy_fixed, q) (done-Copies r n out (ground (arith, q)) h)
    | inr q ↦ elim (Bool-cases (length r.content == 0)) [
      | inl e ↦
          rw (copy_fixed, q)
            (subst (λ x. Copies r n out (after_fill writer (loop fuel extras) n out x))
              (sym (peek-nothing (extras fuel) r h (ground (arith, e))))
              (ground (arith, e, q), refl))
      | inr e ↦
          let one : 1 ≤ length r.content = ground (arith, e) in
          let s = fill 1 (extras fuel) r in
          let hs = fill-IsReader 1 (extras fuel) r h in
          let k = min s.held n in
          let more = filled-enough 1 (extras fuel) r h (omega (arith, h.0)) one in
          let k_in : k ≤ length s.content = ground (arith, hs.1) in
          let k_pos : 1 ≤ k = ground (arith, q, more) in
          let t = fill k 0 s in
          let ht = fill-IsReader k 0 s hs in
          rw (copy_fixed, q)
            (subst (λ x. Copies r n out (after_fill writer (loop fuel extras) n out x))
              (sym (peek-enough 1 (extras fuel) r h (omega (arith, h.0)) one))
              (subst (λ x. Copies s n out (after_peek writer (loop fuel extras) n out x))
                (sym (peek-enough k 0 s hs (ground (arith, hs.2)) k_in))
                (after_write-Copies (loop fuel extras) n k out t (ground arith) k_in
                  (λ out'.
                    copy_fixed-Copies fuel extras (discard k t) (n - k) out'
                      (omega (arith, k_pos, l)) (discard-IsReader k t ht k_in))
                  (writer out (take k t.content)) refl)))
    ]
  ]

  pub copy_signed-Copies :
      (extras : ℕ → ℕ) (r : Reader) (size : ℕ)
      → is_negative size ≡ false
      → IsReader r
      → Copies r size [] (copy_signed writer extras r size)
  unfolding copy_signed
  copy_signed-Copies extras r size h buffer =
      rw h (copy_fixed-Copies size extras r size [] (omega arith) buffer)
