-- ===== src/Message/FixedFraming/Words.antt =====
-- The magic word and the length in a frame's header (v2/pkg/message/fixed_framing.go).
use gazette.Prelude.{
  ℕ, zero, suc, ◌+◌, ◌%◌, ◌^◌, ◌≤◌, ◌<◌, ◌≡◌, ◌⊎◌, inl, inr, refl, sym, ap, ◌∙◌, arith, Bool, true,
  false, some, List, [], ◌∷◌, ◌++◌, Bytes, ◌==◌, length, take, drop, Bool-cases, length-drop,
  drop-append,
}
use gazette.Message.FixedFraming.{
  magic_word, put_uint32, uint32, matches_word, matches_magic_word, before_word,
}

pub uint32-put_uint32 : (v : ℕ) (rest : Bytes) → uint32 (put_uint32 v ++ rest) ≡ v % 2 ^ 32
uint32-put_uint32 v rest = omega arith

pub matches_word-append : (w rest : Bytes) → matches_word w (w ++ rest) ≡ some true
unfolding matches_word
matches_word-append [] rest = refl
matches_word-append (m ∷ ms) rest = ground (arith, matches_word-append ms rest)

-- On enough bytes there is no index out of range.
pub matches_word-cases :
    (w b : Bytes)
    → length w ≤ length b
    → (matches_word w b ≡ some true) ⊎ (matches_word w b ≡ some false)
unfolding matches_word
matches_word-cases [] b h = inl refl
matches_word-cases (m ∷ ms) [] h = absurd (omega arith)
matches_word-cases (m ∷ ms) (x ∷ xs) h = elim (Bool-cases (x == m)) [
  | inl q ↦ rw q (matches_word-cases ms xs (omega arith))
  | inr q ↦ inr (rw q refl)
]

-- No magic word begins before an index.
abbrev pub NoWord : ℕ → Bytes → Type 0
NoWord i b = (k : ℕ) → k < i → matches_magic_word (drop k b) ≡ some false

drop-drop1 : {A : Type 0} (k : ℕ) (b : List A) → drop k (drop 1 b) ≡ drop (suc k) b
drop-drop1 zero b = refl
drop-drop1 (suc k) [] = refl
drop-drop1 (suc k) (x ∷ xs) = refl

pub NoWord-suc :
    (i : ℕ) (b : Bytes) → matches_magic_word b ≡ some false → NoWord i (drop 1 b) → NoWord (suc i) b
NoWord-suc i b h n zero l = h
NoWord-suc i b h n (suc k) l = ap matches_magic_word (sym (drop-drop1 k b)) ∙ n k (omega arith)

-- The scan finds the next word, or ends at its limit.
pub before_word-NoWord :
    (n : ℕ) (b : Bytes)
    → n + 3 ≤ length b
    → (i : ℕ) × (before_word n b ≡ some i)
      × NoWord i b
      × (i ≤ n)
      × ((i ≡ n) ⊎ (matches_magic_word (drop i b) ≡ some true))
unfolding before_word matches_word
before_word-NoWord zero b h = (0, refl, λ k l. absurd (omega arith), omega arith, inl refl)
before_word-NoWord (suc n) b h = elim (matches_word-cases magic_word b (omega arith)) [
  | inl e ↦ (0, rw e refl, λ k l. absurd (omega arith), omega arith, inr e)
  | inr e ↦
      let (i, q, w, l, last) = before_word-NoWord n (drop 1 b) (omega (arith, length-drop 1 b)) in
      (
        suc i,
        rw (e, q) refl,
        NoWord-suc i b e w,
        omega arith,
        elim last [
          | inl z ↦ inl (ap suc z)
          | inr m ↦ inr (ap matches_magic_word (sym (drop-drop1 i b)) ∙ m)
        ],
      )
]

-- A comparison that is decided on some bytes is so on more.
pub matches_word-extends :
    (w b rest : Bytes) (f : Bool) → matches_word w b ≡ some f → matches_word w (b ++ rest) ≡ some f
unfolding matches_word
matches_word-extends [] b rest f h = h
matches_word-extends (m ∷ ms) [] rest f h = absurd (ground arith)
matches_word-extends (m ∷ ms) (x ∷ xs) rest f h = elim (Bool-cases (x == m)) [
  | inl q ↦ rw q (matches_word-extends ms xs rest f (rw q at h))
  | inr q ↦ rw q (rw q at h)
]

pub NoWord-extends : (n : ℕ) (b rest : Bytes) → n ≤ length b → NoWord n b → NoWord n (b ++ rest)
NoWord-extends n b rest h w k l =
    ap matches_magic_word (drop-append k b rest (omega arith))
    ∙ matches_word-extends magic_word (drop k b) rest false (w k l)

-- The length in a header is in its first eight bytes.
uint32-take-suc :
    (n : ℕ) (b : Bytes)
    → uint32 (drop 4 (take (suc (suc (suc (suc (suc (suc (suc (suc n)))))))) b))
      ≡ uint32 (drop 4 (take 8 b))
uint32-take-suc n [] = refl
uint32-take-suc n (a ∷ []) = refl
uint32-take-suc n (a ∷ b ∷ []) = refl
uint32-take-suc n (a ∷ b ∷ c ∷ []) = refl
uint32-take-suc n (a ∷ b ∷ c ∷ d ∷ []) = refl
uint32-take-suc n (a ∷ b ∷ c ∷ d ∷ e ∷ []) = refl
uint32-take-suc n (a ∷ b ∷ c ∷ d ∷ e ∷ f ∷ []) = refl
uint32-take-suc n (a ∷ b ∷ c ∷ d ∷ e ∷ f ∷ g ∷ []) = refl
uint32-take-suc n (a ∷ b ∷ c ∷ d ∷ e ∷ f ∷ g ∷ h ∷ t) = refl

pub uint32-take :
    (n : ℕ) (b : Bytes) → uint32 (drop 4 (take (8 + n) b)) ≡ uint32 (drop 4 (take 8 b))
uint32-take n b =
    let e : 8 + n ≡ suc (suc (suc (suc (suc (suc (suc (suc n))))))) = omega arith in
    ap (λ k. uint32 (drop 4 (take k b))) e ∙ uint32-take-suc n b
