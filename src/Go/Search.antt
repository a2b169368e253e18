-- ===== src/Go/Search.antt =====
-- Go's `sort.Search(n, f)`: the smallest index in [0, n) at which a monotone test holds, or n.
-- The loop halves [i, j); `n` rounds are more than it can use, since each one shortens the range.
use gazette.Prelude.{
  ℕ, zero, suc, ◌+◌, ◌-◌, ◌/◌, ◌≤◌, ◌<◌, ◌≡◌, Bool, true, false, List, [], ◌∷◌, arith, ltb,
  if◌then◌else◌, Bool-cases, inl, inr, length, test_at,
}

search_loop : ℕ → (ℕ → Bool) → ℕ → ℕ → ℕ
search_loop zero f i j = i
search_loop (suc fuel) f i j = elim (ltb i j) [
  | false ↦ i
  | true ↦ elim (f ((i + j) / 2)) [
    | false ↦ search_loop fuel f ((i + j) / 2 + 1) j
    | true ↦ search_loop fuel f i ((i + j) / 2)
  ]
]

unfoldable pub search_index : ℕ → (ℕ → Bool) → ℕ
unfolding search_loop
search_index n f = search_loop n f 0 n

-- The number of leading elements that fail the test.
abbrev pub prefix_length {ℓ} : {A : Type ℓ} → (A → Bool) → List A → ℕ
prefix_length p [] = 0
prefix_length p (x ∷ xs) = if p x then 0 else suc (prefix_length p xs)

-- The test fails below `k` and holds from `k` on, inside [0, n).
abbrev pub Splits : ℕ → (ℕ → Bool) → ℕ → Type 0
Splits n f k = (k ≤ n) × ((m : ℕ) → m < k → f m ≡ false) × ((m : ℕ) → k ≤ m → m < n → f m ≡ true)

search_loop-Splits :
    (fuel n : ℕ) (f : ℕ → Bool) (k i j : ℕ)
    → Splits n f k
    → i ≤ k
    → k ≤ j
    → j ≤ n
    → j - i ≤ fuel
    → search_loop fuel f i j ≡ k
unfolding search_loop
search_loop-Splits zero n f k i j s a b c d = omega arith
search_loop-Splits (suc fuel) n f k i j s a b c d = ground (
  arith,
  s.1 ((i + j) / 2),
  s.2 ((i + j) / 2),
  search_loop-Splits fuel n f k ((i + j) / 2 + 1) j s,
  search_loop-Splits fuel n f k i ((i + j) / 2) s,
)

-- A test that splits [0, n) at `k` is searched to `k`.
pub search_index-Splits : (n : ℕ) (f : ℕ → Bool) (k : ℕ) → Splits n f k → search_index n f ≡ k
unfolding search_index
search_index-Splits n f k s =
    search_loop-Splits n n f k 0 n s (omega arith) s.0 (omega arith) (omega arith)

-- Once an element passes the test, all later ones do.
abbrev pub IsMonotone {ℓ} : {A : Type ℓ} → (A → Bool) → List A → Type 0
IsMonotone p [] = Unit
IsMonotone p (x ∷ xs) =
    (p x ≡ true → (m : ℕ) → m < length xs → test_at p xs m ≡ true) × IsMonotone p xs

module _ {ℓ} {A : Type ℓ} where
  below :
      (p : A → Bool) (x : A) (xs : List A)
      → Splits (length xs) (test_at p xs) (prefix_length p xs)
      → (m : ℕ) → m < prefix_length p (x ∷ xs)
      → test_at p (x ∷ xs) m ≡ false
  below p x xs ih zero l = ground arith
  below p x xs ih (suc m) l = ground (arith, ih.1 m)

  above :
      (p : A → Bool) (x : A) (xs : List A)
      → (p x ≡ true → (m : ℕ) → m < length xs → test_at p xs m ≡ true)
      → Splits (length xs) (test_at p xs) (prefix_length p xs)
      → (m : ℕ) → prefix_length p (x ∷ xs) ≤ m
      → m < suc (length xs)
      → test_at p (x ∷ xs) m ≡ true
  above p x xs h ih zero l k = ground arith
  above p x xs h ih (suc m) l k = elim (Bool-cases (p x)) [
    | inl e ↦ h e m (omega arith)
    | inr e ↦ ground (arith, ih.2 m)
  ]

  prefix_length-Splits :
      (p : A → Bool) (xs : List A)
      → IsMonotone p xs
      → Splits (length xs) (test_at p xs) (prefix_length p xs)
  prefix_length-Splits p [] h =
      (omega arith, λ m l. absurd (omega arith), λ m l k. absurd (omega arith))
  prefix_length-Splits p (x ∷ xs) (h, t) =
      let ih = prefix_length-Splits p xs t in
      (ground (arith, ih.0), below p x xs ih, above p x xs h ih)

  -- Over a list on which the test is monotone the search counts the leading failures.
  pub search_index-prefix_length :
      (p : A → Bool) (xs : List A)
      → IsMonotone p xs
      → search_index (length xs) (test_at p xs) ≡ prefix_length p xs
  search_index-prefix_length p xs h =
      search_index-Splits (length xs) (test_at p xs) (prefix_length p xs)
        (prefix_length-Splits p xs h)
