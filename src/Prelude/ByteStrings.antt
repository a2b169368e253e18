-- ===== src/Prelude/ByteStrings.antt =====
-- Go strings and byte slices as lists of bytes, compared as Go's `<`, `==` and `bytes.Compare` do.
use Prim.Native.Nat.{ℕ, compare, Ordering}
use mathlib.Core.Path.{◌≡◌, refl}
use mathlib.Core.Logic.{◌↔◌}
use mathlib.Core.Bool.{Bool, true, false, ◌&&◌}
use mathlib.Core.List.{List, [], ◌∷◌}
use native.Mathlib.Omega.{arith}
use gazette.Prelude.Tests.{◌==◌}

abbrev pub Bytes : Type 0
Bytes = List ℕ

unfoldable pub bytes_eq : Bytes → Bytes → Bool
bytes_eq [] [] = true
bytes_eq [] (b ∷ bs) = false
bytes_eq (a ∷ as') [] = false
bytes_eq (a ∷ as') (b ∷ bs) = a == b && bytes_eq as' bs

-- The first byte that differs decides; a proper prefix comes first.
unfoldable pub bytes_lt : Bytes → Bytes → Bool
bytes_lt [] [] = false
bytes_lt [] (b ∷ bs) = true
bytes_lt (a ∷ as') [] = false
bytes_lt (a ∷ as') (b ∷ bs) = elim (compare a b) [
  | Ordering.lt ↦ true
  | Ordering.eq ↦ bytes_lt as' bs
  | Ordering.gt ↦ false
]

pub bytes_eq_iff : (a b : Bytes) → (bytes_eq a b ≡ true) ↔ (a ≡ b)
unfolding bytes_eq
bytes_eq_iff [] [] = (λ h. refl, λ h. refl)
bytes_eq_iff [] (b ∷ bs) = ground arith
bytes_eq_iff (a ∷ as') [] = ground arith
bytes_eq_iff (a ∷ as') (b ∷ bs) = ground (arith, bytes_eq_iff as' bs)

pub bytes_lt_irrefl : (a : Bytes) → bytes_lt a a ≡ false
unfolding bytes_lt
bytes_lt_irrefl [] = refl
bytes_lt_irrefl (a ∷ as') = ground (arith, bytes_lt_irrefl as')

pub bytes_lt_trans :
    (a b c : Bytes) → bytes_lt a b ≡ true → bytes_lt b c ≡ true → bytes_lt a c ≡ true
unfolding bytes_lt
bytes_lt_trans [] [] c p q = ground arith
bytes_lt_trans [] (b ∷ bs) [] p q = ground arith
bytes_lt_trans [] (b ∷ bs) (c ∷ cs) p q = refl
bytes_lt_trans (a ∷ as') [] c p q = ground arith
bytes_lt_trans (a ∷ as') (b ∷ bs) [] p q = ground arith
bytes_lt_trans (a ∷ as') (b ∷ bs) (c ∷ cs) p q = ground (arith, bytes_lt_trans as' bs cs)

-- Two texts are equal or one is less than the other.
pub bytes_lt_total : (a b : Bytes) → bytes_lt a b ≡ false → bytes_lt b a ≡ false → a ≡ b
unfolding bytes_lt
bytes_lt_total [] [] p q = refl
bytes_lt_total [] (b ∷ bs) p q = ground arith
bytes_lt_total (a ∷ as') [] p q = ground arith
bytes_lt_total (a ∷ as') (b ∷ bs) p q = ground (arith, bytes_lt_total as' bs)
