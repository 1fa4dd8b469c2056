-- ===== src/Prelude/Bytes.antt =====
-- Go's `[]byte` and `string`: lists of numbers below 256, with `bytes.Compare` and `bytes.Equal`.
use Prim.Native.Nat.{ℕ, ◌<◌}
use mathlib.Core.Path.{◌≡◌, refl, subst}
use mathlib.Core.Bool.{Bool, true, false, ◌&&◌}
use mathlib.Core.List.{List, [], ◌∷◌, ◌++◌}
use native.Mathlib.Omega.{arith}
use yasdb.Prelude.Booleans.{ltb, ◌==◌, if◌then◌else◌}
use yasdb.Prelude.Lists.{length, All}

abbrev pub Bytes : Type 0
Bytes = List ℕ

abbrev pub IsBytes : Bytes → Type 0
IsBytes = All (λ c. c < 256)

-- `bytes.Compare(a, b) < 0`: lexicographic, a proper prefix first.
unfoldable pub lex_lt : Bytes → Bytes → Bool
lex_lt [] [] = false
lex_lt [] (y ∷ ys) = true
lex_lt (x ∷ xs) [] = false
lex_lt (x ∷ xs) (y ∷ ys) = let rest = lex_lt xs ys in if ltb x y then true else (x == y && rest)

unfoldable pub bytes_eq : Bytes → Bytes → Bool
bytes_eq [] [] = true
bytes_eq [] (y ∷ ys) = false
bytes_eq (x ∷ xs) [] = false
bytes_eq (x ∷ xs) (y ∷ ys) = let rest = bytes_eq xs ys in (x == y && rest)

pub bytes_eq→eq : (a b : Bytes) → bytes_eq a b ≡ true → a ≡ b
unfolding bytes_eq
bytes_eq→eq [] [] h = refl
bytes_eq→eq [] (y ∷ ys) h = cc
bytes_eq→eq (x ∷ xs) [] h = cc
bytes_eq→eq (x ∷ xs) (y ∷ ys) h = ground (arith, bytes_eq→eq xs ys)

pub bytes_eq_self : (a : Bytes) → bytes_eq a a ≡ true
unfolding bytes_eq
bytes_eq_self [] = refl
bytes_eq_self (x ∷ xs) = ground (arith, bytes_eq_self xs)

pub bytes_eq_iff : (a b : Bytes) → (bytes_eq a b ≡ true → a ≡ b) × (a ≡ b → bytes_eq a b ≡ true)
bytes_eq_iff a b = (bytes_eq→eq a b, λ e. subst (λ c. bytes_eq a c ≡ true) e (bytes_eq_self a))

pub lex_lt_irrefl : (a : Bytes) → lex_lt a a ≡ false
unfolding lex_lt
lex_lt_irrefl [] = refl
lex_lt_irrefl (x ∷ xs) = ground (arith, lex_lt_irrefl xs)

pub lex_lt_trans : (a b c : Bytes) → lex_lt a b ≡ true → lex_lt b c ≡ true → lex_lt a c ≡ true
unfolding lex_lt
lex_lt_trans [] [] c h k = cc
lex_lt_trans [] (y ∷ ys) [] h k = cc
lex_lt_trans [] (y ∷ ys) (z ∷ zs) h k = refl
lex_lt_trans (x ∷ xs) [] c h k = cc
lex_lt_trans (x ∷ xs) (y ∷ ys) [] h k = cc
lex_lt_trans (x ∷ xs) (y ∷ ys) (z ∷ zs) h k = ground (arith, lex_lt_trans xs ys zs)

-- A common prefix does not change the order.
pub lex_lt_prefix : (p a b : Bytes) → lex_lt (p ++ a) (p ++ b) ≡ lex_lt a b
unfolding lex_lt
lex_lt_prefix [] a b = refl
lex_lt_prefix (x ∷ p) a b = ground (arith, lex_lt_prefix p a b)

-- Strings of one length, with something behind, are ordered by what stands in front.
pub lex_lt-append :
    (a b c d : Bytes)
    → length a ≡ length b
    → lex_lt (a ++ c) (b ++ d) ≡ (if lex_lt a b then true else (bytes_eq a b && lex_lt c d))
unfolding lex_lt bytes_eq
lex_lt-append [] [] c d h = refl
lex_lt-append [] (y ∷ ys) c d h = absurd (omega arith)
lex_lt-append (x ∷ xs) [] c d h = absurd (omega arith)
lex_lt-append (x ∷ xs) (y ∷ ys) c d h = ground (arith, lex_lt-append xs ys c d (omega arith))

pub bytes_eq-append :
    (a b c d : Bytes)
    → length a ≡ length b
    → bytes_eq (a ++ c) (b ++ d) ≡ (bytes_eq a b && bytes_eq c d)
unfolding bytes_eq
bytes_eq-append [] [] c d h = refl
bytes_eq-append [] (y ∷ ys) c d h = absurd (omega arith)
bytes_eq-append (x ∷ xs) [] c d h = absurd (omega arith)
bytes_eq-append (x ∷ xs) (y ∷ ys) c d h = ground (arith, bytes_eq-append xs ys c d (omega arith))

-- The order is total.
pub lex_lt_total : (a b : Bytes) → bytes_eq a b ≡ false → lex_lt a b ≡ false → lex_lt b a ≡ true
unfolding lex_lt bytes_eq
lex_lt_total [] [] h k = cc
lex_lt_total [] (y ∷ ys) h k = cc
lex_lt_total (x ∷ xs) [] h k = refl
lex_lt_total (x ∷ xs) (y ∷ ys) h k = ground (arith, lex_lt_total xs ys)

pub bytes_eq_sym : (a b : Bytes) → bytes_eq a b ≡ bytes_eq b a
unfolding bytes_eq
bytes_eq_sym [] [] = refl
bytes_eq_sym [] (y ∷ ys) = refl
bytes_eq_sym (x ∷ xs) [] = refl
bytes_eq_sym (x ∷ xs) (y ∷ ys) = ground (arith, bytes_eq_sym xs ys)
