-- ===== src/Librtlsdr/Gains/Sorted.antt =====
-- Lists of gains in ascending order.
use rtl_tcp_andro.Base.{ℕ, zero, suc, ◌+◌, ◌≤◌, ◌≡◌, some, List, [], ◌∷◌, get_elem?, arith, sym}
use mathlib.Core.Option.{some-injective}
use rtl_tcp_andro.Base.Int.{ℤ, pos_part, neg_part}

-- a ≤ b, of integers.
abbrev pub IsAtMost : ℤ → ℤ → Type 0
IsAtMost a b = pos_part a + neg_part b ≤ pos_part b + neg_part a

abbrev pub IsSorted : List ℤ → Type 0
IsSorted [] = Unit {0}
IsSorted (x ∷ []) = Unit {0}
IsSorted (x ∷ y ∷ ys) = IsAtMost x y × IsSorted (y ∷ ys)

first-IsAtMost :
    (x : ℤ) (xs : List ℤ) (j : ℕ) (b : ℤ)
    → IsSorted (x ∷ xs)
    → get_elem? (x ∷ xs) j ≡ some b
    → IsAtMost x b
first-IsAtMost x xs zero b s e = rw (sym (some-injective x b e)) (omega arith)
first-IsAtMost x [] (suc j) b s e = absurd cc
first-IsAtMost x (y ∷ ys) (suc j) b (h, s) e = omega (arith, h, first-IsAtMost y ys j b s e)

-- A later member is not smaller.
pub get_elem?-IsAtMost :
    (xs : List ℤ) (i j : ℕ) (a b : ℤ)
    → IsSorted xs
    → i ≤ j
    → get_elem? xs i ≡ some a
    → get_elem? xs j ≡ some b
    → IsAtMost a b
get_elem?-IsAtMost [] i j a b s h e f = absurd cc
get_elem?-IsAtMost (x ∷ xs) zero j a b s h e f =
    rw (sym (some-injective x a e)) (first-IsAtMost x xs j b s f)
get_elem?-IsAtMost (x ∷ xs) (suc i) zero a b s h e f = absurd (omega arith)
get_elem?-IsAtMost (x ∷ []) (suc i) (suc j) a b s h e f = absurd cc
get_elem?-IsAtMost (x ∷ y ∷ ys) (suc i) (suc j) a b (k, s) h e f =
    get_elem?-IsAtMost (y ∷ ys) i j a b s (omega arith) e f
