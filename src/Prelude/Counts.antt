-- ===== src/Prelude/Counts.antt =====
-- How often a number stands in a list, and the lists of numbers that Python's `range` makes.
use Prim.Native.Nat.{ℕ, zero, suc, ◌+◌}
use mathlib.Core.Path.{◌≡◌, refl}
use mathlib.Core.List.{List, [], ◌∷◌, ◌++◌}
use native.Mathlib.Omega.{arith}
use superl8_serve.Prelude.Tests.{◌==◌, ltb, if◌then◌else◌}
use superl8_serve.Prelude.Lists.{length}

abbrev pub count : ℕ → List ℕ → ℕ
count a [] = 0
count a (x ∷ xs) = (if x == a then 1 else 0) + count a xs

pub count-append :
    (k : ℕ) (front back : List ℕ) → count k (front ++ back) ≡ count k front + count k back
count-append k (y ∷ front) back = omega (arith, count-append k front back)
count-append k [] back = omega arith

-- `range(n)` read from its end: n - 1, ..., 0.
abbrev pub range_down : ℕ → List ℕ
range_down zero = []
range_down (suc n) = n ∷ range_down n

pub count-range_down : (a n : ℕ) → count a (range_down n) ≡ (if ltb a n then 1 else 0)
count-range_down a zero = ground arith
count-range_down a (suc n) = ground (arith, count-range_down a n)

pub length-range_down : (n : ℕ) → length (range_down n) ≡ n
length-range_down zero = refl
length-range_down (suc n) = omega (arith, length-range_down n)
