-- ===== src/Base/Count.antt =====
-- How often a number stands in a list: the measure of who holds which block.
use Prim.Native.Nat.{ℕ, ◌+◌, ◌≤◌}
use mathlib.Core.Path.{◌≡◌}
use mathlib.Core.List.{List, [], ◌∷◌, ◌++◌}
use native.Mathlib.Omega.{arith}
use from_scratch_inference_e.Base.Tests.{◌==◌, if◌then◌else◌}
use from_scratch_inference_e.Base.Lists.{length}

abbrev pub one_if : ℕ → ℕ → ℕ
one_if a b = if a == b then 1 else 0

abbrev pub count : ℕ → List ℕ → ℕ
count a [] = 0
count a (x ∷ xs) = one_if x a + count a xs

pub count-append :
    (b : ℕ) (front back : List ℕ) → count b (front ++ back) ≡ count b front + count b back
count-append b [] back = omega arith
count-append b (first ∷ front) back = omega (arith, count-append b front back)

pub count-le-length : (a : ℕ) (xs : List ℕ) → count a xs ≤ length xs
count-le-length a [] = omega arith
count-le-length a (x ∷ xs) = ground (arith, count-le-length a xs)
