-- ===== src/Layers/Tests.antt =====
-- An arithmetic and a product of matrices to run the layers with: whole numbers, with a division
-- that rounds down, where every square root is 1.
use from_scratch_inference_e.Base.{
  ℕ, zero, suc, ◌+◌, ◌-◌, ◌*◌, ◌/◌, ◌^◌, ◌≤◌, ◌≡◌, refl, sym, append_assoc, List, [], ◌∷◌, ◌++◌,
  arith, ltb, if◌then◌else◌, length, length-append, length-drop, take, drop, pos,
}
use native.Mathlib.Nat.{suc-mul}
use from_scratch_inference_e.Manager.State.{magnitude}
use from_scratch_inference_e.Layers.Floats.{Floats, Gemm}
use from_scratch_inference_e.Manager.Store.Splice.{take-append_left, drop-append_left}
use from_scratch_inference_e.Layers.Shapes.Simple.{IsProduct}
use from_scratch_inference_e.Layers.Joined.Simple.{IsRowwise}

abbrev larger : ℕ → ℕ → ℕ
larger a b = if ltb a b then b else a

abbrev pub whole : Floats ℕ ℕ
whole = record {
  nil = 0;
  one = 1;
  of_nat = λ n. n;
  add = λ a b. a + b;
  mul = λ a b. a * b;
  div = λ a b. a / b;
  neg = λ a. 0;
  exp = λ a. 2 ^ a;
  abs = λ a. a;
  larger = larger;
  gt = λ a b. ltb b a;
  lround = λ a. pos a;
  wide = λ a. a;
  narrow = λ a. a;
  dnil = 0;
  done = 1;
  dtwo = 2;
  dlowest = 0;
  dof_nat = λ n. n;
  dof_int = magnitude;
  dadd = λ a b. a + b;
  dsub = λ a b. a - b;
  dmul = λ a b. a * b;
  ddiv = λ a b. a / b;
  dneg = λ a. 0;
  dsqrt = λ a. 1;
  dexp = λ a. 2 ^ a;
  dcos = λ a. 1;
  dsin = λ a. a;
  dpow = λ a b. a ^ b;
  dlarger = larger;
}

dot : List ℕ → List ℕ → ℕ
dot [] ys = 0
dot (x ∷ xs) [] = 0
dot (x ∷ xs) (y ∷ ys) = x * y + dot xs ys

unfoldable pub row_product : ℕ → ℕ → List ℕ → List ℕ → List ℕ
unfolding dot
row_product inner zero row w = []
row_product inner (suc n) row w =
    dot (take inner row) (take inner w) ∷ row_product inner n row (drop inner w)

unfoldable pub product : Gemm ℕ
unfolding row_product
product zero inner out x w = []
product (suc s) inner out x w =
    row_product inner out (take inner x) w ++ product s inner out (drop inner x) w

length-row_product : (inner n : ℕ) (row w : List ℕ) → length (row_product inner n row w) ≡ n
unfolding row_product
length-row_product inner zero row w = refl
length-row_product inner (suc n) row w =
    omega (arith, length-row_product inner n row (drop inner w))

length-product : (s inner out : ℕ) (x w : List ℕ) → length (product s inner out x w) ≡ s * out
unfolding product
length-product zero inner out x w = omega arith
length-product (suc s) inner out x w = omega (
  arith,
  suc-mul s out,
  length-product s inner out (drop inner x) w,
  length-row_product inner out (take inner x) w,
  length-append (row_product inner out (take inner x) w) (product s inner out (drop inner x) w),
)

product-append :
    (s1 s2 inner out : ℕ) (x y w : List ℕ)
    → length x ≡ s1 * inner
    → product (s1 + s2) inner out (x ++ y) w ≡ product s1 inner out x w ++ product s2 inner out y w
unfolding product
product-append zero s2 inner out [] y w long = let none : 0 + s2 ≡ s2 = omega arith in rw none refl
product-append zero s2 inner out (a ∷ x) y w long = absurd (omega arith)
product-append (suc s1) s2 inner out x y w long =
    let enough : inner ≤ length x = omega (arith, suc-mul s1 inner) in
    let more : suc s1 + s2 ≡ suc (s1 + s2) = omega arith in
    rw
      (
        more,
        take-append_left inner x y enough,
        drop-append_left inner x y enough,
        product-append s1 s2 inner out (drop inner x) y w
            (omega (arith, suc-mul s1 inner, length-drop inner x)),
      )
      (sym (
        append_assoc (row_product inner out (take inner x) w)
          (product s1 inner out (drop inner x) w) (product s2 inner out y w)))

pub product-IsProduct : IsProduct product
product-IsProduct = record { size = λ s inner out x w hx hw. length-product s inner out x w }

pub product-IsRowwise : IsRowwise product
product-IsRowwise = record {
  product = product-IsProduct;
  append = λ s1 s2 inner out x y w hx hy. product-append s1 s2 inner out x y w hx;
}
