-- ===== src/Layers/Shapes/Rows.antt =====
-- The loops over rows and over two buffers, on buffers that are long enough.
use native.Mathlib.Nat.{suc-mul}
use from_scratch_inference_e.Base.{
  ℕ, zero, suc, ◌+◌, ◌*◌, ◌≤◌, ◌<◌, ◌≡◌, refl, List, [], ◌∷◌, arith, length, length-append,
  length-drop, drop, Result, ok, err, ◌>>=◌, Ensures, Ensures-bind,
}
use from_scratch_inference_e.Tensor.Rows.{slice, slice_in, length-slice}
use from_scratch_inference_e.Layers.Rows.{each_row, zip_with}

-- The call ends in a value with `P`.
abbrev pub Returns {ℓ} : {A : Type ℓ} → (A → Type 0) → Result A → Type 0
Returns P m = Ensures (λ e. ⊥) P m

pub Returns-bind {ℓ κ} :
    {A : Type ℓ} {B : Type κ} (P : A → Type 0) (Q : B → Type 0) (m : Result A) (f : A → Result B)
    → Returns P m
    → ((a : A) → P a → Returns Q (f a))
    → Returns Q (m >>= f)
Returns-bind P Q m f h k = Ensures-bind (λ e. ⊥) P Q m f h k

pub returned {ℓ} :
    {A : Type ℓ} (P : A → Type 0) (r : Result A) → Returns P r → (a : A) × (r ≡ ok a) × P a
returned P (ok a) h = (a, refl, h)
returned P (err e) h = elim h [ ]

module _ {ℓ} {A : Type ℓ} where
  abbrev pub Long : ℕ → List A → Type 0
  Long n xs = length xs ≡ n

  pub slice-Long :
      (xs : List A) (off n : ℕ) → off + n ≤ length xs → Returns (Long n) (slice xs off n)
  slice-Long xs off n h = rw (slice_in xs off n h) (length-slice xs off n h)

module _ {ℓ κ μ} {A : Type ℓ} {B : Type κ} {C : Type μ} where
  pub zip_with-Long :
      (f : A → B → C) (xs : List A) (ys : List B)
      → length xs ≤ length ys
      → Returns (Long (length xs)) (zip_with f xs ys)
  unfolding zip_with
  zip_with-Long f [] ys h = refl
  zip_with-Long f (x ∷ xs) [] h = absurd (omega arith)
  zip_with-Long f (x ∷ xs) (y ∷ ys) h =
      Returns-bind (Long (length xs)) (Long (suc (length xs))) (zip_with f xs ys)
        (λ rest. ok (f x y ∷ rest)) (zip_with-Long f xs ys (omega arith)) (λ rest e. omega arith)

module _ {ℓ} {F : Type ℓ} where
  pub each_row-Long :
      (f : ℕ → List F → Result (List F)) (width v i n : ℕ) (xs : List F)
      → ((j : ℕ) (row : List F) → i ≤ j → j < i + n → Long width row → Returns (Long v) (f j row))
      → Long (n * width) xs
      → Returns (Long (n * v)) (each_row f width i n xs)
  unfolding each_row
  each_row-Long f width v i zero xs h long = omega arith
  each_row-Long f width v i (suc n) xs h long =
      Returns-bind (Long width) (Long (suc n * v)) (slice xs 0 width) _
        (slice-Long xs 0 width (omega (arith, suc-mul n width)))
        λ row e.
          Returns-bind (Long v) (Long (suc n * v)) (f i row) _
            (h i row (omega arith) (omega arith) e)
            λ out e'.
              Returns-bind (Long (n * v)) (Long (suc n * v))
                (each_row f width (i + 1) n (drop width xs)) _
                (each_row-Long f width v (i + 1) n (drop width xs)
                  (λ j r a b c. h j r (omega arith) (omega arith) c)
                  (omega (arith, suc-mul n width, length-drop width xs)))
                λ rest e''. omega (arith, suc-mul n v, length-append out rest)
