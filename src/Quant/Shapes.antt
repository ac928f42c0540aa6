-- ===== src/Quant/Shapes.antt =====
-- The int8 functions on matrices of the right shapes.
use from_scratch_inference_e.Base.{
  ℕ, zero, suc, ◌+◌, ◌*◌, ◌≤◌, ◌<◌, ◌≡◌, refl, inl, inr, List, [], ◌∷◌, map, arith, true, not, ◌||◌,
  ltb, ◌==◌, ==_refl, Bool-cases, All, All-append, length, length-append, length-drop, drop,
  get_elem?-of_lt, ℤ, pos, negsuc,
}
use native.Mathlib.Nat.{suc-mul, mul-le-mul_right}
use from_scratch_inference_e.Tensor.{Tensor, numel}
use from_scratch_inference_e.Tensor.Rows.{slice}
use from_scratch_inference_e.Layers.Floats.{Floats}
use from_scratch_inference_e.Layers.Rows.{fold_left}
use from_scratch_inference_e.Layers.Shapes.Rows.{
  Returns, Returns-bind, Long, slice-Long, zip_with-Long, each_row-Long,
}
use from_scratch_inference_e.Layers.Shapes.Simple.{IsMatrix, IsBias}
use from_scratch_inference_e.Layers.Shapes.Positions.{length-map}
use from_scratch_inference_e.Quant.{
  QuantizedMatrix, clamp, add_bias, row_scale, quantize_row, quantize_rows, quantize_rowwise_int8,
  output_value, output_row, linear_int8,
}

-- -127, ..., 127
abbrev pub InRange : ℤ → Type 0
InRange (pos n) = n ≤ 127
InRange (negsuc n) = n ≤ 126

module _ {ℓ} {F : Type ℓ} where
  pub record IsQuantized (out inner : ℕ) (q : QuantizedMatrix F) : Type 0 where
    pub rows : q.rows ≡ out
    pub cols : q.cols ≡ inner
    pub data_ : Long (out * inner) q.data_
    pub scales : Long out q.scales
    pub range : All InRange q.data_

clamp-InRange : (z : ℤ) → InRange (clamp z)
unfolding clamp
clamp-InRange (pos n) = ground arith
clamp-InRange (negsuc n) = ground arith

module _ {ℓ} {F D : Type ℓ} (A : Floats F D) where
  clamped : (f : F → ℤ) (xs : List F) → All InRange (map (λ x. clamp (f x)) xs)
  clamped f [] = tt
  clamped f (x ∷ xs) = (clamp-InRange (f x), clamped f xs)

  quantize_rows-Long :
      (cols n : ℕ) (w : List F)
      → Long (n * cols) w
      → Returns (λ q. Long (n * cols) q.0 × All InRange q.0 × Long n q.1) (quantize_rows A cols n w)
  unfolding quantize_rows quantize_row
  quantize_rows-Long cols zero w h = (omega arith, tt, refl)
  quantize_rows-Long cols (suc n) w h =
      Returns-bind (Long cols) _ (slice w 0 cols) _
        (slice-Long w 0 cols (omega (arith, suc-mul n cols)))
        λ row e.
          Returns-bind (λ q. Long (n * cols) q.0 × All InRange q.0 × Long n q.1) _
            (quantize_rows A cols n (drop cols w)) _
            (quantize_rows-Long cols n (drop cols w)
              (omega (arith, suc-mul n cols, length-drop cols w)))
            λ rest e'.
              let f : F → ℤ = λ x. A.lround (A.mul x (A.div A.one (row_scale A row))) in
              (
                omega (
                  arith,
                  suc-mul n cols,
                  length-append (map (λ x. clamp (f x)) row) rest.0,
                  length-map (λ x. clamp (f x)) row,
                ),
                All-append InRange _ rest.0 (clamped f row) e'.1,
                omega arith,
              )

  -- A matrix of `out` rows of `inner` values quantizes, whatever the values, to as many int8 values,
  -- all in [-127, 127], with one scale for each row.
  pub quantize_rowwise_int8-IsQuantized :
      (out inner : ℕ) (w : Tensor F)
      → IsMatrix out inner w
      → Returns (IsQuantized out inner) (quantize_rowwise_int8 A w)
  unfolding quantize_rowwise_int8
  quantize_rowwise_int8-IsQuantized out inner w h = rw (h.shape) (
      Returns-bind (λ q. Long (out * inner) q.0 × All InRange q.0 × Long out q.1)
        (IsQuantized out inner) _ _ (quantize_rows-Long inner out w.data_ h.size)
        λ q e. record { rows = refl; cols = refl; data_ = e.0; scales = e.2; range = e.1 })

  add_bias-Returns :
      (out o : ℕ) (bias : Tensor F) (value : F)
      → IsBias out bias
      → o < out
      → Returns (λ v. Unit {0}) (add_bias A bias o value)
  unfolding add_bias
  add_bias-Returns out o bias value (inl e) lt = rw (e) tt
  add_bias-Returns out o bias value (inr b) lt =
      let found = get_elem?-of_lt bias.data_ o (omega (arith, b.size)) in
      elim (Bool-cases (ltb 0 (numel bias))) [ inl e ↦ rw (e, found.1) tt | inr e ↦ rw (e) tt ]

  output_value-Returns :
      (out inner o : ℕ) (q : QuantizedMatrix F) (bias : Tensor F) (x : List F)
      → IsQuantized out inner q
      → IsBias out bias
      → Long inner x
      → o < out
      → Returns (λ v. Unit {0}) (output_value A q bias x o)
  unfolding output_value
  output_value-Returns out inner o q bias x hq b hx lt =
      Returns-bind (Long inner) (λ v. Unit {0}) (slice q.data_ (o * q.cols) q.cols) _
        (rw (hq.cols) (
          slice-Long q.data_ (o * inner) inner
            (omega (arith, hq.data_, suc-mul o inner, mul-le-mul_right inner lt))))
        λ row e.
          Returns-bind (Long (length x)) (λ v. Unit {0}) _ _
            (zip_with-Long (λ a b. A.dmul (A.wide a) (A.dof_int b)) x row (omega arith))
            λ products e'.
              let found = get_elem?-of_lt q.scales o (omega (arith, hq.scales)) in
              rw (found.1) (
                add_bias-Returns out o bias
                  (A.mul (A.narrow (fold_left A.dadd A.dnil products)) found.0) b lt)

  pub output_row-Long :
      (out inner o n : ℕ) (q : QuantizedMatrix F) (bias : Tensor F) (x : List F)
      → IsQuantized out inner q
      → IsBias out bias
      → Long inner x
      → o + n ≤ out
      → Returns (Long n) (output_row A q bias x o n)
  unfolding output_row
  output_row-Long out inner o zero q bias x hq b hx room = refl
  output_row-Long out inner o (suc n) q bias x hq b hx room =
      Returns-bind (λ v. Unit {0}) (Long (suc n)) _ _
        (output_value-Returns out inner o q bias x hq b hx (omega arith))
        λ value done.
          Returns-bind (Long n) (Long (suc n)) _ _
            (output_row-Long out inner (o + 1) n q bias x hq b hx (omega arith))
            λ rest e. omega arith

  pub bias_fits :
      (out : ℕ) (bias : Tensor F)
      → IsBias out bias
      → (not (ltb 0 (numel bias)) || (numel bias == out)) ≡ true
  bias_fits out bias (inl e) = ground (arith, e)
  bias_fits out bias (inr b) = ground (arith, b.count)

  -- An int8 linear layer on an input, a weight and a bias of matching shapes, the bias possibly empty,
  -- returns a matrix of a row for each input row: no exception, no access outside a buffer.
  pub linear_int8-IsMatrix :
      (s inner out : ℕ) (x : Tensor F) (q : QuantizedMatrix F) (bias : Tensor F)
      → IsMatrix s inner x
      → IsQuantized out inner q
      → IsBias out bias
      → Returns (IsMatrix s out) (linear_int8 A x q bias)
  unfolding linear_int8
  linear_int8-IsMatrix s inner out x q bias hx hq b =
      simp (hx.shape, hq.cols, hq.rows, bias_fits out bias b, ==_refl inner)
        (Returns-bind (Long (s * out)) (IsMatrix s out) _ _
          (each_row-Long (λ i row. output_row A q bias row 0 out) inner out 0 s x.data_
            (λ j row _ _ e. output_row-Long out inner 0 out q bias row hq b e (omega arith))
            hx.size)
          λ values e. record { shape = refl; size = e })
