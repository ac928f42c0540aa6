-- ===== src/Quant.antt =====
-- include/engine/quant.hpp and src/quant/quant.cpp: weights as rows of int8 with a scale each.
pub mod Shapes
pub mod Tests
use from_scratch_inference_e.Base.{
  ℕ, zero, suc, ◌+◌, ◌*◌, List, [], ◌∷◌, ◌++◌, map, Bool, true, false, not, ◌&&◌, ◌||◌, ltb, leb,
  ◌==◌, if◌then◌else◌, length, drop, get_elem?, ℤ, pos, negsuc, Result, ok, ◌>>=◌, ◌>>◌, guard,
  or_fail, undefined, invalid_argument,
}
use from_scratch_inference_e.Tensor.{Tensor, default, dim, ndim, numel}
use from_scratch_inference_e.Tensor.Rows.{slice}
use from_scratch_inference_e.Layers.Floats.{Floats}
use from_scratch_inference_e.Layers.Rows.{each_row, zip_with, fold_left}

pub record QuantizedMatrix {ℓ} (F : Type ℓ) : Type ℓ where
  pub data_ : List ℤ
  pub scales : List F
  pub rows : ℕ
  pub cols : ℕ

-- r > 127 ? 127 : (r < -127 ? -127 : r)
unfoldable pub clamp : ℤ → ℤ
clamp (pos n) = if ltb 127 n then pos 127 else pos n
clamp (negsuc n) = if ltb 126 n then negsuc 126 else negsuc n

module _ {ℓ} {F D : Type ℓ} (A : Floats F D) where
  unfoldable pub row_scale : List F → F
  unfolding fold_left
  row_scale row =
      let amax = fold_left (λ top x. A.larger top (A.abs x)) A.nil row in
      if A.gt amax A.nil then A.div amax (A.of_nat 127) else A.one

  unfoldable pub quantize_row : List F → List ℤ
  unfolding row_scale clamp
  quantize_row row =
      let inv = A.div A.one (row_scale row) in map (λ x. clamp (A.lround (A.mul x inv))) row

  -- The loop over the rows: data and scales.
  unfoldable pub quantize_rows : ℕ → ℕ → List F → Result (List ℤ × List F)
  unfolding quantize_row row_scale
  quantize_rows cols zero w = ok ([], [])
  quantize_rows cols (suc n) w = do
    row ← slice w 0 cols
    rest ← quantize_rows cols n (drop cols w)
    ok (quantize_row row ++ rest.0, row_scale row ∷ rest.1)

  unfoldable pub quantize_rowwise_int8 : Tensor F → Result (QuantizedMatrix F)
  unfolding quantize_rows
  quantize_rowwise_int8 weight = do
    guard (ndim weight == 2) invalid_argument
    rows ← dim weight 0
    cols ← dim weight 1
    q ← quantize_rows cols rows weight.data_
    ok (record { data_ = q.0; scales = q.1; rows = rows; cols = cols })

  unfoldable pub add_bias : Tensor F → ℕ → F → Result F
  add_bias bias o value =
      if ltb 0 (numel bias)
      then (or_fail undefined (get_elem? bias.data_ o) >>= λ b. ok (A.add value b))
      else ok value

  -- One output value: acc, scaled, with the bias where there is one.
  unfoldable pub output_value : QuantizedMatrix F → Tensor F → List F → ℕ → Result F
  unfolding zip_with fold_left add_bias
  output_value weight bias x o = do
    q ← slice weight.data_ (o * weight.cols) weight.cols
    products ← zip_with (λ a b. A.dmul (A.wide a) (A.dof_int b)) x q
    scale ← or_fail undefined (get_elem? weight.scales o)
    add_bias bias o (A.mul (A.narrow (fold_left A.dadd A.dnil products)) scale)

  unfoldable pub output_row : QuantizedMatrix F → Tensor F → List F → ℕ → ℕ → Result (List F)
  unfolding output_value
  output_row weight bias x o zero = ok []
  output_row weight bias x o (suc n) = do
    value ← output_value weight bias x o
    rest ← output_row weight bias x (o + 1) n
    ok (value ∷ rest)

  unfoldable pub linear_int8 : Tensor F → QuantizedMatrix F → Tensor F → Result (Tensor F)
  unfolding output_row each_row
  linear_int8 x weight bias = do
    guard (ndim x == 2) invalid_argument
    s ← dim x 0
    inner ← dim x 1
    guard (inner == weight.cols) invalid_argument
    guard (not (ltb 0 (numel bias)) || (numel bias == weight.rows)) invalid_argument
    values ← each_row (λ i row. output_row weight bias row 0 weight.rows) inner 0 s x.data_
    ok (record { shape = s ∷ weight.rows ∷ []; data_ = values })

  unfoldable pub linear_int8_plain : Tensor F → QuantizedMatrix F → Result (Tensor F)
  unfolding linear_int8
  linear_int8_plain x weight = linear_int8 x weight default
