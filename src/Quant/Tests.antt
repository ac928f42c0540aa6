-- ===== src/Quant/Tests.antt =====
-- A matrix of two rows with whole numbers for floats.
use from_scratch_inference_e.Base.{ℕ, ◌≡◌, refl, [], ◌∷◌, pos, negsuc, inl, arith}
use from_scratch_inference_e.Tensor.{Tensor, default, num_elements}
use from_scratch_inference_e.Layers.Tests.{whole}
use from_scratch_inference_e.Layers.Shapes.Rows.{Returns}
use from_scratch_inference_e.Layers.Shapes.Simple.{IsMatrix}
use from_scratch_inference_e.Quant.{QuantizedMatrix, clamp, quantize_rowwise_int8, linear_int8}
use from_scratch_inference_e.Quant.Shapes.{
  IsQuantized, quantize_rowwise_int8-IsQuantized, linear_int8-IsMatrix,
}

clamp_low : clamp (negsuc 200) ≡ negsuc 126
unfolding clamp
clamp_low = refl

clamp_high : clamp (pos 128) ≡ pos 127
unfolding clamp
clamp_high = refl

abbrev matrix : Tensor ℕ
matrix = record { shape = 2 ∷ 2 ∷ []; data_ = 127 ∷ 500 ∷ 3 ∷ 4 ∷ [] }

quantize_rowwise_int8-IsQuantized_example :
    Returns (IsQuantized 2 2) (quantize_rowwise_int8 whole matrix)
quantize_rowwise_int8-IsQuantized_example =
    quantize_rowwise_int8-IsQuantized whole 2 2 matrix (record { shape = refl; size = refl })

abbrev int8 : QuantizedMatrix ℕ
int8 = record {
  data_ = pos 5 ∷ pos 6 ∷ pos 7 ∷ pos 8 ∷ [];
  scales = 1 ∷ 2 ∷ [];
  rows = 2;
  cols = 2;
}

linear_int8-IsMatrix_example : Returns (IsMatrix 2 2) (linear_int8 whole matrix int8 default)
unfolding num_elements
linear_int8-IsMatrix_example =
    linear_int8-IsMatrix whole 2 2 2 matrix int8 default (record { shape = refl; size = refl })
      (record {
        rows = refl;
        cols = refl;
        data_ = refl;
        scales = refl;
        range = (omega arith, (omega arith, (omega arith, (omega arith, tt))));
      })
      (inl refl)
