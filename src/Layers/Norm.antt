-- ===== src/Layers/Norm.antt =====
-- rms_norm of src/model/nn.cpp.
use from_scratch_inference_e.Base.{
  ℕ, List, [], ◌∷◌, ◌==◌, Result, ok, ◌>>=◌, ◌>>◌, guard, invalid_argument,
}
use from_scratch_inference_e.Tensor.{Tensor, dim, ndim, numel}
use from_scratch_inference_e.Layers.Floats.{Floats}
use from_scratch_inference_e.Layers.Rows.{each_row, zip_with, fold_left}

module _ {ℓ} {F D : Type ℓ} (A : Floats F D) where
  unfoldable pub norm_scale : D → ℕ → List F → D
  unfolding fold_left
  norm_scale eps h row =
      let sum_sq = fold_left (λ sum v. A.dadd sum (A.dmul (A.wide v) (A.wide v))) A.dnil row in
      A.ddiv A.done (A.dsqrt (A.dadd (A.ddiv sum_sq (A.dof_nat h)) eps))

  unfoldable pub norm_row : D → ℕ → List F → List F → Result (List F)
  unfolding norm_scale zip_with
  norm_row eps h weight row =
      let scale = norm_scale eps h row in
      zip_with (λ v w. A.mul (A.narrow (A.dmul (A.wide v) scale)) w) row weight

  unfoldable pub rms_norm : Tensor F → Tensor F → D → Result (Tensor F)
  unfolding norm_row each_row
  rms_norm x weight eps = do
    guard (ndim x == 2) invalid_argument
    s ← dim x 0
    h ← dim x 1
    guard (numel weight == h) invalid_argument
    values ← each_row (λ i row. norm_row eps h weight.data_ row) h 0 s x.data_
    ok (record { shape = s ∷ h ∷ []; data_ = values })
