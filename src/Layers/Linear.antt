-- ===== src/Layers/Linear.antt =====
-- matmul of src/core/matmul.cpp, linear and silu_mul of src/model/nn.cpp, and add_inplace of
-- src/model/model.cpp. A tensor holds
-- as many values as its shape says, so the loops run over the values.
use from_scratch_inference_e.Base.{
  ℕ, List, [], ◌∷◌, Bool, true, false, ◌&&◌, ◌==◌, if◌then◌else◌, Result, ok, ◌>>=◌, ◌>>◌, guard,
  invalid_argument,
}
use from_scratch_inference_e.Tensor.{Tensor, default, dim, ndim, numel}
use from_scratch_inference_e.Layers.Floats.{Floats, Gemm}
use from_scratch_inference_e.Layers.Rows.{each_row, zip_with}

abbrev pub same_shape : List ℕ → List ℕ → Bool
same_shape [] [] = true
same_shape [] (e ∷ es) = false
same_shape (d ∷ ds) [] = false
same_shape (d ∷ ds) (e ∷ es) = (d == e) && same_shape ds es

module _ {ℓ} {F : Type ℓ} where
  -- `product m k n a b` is Eigen's product of a, m rows of k values, and b, k rows of n values.
  unfoldable pub matmul :
      (ℕ → ℕ → ℕ → List F → List F → List F) → Tensor F → Tensor F → Result (Tensor F)
  matmul product a b = do
    guard ((ndim a == 2) && (ndim b == 2)) invalid_argument
    m ← dim a 0
    k ← dim a 1
    n ← dim b 1
    k' ← dim b 0
    guard (k == k') invalid_argument
    ok (record { shape = m ∷ n ∷ []; data_ = product m k n a.data_ b.data_ })

module _ {ℓ} {F D : Type ℓ} (A : Floats F D) where
  unfoldable pub add_bias : ℕ → ℕ → List F → Tensor F → Result (List F)
  unfolding zip_with each_row
  add_bias s out y bias = do
    guard (numel bias == out) invalid_argument
    each_row (λ i row. zip_with A.add row bias.data_) out 0 s y

  unfoldable pub linear : Gemm F → Tensor F → Tensor F → Tensor F → Result (Tensor F)
  unfolding add_bias
  linear gemm x weight bias = do
    guard ((ndim x == 2) && (ndim weight == 2)) invalid_argument
    s ← dim x 0
    inner ← dim x 1
    out ← dim weight 0
    inner' ← dim weight 1
    guard (inner' == inner) invalid_argument
    let y = gemm s inner out x.data_ weight.data_
    values ← if numel bias == 0 then ok y else add_bias s out y bias
    ok (record { shape = s ∷ out ∷ []; data_ = values })

  unfoldable pub linear_plain : Gemm F → Tensor F → Tensor F → Result (Tensor F)
  unfolding linear
  linear_plain gemm x weight = linear gemm x weight default

  unfoldable pub silu_mul : Tensor F → Tensor F → Result (Tensor F)
  unfolding zip_with
  silu_mul gate up = do
    guard (same_shape gate.shape up.shape) invalid_argument
    values ← zip_with (λ x u. A.mul (A.div x (A.add A.one (A.exp (A.neg x)))) u) gate.data_ up.data_
    ok (record { shape = gate.shape; data_ = values })

  unfoldable pub add_inplace : Tensor F → Tensor F → Result (Tensor F)
  unfolding zip_with
  add_inplace x y = do values ← zip_with A.add x.data_ y.data_; ok (record x { data_ = values })
