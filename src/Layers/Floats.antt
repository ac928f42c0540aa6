-- ===== src/Layers/Floats.antt =====
-- The arithmetic of floats and doubles that the layers and the quantisation use, and the matrix
-- product of Eigen, as arguments.
use from_scratch_inference_e.Base.{ℕ, ℤ, Bool, List}

-- `F` is float and `D` is double; the names with a `d` are the operations on doubles.
pub record Floats {ℓ} (F D : Type ℓ) : Type ℓ where
  pub nil : F
  pub one : F
  pub of_nat : ℕ → F
  pub add : F → F → F
  pub mul : F → F → F
  pub div : F → F → F
  pub neg : F → F
  pub exp : F → F
  pub abs : F → F
  pub larger : F → F → F
  pub gt : F → F → Bool
  pub lround : F → ℤ
  pub wide : F → D
  pub narrow : D → F
  pub dnil : D
  pub done : D
  pub dtwo : D
  pub dlowest : D
  pub dof_nat : ℕ → D
  pub dof_int : ℤ → D
  pub dadd : D → D → D
  pub dsub : D → D → D
  pub dmul : D → D → D
  pub ddiv : D → D → D
  pub dneg : D → D
  pub dsqrt : D → D
  pub dexp : D → D
  pub dcos : D → D
  pub dsin : D → D
  pub dpow : D → D → D
  pub dlarger : D → D → D

-- `gemm s in out x w` is the product of x, s rows of `in` values, and the transpose of w, `out`
-- rows of `in` values.
abbrev pub Gemm {ℓ} : Type ℓ → Type ℓ
Gemm F = ℕ → ℕ → ℕ → List F → List F → List F
