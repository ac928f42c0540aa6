-- ===== src/Tensor.antt =====
-- include/engine/tensor.hpp: row-major dense tensors. A scalar is a value of any type.
pub mod Rows
pub mod Shards
pub mod Split
pub mod Tests
use from_scratch_inference_e.Base.{
  ℕ, ◌*◌, List, [], ◌∷◌, length, replicate, ◌==◌, if◌then◌else◌, get_elem?, Result, ok, err,
  or_fail, invalid_argument, out_of_range,
}

abbrev pub product_from : ℕ → List ℕ → ℕ
product_from n [] = n
product_from n (d ∷ ds) = product_from (n * d) ds

-- A default tensor holds no elements.
unfoldable pub num_elements : List ℕ → ℕ
num_elements [] = 0
num_elements (d ∷ ds) = product_from 1 (d ∷ ds)

pub record Tensor {ℓ} (F : Type ℓ) : Type ℓ where
  pub shape : List ℕ
  pub data_ : List F

module _ {ℓ} {F : Type ℓ} where
  abbrev pub default : Tensor F
  default = record { shape = []; data_ = [] }

  -- `nil` is 0.0f.
  unfoldable pub zeros : F → List ℕ → Tensor F
  zeros nil shape = record { shape = shape; data_ = replicate (num_elements shape) nil }

  unfoldable pub of_data : List ℕ → List F → Result (Tensor F)
  of_data shape values =
      if num_elements shape == length values
      then ok (record { shape = shape; data_ = values })
      else err invalid_argument

  abbrev pub ndim : Tensor F → ℕ
  ndim t = length t.shape

  abbrev pub dim : Tensor F → ℕ → Result ℕ
  dim t i = or_fail out_of_range (get_elem? t.shape i)

  abbrev pub numel : Tensor F → ℕ
  numel t = num_elements t.shape
