-- ===== src/Tensor/Tests.antt =====
-- A matrix of two rows and four columns, in two shards.
use from_scratch_inference_e.Base.{ℕ, ◌≡◌, refl, List, [], ◌∷◌, arith, length, pos, ok}
use from_scratch_inference_e.Tensor.{Tensor}
use from_scratch_inference_e.Tensor.Rows.{slice}
use from_scratch_inference_e.Tensor.Shards.{split_columns, concat_columns}
use from_scratch_inference_e.Tensor.Split.{split_columns-concat_columns}

abbrev matrix : Tensor ℕ
matrix = record { shape = 2 ∷ 4 ∷ []; data_ = 1 ∷ 2 ∷ 3 ∷ 4 ∷ 5 ∷ 6 ∷ 7 ∷ 8 ∷ [] }

split :
    split_columns matrix (pos 2)
    ≡ ok (
        record { shape = 2 ∷ 2 ∷ []; data_ = 1 ∷ 2 ∷ 5 ∷ 6 ∷ [] }
        ∷ record { shape = 2 ∷ 2 ∷ []; data_ = 3 ∷ 4 ∷ 7 ∷ 8 ∷ [] }
        ∷ [])
unfolding split_columns slice
split = refl

split_columns-concat_columns_example :
    (parts : List (Tensor ℕ)) × (split_columns matrix (pos 2) ≡ ok parts)
    × (length parts ≡ 2)
    × (concat_columns parts ≡ ok matrix)
split_columns-concat_columns_example =
    split_columns-concat_columns 2 4 2 matrix.data_ refl (omega arith) refl
