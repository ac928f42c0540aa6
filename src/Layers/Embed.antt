-- ===== src/Layers/Embed.antt =====
-- embedding of src/model/nn.cpp.
use from_scratch_inference_e.Base.{
  ℕ, ◌*◌, List, [], ◌∷◌, ◌++◌, ltb, ◌==◌, if◌then◌else◌, length, ℤ, pos, negsuc, Result, ok, err,
  ◌>>=◌, ◌>>◌, guard, invalid_argument, out_of_range,
}
use from_scratch_inference_e.Tensor.{Tensor, dim, ndim}
use from_scratch_inference_e.Tensor.Rows.{slice}

unfoldable pub token_row : ℕ → ℤ → Result ℕ
token_row vocab (pos id) = if ltb id vocab then ok id else err out_of_range
token_row vocab (negsuc n) = err out_of_range

module _ {ℓ} {F : Type ℓ} where
  unfoldable pub embed_rows : ℕ → ℕ → List F → List ℤ → Result (List F)
  unfolding token_row
  embed_rows vocab h table [] = ok []
  embed_rows vocab h table (id ∷ ids) = do
    row ← token_row vocab id
    first ← slice table (row * h) h
    rest ← embed_rows vocab h table ids
    ok (first ++ rest)

  unfoldable pub embedding : Tensor F → List ℤ → Result (Tensor F)
  unfolding embed_rows
  embedding weight ids = do
    guard (ndim weight == 2) invalid_argument
    vocab ← dim weight 0
    h ← dim weight 1
    values ← embed_rows vocab h weight.data_ ids
    ok (record { shape = length ids ∷ h ∷ []; data_ = values })
