-- ===== src/Layers/Rows.antt =====
-- The loops of the layers over the rows of a flat buffer and over two buffers side by side.
use from_scratch_inference_e.Base.{
  ℕ, zero, suc, ◌+◌, List, [], ◌∷◌, ◌++◌, drop, Result, ok, err, ◌>>=◌, undefined,
}
use from_scratch_inference_e.Tensor.Rows.{slice}

module _ {ℓ} {F : Type ℓ} where
  -- `f` at the rows `i`, `i + 1`, ... of the buffer, `width` values each, its results in order.
  unfoldable pub each_row : (ℕ → List F → Result (List F)) → ℕ → ℕ → ℕ → List F → Result (List F)
  each_row f width i zero xs = ok []
  each_row f width i (suc n) xs = do
    row ← slice xs 0 width
    out ← f i row
    rest ← each_row f width (i + 1) n (drop width xs)
    ok (out ++ rest)

module _ {ℓ κ μ} {A : Type ℓ} {B : Type κ} {C : Type μ} where
  -- For every element of the first buffer that of the second at the same place.
  unfoldable pub zip_with : (A → B → C) → List A → List B → Result (List C)
  zip_with f [] ys = ok []
  zip_with f (x ∷ xs) [] = err undefined
  zip_with f (x ∷ xs) (y ∷ ys) = zip_with f xs ys >>= λ rest. ok (f x y ∷ rest)

module _ {ℓ κ} {A : Type ℓ} {B : Type κ} where
  unfoldable pub fold_left : (B → A → B) → B → List A → B
  fold_left f acc [] = acc
  fold_left f acc (x ∷ xs) = fold_left f (f acc x) xs
