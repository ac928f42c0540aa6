-- ===== src/Tensor/Shards.antt =====
-- include/engine/tensor_parallel.hpp and src/engine/tensor_parallel.cpp: a matrix cut into shards and
-- the parts combined. The rows that memcpy lays behind each other are appended.
use from_scratch_inference_e.Base.{
  ℕ, zero, suc, ◌+◌, ◌*◌, ◌/◌, ◌%◌, List, [], ◌∷◌, ◌++◌, ◌==◌, ℤ, Result, ok, err, ◌>>=◌, ◌>>◌,
  guard, invalid_argument, undefined,
}
use from_scratch_inference_e.Manager.State.{is_positive, magnitude}
use from_scratch_inference_e.Tensor.{Tensor, ndim, dim, numel}
use from_scratch_inference_e.Tensor.Rows.{slice}

module _ {ℓ} {F : Type ℓ} where
  -- The shards from `s` on, `n` of them, of `per` rows.
  unfoldable pub row_parts : ℕ → ℕ → List F → ℕ → ℕ → Result (List (Tensor F))
  row_parts per cols values zero s = ok []
  row_parts per cols values (suc n) s = do
    part ← slice values (s * per * cols) (per * cols)
    rest ← row_parts per cols values n (s + 1)
    ok (record { shape = per ∷ cols ∷ []; data_ = part } ∷ rest)

  unfoldable pub split_rows : Tensor F → ℤ → Result (List (Tensor F))
  unfolding row_parts
  split_rows m shards = do
    guard (ndim m == 2) invalid_argument
    rows ← dim m 0
    cols ← dim m 1
    guard (is_positive shards) invalid_argument
    guard (rows % magnitude shards == 0) invalid_argument
    row_parts (rows / magnitude shards) cols m.data_ (magnitude shards) 0

  -- The rows from `r` on, `n` of them, of the shard `s`.
  unfoldable pub part_rows : ℕ → ℕ → List F → ℕ → ℕ → ℕ → Result (List F)
  part_rows per cols values s zero r = ok []
  part_rows per cols values s (suc n) r = do
    row ← slice values (r * cols + s * per) per
    rest ← part_rows per cols values s n (r + 1)
    ok (row ++ rest)

  -- The shards from `s` on, `n` of them, of `per` columns.
  unfoldable pub column_parts : ℕ → ℕ → ℕ → List F → ℕ → ℕ → Result (List (Tensor F))
  unfolding part_rows
  column_parts rows per cols values zero s = ok []
  column_parts rows per cols values (suc n) s = do
    part ← part_rows per cols values s rows 0
    rest ← column_parts rows per cols values n (s + 1)
    ok (record { shape = rows ∷ per ∷ []; data_ = part } ∷ rest)

  unfoldable pub split_columns : Tensor F → ℤ → Result (List (Tensor F))
  unfolding column_parts
  split_columns m shards = do
    guard (ndim m == 2) invalid_argument
    rows ← dim m 0
    cols ← dim m 1
    guard (is_positive shards) invalid_argument
    guard (cols % magnitude shards == 0) invalid_argument
    column_parts rows (cols / magnitude shards) cols m.data_ (magnitude shards) 0

  unfoldable pub total_cols : ℕ → List (Tensor F) → Result ℕ
  total_cols rows [] = ok 0
  total_cols rows (p ∷ ps) = do
    guard (ndim p == 2) invalid_argument
    d ← dim p 0
    guard (d == rows) invalid_argument
    c ← dim p 1
    rest ← total_cols rows ps
    ok (c + rest)

  -- One row of the result.
  unfoldable pub join_row : ℕ → List (Tensor F) → Result (List F)
  join_row r [] = ok []
  join_row r (p ∷ ps) = do
    pc ← dim p 1
    row ← slice p.data_ (r * pc) pc
    rest ← join_row r ps
    ok (row ++ rest)

  unfoldable pub join_rows : List (Tensor F) → ℕ → ℕ → Result (List F)
  unfolding join_row
  join_rows parts zero r = ok []
  join_rows parts (suc n) r = do
    row ← join_row r parts
    rest ← join_rows parts n (r + 1)
    ok (row ++ rest)

  unfoldable pub concat_columns : List (Tensor F) → Result (Tensor F)
  unfolding total_cols join_rows
  concat_columns [] = err invalid_argument
  concat_columns (p ∷ ps) = do
    rows ← dim p 0
    cols ← total_cols rows (p ∷ ps)
    values ← join_rows (p ∷ ps) rows 0
    ok (record { shape = rows ∷ cols ∷ []; data_ = values })

module _ {ℓ} {F : Type ℓ} (add : F → F → F) where
  -- dst[j] += src[j] on two buffers.
  unfoldable pub add_into : List F → List F → Result (List F)
  add_into [] [] = ok []
  add_into [] (y ∷ ys) = err undefined
  add_into (x ∷ xs) [] = err undefined
  add_into (x ∷ xs) (y ∷ ys) = add_into xs ys >>= λ zs. ok (add x y ∷ zs)

  unfoldable pub add_parts : ℕ → List F → List (Tensor F) → Result (List F)
  unfolding add_into
  add_parts n total [] = ok total
  add_parts n total (p ∷ ps) = do
    guard (numel p == n) invalid_argument
    total' ← add_into total p.data_
    add_parts n total' ps

  unfoldable pub sum : List (Tensor F) → Result (Tensor F)
  unfolding add_parts
  sum [] = err invalid_argument
  sum (p ∷ ps) = add_parts (numel p) p.data_ ps >>= λ values. ok (record p { data_ = values })
