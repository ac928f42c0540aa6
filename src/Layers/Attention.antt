-- ===== src/Layers/Attention.antt =====
-- attention of src/model/nn.cpp. The source runs over the heads outside and the queries inside;
-- the result of one head and one query depends on no other, so that here a row is finished first.
-- query_offset is the length of a cache: a natural number.
use from_scratch_inference_e.Base.{
  ℕ, zero, suc, ◌+◌, ◌*◌, ◌/◌, ◌%◌, List, [], ◌∷◌, map, not, ◌&&◌, leb, ◌==◌, drop, replicate,
  Result, ok, ◌>>=◌, ◌>>◌, guard, invalid_argument,
}
use from_scratch_inference_e.Tensor.{Tensor, dim}
use from_scratch_inference_e.Tensor.Rows.{slice}
use from_scratch_inference_e.Layers.Floats.{Floats}
use from_scratch_inference_e.Layers.Rows.{each_row, zip_with, fold_left}

module _ {ℓ} {F : Type ℓ} where
  -- The vectors of one head in the first `n` rows: kvec or vvec for j = 0, ..., n - 1.
  unfoldable pub head_vectors : ℕ → ℕ → ℕ → ℕ → List F → Result (List (List F))
  head_vectors width off head_dim zero xs = ok []
  head_vectors width off head_dim (suc n) xs = do
    vec ← slice xs off head_dim
    rest ← head_vectors width off head_dim n (drop width xs)
    ok (vec ∷ rest)

module _ {ℓ} {F D : Type ℓ} (A : Floats F D) where
  unfoldable pub dot : List F → List F → Result D
  unfolding zip_with fold_left
  dot q k = do
    products ← zip_with (λ a b. A.dmul (A.wide a) (A.wide b)) q k
    ok (fold_left A.dadd A.dnil products)

  unfoldable pub scores : D → List F → List (List F) → Result (List D)
  unfolding dot
  scores scale q [] = ok []
  scores scale q (k ∷ ks) = do
    value ← dot q k
    rest ← scores scale q ks
    ok (A.dmul value scale ∷ rest)

  -- The weighted sum of the values, from acc on.
  unfoldable pub mix : D → List D → List D → List (List F) → Result (List D)
  unfolding zip_with
  mix inv_sum acc [] vs = ok acc
  mix inv_sum acc (e ∷ es) [] = ok acc
  mix inv_sum acc (e ∷ es) (v ∷ vs) = do
    acc' ← zip_with (λ a x. A.dadd a (A.dmul (A.dmul e inv_sum) (A.wide x))) acc v
    mix inv_sum acc' es vs

  -- One head of one query, over the keys and values that it may see.
  unfoldable pub attend : ℕ → List F → List (List F) → List (List F) → Result (List F)
  unfolding scores mix fold_left
  attend head_dim q ks vs = do
    let scale = A.ddiv A.done (A.dsqrt (A.dof_nat head_dim))
    ss ← scores scale q ks
    let top = fold_left A.dlarger A.dlowest ss
    let es = map (λ s. A.dexp (A.dsub s top)) ss
    let sum = fold_left A.dadd A.dnil es
    acc ← mix (A.ddiv A.done sum) (replicate head_dim A.dnil) es vs
    ok (map A.narrow acc)

  unfoldable pub attend_row : List F → List F → ℕ → ℕ → ℕ → ℕ → List F → Result (List F)
  unfolding attend each_row head_vectors
  attend_row k v n_heads n_kv_heads head_dim last row =
      each_row
        (λ h q. do
          let kvh = h / (n_heads / n_kv_heads)
          ks ← head_vectors (n_kv_heads * head_dim) (kvh * head_dim) head_dim (last + 1) k
          vs ← head_vectors (n_kv_heads * head_dim) (kvh * head_dim) head_dim (last + 1) v
          attend head_dim q ks vs)
        head_dim 0 n_heads row

  unfoldable pub attention : Tensor F → Tensor F → Tensor F → ℕ → ℕ → ℕ → ℕ → Result (Tensor F)
  unfolding attend_row each_row
  attention q k v n_heads n_kv_heads head_dim query_offset = do
    q_len ← dim q 0
    total ← dim k 0
    q_width ← dim q 1
    guard (q_width == n_heads * head_dim) invalid_argument
    v_rows ← dim v 0
    guard (v_rows == total) invalid_argument
    k_width ← dim k 1
    guard (k_width == n_kv_heads * head_dim) invalid_argument
    v_width ← dim v 1
    guard (v_width == n_kv_heads * head_dim) invalid_argument
    guard (not (n_kv_heads == 0) && (n_heads % n_kv_heads == 0)) invalid_argument
    guard (leb (query_offset + q_len) total) invalid_argument
    values ←
        each_row
          (λ i row. attend_row k.data_ v.data_ n_heads n_kv_heads head_dim (query_offset + i) row)
          (n_heads * head_dim) 0 q_len q.data_
    ok (record { shape = q_len ∷ n_heads * head_dim ∷ []; data_ = values })
