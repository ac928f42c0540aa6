-- ===== src/Cache/Contiguous.antt =====
-- include/engine/kv_cache.hpp: each layer's rows in one growing buffer.
use from_scratch_inference_e.Base.{
  ℕ, ◌+◌, ◌*◌, ◌/◌, List, [], ◌∷◌, ◌++◌, length, replicate, get_elem?, set, Result, ok, ◌>>=◌,
  or_fail, guard, ◌>>◌, not, ◌==◌, undefined,
}
use from_scratch_inference_e.Tensor.{Tensor, of_data}
use from_scratch_inference_e.Tensor.Rows.{slice}

pub record KvCache {ℓ} (F : Type ℓ) : Type ℓ where
  pub keys : List (List F)
  pub values : List (List F)
  pub kv_dim : ℕ
  pub length_ : ℕ

module _ {ℓ} {F : Type ℓ} where
  abbrev pub init : ℕ → ℕ → KvCache F
  init num_layers kv_dim = record {
    keys = replicate num_layers [];
    values = replicate num_layers [];
    kv_dim = kv_dim;
    length_ = 0;
  }

  -- The buffers `k` and `v` are read through pointers.
  unfoldable pub append : KvCache F → ℕ → List F → List F → ℕ → Result (KvCache F)
  append c layer k v n_rows = do
    let n = n_rows * c.kv_dim
    kl ← or_fail undefined (get_elem? c.keys layer)
    vl ← or_fail undefined (get_elem? c.values layer)
    k' ← slice k 0 n
    v' ← slice v 0 n
    ok (record c { keys = set c.keys layer (kl ++ k'); values = set c.values layer (vl ++ v') })

  -- A division by zero is undefined.
  unfoldable pub rows : KvCache F → ℕ → Result ℕ
  rows c layer = do
    kl ← or_fail undefined (get_elem? c.keys layer)
    guard (not (c.kv_dim == 0)) undefined
    ok (length kl / c.kv_dim)

  unfoldable pub key_tensor : KvCache F → ℕ → Result (Tensor F)
  unfolding rows
  key_tensor c layer = do
    n ← rows c layer
    kl ← or_fail undefined (get_elem? c.keys layer)
    of_data (n ∷ c.kv_dim ∷ []) kl

  unfoldable pub value_tensor : KvCache F → ℕ → Result (Tensor F)
  unfolding rows
  value_tensor c layer = do
    n ← rows c layer
    vl ← or_fail undefined (get_elem? c.values layer)
    of_data (n ∷ c.kv_dim ∷ []) vl

  abbrev pub advance : KvCache F → ℕ → KvCache F
  advance c n = record c { length_ = c.length_ + n }
