-- ===== src/Cache/Paged.antt =====
-- include/engine/paged_kv_cache.hpp and src/kvcache/paged_kv_cache.cpp: the rows of one sequence in
-- fixed-size blocks. The row loops are those of the block manager.
use from_scratch_inference_e.Base.{
  ℕ, zero, suc, ◌+◌, ◌-◌, ◌*◌, ◌/◌, List, [], ◌∷◌, ◌++◌, length, replicate, get_elem?, set, ℤ,
  Result, ok, ◌>>=◌, ◌>>◌, guard, or_fail, undefined, invalid_argument,
}
use from_scratch_inference_e.Allocator
use from_scratch_inference_e.Allocator.{BlockAllocator}
use from_scratch_inference_e.Tensor.{Tensor}
use from_scratch_inference_e.Manager.State.{is_positive, magnitude}
use from_scratch_inference_e.Manager.Store

pub record PagedKvCache {ℓ} (F : Type ℓ) : Type ℓ where
  pub num_layers : ℕ
  pub kv_dim : ℕ
  pub block_size : ℕ
  pub alloc : BlockAllocator
  pub block_table : List ℕ
  pub keys : List (List F)
  pub values : List (List F)
  pub filled : List ℕ
  pub length_ : ℕ

-- The loop of ensure_blocks, on the blocks that are still needed.
unfoldable pub take_blocks : ℕ → BlockAllocator → List ℕ → Result (BlockAllocator × List ℕ)
take_blocks zero a table = ok (a, table)
take_blocks (suc n) a table = Allocator.allocate a >>= λ r. take_blocks n r.1 (table ++ r.0 ∷ [])

module _ {ℓ} {F : Type ℓ} where
  -- `nil` is 0.0f.
  unfoldable pub init : F → ℤ → ℤ → ℤ → ℤ → Result (PagedKvCache F)
  init nil num_layers kv_dim block_size num_blocks = do
    a ← Allocator.init num_blocks
    guard (is_positive num_layers) invalid_argument
    guard (is_positive kv_dim) invalid_argument
    guard (is_positive block_size) invalid_argument
    let pool = replicate (magnitude num_blocks * magnitude block_size * magnitude kv_dim) nil
    ok (record {
      num_layers = magnitude num_layers;
      kv_dim = magnitude kv_dim;
      block_size = magnitude block_size;
      alloc = a;
      block_table = [];
      keys = replicate (magnitude num_layers) pool;
      values = replicate (magnitude num_layers) pool;
      filled = replicate (magnitude num_layers) 0;
      length_ = 0;
    })

  abbrev pub blocks_used : PagedKvCache F → ℕ
  blocks_used p = length p.block_table

  abbrev pub reserved_slots : PagedKvCache F → ℕ
  reserved_slots p = length p.block_table * p.block_size

  abbrev pub needed : PagedKvCache F → ℕ → ℕ
  needed p rows = (rows + p.block_size - 1) / p.block_size

  unfoldable pub ensure_blocks : PagedKvCache F → ℕ → Result (PagedKvCache F)
  unfolding take_blocks
  ensure_blocks p rows =
      take_blocks (needed p rows - length p.block_table) p.alloc p.block_table >>= λ r.
      ok (record p { alloc = r.0; block_table = r.1 })

  abbrev pub write_rows : PagedKvCache F → List F → ℕ → List F → ℕ → Result (List F)
  write_rows p store start_row src n_rows =
      Store.write_rows p.block_size p.kv_dim p.block_table n_rows 0 start_row src store

  unfoldable pub append : PagedKvCache F → ℕ → List F → List F → ℕ → Result (PagedKvCache F)
  append p layer k v n_rows = do
    start ← or_fail undefined (get_elem? p.filled layer)
    p' ← ensure_blocks p (start + n_rows)
    key_store ← or_fail undefined (get_elem? p'.keys layer)
    key_store' ← write_rows p' key_store start k n_rows
    value_store ← or_fail undefined (get_elem? p'.values layer)
    value_store' ← write_rows p' value_store start v n_rows
    ok (record p' {
      keys = set p'.keys layer key_store';
      values = set p'.values layer value_store';
      filled = set p'.filled layer (start + n_rows);
    })

  unfoldable pub gather : PagedKvCache F → List F → ℕ → Result (Tensor F)
  gather p store rows =
      Store.gather_rows p.block_size p.kv_dim p.block_table rows 0 store >>= λ values.
      ok (record { shape = rows ∷ p.kv_dim ∷ []; data_ = values })

  unfoldable pub key_tensor : PagedKvCache F → ℕ → Result (Tensor F)
  unfolding gather
  key_tensor p layer = do
    store ← or_fail undefined (get_elem? p.keys layer)
    rows ← or_fail undefined (get_elem? p.filled layer)
    gather p store rows

  unfoldable pub value_tensor : PagedKvCache F → ℕ → Result (Tensor F)
  unfolding gather
  value_tensor p layer = do
    store ← or_fail undefined (get_elem? p.values layer)
    rows ← or_fail undefined (get_elem? p.filled layer)
    gather p store rows

  abbrev pub advance : PagedKvCache F → ℕ → PagedKvCache F
  advance p n = record p { length_ = p.length_ + n }
