-- ===== src/Manager/Store.antt =====
-- src/kvcache/block_manager.cpp: writing and gathering token rows through a block table.
pub mod Splice
pub mod Slots
pub mod Reads
pub mod RoundTrip
pub mod Tests
use from_scratch_inference_e.Base.{
  ℕ, zero, suc, ◌+◌, ◌*◌, ◌/◌, ◌%◌, List, [], ◌∷◌, ◌++◌, leb, if◌then◌else◌, length, take, drop,
  get_elem?, set, Result, ok, err, ◌>>=◌, or_fail, undefined,
}
use from_scratch_inference_e.Tensor.{Tensor}
use from_scratch_inference_e.Tensor.Rows.{slice}
use from_scratch_inference_e.Manager.State.{SequenceBlocks, BlockManager}

module _ {ℓ} {F : Type ℓ} where
  -- memcpy of `src` into `store` at `off`.
  unfoldable pub copy_into : List F → ℕ → List F → Result (List F)
  copy_into store off src =
      if leb (off + length src) (length store)
      then ok (take off store ++ (src ++ drop (off + length src) store))
      else err undefined

module _ (block_size kv_dim : ℕ) (table : List ℕ) where
  -- The place of a logical row in a layer's store.
  unfoldable pub offset : ℕ → Result ℕ
  offset logical = do
    block ← or_fail undefined (get_elem? table (logical / block_size))
    ok ((block * block_size + logical % block_size) * kv_dim)

module _ {ℓ} {F : Type ℓ} (block_size kv_dim : ℕ) (table : List ℕ) where
  -- The rows from `r` on, `n` of them, of `src` go to the logical rows from `start + r` on.
  unfoldable pub write_rows : ℕ → ℕ → ℕ → List F → List F → Result (List F)
  unfolding offset
  write_rows zero r start src store = ok store
  write_rows (suc n) r start src store = do
    off ← offset block_size kv_dim table (start + r)
    row ← slice src (r * kv_dim) kv_dim
    store' ← copy_into store off row
    write_rows n (r + 1) start src store'

  -- The rows from `r` on, `n` of them, one behind the other.
  unfoldable pub gather_rows : ℕ → ℕ → List F → Result (List F)
  unfolding offset
  gather_rows zero r store = ok []
  gather_rows (suc n) r store = do
    off ← offset block_size kv_dim table r
    row ← slice store off kv_dim
    rest ← gather_rows n (r + 1) store
    ok (row ++ rest)

module _ {ℓ} {F : Type ℓ} where
  unfoldable pub write_one :
      BlockManager F → List F → SequenceBlocks → ℕ → List F → ℕ → Result (List F)
  write_one m store seq start src n =
      write_rows m.block_size m.kv_dim seq.block_table n 0 start src store

  -- K and V of one layer at the logical rows [start, start + n).
  unfoldable pub write :
      BlockManager F → SequenceBlocks → ℕ → ℕ → List F → List F → ℕ → Result (BlockManager F)
  unfolding write_one
  write m seq layer start k v n = do
    key_store ← or_fail undefined (get_elem? m.keys layer)
    key_store' ← write_one m key_store seq start k n
    value_store ← or_fail undefined (get_elem? m.values layer)
    value_store' ← write_one m value_store seq start v n
    ok (record m { keys = set m.keys layer key_store'; values = set m.values layer value_store' })

  unfoldable pub gather_one : BlockManager F → List F → SequenceBlocks → ℕ → Result (Tensor F)
  gather_one m store seq rows =
      gather_rows m.block_size m.kv_dim seq.block_table rows 0 store >>= λ values.
      ok (record { shape = rows ∷ m.kv_dim ∷ []; data_ = values })

  unfoldable pub gather_keys : BlockManager F → SequenceBlocks → ℕ → ℕ → Result (Tensor F)
  unfolding gather_one
  gather_keys m seq layer rows = do
    store ← or_fail undefined (get_elem? m.keys layer)
    gather_one m store seq rows

  unfoldable pub gather_values : BlockManager F → SequenceBlocks → ℕ → ℕ → Result (Tensor F)
  unfolding gather_one
  gather_values m seq layer rows = do
    store ← or_fail undefined (get_elem? m.values layer)
    gather_one m store seq rows
