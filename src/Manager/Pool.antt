-- ===== src/Manager/Pool.antt =====
-- src/kvcache/block_manager.cpp: growing and freeing a sequence.
use from_scratch_inference_e.Base.{
  ℕ, zero, suc, ◌+◌, ◌-◌, List, [], ◌∷◌, ◌++◌, ◌==◌, if◌then◌else◌, length, Result, ok, ◌>>=◌,
}
use from_scratch_inference_e.Allocator
use from_scratch_inference_e.Manager.State.{
  SequenceBlocks, BlockManager, blocks_for, free_blocks, new_sequence,
}
use from_scratch_inference_e.Manager.Evict.{evict_lru}

-- Commit n tokens for the sequence.
unfoldable pub commit : SequenceBlocks → ℕ → SequenceBlocks
commit seq n = record seq { length = seq.length + n }

module _ {ℓ} {F : Type ℓ} where
  -- On an empty pool a cached block is evicted first.
  unfoldable pub allocate_block : BlockManager F → Result (ℕ × BlockManager F)
  allocate_block m = do
    m' ← (if free_blocks m == 0 then evict_lru m else ok m)
    r ← Allocator.allocate m'.alloc
    ok (r.0, record m' { alloc = r.1 })

  -- The loop of `reserve`, on the blocks that are still wanted.
  unfoldable pub grow : ℕ → BlockManager F → List ℕ → Result (BlockManager F × List ℕ)
  grow zero m table = ok (m, table)
  grow (suc n) m table = allocate_block m >>= λ r. grow n r.1 (table ++ r.0 ∷ [])

  unfoldable pub reserve :
      BlockManager F → SequenceBlocks → ℕ → Result (BlockManager F × SequenceBlocks)
  unfolding grow
  reserve m seq n_new =
      grow (blocks_for m (seq.length + n_new) - length seq.block_table) m seq.block_table >>= λ r.
      ok (r.0, record seq { block_table = r.1 })

  unfoldable pub free_table : List ℕ → BlockManager F → Result (BlockManager F)
  free_table [] m = ok m
  free_table (b ∷ bs) m = Allocator.free m.alloc b >>= λ a. free_table bs (record m { alloc = a })

  unfoldable pub free : BlockManager F → SequenceBlocks → Result (BlockManager F × SequenceBlocks)
  unfolding free_table
  free m seq = free_table seq.block_table m >>= λ m'. ok (m', new_sequence)
