-- ===== src/Manager/Tests.antt =====
-- A small pool of four blocks of two rows, with one cached block, and runs of the operations.
use from_scratch_inference_e.Base.{
  ℕ, zero, suc, ◌+◌, ◌≤◌, ◌≡◌, refl, List, [], ◌∷◌, ◌++◌, arith, count, ok, Ensures, length,
}
use from_scratch_inference_e.Allocator.{BlockAllocator, num_free}
use from_scratch_inference_e.Allocator
use from_scratch_inference_e.Allocator.Invariant.{IsValid}
use from_scratch_inference_e.Manager.State.{
  SequenceBlocks, PrefixEntry, BlockManager, new_sequence, blocks_for,
}
use from_scratch_inference_e.Manager.Hash.{hash_block}
use from_scratch_inference_e.Manager.Prefix.{
  acquire_shared_prefix, register_prefix, clear_prefix_cache,
}
use from_scratch_inference_e.Manager.Evict.{evict_lru}
use from_scratch_inference_e.Manager.Pool.{reserve, free}
use from_scratch_inference_e.Manager.Owned.{Owned, OnlyOverflow, OnlyOut}
use from_scratch_inference_e.Manager.Owned.Free.{with_alloc, free-Owned}
use from_scratch_inference_e.Manager.Owned.Evict.{Evicts, evict_lru-Evicts}
use from_scratch_inference_e.Manager.Owned.Grow.{Gains, reserve_fits, lacking, reserve-Owned}
use from_scratch_inference_e.Manager.Owned.Share.{Keeps, acquire_shared_prefix-Owned}
use from_scratch_inference_e.Manager.Owned.Register.{register_prefix-Owned}
use from_scratch_inference_e.Manager.Owned.Clear.{clear_prefix_cache-Owned}

-- Block 0 is cached for the tokens 7, 8; block 1 is a sequence's; 2 and 3 are free.
abbrev used_pool : BlockAllocator
used_pool = record { free_list = 2 ∷ 3 ∷ []; ref_count = 1 ∷ 1 ∷ 0 ∷ 0 ∷ [] }

abbrev entry : PrefixEntry
entry = record { parent = 0; tokens = 7 ∷ 8 ∷ []; block = 0; last_used = 1 }

abbrev sample : BlockManager ℕ
sample = record {
  num_layers = 1;
  kv_dim = 1;
  block_size = 2;
  alloc = used_pool;
  keys = [];
  values = [];
  prefix = (hash_block 0 (7 ∷ 8 ∷ []), entry ∷ []) ∷ [];
  prefix_hits = 0;
  tick = 1;
}

abbrev one_block : SequenceBlocks
one_block = record { block_table = 1 ∷ []; length = 2 }

used_pool-IsValid : IsValid used_pool
used_pool-IsValid = record { listed = listed; total = refl }
  where
    listed : (b : ℕ) → count b used_pool.free_list ≡ Allocator.Counts.unused used_pool.ref_count b
    listed zero = refl
    listed (suc zero) = refl
    listed (suc (suc zero)) = refl
    listed (suc (suc (suc zero))) = refl
    listed (suc (suc (suc (suc b)))) = ground arith

sample-Owned : Owned sample (1 ∷ [])
sample-Owned = record { valid = used_pool-IsValid; counted = counted; keys = (refl, tt) }
  where
    counted : (b : ℕ) → Allocator.Invariant.refs used_pool b ≡ count b (1 ∷ []) + count b (0 ∷ [])
    counted zero = refl
    counted (suc zero) = refl
    counted (suc (suc zero)) = refl
    counted (suc (suc (suc zero))) = refl
    counted (suc (suc (suc (suc b)))) = ground arith

-- Two cached blocks that nobody else holds: 0, used at tick 5, and 2, used at tick 1.
abbrev cached_pool : BlockAllocator
cached_pool = record { free_list = 3 ∷ []; ref_count = 1 ∷ 1 ∷ 1 ∷ 0 ∷ [] }

abbrev later_entry : PrefixEntry
later_entry = record { parent = 0; tokens = 7 ∷ 8 ∷ []; block = 0; last_used = 5 }

abbrev older_entry : PrefixEntry
older_entry = record { parent = 0; tokens = 8 ∷ 9 ∷ []; block = 2; last_used = 1 }

abbrev two_cached : BlockManager ℕ
two_cached = record sample {
  alloc = cached_pool;
  prefix = (11, later_entry ∷ []) ∷ (12, older_entry ∷ []) ∷ [];
}

two_cached-Owned : Owned two_cached (1 ∷ [])
two_cached-Owned = record {
  valid = record { listed = listed; total = refl };
  counted = counted;
  keys = (refl, (refl, tt));
}
  where
    listed :
        (b : ℕ) → count b cached_pool.free_list ≡ Allocator.Counts.unused cached_pool.ref_count b
    listed zero = refl
    listed (suc zero) = refl
    listed (suc (suc zero)) = refl
    listed (suc (suc (suc zero))) = refl
    listed (suc (suc (suc (suc b)))) = ground arith

    counted :
        (b : ℕ) → Allocator.Invariant.refs cached_pool b ≡ count b (1 ∷ []) + count b (0 ∷ 2 ∷ [])
    counted zero = refl
    counted (suc zero) = refl
    counted (suc (suc zero)) = refl
    counted (suc (suc (suc zero))) = refl
    counted (suc (suc (suc (suc b)))) = ground arith

evict_lru-Evicts_example :
    (m' : BlockManager ℕ) × (evict_lru two_cached ≡ ok m') × Evicts two_cached m' (1 ∷ [])
evict_lru-Evicts_example = evict_lru-Evicts two_cached (1 ∷ []) two_cached-Owned

free-Owned_example :
    (a : BlockAllocator) × (free sample one_block ≡ ok (with_alloc sample a, new_sequence))
    × Owned (with_alloc sample a) []
    × (2 ≤ num_free a)
free-Owned_example = free-Owned sample one_block [] sample-Owned

reserve_fits_example :
    (a : BlockAllocator) × (new : List ℕ) × (reserve sample one_block 3
      ≡ ok (with_alloc sample a, record one_block { block_table = 1 ∷ new }))
    × Gains sample (1 ∷ []) [] (lacking sample one_block 3) a new
unfolding blocks_for
reserve_fits_example = reserve_fits sample one_block 3 [] sample-Owned (omega arith)

reserve-Owned_example :
    Ensures OnlyOut
      (λ r.
        Owned r.0 (r.1.block_table ++ [])
        × (length r.1.block_table ≡ 1 + lacking sample one_block 9)
        × (r.1.length ≡ 2))
      (reserve sample one_block 9)
reserve-Owned_example = reserve-Owned sample one_block 9 [] sample-Owned

acquire_shared_prefix-Owned_example :
    Ensures OnlyOverflow
      (λ r. Owned r.0 (r.1.block_table ++ (1 ∷ [])) × Keeps sample r.0)
      (acquire_shared_prefix sample new_sequence (7 ∷ 8 ∷ 9 ∷ []))
acquire_shared_prefix-Owned_example =
    acquire_shared_prefix-Owned sample new_sequence (7 ∷ 8 ∷ 9 ∷ []) (1 ∷ []) sample-Owned

register_prefix-Owned_example :
    Ensures OnlyOverflow
      (λ m'. Owned m' (1 ∷ []) × Keeps sample m')
      (register_prefix sample one_block (5 ∷ 6 ∷ []))
register_prefix-Owned_example = register_prefix-Owned sample one_block (5 ∷ 6 ∷ []) [] sample-Owned

clear_prefix_cache-Owned_example :
    (a : BlockAllocator) × (clear_prefix_cache sample
      ≡ ok (record sample { alloc = a; prefix = [] }))
    × Owned (record sample { alloc = a; prefix = [] }) (1 ∷ [])
    × (2 ≤ num_free a)
clear_prefix_cache-Owned_example = clear_prefix_cache-Owned sample (1 ∷ []) sample-Owned
