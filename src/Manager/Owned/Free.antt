-- ===== src/Manager/Owned/Free.antt =====
-- Freeing what a sequence holds never fails, and leaves the others' blocks alone.
use from_scratch_inference_e.Base.{ℕ, ◌≤◌, ◌<◌, ◌≡◌, refl, List, [], ◌∷◌, ◌++◌, arith, ok, ==_refl}
use from_scratch_inference_e.Allocator.{num_free, num_blocks}
use from_scratch_inference_e.Allocator
use from_scratch_inference_e.Allocator.Invariant.{refs}
use from_scratch_inference_e.Allocator.Ops.{free-Dropped}
use from_scratch_inference_e.Manager.State.{SequenceBlocks, BlockManager, new_sequence}
use from_scratch_inference_e.Manager.Pool.{free, free_table}
use from_scratch_inference_e.Manager.Owned.{Owned}

module _ {ℓ} {F : Type ℓ} where
  -- The manager `m'` after a call that only touches the allocator.
  abbrev pub with_alloc : BlockManager F → Allocator.BlockAllocator → BlockManager F
  with_alloc m a = record m { alloc = a }

  -- One block of `held` given back.
  drop_one :
      (m : BlockManager F) (b : ℕ) (held : List ℕ)
      → Owned m (b ∷ held)
      → (a : Allocator.BlockAllocator) × (Allocator.free m.alloc b ≡ ok a)
        × Owned (with_alloc m a) held
        × (num_free m.alloc ≤ num_free a)
  drop_one m b held o =
      let pos : 0 < refs m.alloc b = ground (arith, o.counted b, ==_refl b) in
      let (a, e, d) = free-Dropped m.alloc o.valid b pos in
      (
        a,
        e,
        record {
          valid = d.valid;
          counted = λ j. omega (arith, d.counted j, o.counted j);
          keys = o.keys;
        },
        ground (arith, d.returned),
      )

  pub free_table-Owned :
      (table : List ℕ) (m : BlockManager F) (held : List ℕ)
      → Owned m (table ++ held)
      → (a : Allocator.BlockAllocator) × (free_table table m ≡ ok (with_alloc m a))
        × Owned (with_alloc m a) held
        × (num_free m.alloc ≤ num_free a)
  unfolding free_table
  free_table-Owned [] m held o = (m.alloc, refl, o, omega arith)
  free_table-Owned (b ∷ bs) m held o =
      let (a, e, o', le) = drop_one m b (bs ++ held) o in
      let (a', e', o'', le') = free_table-Owned bs (with_alloc m a) held o' in
      (a', rw e e', o'', omega arith)

  -- Freeing a sequence whose blocks are counted never throws: the sequence is empty, all its blocks
  -- lose one holder, and no free block is lost.
  pub free-Owned :
      (m : BlockManager F) (seq : SequenceBlocks) (held : List ℕ)
      → Owned m (seq.block_table ++ held)
      → (a : Allocator.BlockAllocator) × (free m seq ≡ ok (with_alloc m a, new_sequence))
        × Owned (with_alloc m a) held
        × (num_free m.alloc ≤ num_free a)
  unfolding free
  free-Owned m seq held o =
      let (a, e, o', le) = free_table-Owned seq.block_table m held o in (a, rw e refl, o', le)
