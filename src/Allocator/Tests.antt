-- ===== src/Allocator/Tests.antt =====
-- A pool of three blocks: block 1 has two holders, block 2 has one, and block 0 is free.
use from_scratch_inference_e.Base.{
  ℕ, zero, suc, ◌≡◌, refl, [], ◌∷◌, arith, count, ◌⊎◌, ok, err, out_of_blocks,
}
use from_scratch_inference_e.Allocator.{BlockAllocator, num_free, allocate, incref, free}
use from_scratch_inference_e.Allocator.Counts.{unused}
use from_scratch_inference_e.Allocator.Invariant.{IsValid}
use from_scratch_inference_e.Allocator.Ops.{
  Took, Added, Dropped, allocate-Took, incref-Added, free-Dropped,
}

abbrev pool : BlockAllocator
pool = record { free_list = 0 ∷ []; ref_count = 0 ∷ 2 ∷ 1 ∷ [] }

pool-IsValid : IsValid pool
pool-IsValid = record { listed = listed; total = refl }
  where
    listed : (b : ℕ) → count b pool.free_list ≡ unused pool.ref_count b
    listed zero = refl
    listed (suc zero) = refl
    listed (suc (suc zero)) = refl
    listed (suc (suc (suc b))) = ground arith

allocate-Took_example :
    ((num_free pool ≡ 0) × (allocate pool ≡ err out_of_blocks))
    ⊎ ((b : ℕ) × (a' : BlockAllocator) × (allocate pool ≡ ok (b, a')) × Took pool b a')
allocate-Took_example = allocate-Took pool pool-IsValid

incref-Added_example : (a' : BlockAllocator) × (incref pool 1 ≡ ok a') × Added pool 1 a'
incref-Added_example = incref-Added pool pool-IsValid 1 (omega arith) (omega arith)

free-Dropped_example : (a' : BlockAllocator) × (free pool 2 ≡ ok a') × Dropped pool 2 a'
free-Dropped_example = free-Dropped pool pool-IsValid 2 (omega arith)
