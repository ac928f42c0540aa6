-- ===== src/Batch/Tests.antt =====
-- A prefill of three tokens and a decode of one, over five blocks of two rows.
use from_scratch_inference_e.Base.{ℕ, zero, suc, ◌+◌, ◌≡◌, refl, List, [], ◌∷◌, arith, count, ok}
use from_scratch_inference_e.Allocator.{BlockAllocator}
use from_scratch_inference_e.Allocator.Counts.{unused}
use from_scratch_inference_e.Allocator.Invariant.{refs}
use from_scratch_inference_e.Manager.State.{BlockManager, blocks_for, new_sequence}
use from_scratch_inference_e.Manager.Owned.{Owned}
use from_scratch_inference_e.Manager.Owned.Free.{with_alloc}
use from_scratch_inference_e.Batch.{Heap, BatchItem, prepare, commit_items}
use from_scratch_inference_e.Batch.Heap.{held}
use from_scratch_inference_e.Batch.Prepare.{Prepares, Commits, prepare_fits, commit_items-Commits}

abbrev pool : BlockAllocator
pool = record { free_list = 1 ∷ 2 ∷ 3 ∷ 4 ∷ []; ref_count = 1 ∷ 0 ∷ 0 ∷ 0 ∷ 0 ∷ [] }

abbrev manager : BlockManager ℕ
manager = record {
  num_layers = 1;
  kv_dim = 1;
  block_size = 2;
  alloc = pool;
  keys = [];
  values = [];
  prefix = [];
  prefix_hits = 0;
  tick = 0;
}

-- Sequence 7 is new, and sequence 8 has two rows in block 0.
abbrev heap : Heap
heap = (7, new_sequence) ∷ (8, record { block_table = 0 ∷ []; length = 2 }) ∷ []

abbrev batch : List BatchItem
batch = record { blocks = 7; tokens = 4 ∷ 5 ∷ 6 ∷ [] } ∷ record { blocks = 8; tokens = 9 ∷ [] } ∷ []

manager-Owned : Owned manager (held heap)
manager-Owned = record {
  valid = record { listed = listed; total = refl };
  counted = counted;
  keys = tt;
}
  where
    listed : (b : ℕ) → count b pool.free_list ≡ unused pool.ref_count b
    listed zero = refl
    listed (suc zero) = refl
    listed (suc (suc zero)) = refl
    listed (suc (suc (suc zero))) = refl
    listed (suc (suc (suc (suc zero)))) = refl
    listed (suc (suc (suc (suc (suc b))))) = ground arith

    counted : (b : ℕ) → refs pool b ≡ count b (0 ∷ []) + 0
    counted zero = refl
    counted (suc zero) = refl
    counted (suc (suc zero)) = refl
    counted (suc (suc (suc zero))) = refl
    counted (suc (suc (suc (suc zero)))) = refl
    counted (suc (suc (suc (suc (suc b))))) = ground arith

prepare_fits_example :
    (a : BlockAllocator) × (h' : Heap) × (prepare batch manager heap
      ≡ ok (with_alloc manager a, h'))
    × Prepares batch manager heap a h'
unfolding blocks_for
prepare_fits_example =
    prepare_fits batch manager heap manager-Owned
      ((_, refl, omega arith, omega arith), ((_, refl, omega arith, omega arith), tt))
      (((λ e. absurd (omega arith)), tt), (tt, tt)) (omega arith)

-- The heap with both tables grown.
abbrev grown : Heap
grown =
    (7, record { block_table = 1 ∷ 2 ∷ []; length = 0 })
    ∷ (8, record { block_table = 0 ∷ 3 ∷ []; length = 2 })
    ∷ []

commit_items-Commits_example :
    (h' : Heap) × (commit_items batch grown ≡ ok h') × Commits manager batch grown h'
unfolding blocks_for
commit_items-Commits_example =
    commit_items-Commits manager batch grown ((_, refl, omega arith), ((_, refl, omega arith), tt))
      (((λ e. absurd (omega arith)), tt), (tt, tt))
