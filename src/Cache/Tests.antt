-- ===== src/Cache/Tests.antt =====
-- A cache of one layer with rows of two numbers, in three blocks of two rows.
use from_scratch_inference_e.Base.{ℕ, ◌≡◌, refl, List, [], ◌∷◌, arith, pos, ok}
use from_scratch_inference_e.Allocator.Invariant.{num_free-fresh}
use from_scratch_inference_e.Tensor.{Tensor}
use from_scratch_inference_e.Cache.Contiguous.{KvCache}
use from_scratch_inference_e.Cache.Contiguous
use from_scratch_inference_e.Cache.Paged.{PagedKvCache, append, key_tensor, value_tensor}
use from_scratch_inference_e.Cache.Paged
use from_scratch_inference_e.Cache.Refines.{Refines, append-Refines, tensors-Refines}
use from_scratch_inference_e.Cache.Start.{init-Refines, built, built-Refines}

abbrev new_paged : PagedKvCache ℕ
new_paged = built 0 1 2 2 3

abbrev new_contiguous : KvCache ℕ
new_contiguous = Contiguous.init 1 2

new_Refines : Refines new_paged new_contiguous
new_Refines = built-Refines 0 1 2 2 3 (omega arith) (omega arith)

abbrev rows : List ℕ
rows = 1 ∷ 2 ∷ 3 ∷ 4 ∷ 5 ∷ 6 ∷ []

append-Refines_example :
    (p' : PagedKvCache ℕ) × (c' : KvCache ℕ) × (append new_paged 0 rows rows 3 ≡ ok p')
    × (Contiguous.append new_contiguous 0 rows rows 3 ≡ ok c')
    × Refines p' c'
append-Refines_example =
    append-Refines new_paged new_contiguous 0 3 0 rows rows new_Refines (omega arith) refl
      (omega (arith, num_free-fresh 3)) (omega arith) (omega arith)

tensors-Refines_example :
    (k : Tensor ℕ) × (v : Tensor ℕ) × ((key_tensor new_paged 0 ≡ ok k)
      × (Contiguous.key_tensor new_contiguous 0 ≡ ok k))
    × ((value_tensor new_paged 0 ≡ ok v) × (Contiguous.value_tensor new_contiguous 0 ≡ ok v))
tensors-Refines_example = tensors-Refines new_paged new_contiguous 0 new_Refines (omega arith)

init-Refines_example :
    (p : PagedKvCache ℕ) × (Paged.init 0 (pos 1) (pos 2) (pos 2) (pos 3) ≡ ok p)
    × Refines p (Contiguous.init 1 2)
init-Refines_example = init-Refines 0 1 2 2 3 (omega arith) (omega arith) (omega arith)
