-- ===== src/Allocator.antt =====
-- include/engine/block_allocator.hpp: the pool of physical KV blocks with reference counts.
-- The head of `free_list` is the back of the vector. A count is an `int32_t`.
pub mod Counts
pub mod Invariant
pub mod Ops
pub mod Tests
use from_scratch_inference_e.Base.{
  ℕ, zero, suc, ◌+◌, ◌-◌, ◌^◌, List, [], ◌∷◌, ltb, ◌==◌, if◌then◌else◌, not, get_elem?, set, get_or,
  length, replicate, ℤ, pos, negsuc, Result, ok, err, ◌>>=◌, ◌>>◌, guard, or_fail, out_of_blocks,
  incref_on_free, double_free, length_error, undefined, signed_overflow,
}

pub record BlockAllocator : Type 0 where
  pub free_list : List ℕ
  pub ref_count : List ℕ

abbrev pub int32_max : ℕ
int32_max = 2 ^ 31 - 1

-- for (b = num_blocks - 1; b >= 0; --b) free_list_.push_back(b);
pub push_below : ℕ → List ℕ → List ℕ
push_below zero stack = stack
push_below (suc b) stack = push_below b (b ∷ stack)

-- A negative size is refused by the vector of the initialiser list, before the check of the body.
unfoldable pub init : ℤ → Result BlockAllocator
unfolding push_below
init (pos n) = ok (record { free_list = push_below n []; ref_count = replicate n 0 })
init (negsuc n) = err length_error

abbrev pub num_blocks : BlockAllocator → ℕ
num_blocks a = length a.ref_count

abbrev pub num_free : BlockAllocator → ℕ
num_free a = length a.free_list

pop_block : List ℕ → List ℕ → Result (ℕ × BlockAllocator)
pop_block [] counts = err out_of_blocks
pop_block (b ∷ rest) counts =
    if ltb b (length counts)
    then ok (b, record { free_list = rest; ref_count = set counts b 1 })
    else err undefined

unfoldable pub allocate : BlockAllocator → Result (ℕ × BlockAllocator)
unfolding pop_block
allocate a = pop_block a.free_list a.ref_count

unfoldable pub incref : BlockAllocator → ℕ → Result BlockAllocator
incref a block = do
  rc ← or_fail undefined (get_elem? a.ref_count block)
  guard (not (rc == 0)) incref_on_free
  guard (ltb rc int32_max) signed_overflow
  ok (record a { ref_count = set a.ref_count block (rc + 1) })

-- The count that was dropped decides whether the block goes back to the pool.
give_back : BlockAllocator → ℕ → ℕ → BlockAllocator
give_back a block rc =
    if rc == 0
    then record { free_list = block ∷ a.free_list; ref_count = set a.ref_count block rc }
    else record a { ref_count = set a.ref_count block rc }

unfoldable pub free : BlockAllocator → ℕ → Result BlockAllocator
unfolding give_back
free a block = do
  rc ← or_fail undefined (get_elem? a.ref_count block)
  guard (not (rc == 0)) double_free
  ok (give_back a block (rc - 1))

unfoldable pub ref_count : BlockAllocator → ℕ → Result ℕ
ref_count a block = or_fail undefined (get_elem? a.ref_count block)
