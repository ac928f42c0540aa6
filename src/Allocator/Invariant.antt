-- ===== src/Allocator/Invariant.antt =====
-- What holds of the pool between calls: the free list names each unheld block once and no other.
use from_scratch_inference_e.Base.{
  ℕ, zero, suc, ◌+◌, ◌≡◌, List, [], ◌∷◌, arith, ltb, if◌then◌else◌, count, get_or, length,
  replicate, length-replicate,
}
use from_scratch_inference_e.Allocator.{BlockAllocator, num_blocks, num_free, push_below}
use from_scratch_inference_e.Allocator.Counts.{unused, live, live-replicate, get_or-replicate}

-- The number of holders of a block; 0 outside the pool.
abbrev pub refs : BlockAllocator → ℕ → ℕ
refs a b = get_or a.ref_count b 0

pub record IsValid (a : BlockAllocator) : Type 0 where
  pub listed : (b : ℕ) → count b a.free_list ≡ unused a.ref_count b
  pub total : num_free a + live a.ref_count ≡ num_blocks a

length-push_below : (n : ℕ) (stack : List ℕ) → length (push_below n stack) ≡ n + length stack
unfolding push_below
length-push_below zero stack = omega arith
length-push_below (suc n) stack = omega (arith, length-push_below n (n ∷ stack))

count-push_below :
    (n b : ℕ) (stack : List ℕ)
    → count b (push_below n stack) ≡ (if ltb b n then 1 else 0) + count b stack
unfolding push_below
count-push_below zero b stack = ground arith
count-push_below (suc n) b stack = ground (arith, count-push_below n b (n ∷ stack))

unused-replicate : (n b : ℕ) → unused (replicate n 0) b ≡ (if ltb b n then 1 else 0)
unused-replicate zero b = ground arith
unused-replicate (suc n) zero = ground arith
unused-replicate (suc n) (suc b) = ground (arith, unused-replicate n b)

abbrev pub fresh : ℕ → BlockAllocator
fresh n = record { free_list = push_below n []; ref_count = replicate n 0 }

pub fresh-IsValid : (n : ℕ) → IsValid (fresh n)
fresh-IsValid n = record {
  listed = λ b. omega (arith, count-push_below n b [], unused-replicate n b);
  total = omega (arith, length-push_below n [], live-replicate n, length-replicate {A = ℕ} n 0);
}

pub num_free-fresh : (n : ℕ) → num_free (fresh n) ≡ n
num_free-fresh n = omega (arith, length-push_below n [])

pub refs-fresh : (n b : ℕ) → refs (fresh n) b ≡ 0
refs-fresh n b = get_or-replicate n b
