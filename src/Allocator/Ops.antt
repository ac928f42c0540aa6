-- ===== src/Allocator/Ops.antt =====
-- The three operations against the count of holders: what each changes, and when each fails.
use from_scratch_inference_e.Base.{
  ℕ, zero, suc, ◌+◌, ◌-◌, ◌≤◌, ◌<◌, ◌≡◌, refl, ap, List, [], ◌∷◌, some, arith, ◌⊎◌, inl, inr, ◌==◌,
  if◌then◌else◌, one_if, count, get_elem?, get_or, set, length, length-set, ok, err, out_of_blocks,
  incref_on_free, double_free, undefined, signed_overflow, get_elem?-none_of_le,
}
use from_scratch_inference_e.Allocator.{
  BlockAllocator, num_blocks, num_free, allocate, incref, free, give_back, int32_max,
}
use from_scratch_inference_e.Allocator.Counts.{
  unused, get_elem?-of_pos, get_or-set, unused-set, live-set, unused-pos, get_or-pos_lt,
  unused-of_pos, unused-le-one,
}
use from_scratch_inference_e.Allocator.Invariant.{IsValid, refs}

allocate_empty : (a : BlockAllocator) → a.free_list ≡ [] → allocate a ≡ err out_of_blocks
unfolding allocate
allocate_empty a e = ground arith

-- An allocator whose counts are those of `a` with one more holder of `b`.
pub record Took (a : BlockAllocator) (b : ℕ) (a' : BlockAllocator) : Type 0 where
  pub valid : IsValid a'
  pub was_free : refs a b ≡ 0
  pub counted : (j : ℕ) → refs a' j ≡ refs a j + one_if b j
  pub taken : num_free a' + 1 ≡ num_free a
  pub size : num_blocks a' ≡ num_blocks a

-- `b` is the back of the free list.
module _ (a : BlockAllocator) (v : IsValid a) (b : ℕ) (rest : List ℕ)
    (e : a.free_list ≡ b ∷ rest) where
  head_unused : (b < num_blocks a) × (refs a b ≡ 0)
  head_unused = unused-pos a.ref_count b (ground (arith, v.listed b, ap (count b) e))

  popped : BlockAllocator
  popped = record { free_list = rest; ref_count = set a.ref_count b 1 }

  allocate-eq : allocate a ≡ ok (b, popped)
  unfolding allocate popped
  allocate-eq = let lt = head_unused.0 in ground (arith)

  popped-listed : (j : ℕ) → count j rest ≡ unused (set a.ref_count b 1) j
  popped-listed j = ground (
    arith,
    v.listed j,
    ap (count j) e,
    unused-set a.ref_count b j 1 head_unused.0,
    unused-le-one a.ref_count j,
  )

  popped-Took : Took a b popped
  unfolding popped
  popped-Took = record {
    valid = record {
      listed = popped-listed;
      total = ground (
        arith,
        v.total,
        ap (length {A = ℕ}) e,
        live-set a.ref_count b 1 head_unused.0,
        length-set a.ref_count b 1,
        head_unused.1,
      );
    };
    was_free = head_unused.1;
    counted = λ j. ground (arith, get_or-set a.ref_count b j 1 head_unused.0, head_unused.1);
    taken = omega (arith, ap (length {A = ℕ}) e);
    size = length-set a.ref_count b 1;
  }

-- On a valid pool `allocate` fails where no block is free, and otherwise hands out a block that nobody
-- holds, with one holder; the pool stays valid and no other count changes.
pub allocate-Took :
    (a : BlockAllocator)
    → IsValid a
    → ((num_free a ≡ 0) × (allocate a ≡ err out_of_blocks))
      ⊎ ((b : ℕ) × (a' : BlockAllocator) × (allocate a ≡ ok (b, a')) × Took a b a')
allocate-Took a v = cases a.free_list refl
  where
    cases :
        (l : List ℕ)
        → a.free_list ≡ l
        → ((num_free a ≡ 0) × (allocate a ≡ err out_of_blocks))
          ⊎ ((b : ℕ) × (a' : BlockAllocator) × (allocate a ≡ ok (b, a')) × Took a b a')
    cases [] e = inl (omega (arith, ap (length {A = ℕ}) e), allocate_empty a e)
    cases (b ∷ rest) e =
        inr (b, popped a v b rest e, allocate-eq a v b rest e, popped-Took a v b rest e)

-- One more holder of a block that is held.
pub record Added (a : BlockAllocator) (b : ℕ) (a' : BlockAllocator) : Type 0 where
  pub valid : IsValid a'
  pub counted : (j : ℕ) → refs a' j ≡ refs a j + one_if b j
  pub same_free : num_free a' ≡ num_free a
  pub size : num_blocks a' ≡ num_blocks a

-- One holder less; the block goes back to the pool with its last one.
pub record Dropped (a : BlockAllocator) (b : ℕ) (a' : BlockAllocator) : Type 0 where
  pub valid : IsValid a'
  pub counted : (j : ℕ) → refs a' j + one_if b j ≡ refs a j
  pub returned : num_free a' ≡ num_free a + (if refs a b == 1 then 1 else 0)
  pub size : num_blocks a' ≡ num_blocks a

module _ (a : BlockAllocator) (v : IsValid a) (b : ℕ) (held : 0 < refs a b) where
  abbrev pub rc : ℕ
  rc = refs a b

  in_pool : b < num_blocks a
  in_pool = get_or-pos_lt a.ref_count b held

  raised : BlockAllocator
  raised = record a { ref_count = set a.ref_count b (rc + 1) }

  raised-Added : Added a b raised
  unfolding raised
  raised-Added = record {
    valid = record {
      listed = λ j. ground (
        arith,
        v.listed j,
        unused-set a.ref_count b j (rc + 1) in_pool,
        unused-of_pos a.ref_count b held,
      );
      total = ground (
        arith,
        v.total,
        live-set a.ref_count b (rc + 1) in_pool,
        length-set a.ref_count b (rc + 1),
      );
    };
    counted = λ j. ground (arith, get_or-set a.ref_count b j (rc + 1) in_pool);
    same_free = refl;
    size = length-set a.ref_count b (rc + 1);
  }

  -- In a valid pool a block that is held, by fewer than the greatest `int32_t`, takes one more holder;
  -- the pool stays valid and no other count changes.
  pub incref-Added : rc < int32_max → (a' : BlockAllocator) × (incref a b ≡ ok a') × Added a b a'
  unfolding incref raised
  incref-Added lt = (raised, ground (arith, get_elem?-of_pos a.ref_count b held), raised-Added)

  pub incref_overflow : int32_max ≤ rc → incref a b ≡ err signed_overflow
  unfolding incref
  incref_overflow le = ground (arith, get_elem?-of_pos a.ref_count b held)

  lowered : BlockAllocator
  unfolding give_back
  lowered = give_back a b (rc - 1)

  lowered-Dropped : Dropped a b lowered
  unfolding lowered
  lowered-Dropped = record {
    valid = record {
      listed = λ j. ground (
        arith,
        v.listed j,
        unused-set a.ref_count b j (rc - 1) in_pool,
        unused-of_pos a.ref_count b held,
      );
      total = ground (
        arith,
        v.total,
        live-set a.ref_count b (rc - 1) in_pool,
        length-set a.ref_count b (rc - 1),
      );
    };
    counted = λ j. ground (arith, get_or-set a.ref_count b j (rc - 1) in_pool);
    returned = ground arith;
    size = ground (arith, length-set a.ref_count b (rc - 1));
  }

  -- In a valid pool a block that is held loses one holder, and goes back to the pool with its last one;
  -- the pool stays valid and no other count changes.
  pub free-Dropped : (a' : BlockAllocator) × (free a b ≡ ok a') × Dropped a b a'
  unfolding free lowered
  free-Dropped = (lowered, ground (arith, get_elem?-of_pos a.ref_count b held), lowered-Dropped)

get_elem?-unheld :
    (cs : List ℕ) (b : ℕ) → b < length cs → get_or cs b 0 ≡ 0 → get_elem? cs b ≡ some 0
get_elem?-unheld [] b h e = elim h [ ]
get_elem?-unheld (c ∷ cs) zero h e = ap some e
get_elem?-unheld (c ∷ cs) (suc b) h e = get_elem?-unheld cs b (omega arith) e

-- A block of the pool that nobody holds can neither be shared nor freed.
pub unheld_refused :
    (a : BlockAllocator) (b : ℕ)
    → b < num_blocks a
    → refs a b ≡ 0
    → (incref a b ≡ err incref_on_free) × (free a b ≡ err double_free)
unfolding incref free
unheld_refused a b lt e = (
  ground (arith, get_elem?-unheld a.ref_count b lt e),
  ground (arith, get_elem?-unheld a.ref_count b lt e),
)

-- A block number outside the pool reads outside the vector.
pub outside_undefined :
    (a : BlockAllocator) (b : ℕ)
    → num_blocks a ≤ b
    → (incref a b ≡ err undefined) × (free a b ≡ err undefined)
unfolding incref free
outside_undefined a b le = (
  ground (arith, get_elem?-none_of_le a.ref_count b le),
  ground (arith, get_elem?-none_of_le a.ref_count b le),
)
