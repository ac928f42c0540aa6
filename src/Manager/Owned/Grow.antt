-- ===== src/Manager/Owned/Grow.antt =====
-- reserve on a manager whose counts are right: it fails only on a pool with nothing to give, and
-- within the free blocks it always succeeds, with blocks that nobody held.
use from_scratch_inference_e.Base.{
  ℕ, zero, suc, ◌+◌, ◌-◌, ◌≤◌, ◌<◌, ◌≡◌, refl, ap, ◌∙◌, List, [], ◌∷◌, ◌++◌, arith, ◌==◌, count,
  count-append, length, length-append, append_assoc, append-nil, ok, ◌>>=◌, Ensures, inl, inr,
  Bool-cases, Ensures-bind,
}
use from_scratch_inference_e.Allocator.{BlockAllocator, num_free}
use from_scratch_inference_e.Allocator
use from_scratch_inference_e.Allocator.Invariant.{refs}
use from_scratch_inference_e.Allocator.Ops.{allocate-Took, Took}
use from_scratch_inference_e.Manager.State.{SequenceBlocks, BlockManager, free_blocks, blocks_for}
use from_scratch_inference_e.Manager.Pool.{allocate_block, grow, reserve}
use from_scratch_inference_e.Manager.Owned.{Owned, OnlyOut}
use from_scratch_inference_e.Manager.Owned.Free.{with_alloc}
use from_scratch_inference_e.Manager.Owned.Evict.{evict_lru-Evicts}

pub count-moved :
    (j b : ℕ) (table held : List ℕ)
    → count j (b ∷ (table ++ held)) ≡ count j ((table ++ b ∷ []) ++ held)
count-moved j b table held = omega (
  arith,
  count-append j table held,
  count-append j (table ++ b ∷ []) held,
  count-append j table (b ∷ []),
)

module _ {ℓ} {F : Type ℓ} where
  -- The order in which the holders are listed does not matter.
  pub Owned-perm :
      (m : BlockManager F) (held other : List ℕ)
      → ((b : ℕ) → count b held ≡ count b other)
      → Owned m held
      → Owned m other
  Owned-perm m held other same o = record {
    valid = o.valid;
    counted = λ b. omega (arith, o.counted b, same b);
    keys = o.keys;
  }

  Took-Owned :
      (m : BlockManager F) (held : List ℕ) (b : ℕ) (a : BlockAllocator)
      → Owned m held
      → Took m.alloc b a
      → Owned (with_alloc m a) (b ∷ held)
  Took-Owned m held b a o t = record {
    valid = t.valid;
    counted = λ j. omega (arith, t.counted j, o.counted j);
    keys = o.keys;
  }

  -- A free block is handed out, and nothing is evicted.
  allocate_block_fits :
      (m : BlockManager F) (held : List ℕ)
      → Owned m held
      → 0 < free_blocks m
      → (b : ℕ) × (a : BlockAllocator) × (allocate_block m ≡ ok (b, with_alloc m a))
        × Took m.alloc b a
  unfolding allocate_block
  allocate_block_fits m held o pos = elim (allocate-Took m.alloc o.valid) [
    | inl (none_free, _) ↦ absurd (omega arith)
    | inr (b, a, e, t) ↦ (b, a, ground arith, t)
  ]

  pub allocate_block-Owned :
      (m : BlockManager F) (held : List ℕ)
      → Owned m held
      → Ensures OnlyOut (λ r. Owned r.1 (r.0 ∷ held)) (allocate_block m)
  unfolding allocate_block
  allocate_block-Owned m held o = elim (Bool-cases (free_blocks m == 0)) [
    | inl empty ↦ let (m', e, ev) = evict_lru-Evicts m held o in rw (empty, e) (take m' ev.owned)
    | inr some_free ↦ rw some_free (take m o)
  ]
    where
      take :
          (m' : BlockManager F)
          → Owned m' held
          → Ensures OnlyOut
              (λ (r : ℕ × BlockManager F). Owned r.1 (r.0 ∷ held))
              (Allocator.allocate m'.alloc >>= λ r. ok (r.0, record m' { alloc = r.1 }))
      take m' o' = elim (allocate-Took m'.alloc o'.valid) [
        | inl (_, e) ↦ rw e refl
        | inr (b, a, e, t) ↦ rw e (Took-Owned m' held b a o' t)
      ]

  pub grow-Owned :
      (n : ℕ) (m : BlockManager F) (table held : List ℕ)
      → Owned m (table ++ held)
      → Ensures OnlyOut
          (λ r. Owned r.0 (r.1 ++ held) × (length r.1 ≡ length table + n))
          (grow n m table)
  unfolding grow
  grow-Owned zero m table held o = (o, omega arith)
  grow-Owned (suc n) m table held o =
      Ensures-bind OnlyOut (λ r. Owned r.1 (r.0 ∷ (table ++ held))) _ (allocate_block m) _
        (allocate_block-Owned m (table ++ held) o)
        λ (b, m') o'.
          let next =
            grow-Owned n m' (table ++ b ∷ []) held
              (Owned-perm m' _ _ (λ j. count-moved j b table held) o') in
          Ensures-weaken n m' (table ++ b ∷ []) (omega (arith, length-append table (b ∷ []))) next
    where
      Ensures-weaken :
          (n : ℕ) (m' : BlockManager F) (table' : List ℕ)
          → length table' + n ≡ length table + suc n
          → Ensures OnlyOut
              (λ r. Owned r.0 (r.1 ++ held) × (length r.1 ≡ length table' + n))
              (grow n m' table')
          → Ensures OnlyOut
              (λ r. Owned r.0 (r.1 ++ held) × (length r.1 ≡ length table + suc n))
              (grow n m' table')
      Ensures-weaken n m' table' e h = rw (← e) h

  -- The growth of a table by `n` blocks out of the free ones.
  pub record Gains (m : BlockManager F) (table held : List ℕ) (n : ℕ) (a : BlockAllocator)
      (new : List ℕ) : Type 0 where
    pub owned : Owned (with_alloc m a) ((table ++ new) ++ held)
    pub gained : length new ≡ n
    pub used : num_free a + n ≡ free_blocks m
    pub unheld : (b : ℕ) → 0 < count b new → refs m.alloc b ≡ 0
    pub once : (b : ℕ) → count b new ≤ 1

  Gains-cons :
      (m : BlockManager F) (table held : List ℕ) (n b : ℕ) (a a' : BlockAllocator) (new : List ℕ)
      → Took m.alloc b a
      → Gains (with_alloc m a) (table ++ b ∷ []) held n a' new
      → Gains m table held (suc n) a' (b ∷ new)
  Gains-cons m table held n b a a' new t g = record {
    owned =
        Owned-perm (with_alloc m a') _ _
          (λ j. omega (
            arith,
            count-append j ((table ++ b ∷ []) ++ new) held,
            count-append j (table ++ b ∷ []) new,
            count-append j table (b ∷ []),
            count-append j (table ++ b ∷ new) held,
            count-append j table (b ∷ new),
          ))
          g.owned;
    gained = omega (arith, g.gained);
    used = omega (arith, g.used, t.taken);
    unheld = λ j h. ground (arith, t.counted j, t.was_free, g.unheld j);
    once = λ j. ground (arith, t.counted j, g.unheld j, g.once j);
  }

  grow-suc :
      (n : ℕ) (m : BlockManager F) (table : List ℕ) (b : ℕ) (new : List ℕ) {m1 m2 : BlockManager F}
      → allocate_block m ≡ ok (b, m1)
      → grow n m1 (table ++ b ∷ []) ≡ ok (m2, (table ++ b ∷ []) ++ new)
      → grow (suc n) m table ≡ ok (m2, table ++ b ∷ new)
  unfolding grow
  grow-suc n m table b new {m2 = m2} e e' =
      rw e (e' ∙ ap (λ t. ok (m2, t)) (append_assoc table (b ∷ []) new))

  pub grow_fits :
      (n : ℕ) (m : BlockManager F) (table held : List ℕ)
      → Owned m (table ++ held)
      → n ≤ free_blocks m
      → (a : BlockAllocator) × (new : List ℕ) × (grow n m table ≡ ok (with_alloc m a, table ++ new))
        × Gains m table held n a new
  unfolding grow
  grow_fits zero m table held o le = (
    m.alloc,
    [],
    rw (append-nil table) refl,
    record {
      owned = rw (append-nil table) o;
      gained = refl;
      used = omega arith;
      unheld = λ b h. absurd (omega arith);
      once = λ b. omega arith;
    },
  )
  grow_fits (suc n) m table held o le =
      let (b, a, e, t) = allocate_block_fits m (table ++ held) o (omega arith) in
      let o' =
        Owned-perm (with_alloc m a) _ _ (λ j. count-moved j b table held)
          (Took-Owned m (table ++ held) b a o t) in
      let (a', new, e', g) =
        grow_fits n (with_alloc m a) (table ++ b ∷ []) held o' (omega (arith, t.taken)) in
      (a', b ∷ new, grow-suc n m table b new e e', Gains-cons m table held n b a a' new t g)

  -- The blocks that `seq` lacks for `n_new` more rows.
  abbrev pub lacking : BlockManager F → SequenceBlocks → ℕ → ℕ
  lacking m seq n_new = blocks_for m (seq.length + n_new) - length seq.block_table

  -- Where the counts are right and the blocks that are lacking are free, `reserve` succeeds: the old blocks keep their places, the new ones were
  -- held by nobody and are all different, and no cached block is given up.
  pub reserve_fits :
      (m : BlockManager F) (seq : SequenceBlocks) (n_new : ℕ) (held : List ℕ)
      → Owned m (seq.block_table ++ held)
      → lacking m seq n_new ≤ free_blocks m
      → (a : BlockAllocator) × (new : List ℕ) × (reserve m seq n_new
          ≡ ok (with_alloc m a, record seq { block_table = seq.block_table ++ new }))
        × Gains m seq.block_table held (lacking m seq n_new) a new
  unfolding reserve
  reserve_fits m seq n_new held o le =
      let (a, new, e, g) = grow_fits (lacking m seq n_new) m seq.block_table held o le in
      (a, new, rw e refl, g)

  -- Where the counts are right, `reserve` keeps them right and adds the blocks that are lacking to the
  -- table, or fails for want of blocks and for nothing else.
  pub reserve-Owned :
      (m : BlockManager F) (seq : SequenceBlocks) (n_new : ℕ) (held : List ℕ)
      → Owned m (seq.block_table ++ held)
      → Ensures OnlyOut
          (λ r.
            Owned r.0 (r.1.block_table ++ held)
            × (length r.1.block_table ≡ length seq.block_table + lacking m seq n_new)
            × (r.1.length ≡ seq.length))
          (reserve m seq n_new)
  unfolding reserve
  reserve-Owned m seq n_new held o =
      Ensures-bind OnlyOut
        (λ r. Owned r.0 (r.1 ++ held) × (length r.1 ≡ length seq.block_table + lacking m seq n_new))
        _ (grow (lacking m seq n_new) m seq.block_table) _
        (grow-Owned (lacking m seq n_new) m seq.block_table held o) λ r h. (h.0, h.1, refl)
