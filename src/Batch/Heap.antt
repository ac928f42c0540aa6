-- ===== src/Batch/Heap.antt =====
-- All the blocks that the sequences of a heap hold, and a call on one of the sequences.
use from_scratch_inference_e.Base.{
  ℕ, ◌≡◌, refl, List, [], ◌∷◌, ◌++◌, some, arith, count, count-append,
}
use from_scratch_inference_e.Base.Dict.{find, put, remove}
use from_scratch_inference_e.Manager.State.{SequenceBlocks, BlockManager}
use from_scratch_inference_e.Manager.Owned.{Owned}
use from_scratch_inference_e.Manager.Owned.Grow.{Owned-perm}
use from_scratch_inference_e.Batch.{Heap}

abbrev pub held : Heap → List ℕ
held [] = []
held ((id, s) ∷ h) = s.block_table ++ held h

count-held-put :
    (b id : ℕ) (s : SequenceBlocks) (h : Heap)
    → count b (held (put id s h)) ≡ count b (s.block_table ++ held (remove id h))
count-held-put b id s [] = refl
count-held-put b id s ((j, t) ∷ h) = ground (
  arith,
  count-append b s.block_table (held h),
  count-append b t.block_table (held (put id s h)),
  count-append b s.block_table (held (remove id h)),
  count-append b s.block_table (t.block_table ++ held (remove id h)),
  count-append b t.block_table (held (remove id h)),
  count-held-put b id s h,
)

count-held-find :
    (b id : ℕ) (s : SequenceBlocks) (h : Heap)
    → find id h ≡ some s
    → count b (held h) ≡ count b (s.block_table ++ held (remove id h))
count-held-find b id s [] e = cc
count-held-find b id s ((j, t) ∷ h) e = ground (
  arith,
  count-append b t.block_table (held h),
  count-append b s.block_table (held (remove id h)),
  count-append b s.block_table (t.block_table ++ held (remove id h)),
  count-append b t.block_table (held (remove id h)),
  count-held-find b id s h,
)

module _ {ℓ} {F : Type ℓ} where
  -- One sequence's blocks apart from those of the others.
  pub focus :
      (m : BlockManager F) (id : ℕ) (s : SequenceBlocks) (h : Heap)
      → find id h ≡ some s
      → Owned m (held h)
      → Owned m (s.block_table ++ held (remove id h))
  focus m id s h e = Owned-perm m _ _ (λ b. count-held-find b id s h e)

  -- The heap after a call on one sequence.
  pub unfocus :
      (m : BlockManager F) (id : ℕ) (s : SequenceBlocks) (h : Heap)
      → Owned m (s.block_table ++ held (remove id h))
      → Owned m (held (put id s h))
  unfocus m id s h = Owned-perm m _ _ (λ b. let e = count-held-put b id s h in omega (arith))

  -- The heap after a call that left the sequence as it was.
  pub refocus :
      (m : BlockManager F) (id : ℕ) (s : SequenceBlocks) (h : Heap)
      → find id h ≡ some s
      → Owned m (s.block_table ++ held (remove id h))
      → Owned m (held h)
  refocus m id s h e = Owned-perm m _ _ (λ b. omega (arith, count-held-find b id s h e))
