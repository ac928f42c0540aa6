-- ===== src/Batch/Prepare.antt =====
-- A batch within the free blocks is prepared without a failure, and each sequence keeps its rows.
use from_scratch_inference_e.Base.{
  ℕ, ◌+◌, ◌≤◌, ◌<◌, ◌≡◌, ◌≢◌, refl, ◌∙◌, List, [], ◌∷◌, ◌++◌, some, arith, ◌==◌, length, All, not,
  true, Result, ok, Bool-cases, ==_refl, length-append, inl, inr,
}
use from_scratch_inference_e.Base.Dict.{find, put, remove, find-put}
use from_scratch_inference_e.Allocator.{BlockAllocator, num_free}
use from_scratch_inference_e.Manager.State.{SequenceBlocks, BlockManager, free_blocks}
use from_scratch_inference_e.Manager.Pool.{reserve, commit}
use from_scratch_inference_e.Manager.Owned.{Owned}
use from_scratch_inference_e.Manager.Owned.Free.{with_alloc}
use from_scratch_inference_e.Manager.Owned.Grow.{lacking, reserve_fits}
use from_scratch_inference_e.Batch.{Heap, BatchItem, Work, prepare, works, commit_items}
use from_scratch_inference_e.Batch.Heap.{held, focus, unfocus}
use from_scratch_inference_e.Batch.Budget.{
  Fit, Ready, Grown, Others, DistinctItems, Ready-put, Grown-put, Ready-manager, Grown-manager,
  blocks_for_mono, costs, costs-put, costs-manager,
}

-- Every sequence is still there, with at least the committed rows it had.
abbrev pub Follows : Heap → Heap → Type 0
Follows h h' =
    (id : ℕ) (s : SequenceBlocks)
    → find id h ≡ some s
    → (s' : SequenceBlocks) × (find id h' ≡ some s') × (s.length ≤ s'.length)

pub Follows-trans : (h h' h'' : Heap) → Follows h h' → Follows h' h'' → Follows h h''
Follows-trans h h' h'' f g id s e =
    let (s', e', le) = f id s e in let (s'', e'', le') = g id s' e' in (s'', e'', omega arith)

pub Follows-put :
    (h : Heap) (id : ℕ) (s s' : SequenceBlocks)
    → find id h ≡ some s
    → s.length ≤ s'.length
    → Follows h (put id s' h)
Follows-put h id s s' e le j t at = elim (Bool-cases (id == j)) [
  | inl hit ↦
      let same : s ≡ t = ground arith in (s', ground (arith, find-put id j s' h), rw (← same) le)
  | inr miss ↦ (t, ground (arith, find-put id j s' h), omega arith)
]

held-commit :
    (id n : ℕ) (s : SequenceBlocks) (h : Heap)
    → find id h ≡ some s
    → held (put id (record s { length = s.length + n }) h) ≡ held h
held-commit id n s [] e = cc
held-commit id n s ((j, t) ∷ h) e = elim (Bool-cases (j == id)) [
  | inl hit ↦ let same : t ≡ s = ground arith in rw (hit, same) refl
  | inr miss ↦
      let deeper : find id h ≡ some s = ground arith in rw (miss, held-commit id n s h deeper) refl
]

-- A sequence that no item points to.
abbrev pub Untouched : List BatchItem → Heap → Heap → Type 0
Untouched is h h' = (id : ℕ) → Others id is → find id h' ≡ find id h

find-put_other :
    (h : Heap) (id j : ℕ) (s : SequenceBlocks) → id ≢ j → find j (put id s h) ≡ find j h
find-put_other h id j s ne = ground (arith, find-put id j s h)

Untouched-cons :
    (i : BatchItem) (is : List BatchItem) (h h' : Heap) (s : SequenceBlocks)
    → Untouched is (put i.blocks s h) h'
    → Untouched (i ∷ is) h h'
Untouched-cons i is h h' s u id o = u id o.1 ∙ find-put_other h i.blocks id s o.0

module _ {ℓ} {F : Type ℓ} (m : BlockManager F) where
  abbrev pub FitAt : Heap → BatchItem → Type 0
  FitAt h i = (s : SequenceBlocks) × (find i.blocks h ≡ some s) × Fit m s

  -- After the commits the tables are as long as the rows need, and every sequence holds what it held.
  pub record Commits (is : List BatchItem) (h h' : Heap) : Type 0 where
    pub follows : Follows h h'
    pub same : held h' ≡ held h
    pub untouched : Untouched is h h'
    pub fit : All (FitAt h') is

  -- Where every item has a sequence of its own whose table has no more blocks than its rows and its
  -- tokens need, committing the batch succeeds: no sequence is lost or gets shorter, the blocks held
  -- and the other sequences stay, and the items' tables have no more blocks than their rows need.
  pub commit_items-Commits :
      (is : List BatchItem) (h : Heap)
      → All (Grown m h) is
      → DistinctItems is
      → (h' : Heap) × (commit_items is h ≡ ok h') × Commits is h h'
  unfolding commit_items commit
  commit_items-Commits [] h r d = (
    h,
    refl,
    record {
      follows = λ id s e. (s, e, omega arith);
      same = refl;
      untouched = λ id o. refl;
      fit = tt;
    },
  )
  commit_items-Commits (i ∷ is) h ((s, e, k), r) d =
      let s1 = record s { length = s.length + length i.tokens } in
      let h1 = put i.blocks s1 h in
      let (h', e', c) = commit_items-Commits is h1 (Grown-put m h i.blocks s1 is d.0 r) d.1 in
      let mine : find i.blocks h1 ≡ some s1 =
        ground (arith, find-put i.blocks i.blocks s1 h, ==_refl i.blocks) in
      (
        h',
        rw e e',
        record {
          follows = Follows-trans h h1 h' (Follows-put h i.blocks s s1 e (omega arith)) c.follows;
          same = c.same ∙ held-commit i.blocks (length i.tokens) s h e;
          untouched = Untouched-cons i is h h' s1 c.untouched;
          fit = ((s1, c.untouched i.blocks d.0 ∙ mine, k), c.fit);
        },
      )

pub works-total {ℓ} :
    {F : Type ℓ} (m : BlockManager F) (is : List BatchItem) (h : Heap)
    → All (Grown m h) is
    → (w : List Work) × (works is h ≡ ok w) × (length w ≡ length is)
unfolding works
works-total m [] h r = ([], refl, refl)
works-total m (i ∷ is) h ((s, e, k), r) =
    let (w, e', n) = works-total m is h r in
    (record { seq = s; past = s.length; tokens = i.tokens } ∷ w, rw (e, e') refl, omega arith)

module _ {ℓ} {F : Type ℓ} where
  prepare-cons :
      (i : BatchItem) (is : List BatchItem) (m : BlockManager F) (h : Heap) {s s1 : SequenceBlocks}
      {m1 : BlockManager F} {r : Result (BlockManager F × Heap)}
      → find i.blocks h ≡ some s
      → 0 < length i.tokens
      → reserve m s (length i.tokens) ≡ ok (m1, s1)
      → prepare is m1 (put i.blocks s1 h) ≡ r
      → prepare (i ∷ is) m h ≡ r
  unfolding prepare
  prepare-cons i is m h e k eq eq' =
      let some_token : not (length i.tokens == 0) ≡ true = ground arith in
      rw (e, some_token, eq) eq'

  -- The state after the tables have grown: right counts, and nothing evicted.
  pub record Prepares (is : List BatchItem) (m : BlockManager F) (h : Heap) (a : BlockAllocator)
      (h' : Heap) : Type 0 where
    pub owned : Owned (with_alloc m a) (held h')
    pub follows : Follows h h'
    pub used : num_free a + costs m h is ≡ free_blocks m
    pub untouched : Untouched is h h'
    pub grown : All (Grown m h') is

  -- Where the counts are right, every item has tokens and a sequence of its own without spare blocks,
  -- and the blocks that the items lack are free, the tables grow without an exception: the counts stay
  -- right, exactly those blocks are taken, and no sequence is lost or gets shorter.
  pub prepare_fits :
      (is : List BatchItem) (m : BlockManager F) (h : Heap)
      → Owned m (held h)
      → All (Ready m h) is
      → DistinctItems is
      → costs m h is ≤ free_blocks m
      → (a : BlockAllocator) × (h' : Heap) × (prepare is m h ≡ ok (with_alloc m a, h'))
        × Prepares is m h a h'
  unfolding prepare
  prepare_fits [] m h o r d le = (
    m.alloc,
    h,
    refl,
    record {
      owned = o;
      follows = λ id s e. (s, e, omega arith);
      used = omega arith;
      untouched = λ id x. refl;
      grown = tt;
    },
  )
  prepare_fits (i ∷ is) m h o ((s, e, k, fit), r) d le =
      let n = length i.tokens in
      let cost : costs m h (i ∷ is) ≡ lacking m s n + costs m h is = rw e refl in
      let (a, new, eq, g) =
        reserve_fits m s n (held (remove i.blocks h)) (focus m i.blocks s h e o)
          (omega (arith, cost)) in
      let m1 = with_alloc m a in
      let s1 = record s { block_table = s.block_table ++ new } in
      let h1 = put i.blocks s1 h in
      let rest : costs m1 h1 is ≡ costs m h is =
        costs-manager m m1 h1 is refl ∙ costs-put m h i.blocks s1 is d.0 in
      let (a', h', eq', p) =
        prepare_fits is m1 h1 (unfocus m1 i.blocks s1 h g.owned)
          (Ready-manager m m1 h1 is refl (Ready-put m h i.blocks s1 is d.0 r)) d.1
          (omega (arith, rest, cost, g.used)) in
      let mine : find i.blocks h1 ≡ some s1 =
        ground (arith, find-put i.blocks i.blocks s1 h, ==_refl i.blocks) in
      (
        a',
        h',
        prepare-cons i is m h e k eq eq',
        record {
          owned = p.owned;
          follows = Follows-trans h h1 h' (Follows-put h i.blocks s s1 e (omega arith)) p.follows;
          used = omega (arith, p.used, rest, cost, g.used);
          untouched = Untouched-cons i is h h' s1 p.untouched;
          grown = (
            (
              s1,
              p.untouched i.blocks d.0 ∙ mine,
              omega (
                arith,
                length-append s.block_table new,
                g.gained,
                fit,
                blocks_for_mono m s.length (s.length + n) (omega arith),
              ),
            ),
            Grown-manager m1 m h' is refl p.grown,
          );
        },
      )
