-- ===== src/Batch/Budget.antt =====
-- What a batch costs in blocks, and that a heap's other entries do not change it.
use from_scratch_inference_e.Base.{
  ℕ, zero, suc, ◌+◌, ◌-◌, ◌/◌, ◌≤◌, ◌<◌, ◌≡◌, ◌≢◌, refl, ◌∙◌, List, [], ◌∷◌, ◌++◌, Option, some,
  none, arith, length, All,
}
use native.Mathlib.Nat.{div-zero, mul-le-mul_left, mul-div-le, div-add-mod, mod-lt}
use native.Mathlib.Decide.{dec_lt}
use from_scratch_inference_e.Base.Dict.{find, put, find-put}
use from_scratch_inference_e.Manager.State.{SequenceBlocks, BlockManager, blocks_for}
use from_scratch_inference_e.Manager.Owned.Grow.{lacking}
use from_scratch_inference_e.Batch.{Heap, BatchItem}

abbrev pub Others : ℕ → List BatchItem → Type 0
Others id = All (λ i. i.blocks ≢ id)

-- No two items point to one sequence.
abbrev pub DistinctItems : List BatchItem → Type 0
DistinctItems [] = Unit
DistinctItems (i ∷ is) = Others i.blocks is × DistinctItems is

div_mono : (x y k : ℕ) → x ≤ y → x / k ≤ y / k
div_mono x y zero le = omega (arith, div-zero x, div-zero y)
div_mono x y (suc k) le = elim (dec_lt (y / suc k) (x / suc k)) [
  | yes lt ↦ absurd (
      omega (
        arith,
        mul-le-mul_left (suc k) lt,
        mul-div-le x (suc k),
        div-add-mod y (suc k),
        mod-lt y {m = suc k} (omega arith),
      ))
  | no ge ↦ omega arith
]

pub find-others :
    (h : Heap) (id : ℕ) (s : SequenceBlocks) (i : BatchItem)
    → i.blocks ≢ id
    → find i.blocks (put id s h) ≡ find i.blocks h
find-others h id s i ne = ground (arith, find-put id i.blocks s h)

module _ {ℓ} {F : Type ℓ} where
  -- A table has no more blocks than its committed rows need.
  abbrev pub Fit : BlockManager F → SequenceBlocks → Type 0
  Fit m s = length s.block_table ≤ blocks_for m s.length

  -- The item's sequence is there, with such a table, and the item has tokens.
  abbrev pub Ready : BlockManager F → Heap → BatchItem → Type 0
  Ready m h i = (s : SequenceBlocks) × (find i.blocks h ≡ some s) × (0 < length i.tokens) × Fit m s

  -- The same with room for the item's tokens.
  abbrev pub Grown : BlockManager F → Heap → BatchItem → Type 0
  Grown m h i =
      (s : SequenceBlocks) × (find i.blocks h ≡ some s)
      × (length s.block_table ≤ blocks_for m (s.length + length i.tokens))

  pub Ready-put :
      (m : BlockManager F) (h : Heap) (id : ℕ) (s : SequenceBlocks) (is : List BatchItem)
      → Others id is
      → All (Ready m h) is
      → All (Ready m (put id s h)) is
  Ready-put m h id s [] o r = tt
  Ready-put m h id s (i ∷ is) o ((t, e, k, f), r) =
      ((t, find-others h id s i o.0 ∙ e, k, f), Ready-put m h id s is o.1 r)

  pub Grown-put :
      (m : BlockManager F) (h : Heap) (id : ℕ) (s : SequenceBlocks) (is : List BatchItem)
      → Others id is
      → All (Grown m h) is
      → All (Grown m (put id s h)) is
  Grown-put m h id s [] o r = tt
  Grown-put m h id s (i ∷ is) o ((t, e, k), r) =
      ((t, find-others h id s i o.0 ∙ e, k), Grown-put m h id s is o.1 r)

  pub blocks_for-manager :
      (m m' : BlockManager F) (n : ℕ)
      → m'.block_size ≡ m.block_size
      → blocks_for m' n ≡ blocks_for m n
  unfolding blocks_for
  blocks_for-manager m m' n e = rw e refl

  pub blocks_for_mono : (m : BlockManager F) (a b : ℕ) → a ≤ b → blocks_for m a ≤ blocks_for m b
  unfolding blocks_for
  blocks_for_mono m a b le =
      div_mono (a + m.block_size - 1) (b + m.block_size - 1) m.block_size (omega arith)

  pub Ready-manager :
      (m m' : BlockManager F) (h : Heap) (is : List BatchItem)
      → m'.block_size ≡ m.block_size
      → All (Ready m h) is
      → All (Ready m' h) is
  Ready-manager m m' h [] e r = tt
  Ready-manager m m' h (i ∷ is) e ((t, at, k, fit), r) = (
    (t, at, k, omega (arith, fit, blocks_for-manager m m' t.length e)),
    Ready-manager m m' h is e r,
  )

  pub Grown-manager :
      (m m' : BlockManager F) (h : Heap) (is : List BatchItem)
      → m'.block_size ≡ m.block_size
      → All (Grown m h) is
      → All (Grown m' h) is
  Grown-manager m m' h [] e r = tt
  Grown-manager m m' h (i ∷ is) e ((t, at, fit), r) = (
    (t, at, omega (arith, fit, blocks_for-manager m m' (t.length + length i.tokens) e)),
    Grown-manager m m' h is e r,
  )

  abbrev pub cost_of : BlockManager F → BatchItem → Option SequenceBlocks → ℕ
  cost_of m i none = 0
  cost_of m i (some s) = lacking m s (length i.tokens)

  -- The blocks that the items lack, all together.
  abbrev pub costs : BlockManager F → Heap → List BatchItem → ℕ
  costs m h [] = 0
  costs m h (i ∷ is) = cost_of m i (find i.blocks h) + costs m h is

  pub costs-put :
      (m : BlockManager F) (h : Heap) (id : ℕ) (s : SequenceBlocks) (is : List BatchItem)
      → Others id is
      → costs m (put id s h) is ≡ costs m h is
  costs-put m h id s [] o = refl
  costs-put m h id s (i ∷ is) o =
      let same : find i.blocks (put id s h) ≡ find i.blocks h =
        ground (arith, find-put id i.blocks s h, o.0) in
      rw (same, costs-put m h id s is o.1) refl

  pub costs-append :
      (m : BlockManager F) (h : Heap) (is js : List BatchItem)
      → costs m h (is ++ js) ≡ costs m h is + costs m h js
  costs-append m h [] js = omega arith
  costs-append m h (i ∷ is) js = omega (arith, costs-append m h is js)

  -- The cost reads the block size only.
  pub costs-manager :
      (m m' : BlockManager F) (h : Heap) (is : List BatchItem)
      → m'.block_size ≡ m.block_size
      → costs m' h is ≡ costs m h is
  unfolding blocks_for
  costs-manager m m' h [] e = refl
  costs-manager m m' h (i ∷ is) e = ground (arith, one (find i.blocks h), costs-manager m m' h is e)
    where
      one : (o : Option SequenceBlocks) → cost_of m' i o ≡ cost_of m i o
      one none = refl
      one (some s) = rw e refl
