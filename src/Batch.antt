-- ===== src/Batch.antt =====
-- src/model/model.cpp, forward_batch: what it does to the block tables. An item points to the
-- `SequenceBlocks` of its sequence; the pointers are keys of a heap. The layers are a parameter.
pub mod Heap
pub mod Budget
pub mod Prepare
pub mod Tests
use from_scratch_inference_e.Base.{
  ℕ, zero, suc, ◌+◌, List, [], ◌∷◌, ◌++◌, not, ◌==◌, length, Result, ok, err, ◌>>=◌, ◌>>◌, guard,
  or_fail, invalid_argument,
}
use from_scratch_inference_e.Base.Dict.{find, put}
use from_scratch_inference_e.Manager.State.{SequenceBlocks, BlockManager}
use from_scratch_inference_e.Manager.Pool.{reserve, commit}
use from_scratch_inference_e.Tensor.{Tensor}

abbrev pub Heap : Type 0
Heap = List (ℕ × SequenceBlocks)

pub record BatchItem : Type 0 where
  pub blocks : ℕ
  pub tokens : List ℕ

-- What the layers see of an item: its table, the rows before the new ones, and the new tokens.
pub record Work : Type 0 where
  pub seq : SequenceBlocks
  pub past : ℕ
  pub tokens : List ℕ

-- The stores of K and V after the layers, and the logits [num_items, vocab_size].
pub record LayerResult {ℓ} (F : Type ℓ) : Type ℓ where
  pub keys : List (List F)
  pub values : List (List F)
  pub logits : Tensor F

-- commit, through the pointers of the items
unfoldable pub commit_items : List BatchItem → Heap → Result Heap
commit_items [] h = ok h
commit_items (i ∷ is) h = or_fail invalid_argument (find i.blocks h) >>= λ seq.
    commit_items is (put i.blocks (commit seq (length i.tokens)) h)

-- The items as the layers find them, after every table has grown.
unfoldable pub works : List BatchItem → Heap → Result (List Work)
works [] h = ok []
works (i ∷ is) h = or_fail invalid_argument (find i.blocks h) >>= λ seq.
    works is h >>= λ rest. ok (record { seq = seq; past = seq.length; tokens = i.tokens } ∷ rest)

module _ {ℓ} {F : Type ℓ} where
  -- The first loop: check the items and grow their tables.
  unfoldable pub prepare : List BatchItem → BlockManager F → Heap → Result (BlockManager F × Heap)
  prepare [] m h = ok (m, h)
  prepare (i ∷ is) m h = do
    seq ← or_fail invalid_argument (find i.blocks h)
    guard (not (length i.tokens == 0)) invalid_argument
    r ← reserve m seq (length i.tokens)
    prepare is r.0 (put i.blocks r.1 h)

  unfoldable pub forward_batch :
      (List (List F) → List (List F) → List Work → Result (LayerResult F))
      → BlockManager F
      → Heap
      → List BatchItem
      → Result (BlockManager F × Heap × Tensor F)
  forward_batch layers m h items = do
    guard (not (length items == 0)) invalid_argument
    r ← prepare items m h
    w ← works items r.1
    out ← layers r.0.keys r.0.values w
    h' ← commit_items items r.1
    ok (record r.0 { keys = out.keys; values = out.values }, h', out.logits)
