-- ===== src/Engine/Assemble.antt =====
-- src/engine/engine.cpp, step_tokens and the assembly of a batch under a block budget.
use from_scratch_inference_e.Base.{
  ℕ, ◌+◌, ◌-◌, ◌*◌, ◌/◌, List, [], ◌∷◌, ◌++◌, Bool, not, ◌&&◌, ltb, leb, ◌==◌, if◌then◌else◌,
  length, take, drop, Result, ok, err, ◌>>=◌, or_fail, out_of_range, undefined,
}
use from_scratch_inference_e.Base.Dict.{find, put}
use from_scratch_inference_e.Manager.State.{SequenceBlocks, BlockManager, blocks_for, free_blocks}
use from_scratch_inference_e.Manager.Prefix.{acquire_shared_prefix}
use from_scratch_inference_e.Batch.{Heap, BatchItem}
use from_scratch_inference_e.Engine.State.{EngineSequence, EngineState, context}

-- An entry of the batch: the item, its sequence, and the context to register after a prefill.
pub record Batched : Type 0 where
  pub id : ℕ
  pub tokens : List ℕ
  pub was_prefill : Bool
  pub prefill_ctx : List ℕ

abbrev pub item : Batched → BatchItem
item b = record { blocks = b.id; tokens = b.tokens }

-- output.back() of an empty vector is undefined.
unfoldable pub last : List ℕ → Result ℕ
last [] = err undefined
last (x ∷ []) = ok x
last (x ∷ y ∷ ys) = last (y ∷ ys)

-- The batch so far: what is left of the budget, and the entries in order.
pub record Plan {ℓ} (F : Type ℓ) : Type ℓ where
  pub manager : BlockManager F
  pub heap : Heap
  pub budget : ℕ
  pub entries : List Batched

module _ {ℓ} {P : Type ℓ} where
  -- Tokens to feed a sequence this step.
  unfoldable pub step_tokens : EngineSequence P → SequenceBlocks → Result (List ℕ)
  step_tokens s blocks =
      if s.prefilled
      then (last s.output >>= λ t. ok (t ∷ []))
      else (if leb blocks.length (length (context s))
          then ok (drop blocks.length (context s))
          else err undefined)

  unfoldable pub entry : Bool → ℕ → EngineSequence P → List ℕ → Batched
  entry prefix_cache id s tokens = record {
    id = id;
    tokens = tokens;
    was_prefill = not s.prefilled;
    prefill_ctx = if not s.prefilled && prefix_cache then context s else [];
  }

module _ {ℓ} {F P : Type ℓ} where
  -- Share a cached prefix once, leaving at least one token for the forward pass.
  unfoldable pub share :
      Bool
      → EngineSequence P
      → SequenceBlocks
      → BlockManager F
      → Result (BlockManager F × SequenceBlocks)
  share prefix_cache s blocks m =
      let ctx = context s in
      let cap = (length ctx - 1) / m.block_size * m.block_size in
      if (prefix_cache && not s.prefilled && (length blocks.block_table == 0)) && ltb 0 cap
      then (acquire_shared_prefix m blocks (take cap ctx) >>= λ r. ok (r.0, r.1))
      else ok (m, blocks)

  -- `delta` is blocks_for(length + need) - have, which is at most the budget where it fits.
  unfoldable pub plan_one : Bool → ℕ → EngineSequence P → SequenceBlocks → Plan F → Result (Plan F)
  unfolding step_tokens share entry
  plan_one prefix_cache id s blocks p = do
    r ← share prefix_cache s blocks p.manager
    tokens ← step_tokens s r.1
    let wanted = blocks_for r.0 (r.1.length + length tokens)
    let have = length r.1.block_table
    let p' = record p { manager = r.0; heap = put id r.1 p.heap }
    ok (
        if ltb (p.budget + have) wanted then p' else record p' {
          budget = p.budget + have - wanted;
          entries = p.entries ++ entry prefix_cache id s tokens ∷ [];
        })

  unfoldable pub plan_loop : Bool → List (ℕ × EngineSequence P) → List ℕ → Plan F → Result (Plan F)
  unfolding plan_one
  plan_loop prefix_cache sequences [] p = ok p
  plan_loop prefix_cache sequences (id ∷ ids) p = do
    s ← or_fail out_of_range (find id sequences)
    blocks ← or_fail out_of_range (find id p.heap)
    p' ← plan_one prefix_cache id s blocks p
    plan_loop prefix_cache sequences ids p'

module _ {ℓ} {F P R : Type ℓ} where
  unfoldable pub assemble : EngineState F P R → Result (Plan F)
  unfolding plan_loop
  assemble e =
      plan_loop e.prefix_cache e.sequences e.running (record {
        manager = e.manager;
        heap = e.heap;
        budget = free_blocks e.manager;
        entries = [];
      })
