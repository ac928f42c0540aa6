-- ===== src/Engine/Sound.antt =====
-- The scheduler's invariant: the block counts are right, each queued id stands in one place, and its
-- sequence has what the next step reads.
pub mod Admit
pub mod Share
pub mod Feed
pub mod Plan
pub mod Build
pub mod Sample
pub mod Step
pub mod Reach
use from_scratch_inference_e.Base.{
  ℕ, zero, suc, ◌+◌, ◌≤◌, ◌<◌, ◌≡◌, ◌≢◌, refl, ◌∙◌, List, [], ◌∷◌, ◌++◌, Option, some, none, arith,
  Bool, true, false, ◌==◌, if◌then◌else◌, count, length, length-append, Bool-cases, inl, inr, ◌⊎◌,
}
use from_scratch_inference_e.Base.Dict.{find, put, find-put}
use from_scratch_inference_e.Manager.State.{SequenceBlocks, BlockManager, blocks_for}
use from_scratch_inference_e.Manager.Owned.{Owned}
use from_scratch_inference_e.Batch.{Heap}
use from_scratch_inference_e.Batch.Heap.{held}
use from_scratch_inference_e.Batch.Budget.{Fit, blocks_for-manager}
use from_scratch_inference_e.Engine.State.{Request, EngineSequence, EngineState, context}

module _ {F P : Type 0} where
  -- What a step reads of a queued sequence.
  pub record SeqOk (m : BlockManager F) (s : EngineSequence P) (b : SequenceBlocks) : Type 0 where
    pub prompt : 0 < length s.request.prompt
    pub decoded : s.prefilled ≡ true → 0 < length s.output
    pub pending : s.prefilled ≡ false → b.length < length (context s)
    pub fit : Fit m b

  abbrev pub Seq : BlockManager F → List (ℕ × EngineSequence P) → Heap → ℕ → Type 0
  Seq m sequences h id =
      (s : EngineSequence P) × (b : SequenceBlocks) × (find id sequences ≡ some s)
      × (find id h ≡ some b)
      × SeqOk m s b

  pub Seq-manager :
      (m m' : BlockManager F) (sequences : List (ℕ × EngineSequence P)) (h : Heap) (id : ℕ)
      → m'.block_size ≡ m.block_size
      → Seq m sequences h id
      → Seq m' sequences h id
  Seq-manager m m' sequences h id e (s, b, at, at', k) = (
    s,
    b,
    at,
    at',
    record {
      prompt = k.prompt;
      decoded = k.decoded;
      pending = k.pending;
      fit = omega (arith, k.fit, blocks_for-manager m m' b.length e);
    },
  )

  -- One sequence and its blocks renewed.
  pub Seq-put :
      (m : BlockManager F) (sequences : List (ℕ × EngineSequence P)) (h : Heap) (id j : ℕ)
      (s : EngineSequence P) (b : SequenceBlocks)
      → SeqOk m s b
      → Seq m sequences h j
      → Seq m (put id s sequences) (put id b h) j
  Seq-put m sequences h id j s b k (t, c, at, at', l) = elim (Bool-cases (id == j)) [
    | inl hit ↦
        (s, b, ground (arith, find-put id j s sequences), ground (arith, find-put id j b h), k)
    | inr miss ↦
        (t, c, ground (arith, find-put id j s sequences), ground (arith, find-put id j b h), l)
  ]

  pub Seq-put_sequence :
      (m : BlockManager F) (sequences : List (ℕ × EngineSequence P)) (h : Heap) (id j : ℕ)
      (s : EngineSequence P) (b : SequenceBlocks)
      → find id h ≡ some b
      → SeqOk m s b
      → Seq m sequences h j
      → Seq m (put id s sequences) h j
  Seq-put_sequence m sequences h id j s b at k (t, c, e, e', l) = elim (Bool-cases (id == j)) [
    | inl hit ↦ (s, b, ground (arith, find-put id j s sequences), ground arith, k)
    | inr miss ↦ (t, c, ground (arith, find-put id j s sequences), e', l)
  ]

  pub Seq-put_blocks :
      (m : BlockManager F) (sequences : List (ℕ × EngineSequence P)) (h : Heap) (id j : ℕ)
      (s : EngineSequence P) (b : SequenceBlocks)
      → find id sequences ≡ some s
      → SeqOk m s b
      → Seq m sequences h j
      → Seq m sequences (put id b h) j
  Seq-put_blocks m sequences h id j s b at k (t, c, e, e', l) = elim (Bool-cases (id == j)) [
    | inl hit ↦ (s, b, ground arith, ground (arith, find-put id j b h), k)
    | inr miss ↦ (t, c, e, ground (arith, find-put id j b h), l)
  ]

module _ {F P R : Type 0} where
  -- How often an id is queued, waiting or running.
  abbrev pub queued : EngineState F P R → ℕ → ℕ
  queued e id = count id e.waiting + count id e.running

  pub record Sound (e : EngineState F P R) : Type 0 where
    pub owned : Owned e.manager (held e.heap)
    pub sized : 0 < e.manager.block_size
    pub once : (id : ℕ) → queued e id ≤ 1
    pub known : (id : ℕ) → 0 < queued e id → Seq e.manager e.sequences e.heap id
    pub low : (id : ℕ) → 0 < queued e id → id < e.next_id
    pub empty : (id : ℕ) → e.next_id ≤ id → find id e.heap ≡ none
