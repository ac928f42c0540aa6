-- ===== src/Engine/State.antt =====
-- include/engine/engine.hpp: requests, sequences and the engine's state. The sampling parameters and
-- the random numbers are types that the sampler knows.
use from_scratch_inference_e.Base.{
  ℕ, ◌+◌, List, [], ◌∷◌, ◌++◌, Bool, false, not, ◌||◌, ◌==◌, length, ℤ, Result, ok, ◌>>=◌, ◌>>◌,
  guard, or_fail, invalid_argument, out_of_range,
}
use from_scratch_inference_e.Base.Dict.{find, put}
use from_scratch_inference_e.Manager.State.{SequenceBlocks, BlockManager, new_sequence}
use from_scratch_inference_e.Manager.State
use from_scratch_inference_e.Batch.{Heap}

pub record Request {ℓ} (P : Type ℓ) : Type ℓ where
  pub prompt : List ℕ
  pub params : P
  pub max_tokens : ℤ
  pub eos_id : ℤ

pub data SeqStatus : Type 0 where
  waiting running finished : SeqStatus

-- The member `blocks` of a sequence stands in the engine's heap, under the sequence's id.
pub record EngineSequence {ℓ} (P : Type ℓ) : Type ℓ where
  pub id : ℕ
  pub request : Request P
  pub output : List ℕ
  pub status : SeqStatus
  pub prefilled : Bool

pub record EngineState {ℓ} (F P R : Type ℓ) : Type ℓ where
  pub manager : BlockManager F
  pub vocab_size : ℕ
  pub sampler : R
  pub max_batch : ℤ
  pub waiting : List ℕ
  pub running : List ℕ
  pub sequences : List (ℕ × EngineSequence P)
  pub heap : Heap
  pub next_id : ℕ
  pub preemptions : ℕ
  pub prefix_cache : Bool

module _ {ℓ} {P : Type ℓ} where
  -- Prompt and everything generated so far.
  abbrev pub context : EngineSequence P → List ℕ
  context s = s.request.prompt ++ s.output

module _ {ℓ} {F P R : Type ℓ} where
  -- `nil` is 0.0f; the sizes are those of the model's configuration.
  unfoldable pub init : F → ℤ → ℤ → ℤ → ℤ → ℕ → R → ℤ → Bool → Result (EngineState F P R)
  init nil num_layers kv_dim block_size num_blocks vocab_size sampler max_batch prefix_cache =
      State.init nil num_layers kv_dim block_size num_blocks >>= λ m. ok (record {
        manager = m;
        vocab_size = vocab_size;
        sampler = sampler;
        max_batch = max_batch;
        waiting = [];
        running = [];
        sequences = [];
        heap = [];
        next_id = 0;
        preemptions = 0;
        prefix_cache = prefix_cache;
      })

  -- Queue a request; returns its sequence id.
  unfoldable pub add_request : EngineState F P R → Request P → Result (ℕ × EngineState F P R)
  add_request e request = do
    guard (not (length request.prompt == 0)) invalid_argument
    let id = e.next_id
    let seq : EngineSequence P = record {
      id = id;
      request = request;
      output = [];
      status = SeqStatus.waiting;
      prefilled = false;
    }
    ok (
      id,
      record e {
        next_id = id + 1;
        sequences = put id seq e.sequences;
        heap = put id new_sequence e.heap;
        waiting = e.waiting ++ id ∷ [];
      },
    )

  unfoldable pub has_work : EngineState F P R → Bool
  has_work e = not (length e.waiting == 0) || not (length e.running == 0)

  unfoldable pub output : EngineState F P R → ℕ → Result (List ℕ)
  output e id = or_fail out_of_range (find id e.sequences) >>= λ s. ok s.output

  unfoldable pub status : EngineState F P R → ℕ → Result SeqStatus
  status e id = or_fail out_of_range (find id e.sequences) >>= λ s. ok s.status
