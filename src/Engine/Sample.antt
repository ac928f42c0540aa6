-- ===== src/Engine/Sample.antt =====
-- src/engine/engine.cpp, step: one token for each batched sequence, and what follows from it.
use from_scratch_inference_e.Base.{
  ℕ, ◌+◌, ◌*◌, List, [], ◌∷◌, ◌++◌, Bool, true, false, ◌||◌, ◌&&◌, leb, ◌==◌, if◌then◌else◌, length,
  ℤ, pos, negsuc, Result, ok, ◌>>=◌, or_fail, out_of_range,
}
use from_scratch_inference_e.Base.Dict.{find, put}
use from_scratch_inference_e.Tensor.{Tensor}
use from_scratch_inference_e.Tensor.Rows.{slice}
use from_scratch_inference_e.Manager.State.{SequenceBlocks}
use from_scratch_inference_e.Manager.Pool
use from_scratch_inference_e.Manager.Prefix.{register_prefix}
use from_scratch_inference_e.Engine.State.{EngineSequence, EngineState, SeqStatus}
use from_scratch_inference_e.Engine.Assemble.{Batched}

-- A negative eos_id disables the test.
abbrev pub hit_eos : ℤ → ℕ → Bool
hit_eos (pos eos) token = token == eos
hit_eos (negsuc n) token = false

abbrev pub hit_len : ℤ → ℕ → Bool
hit_len (pos m) size = leb m size
hit_len (negsuc n) size = true

module _ {ℓ} {P : Type ℓ} where
  -- The sequence with its new token.
  unfoldable pub extended : EngineSequence P → ℕ → EngineSequence P
  extended s token = record s { prefilled = true; output = s.output ++ token ∷ [] }

  unfoldable pub is_done : EngineSequence P → ℕ → Bool
  is_done s token = hit_eos s.request.eos_id token || hit_len s.request.max_tokens (length s.output)

module _ {ℓ} {F P R : Type ℓ} where
  -- A finished sequence gives its blocks back; a fresh prefill is registered where the cache is on.
  unfoldable pub settle :
      EngineState F P R
      → Batched
      → EngineSequence P
      → SequenceBlocks
      → ℕ
      → Result (Bool × EngineState F P R)
  unfolding is_done
  settle e b s blocks token =
      if is_done s token
      then (Pool.free e.manager blocks >>= λ r. ok (
        true,
        record e {
          manager = r.0;
          heap = put b.id r.1 e.heap;
          sequences = put b.id (record s { status = SeqStatus.finished }) e.sequences;
        },
      ))
      else (let e' = record e { sequences = put b.id s e.sequences } in
          if e.prefix_cache && b.was_prefill
          then (register_prefix e.manager blocks b.prefill_ctx >>= λ m.
              ok (false, record e' { manager = m }))
          else ok (false, e'))

module _ {ℓ} {F P R : Type ℓ} (sample : R → List F → P → Result (ℕ × R)) where
  -- The `k`-th sequence of the batch.
  unfoldable pub sample_one :
      Tensor F → ℕ → Batched → EngineState F P R → Result (Bool × EngineState F P R)
  unfolding extended settle
  sample_one logits k b e = do
    s ← or_fail out_of_range (find b.id e.sequences)
    blocks ← or_fail out_of_range (find b.id e.heap)
    row ← slice logits.data_ (k * e.vocab_size) e.vocab_size
    r ← sample e.sampler row s.request.params
    settle (record e { sampler = r.1 }) b (extended s r.0) blocks r.0

  -- The loop from `k` on; the flag is `any_finished`.
  unfoldable pub sample_loop :
      Tensor F → ℕ → List Batched → Bool → EngineState F P R → Result (Bool × EngineState F P R)
  unfolding sample_one
  sample_loop logits k [] any e = ok (any, e)
  sample_loop logits k (b ∷ bs) any e = do
    r ← sample_one logits k b e
    sample_loop logits (k + 1) bs (any || r.0) r.1
