-- ===== src/Engine/Step.antt =====
-- src/engine/engine.cpp, step and generate.
use from_scratch_inference_e.Base.{
  ℕ, zero, suc, ◌+◌, List, [], ◌∷◌, Bool, true, false, ◌==◌, if◌then◌else◌, length, Result, ok, err,
  ◌>>=◌, or_fail, out_of_range, no_fuel,
}
use from_scratch_inference_e.Base.Dict.{find}
use from_scratch_inference_e.Batch.{BatchItem, LayerResult, Work, forward_batch}
use from_scratch_inference_e.Engine.State.{
  Request, EngineSequence, EngineState, SeqStatus, add_request, status, output,
}
use from_scratch_inference_e.Engine.Admit.{admit}
use from_scratch_inference_e.Engine.Assemble.{Batched, item}
use from_scratch_inference_e.Engine.Preempt.{build}
use from_scratch_inference_e.Engine.Sample.{sample_loop}

abbrev pub is_finished : SeqStatus → Bool
is_finished SeqStatus.finished = true
is_finished SeqStatus.waiting = false
is_finished SeqStatus.running = false

abbrev pub items : List Batched → List BatchItem
items [] = []
items (b ∷ bs) = item b ∷ items bs

module _ {ℓ} {P : Type ℓ} where
  -- The running ids whose sequence is not finished.
  unfoldable pub still_running : List (ℕ × EngineSequence P) → List ℕ → Result (List ℕ)
  still_running sequences [] = ok []
  still_running sequences (id ∷ ids) = do
    s ← or_fail out_of_range (find id sequences)
    rest ← still_running sequences ids
    ok (if is_finished s.status then rest else id ∷ rest)

module _ {ℓ} {F P R : Type ℓ} where
  unfoldable pub retire : Bool → EngineState F P R → Result (EngineState F P R)
  unfolding still_running
  retire any e =
      if any
      then (still_running e.sequences e.running >>= λ ids. ok (record e { running = ids }))
      else ok e

module _ {ℓ} {F P R : Type ℓ} (sample : R → List F → P → Result (ℕ × R))
    (layers : List (List F) → List (List F) → List Work → Result (LayerResult F)) where
  -- The batch goes through the model, and each of its sequences gets a token.
  unfoldable pub run_batch : EngineState F P R → List Batched → Result (EngineState F P R)
  unfolding retire
  run_batch e batch = do
    r ← forward_batch layers e.manager e.heap (items batch)
    s ← sample_loop sample r.2 0 batch false (record e { manager = r.0; heap = r.1 })
    retire s.0 s.1

  unfoldable pub step : EngineState F P R → Result (EngineState F P R)
  unfolding run_batch
  step e = do
    admitted ← admit e
    r ← build (length admitted.running + 1) admitted
    let batch = r.1.entries
    if length batch == 0 then ok r.0 else run_batch r.0 batch

  -- while (status != Finished) step(): nothing bounds it, so `fuel` does.
  unfoldable pub drive : ℕ → ℕ → EngineState F P R → Result (EngineState F P R)
  drive zero id e = err no_fuel
  drive (suc fuel) id e = status e id >>= λ st.
      (let more = step e >>= drive fuel id in if is_finished st then ok e else more)

  unfoldable pub generate : ℕ → Request P → EngineState F P R → Result (List ℕ × EngineState F P R)
  unfolding drive
  generate fuel request e = do
    r ← add_request e request
    e' ← drive fuel r.0 r.1
    out ← output e' r.0
    ok (out, e')
