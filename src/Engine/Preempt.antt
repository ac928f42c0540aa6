-- ===== src/Engine/Preempt.antt =====
-- src/engine/engine.cpp, preempt_youngest and the loop that retries the assembly.
use from_scratch_inference_e.Base.{
  ℕ, zero, suc, ◌+◌, List, [], ◌∷◌, Bool, true, false, not, ◌||◌, leb, ◌==◌, if◌then◌else◌, length,
  Option, none, some, Result, ok, err, ◌>>=◌, or_fail, out_of_range, no_fuel,
}
use from_scratch_inference_e.Base.Dict.{find, put}
use from_scratch_inference_e.Manager.Pool
use from_scratch_inference_e.Batch.{Heap}
use from_scratch_inference_e.Engine.State.{EngineState, SeqStatus}
use from_scratch_inference_e.Engine.Assemble.{Plan, assemble}

-- The last running id whose table is not empty, and the ids without it. The search is from the
-- back and stops there.
unfoldable pub youngest : Heap → List ℕ → Result (Option (ℕ × List ℕ))
youngest h [] = ok none
youngest h (id ∷ ids) = youngest h ids >>= λ later. elim later [
  | some (found, rest) ↦ ok (some (found, id ∷ rest))
  | none ↦ or_fail out_of_range (find id h) >>= λ blocks.
      ok (if length blocks.block_table == 0 then none else some (id, ids))
]

module _ {ℓ} {F P R : Type ℓ} where
  -- Free the found sequence and send it back to the front of the queue.
  unfoldable pub requeue : ℕ → List ℕ → EngineState F P R → Result (EngineState F P R)
  requeue id rest e = do
    s ← or_fail out_of_range (find id e.sequences)
    blocks ← or_fail out_of_range (find id e.heap)
    r ← Pool.free e.manager blocks
    ok (record e {
      manager = r.0;
      heap = put id r.1 e.heap;
      sequences = put id (record s { prefilled = false; status = SeqStatus.waiting }) e.sequences;
      running = rest;
      waiting = id ∷ e.waiting;
      preemptions = e.preemptions + 1;
    })

  unfoldable pub preempt_youngest : EngineState F P R → Result (Bool × EngineState F P R)
  unfolding youngest requeue
  preempt_youngest e = youngest e.heap e.running >>= λ found. elim found [
    | none ↦ ok (false, e)
    | some (id, rest) ↦ requeue id rest e >>= λ e'. ok (true, e')
  ]

  -- The engine after the plan's sharing of prefixes.
  abbrev pub planned : EngineState F P R → Plan F → EngineState F P R
  planned e p = record e { manager = p.manager; heap = p.heap }

  -- for (;;): assemble, and preempt while nothing fits and more than one sequence runs. Each turn but
  -- the last takes a running sequence away, so their number is enough fuel.
  unfoldable pub build : ℕ → EngineState F P R → Result (EngineState F P R × Plan F)
  unfolding preempt_youngest
  build zero e = err no_fuel
  build (suc fuel) e = assemble e >>= λ p.
      (let e' = planned e p in
        let retry = preempt_youngest e' >>= λ r.
        (let again = build fuel r.1 in if r.0 then again else ok (r.1, p)) in
        if not (length p.entries == 0) || leb (length e.running) 1 then ok (e', p) else retry)
