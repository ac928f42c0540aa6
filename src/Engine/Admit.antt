-- ===== src/Engine/Admit.antt =====
-- src/engine/engine.cpp, step: admission of waiting requests, first come first served.
use from_scratch_inference_e.Base.{
  ℕ, ◌+◌, List, [], ◌∷◌, ◌++◌, Bool, false, ltb, if◌then◌else◌, length, ℤ, pos, negsuc, Result, ok,
  ◌>>=◌, or_fail, out_of_range,
}
use from_scratch_inference_e.Base.Dict.{find, put}
use from_scratch_inference_e.Manager.State.{can_append}
use from_scratch_inference_e.Engine.State.{EngineSequence, EngineState, SeqStatus}

-- running.size() < max_batch
abbrev pub below : ℕ → ℤ → Bool
below n (pos m) = ltb n m
below n (negsuc m) = false

module _ {ℓ} {P : Type ℓ} where
  -- The rows that a sequence asks for before it is admitted.
  unfoldable pub need : EngineSequence P → ℕ
  need s = if s.prefilled then 1 else length s.request.prompt + length s.output

  abbrev pub set_status : SeqStatus → EngineSequence P → EngineSequence P
  set_status st s = record s { status = st }

module _ {ℓ} {F P R : Type ℓ} where
  -- The loop, on the waiting ids that are left.
  unfoldable pub admit_loop : List ℕ → EngineState F P R → Result (EngineState F P R)
  unfolding need
  admit_loop [] e = ok (record e { waiting = [] })
  admit_loop (id ∷ rest) e =
      let stop = ok (record e { waiting = id ∷ rest }) in
      let go = or_fail out_of_range (find id e.sequences) >>= λ s.
      or_fail out_of_range (find id e.heap) >>= λ blocks.
      (let next = admit_loop rest (record e {
        sequences = put id (set_status SeqStatus.running s) e.sequences;
        running = e.running ++ id ∷ [];
      }) in
        if can_append e.manager blocks (need s) then next else stop) in
      if below (length e.running) e.max_batch then go else stop

  unfoldable pub admit : EngineState F P R → Result (EngineState F P R)
  unfolding admit_loop
  admit e = admit_loop e.waiting e
