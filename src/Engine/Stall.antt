-- ===== src/Engine/Stall.antt =====
-- src/engine/engine.cpp, step and generate: what happens where the next request does not fit into
-- the free blocks and nothing runs that could give blocks back.
use from_scratch_inference_e.Base.{
  ℕ, zero, suc, ◌+◌, ◌<◌, ◌≡◌, refl, ap, List, [], ◌∷◌, ◌++◌, some, arith, true, false, not, ◌==◌,
  leb, length, Result, ok, err, no_fuel, invalid_argument, Bool-cases, ==_refl, inl, inr,
}
use from_scratch_inference_e.Base.Dict.{find, put, find-put}
use from_scratch_inference_e.Manager.State.{
  SequenceBlocks, blocks_for, can_append, free_blocks, new_sequence,
}
use from_scratch_inference_e.Batch.{Work, LayerResult}
use from_scratch_inference_e.Engine.State.{
  Request, EngineSequence, EngineState, SeqStatus, add_request, status,
}
use from_scratch_inference_e.Engine.Admit.{below, need, admit_loop, admit}
use from_scratch_inference_e.Engine.Assemble.{Plan, assemble, plan_loop}
use from_scratch_inference_e.Engine.Preempt.{build}
use from_scratch_inference_e.Engine.Step.{is_finished, step, drive, generate}

find-put_self {ℓ} : {V : Type ℓ} (id : ℕ) (v : V) (d : List (ℕ × V)) → find id (put id v d) ≡ some v
find-put_self id v d = ground (arith, find-put id id v d, ==_refl id)

module _ {ℓ} {F P R : Type ℓ} where
  -- Nothing runs, and the head of the queue asks for more than the free blocks.
  pub record Stalled (e : EngineState F P R) (id : ℕ) : Type ℓ where
    pub seq : EngineSequence P
    pub blocks : SequenceBlocks
    pub rest : List ℕ
    pub idle : e.running ≡ []
    pub queue : e.waiting ≡ id ∷ rest
    pub known : find id e.sequences ≡ some seq
    pub stored : find id e.heap ≡ some blocks
    pub too_long : can_append e.manager blocks (need seq) ≡ false

  admit-stalled : (e : EngineState F P R) (id : ℕ) → Stalled e id → admit e ≡ ok e
  unfolding admit admit_loop
  admit-stalled e id v = elim (Bool-cases (below (length e.running) e.max_batch)) [
    | inr full ↦ rw (v.queue, full) refl
    | inl room ↦ rw (v.queue, room, v.known, v.stored, v.too_long) refl
  ]

  idle_plan : EngineState F P R → Plan F
  idle_plan e = record {
    manager = e.manager;
    heap = e.heap;
    budget = free_blocks e.manager;
    entries = [];
  }

  assemble-idle : (e : EngineState F P R) → e.running ≡ [] → assemble e ≡ ok (idle_plan e)
  unfolding assemble plan_loop idle_plan
  assemble-idle e h = rw h refl

  build-idle :
      (fuel : ℕ) (e : EngineState F P R) → e.running ≡ [] → build (suc fuel) e ≡ ok (e, idle_plan e)
  unfolding build idle_plan
  build-idle fuel e h =
      let small : leb (length e.running) 1 ≡ true = rw h refl in rw (assemble-idle e h, small) refl

  status-known : (e : EngineState F P R) (id : ℕ) (v : Stalled e id) → status e id ≡ ok v.seq.status
  unfolding status
  status-known e id v = rw v.known refl

  abbrev pub new_seq : EngineState F P R → Request P → EngineSequence P
  new_seq e request = record {
    id = e.next_id;
    request = request;
    output = [];
    status = SeqStatus.waiting;
    prefilled = false;
  }

  -- The engine with one more request.
  abbrev pub with_request : EngineState F P R → Request P → EngineState F P R
  with_request e request = record e {
    next_id = e.next_id + 1;
    sequences = put e.next_id (new_seq e request) e.sequences;
    heap = put e.next_id new_sequence e.heap;
    waiting = e.waiting ++ e.next_id ∷ [];
  }

  pub add_request-empty :
      (e : EngineState F P R) (request : Request P)
      → length request.prompt == 0 ≡ true
      → add_request e request ≡ err invalid_argument
  unfolding add_request
  add_request-empty e request bare = rw bare refl

  pub add_request-eq :
      (e : EngineState F P R) (request : Request P)
      → 0 < length request.prompt
      → add_request e request ≡ ok (e.next_id, with_request e request)
  unfolding add_request
  add_request-eq e request filled =
      let nonempty : not (length request.prompt == 0) ≡ true = ground arith in rw nonempty refl

  with_request-Stalled :
      (e : EngineState F P R) (request : Request P)
      → e.waiting ≡ []
      → e.running ≡ []
      → free_blocks e.manager < blocks_for e.manager (length request.prompt)
      → Stalled (with_request e request) e.next_id
  unfolding can_append need
  with_request-Stalled e request none_waits none_runs long = record {
    seq = new_seq e request;
    blocks = new_sequence;
    rest = [];
    idle = none_runs;
    queue = ap (λ w. w ++ e.next_id ∷ []) none_waits;
    known = find-put_self e.next_id (new_seq e request) e.sequences;
    stored = find-put_self e.next_id new_sequence e.heap;
    too_long =
        let all : length request.prompt + 0 ≡ length request.prompt = omega arith in
        rw all (ground arith);
  }

module _ {ℓ} {F P R : Type ℓ} (sample : R → List F → P → Result (ℕ × R))
    (layers : List (List F) → List (List F) → List Work → Result (LayerResult F)) where
  step-stalled : (e : EngineState F P R) (id : ℕ) → Stalled e id → step sample layers e ≡ ok e
  unfolding step idle_plan
  step-stalled e id v =
      let one : length e.running + 1 ≡ suc 0 = rw v.idle refl in
      rw (admit-stalled e id v, one, build-idle 0 e v.idle) refl

  drive-stalled :
      (e : EngineState F P R) (id : ℕ) (v : Stalled e id)
      → is_finished v.seq.status ≡ false
      → (fuel : ℕ) → drive sample layers fuel id e ≡ err no_fuel
  unfolding drive
  drive-stalled e id v going zero = refl
  drive-stalled e id v going (suc fuel) =
      let st : status e id ≡ ok v.seq.status = status-known e id v in
      rw (st, going, step-stalled e id v) (drive-stalled e id v going fuel)

  -- On an engine without work, a prompt that is not empty and needs more blocks than are free is never
  -- answered: `generate` is still stepping after any number of turns.
  pub generate-never_returns :
      (e : EngineState F P R) (request : Request P)
      → e.waiting ≡ []
      → e.running ≡ []
      → 0 < length request.prompt
      → free_blocks e.manager < blocks_for e.manager (length request.prompt)
      → (fuel : ℕ) → generate sample layers fuel request e ≡ err no_fuel
  unfolding generate with_request-Stalled
  generate-never_returns e request none_waits none_runs filled long fuel =
      let v = with_request-Stalled e request none_waits none_runs long in
      rw
        (
          add_request-eq e request filled,
          drive-stalled (with_request e request) e.next_id v refl fuel,
        )
        refl
