-- ===== src/Engine/Tests.antt =====
-- An idle engine over one block of two rows, and a prompt of three tokens.
use from_scratch_inference_e.Base.{
  replicate, length, length-replicate, ◌*◌, ℕ, zero, suc, ◌+◌, ◌≤◌, ◌<◌, ◌≡◌, refl, List, [], ◌∷◌,
  arith, pos, negsuc, Result, ok, err, Ensures, no_fuel, invalid_argument, true, false, none, count,
}
use from_scratch_inference_e.Allocator.Invariant.{num_free-fresh, fresh, fresh-IsValid, refs-fresh}
use from_scratch_inference_e.Manager.State.{BlockManager, blocks_for, new_sequence}
use from_scratch_inference_e.Base.Dict.{find}
use from_scratch_inference_e.Manager.Owned.{OnlyOverflow}
use from_scratch_inference_e.Manager.Owned.Free.{with_alloc}
use from_scratch_inference_e.Batch.Prepare.{Prepares}
use from_scratch_inference_e.Engine.Preempt.{build}
use from_scratch_inference_e.Engine.Sound.Build.{Built, build-Serves}
use from_scratch_inference_e.Engine.Step.{items, step}
use from_scratch_inference_e.Engine.Sound.Step.{step-Sound}
use from_scratch_inference_e.Engine.Sound.{Seq-manager}
use from_scratch_inference_e.Batch.{Heap, prepare}
use from_scratch_inference_e.Allocator.{BlockAllocator}
use from_scratch_inference_e.Batch.{Work, LayerResult}
use from_scratch_inference_e.Engine.State.{Request, EngineState, SeqStatus}
use from_scratch_inference_e.Engine.Admit.{admit}
use from_scratch_inference_e.Engine.Step.{generate}
use from_scratch_inference_e.Engine.Sound.{Sound, Seq}
use from_scratch_inference_e.Engine.Sound.Admit.{admit-Sound}
use from_scratch_inference_e.Engine.Stall.{generate-never_returns, with_request}
use from_scratch_inference_e.Engine.Sound.Reach.{Run, built, requested, Run-Sound}
use from_scratch_inference_e.Engine.State
use from_scratch_inference_e.Manager
use from_scratch_inference_e.Allocator
use from_scratch_inference_e.Engine.State.{add_request}

abbrev one_block : BlockManager ℕ
one_block = record {
  num_layers = 1;
  kv_dim = 1;
  block_size = 2;
  alloc = fresh 1;
  keys = (0 ∷ 0 ∷ []) ∷ [];
  values = (0 ∷ 0 ∷ []) ∷ [];
  prefix = [];
  prefix_hits = 0;
  tick = 0;
}

abbrev idle : EngineState ℕ ℕ ℕ
idle = record {
  manager = one_block;
  vocab_size = 3;
  sampler = 0;
  max_batch = pos 4;
  waiting = [];
  running = [];
  sequences = [];
  heap = [];
  next_id = 0;
  preemptions = 0;
  prefix_cache = true;
}

abbrev three_tokens : Request ℕ
three_tokens = record { prompt = 1 ∷ 2 ∷ 0 ∷ []; params = 0; max_tokens = pos 1; eos_id = negsuc 0 }

abbrev first : ℕ → List ℕ → ℕ → Result (ℕ × ℕ)
first state row params = ok (0, state)

abbrev no_layers : List (List ℕ) → List (List ℕ) → List Work → Result (LayerResult ℕ)
no_layers keys values works = err invalid_argument

generate-never_returns_example : generate first no_layers 9 three_tokens idle ≡ err no_fuel
unfolding blocks_for
generate-never_returns_example =
    generate-never_returns first no_layers idle three_tokens refl refl (omega arith)
      (omega (arith, num_free-fresh 1)) 9

idle-Sound : Sound idle
idle-Sound = record {
  owned = record { valid = fresh-IsValid 1; counted = λ b. refs-fresh 1 b; keys = tt };
  sized = omega arith;
  once = λ id. omega arith;
  known = λ id h. absurd (omega arith);
  low = λ id h. absurd (omega arith);
  empty = λ id h. refl;
}

-- The engine with the request queued: it still waits after the admission.
abbrev queued : EngineState ℕ ℕ ℕ
queued = record idle {
  waiting = 0 ∷ [];
  next_id = 1;
  sequences =
      (
        0,
        record {
          id = 0;
          request = three_tokens;
          output = [];
          status = SeqStatus.waiting;
          prefilled = false;
        },
      )
      ∷ [];
  heap = (0, new_sequence) ∷ [];
}

queued-Sound : Sound queued
unfolding blocks_for
queued-Sound = record {
  owned = record { valid = fresh-IsValid 1; counted = λ b. refs-fresh 1 b; keys = tt };
  sized = omega arith;
  once = λ id. ground arith;
  known = λ id h. known_seq id h;
  low = λ id h. ground arith;
  empty = λ id h. missing id h;
}
  where
    known_seq : (id : ℕ) → 0 < count id (0 ∷ []) + 0 → Seq one_block queued.sequences queued.heap id
    known_seq zero h = (
      _,
      _,
      refl,
      refl,
      record {
        prompt = omega arith;
        decoded = λ e. absurd (cc e);
        pending = λ e. omega arith;
        fit = omega arith;
      },
    )
    known_seq (suc id) h = absurd (ground arith)

    missing : (id : ℕ) → 1 ≤ id → find id queued.heap ≡ none
    missing zero h = elim h [ ]
    missing (suc id) h = ground arith

admit-Sound_example :
    Ensures (λ e. e ≡ no_fuel) (λ e'. Sound e' × (e'.vocab_size ≡ 3)) (admit queued)
admit-Sound_example = admit-Sound (λ e. e ≡ no_fuel) queued queued-Sound

-- The same request, running over three blocks.
abbrev active : EngineState ℕ ℕ ℕ
active = record queued {
  manager = record one_block { alloc = fresh 3 };
  waiting = [];
  running = 0 ∷ [];
}

active-Sound : Sound active
unfolding blocks_for
active-Sound = record {
  owned = record { valid = fresh-IsValid 3; counted = λ b. refs-fresh 3 b; keys = tt };
  sized = omega arith;
  once = λ id. ground arith;
  known = λ id h.
      Seq-manager one_block active.manager active.sequences active.heap id refl
        (queued-Sound.known id (omega arith));
  low = λ id h. ground arith;
  empty = queued-Sound.empty;
}

build-Serves_example :
    Ensures OnlyOverflow
      (λ r.
        Built r
        × (a : BlockAllocator) × (h' : Heap) × (prepare (items r.1.entries) r.0.manager r.0.heap
            ≡ ok (with_alloc r.0.manager a, h'))
        × Prepares (items r.1.entries) r.0.manager r.0.heap a h')
      (build 2 active)
build-Serves_example = build-Serves active active-Sound

-- Layers that leave the stores alone and score every token alike.
abbrev even_layers : List (List ℕ) → List (List ℕ) → List Work → Result (LayerResult ℕ)
even_layers keys values ws = ok (record {
  keys = keys;
  values = values;
  logits = record { shape = length ws ∷ 3 ∷ []; data_ = replicate (length ws * 3) 0 };
})

step-Sound_example :
    Ensures OnlyOverflow (λ e. Sound e × (e.vocab_size ≡ 3)) (step first even_layers active)
step-Sound_example =
    step-Sound OnlyOverflow refl even_layers first (λ rng row params. tt) active
      (λ keys values ws. omega (arith, length-replicate {A = ℕ} (length ws * 3) 0)) active-Sound

-- An engine over three blocks of two rows, as it is built.
abbrev started : EngineState ℕ ℕ ℕ
started = record idle {
  manager = record one_block {
    alloc = fresh 3;
    keys = replicate 1 (replicate 6 0);
    values = replicate 1 (replicate 6 0);
  };
}

-- The engine with the request queued comes from those two calls.
asked : Run {P = ℕ} 0 3 first even_layers (with_request started three_tokens)
unfolding State.init Manager.State.init Allocator.init add_request
asked =
    requested started (with_request started three_tokens) three_tokens 0
      (built (pos 1) (pos 1) (pos 2) (pos 3) (pos 4) 0 true started refl) refl

Run-Sound_example :
    Sound (with_request started three_tokens)
    × Ensures OnlyOverflow Sound (step first even_layers (with_request started three_tokens))
Run-Sound_example =
    Run-Sound 0 3 first even_layers OnlyOverflow refl
      (λ keys values ws. omega (arith, length-replicate {A = ℕ} (length ws * 3) 0))
      (λ rng row params. tt) (with_request started three_tokens) asked
