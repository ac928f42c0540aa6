-- ===== src/Engine/Sound/Reach.antt =====
-- The states that an engine can be in: built by the constructor, then requests and steps in any order.
use from_scratch_inference_e.Base.{
  ℕ, ◌<◌, ◌≡◌, refl, sym, subst, ◌∙◌, List, [], ◌∷◌, ◌++◌, none, arith, Bool, ◌==◌, ltb,
  count-append, length, length-append, ℤ, pos, negsuc, Bool-cases, inl, inr, Result, ok, Error,
  Ensures, Ensures-mono, signed_overflow, append_assoc, append-nil,
}
use from_scratch_inference_e.Base.Dict.{find, put, find-put}
use from_scratch_inference_e.Allocator
use from_scratch_inference_e.Allocator.Invariant.{fresh-IsValid, refs-fresh}
use from_scratch_inference_e.Manager.State.{
  SequenceBlocks, BlockManager, blocks_for, new_sequence, is_positive,
}
use from_scratch_inference_e.Manager.State as Blocks
use from_scratch_inference_e.Batch.{Heap, Work, LayerResult}
use from_scratch_inference_e.Batch.Heap.{held}
use from_scratch_inference_e.Engine.State.{
  Request, EngineSequence, EngineState, SeqStatus, add_request,
}
use from_scratch_inference_e.Engine.State
use from_scratch_inference_e.Engine.Step.{step}
use from_scratch_inference_e.Engine.Sound.{SeqOk, Seq-put, Sound}
use from_scratch_inference_e.Engine.Sound.Step.{Answers, SoundAt, step-Sound}
use from_scratch_inference_e.Engine.Stall.{with_request, new_seq, add_request-eq, add_request-empty}

held-put_new : (id : ℕ) (h : Heap) → find id h ≡ none → held (put id new_sequence h) ≡ held h ++ []
held-put_new id [] e = refl
held-put_new id ((j, s) ∷ h) e = elim (Bool-cases (j == id)) [
  | inl hit ↦ absurd (ground arith)
  | inr miss ↦
      let deeper : find id h ≡ none = ground arith in
      rw (miss, held-put_new id h deeper) (sym (append_assoc s.block_table (held h) []))
]

module _ {F P R : Type 0} where
  with_request-Sound :
      (e : EngineState F P R) (request : Request P)
      → 0 < length request.prompt
      → Sound e
      → Sound (with_request e request)
  with_request-Sound e request filled v = record {
    owned =
        rw
          (
            held-put_new e.next_id e.heap (v.empty e.next_id (omega arith)),
            append-nil (held e.heap),
          )
          v.owned;
    sized = v.sized;
    once = λ id. elim (Bool-cases (e.next_id == id)) [
      | inl hit ↦ ground (arith, v.once id, v.low id, count-append id e.waiting (e.next_id ∷ []))
      | inr miss ↦ ground (arith, v.once id, count-append id e.waiting (e.next_id ∷ []))
    ];
    known = λ id h. elim (Bool-cases (e.next_id == id)) [
      | inl hit ↦ (
        new_seq e request,
        new_sequence,
        ground (arith, find-put e.next_id id (new_seq e request) e.sequences),
        ground (arith, find-put e.next_id id new_sequence e.heap),
        fine,
      )
      | inr miss ↦
          Seq-put e.manager e.sequences e.heap e.next_id id (new_seq e request) new_sequence fine
            (v.known id (ground (arith, count-append id e.waiting (e.next_id ∷ []))))
    ];
    low = λ id h. elim (Bool-cases (e.next_id == id)) [
      | inl hit ↦ ground arith
      | inr miss ↦ ground (arith, v.low id, count-append id e.waiting (e.next_id ∷ []))
    ];
    empty =
        λ id n. ground (arith, find-put e.next_id id new_sequence e.heap, v.empty id (omega arith));
  }
    where
      fine : SeqOk e.manager (new_seq e request) new_sequence
      fine = record {
        prompt = filled;
        decoded = λ x. absurd (cc x);
        pending = λ x. omega (arith, filled, length-append request.prompt []);
        fit = omega arith;
      }

module _ {F R : Type 0} (P : Type 0) where
  -- A constructed engine is sound, with the vocabulary that it was given.
  init-Sound :
      (nil : F) (num_layers kv_dim block_size num_blocks : ℤ) (w : ℕ) (sampler : R) (max_batch : ℤ)
      (prefix_cache : Bool)
      → Ensures
          (λ e. Unit)
          (SoundAt {F = F} {P = P} {R = R} w)
          (State.init nil num_layers kv_dim block_size num_blocks w sampler max_batch prefix_cache)
  unfolding State.init Blocks.init Allocator.init
  init-Sound nil l d b (negsuc n) w r max pc = tt
  init-Sound nil l d (negsuc b) (pos n) w r max pc = elim (Bool-cases (is_positive l)) [
    | inr bad ↦ rw bad tt
    | inl good ↦ elim (Bool-cases (is_positive d)) [
      | inr bad ↦ rw (good, bad) tt
      | inl fine ↦ rw (good, fine) tt
    ]
  ]
  init-Sound nil l d (pos b) (pos n) w r max pc = elim (Bool-cases (is_positive l)) [
    | inr bad ↦ rw bad tt
    | inl good ↦ elim (Bool-cases (is_positive d)) [
      | inr bad ↦ rw (good, bad) tt
      | inl fine ↦ elim (Bool-cases (ltb 0 b)) [
        | inr bad ↦ rw (good, fine, bad) tt
        | inl sized ↦
            rw (good, fine, sized)
              (
                record {
                  owned = record {
                    valid = fresh-IsValid n;
                    counted = λ j. refs-fresh n j;
                    keys = tt;
                  };
                  sized = ground arith;
                  once = λ id. omega arith;
                  known = λ id h. absurd (omega arith);
                  low = λ id h. absurd (omega arith);
                  empty = λ id h. refl;
                },
                refl,
              )
      ]
    ]
  ]

module _ {F P R : Type 0} where
  add_request-Sound :
      (w : ℕ) (e : EngineState F P R) (request : Request P)
      → SoundAt w e
      → Ensures (λ x. Unit) (λ r. SoundAt w r.1) (add_request e request)
  add_request-Sound w e request (v, same) = elim (Bool-cases (length request.prompt == 0)) [
    | inl bare ↦ rw (add_request-empty e request bare) tt
    | inr some_token ↦
        let filled : 0 < length request.prompt = ground arith in
        rw (add_request-eq e request filled) (with_request-Sound e request filled v, same)
  ]

-- What a call ensures of the value that it gave.
given :
    {A : Type 0} (E : Error → Type 0) (Q : A → Type 0) (m : Result A) (a : A)
    → Ensures E Q m
    → m ≡ ok a
    → Q a
given E Q m a h e = subst (Ensures E Q) e h

module _ {F P R : Type 0} (nil : F) (w : ℕ) (sample : R → List F → P → Result (ℕ × R))
    (layers : List (List F) → List (List F) → List Work → Result (LayerResult F)) where
  -- The engines that calls in any order lead to, where none of them throws.
  pub data Run : EngineState F P R → Type 0 where
    built :
        (num_layers kv_dim block_size num_blocks max_batch : ℤ) (sampler : R) (prefix_cache : Bool)
        (e : EngineState F P R)
        → State.init nil num_layers kv_dim block_size num_blocks w sampler max_batch prefix_cache
          ≡ ok e
        → Run e
    requested :
        (e e' : EngineState F P R) (request : Request P) (id : ℕ)
        → Run e
        → add_request e request ≡ ok (id, e')
        → Run e'
    stepped : (e e' : EngineState F P R) → Run e → step sample layers e ≡ ok e' → Run e'

  module _ (E : Error → Type 0) (overflow : E signed_overflow) (gives : Answers E w layers)
      (answers : (rng : R) (row : List F) (params : P)
        → Ensures E (λ r. Unit) (sample rng row params)) where
    step-at : (e : EngineState F P R) → SoundAt w e → Ensures E (SoundAt w) (step sample layers e)
    step-at e (v, same) =
        Ensures-mono E (SoundAt e.vocab_size) (SoundAt w) (step sample layers e)
          (step-Sound E overflow layers sample answers e
            (subst (λ x. Answers E x layers) (sym same) gives) v)
          (λ e' s. (s.0, s.1 ∙ same))

    Run-SoundAt : (e : EngineState F P R) → Run e → SoundAt w e
    Run-SoundAt _ (built l d b n max r pc e eq) =
        given (λ x. Unit) (SoundAt w) _ e (init-Sound P nil l d b n w r max pc) eq
    Run-SoundAt _ (requested e e' request id run eq) =
        given (λ x. Unit) (λ r. SoundAt w r.1) (add_request e request) (id, e')
          (add_request-Sound w e request (Run-SoundAt e run)) eq
    Run-SoundAt _ (stepped e e' run eq) =
        given E (SoundAt w) (step sample layers e) e' (step-at e (Run-SoundAt e run)) eq

    -- Whatever requests and steps an engine has seen since it was built, with layers and a sampler that
    -- answer or fail with an error of `E`, its state is sound, and its next step leaves it sound or fails
    -- with an error of `E`, which has the overflow of a count.
    pub Run-Sound :
        (e : EngineState F P R) → Run e → Sound e × Ensures E Sound (step sample layers e)
    Run-Sound e run =
        let s = Run-SoundAt e run in
        (s.0, Ensures-mono E (SoundAt w) Sound (step sample layers e) (step-at e s) (λ e' x. x.0))
