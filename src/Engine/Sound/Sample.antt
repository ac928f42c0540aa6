-- ===== src/Engine/Sound/Sample.antt =====
-- The tokens of a step: each batched sequence gets one, and the scheduler is sound again at the end.
use from_scratch_inference_e.Base.{
  ℕ, suc, ◌+◌, ◌*◌, ◌≤◌, ◌<◌, ◌≡◌, refl, sym, subst, List, [], ◌∷◌, some, none, arith, Bool, true,
  false, ◌||◌, ◌&&◌, ◌==◌, if◌then◌else◌, length, length-append, All, Bool-cases, inl, inr, Result,
  ok, err, Error, Ensures, Ensures-bind, signed_overflow, take, drop,
}
use native.Mathlib.Nat.{mul-le-mul_right}
use from_scratch_inference_e.Base.Dict.{find, put, remove, find-put}
use from_scratch_inference_e.Tensor.{Tensor}
use from_scratch_inference_e.Tensor.Rows.{slice_in}
use from_scratch_inference_e.Manager.State.{SequenceBlocks, BlockManager, new_sequence}
use from_scratch_inference_e.Manager.Prefix.{register_prefix}
use from_scratch_inference_e.Manager.Owned.{Owned, OnlyOverflow}
use from_scratch_inference_e.Manager.Owned.Free.{with_alloc, free-Owned}
use from_scratch_inference_e.Manager.Owned.Register.{register_prefix-Owned}
use from_scratch_inference_e.Batch.{Heap}
use from_scratch_inference_e.Batch.Heap.{held, focus, unfocus, refocus}
use from_scratch_inference_e.Batch.Budget.{Fit, Others, DistinctItems, blocks_for-manager}
use from_scratch_inference_e.Engine.State.{EngineSequence, EngineState, SeqStatus}
use from_scratch_inference_e.Engine.Assemble.{Batched}
use from_scratch_inference_e.Engine.Sample.{extended, is_done, settle, sample_one, sample_loop}
use from_scratch_inference_e.Engine.Step.{items}
use from_scratch_inference_e.Engine.Sound.{SeqOk, Seq, Seq-manager, queued}

-- An error that is allowed stays so among more of them.
pub allowed :
    {A : Type 0} (E : Error → Type 0)
    → E signed_overflow
    → (Q : A → Type 0) (m : Result A) → Ensures OnlyOverflow Q m
    → Ensures E Q m
allowed E overflow Q (ok a) h = h
allowed E overflow Q (err e) h = subst E (sym h) overflow

same_heap :
    (h : Heap) (id : ℕ) (t : SequenceBlocks)
    → find id h ≡ some t
    → (j : ℕ) → find j h ≡ (if id == j then some t else find j h)
same_heap h id t at j = elim (Bool-cases (id == j)) [
  | inl hit ↦ ground arith
  | inr miss ↦ ground arith
]

module _ {F P : Type 0} where
  -- What is left of a sequence's facts between the forward pass and its token.
  abbrev pub Half : BlockManager F → List (ℕ × EngineSequence P) → Heap → ℕ → Type 0
  Half m sequences h id =
      (s : EngineSequence P) × (b : SequenceBlocks) × (find id sequences ≡ some s)
      × (find id h ≡ some b)
      × (0 < length s.request.prompt)
      × Fit m b

  Half-manager :
      (m m' : BlockManager F) (sequences : List (ℕ × EngineSequence P)) (h : Heap) (id : ℕ)
      → m'.block_size ≡ m.block_size
      → Half m sequences h id
      → Half m' sequences h id
  Half-manager m m' sequences h id e (s, b, at, at', prompt, fit) =
      (s, b, at, at', prompt, omega (arith, fit, blocks_for-manager m m' b.length e))

  -- A sequence with its token has all its facts again.
  extended-SeqOk :
      (m : BlockManager F) (s s' : EngineSequence P) (b : SequenceBlocks)
      → 0 < length s'.request.prompt
      → s'.prefilled ≡ true
      → 0 < length s'.output
      → Fit m b
      → SeqOk m s' b
  extended-SeqOk m s s' b prompt pre some_token fit = record {
    prompt = prompt;
    decoded = λ e. some_token;
    pending = λ e. absurd (cc (pre, e));
    fit = fit;
  }

module _ {F P R : Type 0} (w : ℕ) where
  -- The engine while the tokens of `bs` are still to come.
  pub record Sampling (bs : List Batched) (e : EngineState F P R) : Type 0 where
    pub owned : Owned e.manager (held e.heap)
    pub sized : 0 < e.manager.block_size
    pub once : (id : ℕ) → queued e id ≤ 1
    pub half : (id : ℕ) → 0 < queued e id → Half e.manager e.sequences e.heap id
    pub known :
        (id : ℕ) → 0 < queued e id → Others id (items bs) → Seq e.manager e.sequences e.heap id
    pub low : (id : ℕ) → 0 < queued e id → id < e.next_id
    pub empty : (id : ℕ) → e.next_id ≤ id → find id e.heap ≡ none
    pub among : All (λ b. 0 < queued e b.id) bs
    pub distinct : DistinctItems (items bs)
    pub width : e.vocab_size ≡ w

  -- The engine after one sequence and its blocks were renewed.
  abbrev renewed :
      EngineState F P R → BlockManager F → R → ℕ → EngineSequence P → Heap → EngineState F P R
  renewed e m r id s h = record e {
    manager = m;
    sampler = r;
    sequences = put id s e.sequences;
    heap = h;
  }

  renewed-Sampling :
      (b : Batched) (bs : List Batched) (e : EngineState F P R) (m : BlockManager F) (r : R)
      (s : EngineSequence P) (t : SequenceBlocks) (h : Heap)
      → Sampling (b ∷ bs) e
      → Owned m (held h)
      → m.block_size ≡ e.manager.block_size
      → ((j : ℕ) → find j h ≡ (if b.id == j then some t else find j e.heap))
      → SeqOk m s t
      → Sampling bs (renewed e m r b.id s h)
  renewed-Sampling b bs e m r s t h v owned same at k = record {
    owned = owned;
    sized = rw same v.sized;
    once = v.once;
    half = λ j q. elim (Bool-cases (b.id == j)) [
      | inl hit ↦ (
        s,
        t,
        ground (arith, find-put b.id j s e.sequences),
        ground (arith, at j),
        k.prompt,
        k.fit,
      )
      | inr miss ↦
          let (s', t', e1, e2, prompt, fit) =
            Half-manager e.manager m e.sequences e.heap j same (v.half j q) in
          (s', t', ground (arith, find-put b.id j s e.sequences), ground (arith, at j), prompt, fit)
    ];
    known = λ j q o. elim (Bool-cases (b.id == j)) [
      | inl hit ↦ (s, t, ground (arith, find-put b.id j s e.sequences), ground (arith, at j), k)
      | inr miss ↦
          let (s', t', e1, e2, l) =
            Seq-manager e.manager m e.sequences e.heap j same
              (v.known j q ((λ x. absurd (ground (arith, x, miss))), o)) in
          (s', t', ground (arith, find-put b.id j s e.sequences), ground (arith, at j), l)
    ];
    low = v.low;
    empty = λ j n.
        let here = v.low b.id v.among.0 in
        let miss : b.id == j ≡ false = ground arith in rw (at j, miss) (v.empty j n);
    among = v.among.1;
    distinct = v.distinct.1;
    width = v.width;
  }

  -- A finished sequence gives its blocks back, and one that goes on may be registered.
  settle-Sampling :
      (b : Batched) (bs : List Batched) (e : EngineState F P R) (s : EngineSequence P)
      (t : SequenceBlocks) (token : ℕ)
      → Sampling (b ∷ bs) e
      → find b.id e.heap ≡ some t
      → SeqOk e.manager s t
      → s.prefilled ≡ true
      → Ensures OnlyOverflow (λ r. Sampling bs r.1) (settle e b s t token)
  unfolding settle
  settle-Sampling b bs e s t token v at k pre =
      let others = held (remove b.id e.heap) in
      let mine = focus e.manager b.id t e.heap at v.owned in
      elim (Bool-cases (is_done s token)) [
        | inl over ↦
            let (a, eq, owned, le) = free-Owned e.manager t others mine in
            let m = with_alloc e.manager a in
            let s' : EngineSequence P = record s { status = SeqStatus.finished } in
            rw (over, eq)
              (renewed-Sampling b bs e m e.sampler s' new_sequence (put b.id new_sequence e.heap) v
                (unfocus m b.id new_sequence e.heap owned) refl
                (λ j. find-put b.id j new_sequence e.heap)
                (record {
                  prompt = k.prompt;
                  decoded = k.decoded;
                  pending = λ x. absurd (cc (pre, x));
                  fit = omega arith;
                }))
        | inr on ↦ elim (Bool-cases (e.prefix_cache && b.was_prefill)) [
          | inl register ↦
              rw (on, register)
                (Ensures-bind OnlyOverflow _ _ (register_prefix e.manager t b.prefill_ctx) _
                  (register_prefix-Owned e.manager t b.prefill_ctx others mine)
                  (λ m o.
                    renewed-Sampling b bs e m e.sampler s t e.heap v
                      (refocus m b.id t e.heap at o.0) o.1.same_size (same_heap e.heap b.id t at)
                      (record {
                        prompt = k.prompt;
                        decoded = k.decoded;
                        pending = k.pending;
                        fit =
                            omega
                              (arith, k.fit, blocks_for-manager e.manager m t.length o.1.same_size);
                      })))
          | inr plain ↦
              rw (on, plain)
                (renewed-Sampling b bs e e.manager e.sampler s t e.heap v v.owned refl
                  (same_heap e.heap b.id t at) k)
        ]
      ]

  sampler_moved :
      (bs : List Batched) (e : EngineState F P R) (r : R)
      → Sampling bs e
      → Sampling bs (record e { sampler = r })
  sampler_moved bs e r v = record {
    owned = v.owned;
    sized = v.sized;
    once = v.once;
    half = v.half;
    known = v.known;
    low = v.low;
    empty = v.empty;
    among = v.among;
    distinct = v.distinct;
    width = v.width;
  }

module _ {F P R : Type 0} (E : Error → Type 0) (overflow : E signed_overflow)
    (sample : R → List F → P → Result (ℕ × R))
    (answers : (rng : R) (row : List F) (params : P)
      → Ensures E (λ r. Unit) (sample rng row params)) where
  sample_one-Sampling :
      (logits : Tensor F) (w k : ℕ) (b : Batched) (bs : List Batched) (e : EngineState F P R)
      → k * w + w ≤ length logits.data_
      → Sampling w (b ∷ bs) e
      → Ensures E (λ r. Sampling w bs r.1) (sample_one sample logits k b e)
  unfolding sample_one extended
  sample_one-Sampling logits w k b bs e inside v =
      let (s, t, at, at', prompt, fit) = v.half b.id v.among.0 in
      let row = take e.vocab_size (drop (k * e.vocab_size) logits.data_) in
      let inside' : k * e.vocab_size + e.vocab_size ≤ length logits.data_ = rw v.width inside in
      rw (at, at', slice_in logits.data_ (k * e.vocab_size) e.vocab_size inside')
        (Ensures-bind E (λ r. Unit) _ (sample e.sampler row s.request.params) _
          (answers e.sampler row s.request.params)
          (λ r u.
            allowed E overflow (λ x. Sampling w bs x.1)
              (settle (record e { sampler = r.1 }) b (extended s r.0) t r.0)
              (settle-Sampling w b bs (record e { sampler = r.1 }) (extended s r.0) t r.0
                (sampler_moved w (b ∷ bs) e r.1 v) at'
                (extended-SeqOk e.manager s (extended s r.0) t prompt refl
                  (omega (arith, length-append s.output (r.0 ∷ []))) fit)
                refl)))

  -- One token for every entry of the batch.
  pub sample_loop-Sampling :
      (logits : Tensor F) (w k : ℕ) (bs : List Batched) (any : Bool) (e : EngineState F P R)
      → (k + length bs) * w ≤ length logits.data_
      → Sampling w bs e
      → Ensures E (λ r. Sampling w [] r.1) (sample_loop sample logits k bs any e)
  unfolding sample_loop
  sample_loop-Sampling logits w k [] any e inside v = v
  sample_loop-Sampling logits w k (b ∷ bs) any e inside v =
      let next : k + length (b ∷ bs) ≡ k + 1 + length bs = omega arith in
      Ensures-bind E (λ r. Sampling w bs r.1) _ (sample_one sample logits k b e) _
        (sample_one-Sampling logits w k b bs e
          (omega (arith, mul-le-mul_right {m = suc k} {n = k + length (b ∷ bs)} w (omega arith))) v)
        (λ r v'. sample_loop-Sampling logits w (k + 1) bs (any || r.0) r.1 (rw (← next) inside) v')
