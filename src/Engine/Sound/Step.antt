-- ===== src/Engine/Sound/Step.antt =====
-- A whole step keeps the scheduler sound.
use from_scratch_inference_e.Base.{
  ℕ, suc, ◌+◌, ◌*◌, ◌≤◌, ◌<◌, ◌≡◌, refl, sym, subst, ap, ◌∙◌, List, [], ◌∷◌, some, arith, Bool,
  true, false, not, ◌==◌, count, length, All, Bool-cases, inl, inr, ◌⊎◌, Result, ok, Error, Ensures,
  Ensures-bind, Ensures-mono, signed_overflow, ==_refl,
}
use native.Mathlib.Decide.{ℕ_discrete}
use from_scratch_inference_e.Base.Dict.{find}
use from_scratch_inference_e.Allocator.{BlockAllocator}
use from_scratch_inference_e.Tensor.{Tensor}
use from_scratch_inference_e.Manager.State.{SequenceBlocks, BlockManager}
use from_scratch_inference_e.Manager.Owned.Free.{with_alloc}
use from_scratch_inference_e.Batch.{Heap, BatchItem, Work, LayerResult, forward_batch}
use from_scratch_inference_e.Batch.Budget.{Fit, Others, blocks_for-manager}
use from_scratch_inference_e.Batch.Prepare.{
  FitAt, Prepares, Commits, prepare_fits, works-total, commit_items-Commits,
}
use from_scratch_inference_e.Engine.State.{EngineSequence, EngineState}
use from_scratch_inference_e.Engine.Admit.{admit}
use from_scratch_inference_e.Engine.Assemble.{Batched, Plan}
use from_scratch_inference_e.Engine.Preempt.{build}
use from_scratch_inference_e.Engine.Sample.{sample_loop}
use from_scratch_inference_e.Engine.Step.{
  items, is_finished, still_running, retire, run_batch, step,
}
use from_scratch_inference_e.Engine.Sound.{Seq-manager, Sound, queued}
use from_scratch_inference_e.Engine.Sound.Admit.{admit-Sound}
use from_scratch_inference_e.Engine.Sound.Build.{Built, build-Built}
use from_scratch_inference_e.Engine.Sound.Sample.{allowed, Sampling, sample_loop-Sampling}

still_running-total :
    {P : Type 0} (sequences : List (ℕ × EngineSequence P)) (ids : List ℕ)
    → ((id : ℕ) → 0 < count id ids → (s : EngineSequence P) × (find id sequences ≡ some s))
    → (left : List ℕ) × (still_running sequences ids ≡ ok left)
      × ((id : ℕ) → count id left ≤ count id ids)
unfolding still_running
still_running-total sequences [] known = ([], refl, λ id. omega arith)
still_running-total sequences (id ∷ ids) known =
    let (s, at) = known id (ground (arith, ==_refl id)) in
    let (left, e, le) = still_running-total sequences ids (λ j h. known j (omega arith)) in
    elim (Bool-cases (is_finished s.status)) [
      | inl over ↦ (left, rw (at, e, over) refl, λ j. omega (arith, le j))
      | inr on ↦ (id ∷ left, rw (at, e, on) refl, λ j. omega (arith, le j))
    ]

-- Sound, with a vocabulary of that size.
abbrev pub SoundAt : {F P R : Type 0} → ℕ → EngineState F P R → Type 0
SoundAt w e = Sound e × (e.vocab_size ≡ w)

module _ {F P R : Type 0} (E : Error → Type 0) where
  retire-Sound :
      (w : ℕ) (any : Bool) (e : EngineState F P R)
      → Sampling w [] e
      → Ensures E (SoundAt w) (retire any e)
  unfolding retire
  retire-Sound w false e v = (
    record {
      owned = v.owned;
      sized = v.sized;
      once = v.once;
      known = λ id q. v.known id q tt;
      low = v.low;
      empty = v.empty;
    },
    v.width,
  )
  retire-Sound w true e v =
      let (left, eq, le) =
        still_running-total e.sequences e.running
          (λ id h. let (s, b, at, at', k) = v.known id (omega arith) tt in (s, at)) in
      rw eq (
        record {
          owned = v.owned;
          sized = v.sized;
          once = λ id. omega (arith, v.once id, le id);
          known = λ id q. v.known id (omega (arith, le id)) tt;
          low = λ id q. v.low id (omega (arith, le id));
          empty = v.empty;
        },
        v.width,
      )

in_or_other :
    {F : Type 0} (m : BlockManager F) (id : ℕ) (is : List BatchItem) (h : Heap)
    → All (FitAt m h) is
    → Others id is ⊎ ((t : SequenceBlocks) × (find id h ≡ some t) × Fit m t)
in_or_other m id [] h fits = inl tt
in_or_other m id (i ∷ is) h ((t, at, fit), fits) = elim (ℕ_discrete i.blocks id) [
  | yes here ↦ inr (t, subst (λ x. find x h ≡ some t) here at, fit)
  | no away ↦ elim (in_or_other m id is h fits) [ inl o ↦ inl (away, o) | inr found ↦ inr found ]
]

fresh-Others :
    (Q : ℕ → Type 0) (n id : ℕ) (bs : List Batched)
    → ((j : ℕ) → Q j → j < n)
    → n ≤ id
    → All (λ b. Q b.id) bs
    → Others id (items bs)
fresh-Others Q n id [] low le among = tt
fresh-Others Q n id (b ∷ bs) low le (q, among) =
    ((λ x. absurd (omega (arith, low b.id q, x))), fresh-Others Q n id bs low le among)

module _ {F P R : Type 0} where
  -- The engine after the batched forward pass.
  abbrev forwarded : EngineState F P R → BlockAllocator → LayerResult F → Heap → EngineState F P R
  forwarded e a out h = record e {
    manager = record (with_alloc e.manager a) { keys = out.keys; values = out.values };
    heap = h;
  }

  forwarded-Sampling :
      (e : EngineState F P R) (p : Plan F) (a : BlockAllocator) (h' h'' : Heap)
      (out : LayerResult F)
      → Built (e, p)
      → Prepares (items p.entries) e.manager e.heap a h'
      → Commits e.manager (items p.entries) h' h''
      → Sampling e.vocab_size p.entries (forwarded e a out h'')
  forwarded-Sampling e p a h' h'' out v pr c =
      let m = (forwarded e a out h'').manager in
      let still : (id : ℕ) → Others id (items p.entries) → find id h'' ≡ find id e.heap =
        λ id o. c.untouched id o ∙ pr.untouched id o in
      record {
        owned =
            rw c.same
              (record { valid = pr.owned.valid; counted = pr.owned.counted; keys = pr.owned.keys });
        sized = v.sound.sized;
        once = v.sound.once;
        half = λ id q.
            let (s, b, at, at', k) = v.sound.known id q in
            elim (in_or_other e.manager id (items p.entries) h'' c.fit) [
              | inl o ↦ (
                s,
                b,
                at,
                still id o ∙ at',
                k.prompt,
                omega (arith, k.fit, blocks_for-manager e.manager m b.length refl),
              )
              | inr (t, found, fit) ↦ (
                s,
                t,
                at,
                found,
                k.prompt,
                omega (arith, fit, blocks_for-manager e.manager m t.length refl),
              )
            ];
        known = λ id q o.
            let (s, b, at, at', k) =
              Seq-manager e.manager m e.sequences e.heap id refl (v.sound.known id q) in
            (s, b, at, still id o ∙ at', k);
        low = v.sound.low;
        empty = λ id n.
            still id
              (fresh-Others (λ j. 0 < queued e j) e.next_id id p.entries v.sound.low n v.among)
            ∙ v.sound.empty id n;
        among = v.among;
        distinct = v.distinct;
        width = refl;
      }

length-items : (bs : List Batched) → length (items bs) ≡ length bs
length-items [] = refl
length-items (b ∷ bs) = ap suc (length-items bs)

-- What is asked of the layers: where they answer, they give a row of logits for each item.
abbrev pub Answers :
    {F : Type 0} (E : Error → Type 0)
    → ℕ
    → (List (List F) → List (List F) → List Work → Result (LayerResult F))
    → Type 0
Answers {F = F} E w layers =
    (keys values : List (List F)) (ws : List Work)
    → Ensures E (λ r. length ws * w ≤ length r.logits.data_) (layers keys values ws)

module _ {F P R : Type 0} (E : Error → Type 0) (overflow : E signed_overflow)
    (layers : List (List F) → List (List F) → List Work → Result (LayerResult F)) where
  -- What the forward pass leaves to the sampling.
  abbrev Forwarded : EngineState F P R → List Batched → BlockManager F × Heap × Tensor F → Type 0
  Forwarded e bs r =
      Sampling e.vocab_size bs (record e { manager = r.0; heap = r.1 })
      × (length bs * e.vocab_size ≤ length r.2.data_)

  forward_batch-Forwarded :
      (e : EngineState F P R) (p : Plan F)
      → Answers E e.vocab_size layers
      → length p.entries == 0 ≡ false
      → Built (e, p)
      → Ensures E (Forwarded e p.entries) (forward_batch layers e.manager e.heap (items p.entries))
  unfolding forward_batch
  forward_batch-Forwarded e p gives some_item v =
      let is = items p.entries in
      let nonempty : not (length is == 0) ≡ true = rw (length-items p.entries, some_item) refl in
      let (a, h', eq, pr) =
        prepare_fits is e.manager e.heap v.sound.owned v.ready v.distinct v.within in
      let (ws, eq_w, len) = works-total e.manager is h' pr.grown in
      let (h'', eq_c, c) = commit_items-Commits e.manager is h' pr.grown v.distinct in
      let rows : length ws * e.vocab_size ≡ length p.entries * e.vocab_size =
        ap (λ x. x * e.vocab_size) (len ∙ length-items p.entries) in
      rw (nonempty, eq, eq_w)
        (Ensures-bind E (λ r. length ws * e.vocab_size ≤ length r.logits.data_) _
          (layers e.manager.keys e.manager.values ws) _ (gives e.manager.keys e.manager.values ws)
          (λ out size.
            rw eq_c (forwarded-Sampling e p a h' h'' out v pr c, omega (arith, rows, size))))

  module _ (sample : R → List F → P → Result (ℕ × R))
      (answers : (rng : R) (row : List F) (params : P)
        → Ensures E (λ r. Unit) (sample rng row params)) where
    run_batch-Sound :
        (e : EngineState F P R) (p : Plan F)
        → Answers E e.vocab_size layers
        → length p.entries == 0 ≡ false
        → Built (e, p)
        → Ensures E (SoundAt e.vocab_size) (run_batch sample layers e p.entries)
    unfolding run_batch
    run_batch-Sound e p gives some_item v =
        let z : 0 + length p.entries ≡ length p.entries = omega arith in
        Ensures-bind E (Forwarded e p.entries) (SoundAt e.vocab_size)
          (forward_batch layers e.manager e.heap (items p.entries)) _
          (forward_batch-Forwarded e p gives some_item v)
          (λ r f.
            Ensures-bind E (λ s. Sampling e.vocab_size [] s.1) (SoundAt e.vocab_size)
              (sample_loop sample r.2 0 p.entries false (record e { manager = r.0; heap = r.1 })) _
              (sample_loop-Sampling E overflow sample answers r.2 e.vocab_size 0 p.entries false
                (record e { manager = r.0; heap = r.1 }) (rw z f.1) f.0)
              (λ s x. retire-Sound E e.vocab_size s.0 s.1 x))

    -- On an engine whose state is sound, with layers that answer with a row of logits for each item or
    -- fail with an error of `E`, and with a sampler that answers or fails with one, a step leaves the
    -- state sound and the vocabulary as it is, or fails with an error of `E`. `E` has the overflow of a
    -- count; where it has no other, a step never runs out of blocks, frees no block twice, reads nothing
    -- outside a vector, and its retries end.
    pub step-Sound :
        (e : EngineState F P R)
        → Answers E e.vocab_size layers
        → Sound e
        → Ensures E (λ e'. Sound e' × (e'.vocab_size ≡ e.vocab_size)) (step sample layers e)
    unfolding step
    step-Sound e gives v =
        Ensures-bind E (SoundAt e.vocab_size) (SoundAt e.vocab_size) (admit e) _ (admit-Sound E e v)
          (λ e1 (v1, w1).
            Ensures-bind E (λ r. Built r × (r.0.vocab_size ≡ e1.vocab_size)) (SoundAt e.vocab_size)
              (build (length e1.running + 1) e1) _
              (allowed E overflow (λ r. Built r × (r.0.vocab_size ≡ e1.vocab_size))
                (build (length e1.running + 1) e1)
                (build-Built (length e1.running + 1) e1 v1 (omega arith)))
              (λ r (b, w2). elim (Bool-cases (length r.1.entries == 0)) [
                | inl idle ↦ rw idle (b.sound, w2 ∙ w1)
                | inr busy ↦ rw busy (
                    Ensures-mono E (SoundAt r.0.vocab_size) (SoundAt e.vocab_size)
                      (run_batch sample layers r.0 r.1.entries)
                      (run_batch-Sound r.0 r.1
                        (subst (λ w. Answers E w layers) (sym (w2 ∙ w1)) gives) busy b)
                      (λ e' s. (s.0, s.1 ∙ (w2 ∙ w1))))
              ]))
