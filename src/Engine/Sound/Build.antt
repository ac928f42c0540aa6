-- ===== src/Engine/Sound/Build.antt =====
-- Preemption and the retries of the assembly: they end, and leave a batch that the pool can serve.
use from_scratch_inference_e.Base.{
  ◌∙◌, ℕ, zero, suc, ◌+◌, ◌≤◌, ◌<◌, ◌≡◌, refl, List, [], ◌∷◌, Option, some, none, arith, true,
  false, not, ◌||◌, leb, ◌==◌, count, one_if, length, length-append, All, ==_refl, Bool-cases, inl,
  inr, ◌⊎◌, ok, Ensures, Ensures-bind, Ensures-mono,
}
use from_scratch_inference_e.Base.Dict.{find, put, remove}
use from_scratch_inference_e.Manager.State.{SequenceBlocks, free_blocks, new_sequence}
use from_scratch_inference_e.Allocator.{BlockAllocator}
use from_scratch_inference_e.Manager.Owned.{OnlyOverflow}
use from_scratch_inference_e.Manager.Owned.Free.{with_alloc, free-Owned}
use from_scratch_inference_e.Batch.{Heap, prepare}
use from_scratch_inference_e.Batch.Heap.{held, focus, unfocus}
use from_scratch_inference_e.Batch.Budget.{Ready, DistinctItems, costs}
use from_scratch_inference_e.Batch.Prepare.{prepare_fits, Prepares}
use from_scratch_inference_e.Engine.State.{EngineSequence, EngineState, SeqStatus}
use from_scratch_inference_e.Engine.Assemble.{Plan, assemble}
use from_scratch_inference_e.Engine.Preempt.{youngest, requeue, preempt_youngest, planned, build}
use from_scratch_inference_e.Engine.Step.{items}
use from_scratch_inference_e.Engine.Sound.{SeqOk, Seq-manager, Seq-put, Sound, queued}
use from_scratch_inference_e.Engine.Sound.Plan.{Planned, assemble-Planned, absent-put}

-- The chosen id is one of the list, and the others keep their places.
abbrev Picks : List ℕ → Option (ℕ × List ℕ) → Type 0
Picks ids none = Unit
Picks ids (some (id, rest)) =
    ((j : ℕ) → count j ids ≡ one_if id j + count j rest) × (length ids ≡ suc (length rest))

youngest-Picks :
    (h : Heap) (ids : List ℕ)
    → ((id : ℕ) → 0 < count id ids → (b : SequenceBlocks) × (find id h ≡ some b))
    → (r : Option (ℕ × List ℕ)) × (youngest h ids ≡ ok r) × Picks ids r
unfolding youngest
youngest-Picks h [] known = (none, refl, tt)
youngest-Picks h (id ∷ ids) known =
    let (b, at) = known id (ground (arith, ==_refl id)) in
    let (later, e, picks) = youngest-Picks h ids (λ j lt. known j (omega arith)) in
    go b at later e picks
  where
    go :
        (b : SequenceBlocks)
        → find id h ≡ some b
        → (later : Option (ℕ × List ℕ)) → youngest h ids ≡ ok later
        → Picks ids later
        → (r : Option (ℕ × List ℕ)) × (youngest h (id ∷ ids) ≡ ok r) × Picks (id ∷ ids) r
    go b at (some (found, rest)) e (c, l) =
        (some (found, id ∷ rest), rw (e) refl, ((λ j. omega (arith, c j)), omega (arith, l)))
    go b at none e picks = elim (Bool-cases (length b.block_table == 0)) [
      | inl bare ↦ (none, rw (e, at, bare) refl, tt)
      | inr holds ↦ (some (id, ids), rw (e, at, holds) refl, ((λ j. refl), refl))
    ]

module _ {F P R : Type 0} where
  -- A sound engine after one sequence went back to the queue.
  pub record Requeued (e e' : EngineState F P R) : Type 0 where
    pub sound : Sound e'
    pub fewer : length e.running ≡ suc (length e'.running)
    pub width : e'.vocab_size ≡ e.vocab_size

  requeue-Requeued :
      (e : EngineState F P R) (id : ℕ) (rest : List ℕ)
      → Sound e
      → Picks e.running (some (id, rest))
      → (e' : EngineState F P R) × (requeue id rest e ≡ ok e') × Requeued e e'
  unfolding requeue
  requeue-Requeued e id rest v (c, l) =
      let (s, b, at, at', k) = v.known id (ground (arith, c id, ==_refl id)) in
      let (a, eq, owned, le) =
        free-Owned e.manager b (held (remove id e.heap))
          (focus e.manager id b e.heap at' v.owned) in
      let m = with_alloc e.manager a in
      let s' : EngineSequence P = record s { prefilled = false; status = SeqStatus.waiting } in
      let fine : SeqOk m s' new_sequence = record {
        prompt = k.prompt;
        decoded = λ x. absurd (cc x);
        pending = λ x. omega (arith, k.prompt, length-append s.request.prompt s.output);
        fit = omega arith;
      } in
      let moved : (j : ℕ) → count j (id ∷ e.waiting) + count j rest ≡ queued e j =
        λ j. omega (arith, c j) in
      (
        record e {
          manager = m;
          heap = put id new_sequence e.heap;
          sequences = put id s' e.sequences;
          running = rest;
          waiting = id ∷ e.waiting;
          preemptions = e.preemptions + 1;
        },
        rw (at, at', eq) refl,
        record {
          sound = record {
            owned = unfocus m id new_sequence e.heap owned;
            sized = v.sized;
            once = λ j. omega (arith, v.once j, moved j);
            known = λ j h. Seq-put m e.sequences e.heap id j s' new_sequence fine (
                Seq-manager e.manager m e.sequences e.heap j refl
                  (v.known j (omega (arith, moved j))));
            low = λ j h. v.low j (omega (arith, moved j));
            empty = λ j n. absent-put e.heap id j b new_sequence at' (v.empty j n);
          };
          fewer = l;
          width = refl;
        },
      )

  preempt_youngest-Requeued :
      (e : EngineState F P R)
      → Sound e
      → (preempt_youngest e ≡ ok (false, e))
        ⊎ ((e' : EngineState F P R) × (preempt_youngest e ≡ ok (true, e')) × Requeued e e')
  unfolding preempt_youngest
  preempt_youngest-Requeued e v =
      let (r, eq, picks) =
        youngest-Picks e.heap e.running
          (λ id h. let (s, b, at, at', k) = v.known id (omega arith) in (b, at')) in
      go r eq picks
    where
      go :
          (r : Option (ℕ × List ℕ))
          → youngest e.heap e.running ≡ ok r
          → Picks e.running r
          → (preempt_youngest e ≡ ok (false, e))
            ⊎ ((e' : EngineState F P R) × (preempt_youngest e ≡ ok (true, e')) × Requeued e e')
      go none eq picks = inl (rw eq refl)
      go (some (id, rest)) eq picks =
          let (e', eq', q) = requeue-Requeued e id rest v picks in inr (e', rw (eq, eq') refl, q)

  -- A sound engine with a batch that its pool can serve.
  pub record Built (r : EngineState F P R × Plan F) : Type 0 where
    pub sound : Sound r.0
    pub ready : All (Ready r.0.manager r.0.heap) (items r.1.entries)
    pub distinct : DistinctItems (items r.1.entries)
    pub within : costs r.0.manager r.0.heap (items r.1.entries) ≤ free_blocks r.0.manager
    pub among : All (λ b. 0 < queued r.0 b.id) r.1.entries

  abbrev Assembled : EngineState F P R → Plan F → Type 0
  Assembled e p =
      Planned e.sequences (λ id. 0 < queued e id) (λ id. e.next_id ≤ id) (free_blocks e.manager) []
        p

  planned-Sound :
      (e : EngineState F P R) (p : Plan F) → Sound e → Assembled e p → Sound (planned e p)
  planned-Sound e p v a = record {
    owned = a.owned;
    sized = a.sized;
    once = v.once;
    known = a.known;
    low = v.low;
    empty = a.absent;
  }

  planned-Built :
      (e : EngineState F P R) (p : Plan F) → Sound e → Assembled e p → Built (planned e p, p)
  planned-Built e p v a = record {
    sound = planned-Sound e p v a;
    ready = a.ready;
    distinct = a.distinct;
    within = omega (arith, a.within, a.same_free);
    among = a.among;
  }

  pub build-Built :
      (fuel : ℕ) (e : EngineState F P R)
      → Sound e
      → length e.running < fuel
      → Ensures OnlyOverflow (λ r. Built r × (r.0.vocab_size ≡ e.vocab_size)) (build fuel e)
  unfolding build
  build-Built zero e v lt = elim lt [ ]
  build-Built (suc fuel) e v lt =
      Ensures-bind OnlyOverflow (Assembled e) (λ r. Built r × (r.0.vocab_size ≡ e.vocab_size))
        (assemble e) _ (assemble-Planned e v)
        (λ p a. elim (Bool-cases (not (length p.entries == 0) || leb (length e.running) 1)) [
          | inl stop ↦ rw stop (planned-Built e p v a, refl)
          | inr retry ↦ elim (preempt_youngest-Requeued (planned e p) (planned-Sound e p v a)) [
            | inl eq ↦ rw (retry, eq) (planned-Built e p v a, refl)
            | inr (e', eq, q) ↦
                rw (retry, eq)
                  (Ensures-mono OnlyOverflow (λ r. Built r × (r.0.vocab_size ≡ e'.vocab_size))
                    (λ r. Built r × (r.0.vocab_size ≡ e.vocab_size)) (build fuel e')
                    (build-Built fuel e' q.sound (omega (arith, q.fewer)))
                    (λ r b. (b.0, b.1 ∙ q.width)))
          ]
        ])

  -- On an engine whose state is sound, the retries of a step end within its fuel, and fail only where
  -- a count would leave `int32_t`. Else the state is sound, every batched sequence is a queued one of
  -- its own, and the batched forward pass grows all their tables without an exception, from free
  -- blocks alone.
  pub build-Serves :
      (e : EngineState F P R)
      → Sound e
      → Ensures OnlyOverflow
          (λ r.
            Built r
            × (a : BlockAllocator) × (h' : Heap) × (prepare (items r.1.entries) r.0.manager r.0.heap
                ≡ ok (with_alloc r.0.manager a, h'))
            × Prepares (items r.1.entries) r.0.manager r.0.heap a h')
          (build (length e.running + 1) e)
  build-Serves e v =
      Ensures-mono OnlyOverflow (λ r. Built r × (r.0.vocab_size ≡ e.vocab_size)) _
        (build (length e.running + 1) e) (build-Built (length e.running + 1) e v (omega arith))
        (λ r (b, w).
          let (a, h', eq, p) =
            prepare_fits (items r.1.entries) r.0.manager r.0.heap b.sound.owned b.ready b.distinct
              b.within in
          (b, a, h', eq, p))
