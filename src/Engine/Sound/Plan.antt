-- ===== src/Engine/Sound/Plan.antt =====
-- The assembly of a batch: what is batched has tokens and a sequence of its own, and draws no more
-- blocks from the pool than are free.
use from_scratch_inference_e.Base.{
  ℕ, ◌+◌, ◌-◌, ◌≤◌, ◌<◌, ◌≡◌, ◌≢◌, refl, sym, ap, ◌∙◌, List, [], ◌∷◌, ◌++◌, some, none, arith, Bool,
  ltb, count, length, All, All-append, ==_refl, Bool-cases, inl, inr, Ensures, Ensures-bind,
}
use from_scratch_inference_e.Base.Dict.{find, put, find-put}
use from_scratch_inference_e.Manager.State.{SequenceBlocks, BlockManager, blocks_for, free_blocks}
use from_scratch_inference_e.Manager.Owned.{Owned, OnlyOverflow}
use from_scratch_inference_e.Manager.Owned.Grow.{lacking}
use from_scratch_inference_e.Batch.{Heap, BatchItem}
use from_scratch_inference_e.Batch.Heap.{held}
use from_scratch_inference_e.Batch.Budget.{
  Fit, Ready, Others, DistinctItems, Ready-put, Ready-manager, costs, costs-put, costs-append,
  costs-manager, blocks_for_mono,
}
use from_scratch_inference_e.Engine.State.{EngineSequence, EngineState}
use from_scratch_inference_e.Engine.Assemble.{
  Batched, Plan, item, entry, share, plan_one, plan_loop, assemble,
}
use from_scratch_inference_e.Engine.Step.{items}
use from_scratch_inference_e.Engine.Sound.{SeqOk, Seq, Seq-manager, Seq-put_blocks, Sound, queued}
use from_scratch_inference_e.Engine.Sound.Feed.{Fed, share-Fed, step_tokens-some}

items-append : (xs : List Batched) (b : Batched) → items (xs ++ b ∷ []) ≡ items xs ++ item b ∷ []
items-append [] b = refl
items-append (x ∷ xs) b = ap (◌∷◌ (item x)) (items-append xs b)

DistinctItems-append :
    (is : List BatchItem) (i : BatchItem)
    → DistinctItems is
    → Others i.blocks is
    → DistinctItems (is ++ i ∷ [])
DistinctItems-append [] i d o = (tt, tt)
DistinctItems-append (j ∷ is) i d o = (
  All-append (λ x. x.blocks ≢ j.blocks) is (i ∷ []) d.0 ((λ e. o.0 (sym e)), tt),
  DistinctItems-append is i d.1 o.1,
)

pub absent-put :
    (h : Heap) (id j : ℕ) (b s : SequenceBlocks)
    → find id h ≡ some b
    → find j h ≡ none
    → find j (put id s h) ≡ none
absent-put h id j b s e n = ground (arith, find-put id j s h)

module _ {F P : Type 0} (sequences : List (ℕ × EngineSequence P)) (Q N : ℕ → Type 0)
    (free : ℕ) where
  -- The batch so far, with the running ids that are left. `Q` are the ids that the
  -- engine keeps, and `N` those that it has not given out.
  pub record Planned (ids : List ℕ) (p : Plan F) : Type 0 where
    pub owned : Owned p.manager (held p.heap)
    pub sized : 0 < p.manager.block_size
    pub same_free : free_blocks p.manager ≡ free
    pub within : p.budget + costs p.manager p.heap (items p.entries) ≤ free
    pub ready : All (Ready p.manager p.heap) (items p.entries)
    pub distinct : DistinctItems (items p.entries)
    pub known : (id : ℕ) → Q id → Seq p.manager sequences p.heap id
    pub left : (id : ℕ) → 0 < count id ids → Q id × Others id (items p.entries)
    pub once : (id : ℕ) → count id ids ≤ 1
    pub absent : (id : ℕ) → N id → find id p.heap ≡ none
    pub among : All (λ b. Q b.id) p.entries

  -- The plan after a sequence shared a prefix.
  abbrev fed : ℕ → Plan F → BlockManager F × SequenceBlocks → Plan F
  fed id p r = record p { manager = r.0; heap = put id r.1 p.heap }

  fed-Planned :
      (id : ℕ) (ids : List ℕ) (p : Plan F) (s : EngineSequence P) (b : SequenceBlocks)
      (r : BlockManager F × SequenceBlocks)
      → find id sequences ≡ some s
      → find id p.heap ≡ some b
      → Planned (id ∷ ids) p
      → Fed p.manager p.heap id s r
      → Planned ids (fed id p r)
  fed-Planned id ids p s b r at at' v f =
      let mine = v.left id (ground (arith, ==_refl id)) in
      let same = f.keeps.same_size in
      record {
        owned = f.owned;
        sized = rw same v.sized;
        same_free = f.keeps.same_free ∙ v.same_free;
        within = omega (
          arith,
          v.within,
          costs-manager p.manager r.0 (put id r.1 p.heap) (items p.entries) same,
          costs-put p.manager p.heap id r.1 (items p.entries) mine.1,
        );
        ready =
            Ready-manager p.manager r.0 (put id r.1 p.heap) (items p.entries) same
              (Ready-put p.manager p.heap id r.1 (items p.entries) mine.1 v.ready);
        distinct = v.distinct;
        known = λ j q.
            Seq-put_blocks r.0 sequences p.heap id j s r.1 at f.fine
              (Seq-manager p.manager r.0 sequences p.heap j same (v.known j q));
        left = λ j h. v.left j (omega arith);
        once = λ j. omega (arith, v.once j);
        absent = λ j n. absent-put p.heap id j b r.1 at' (v.absent j n);
        among = v.among;
      }

  -- The plan with one more entry.
  abbrev batched : Plan F → Batched → SequenceBlocks → Plan F
  batched p b s = record p {
    budget = p.budget + length s.block_table - blocks_for p.manager (s.length + length b.tokens);
    entries = p.entries ++ b ∷ [];
  }

  batched-within :
      (p : Plan F) (b : Batched) (s : SequenceBlocks)
      → find b.id p.heap ≡ some s
      → Fit p.manager s
      → blocks_for p.manager (s.length + length b.tokens) ≤ p.budget + length s.block_table
      → p.budget + costs p.manager p.heap (items p.entries) ≤ free
      → (batched p b s).budget + costs p.manager p.heap (items (p.entries ++ b ∷ [])) ≤ free
  batched-within p b s at fit enough le =
      let one : costs p.manager p.heap (item b ∷ []) ≡ lacking p.manager s (length b.tokens) + 0 =
        rw at refl in
      rw (items-append p.entries b) (
        omega (
          arith,
          costs-append p.manager p.heap (items p.entries) (item b ∷ []),
          one,
          blocks_for_mono p.manager s.length (s.length + length b.tokens) (omega arith),
        ))

  batched-Planned :
      (ids : List ℕ) (p : Plan F) (b : Batched) (s : SequenceBlocks)
      → find b.id p.heap ≡ some s
      → Fit p.manager s
      → 0 < length b.tokens
      → blocks_for p.manager (s.length + length b.tokens) ≤ p.budget + length s.block_table
      → Others b.id (items p.entries)
      → count b.id ids ≡ 0
      → Q b.id
      → Planned ids p
      → Planned ids (batched p b s)
  batched-Planned ids p b s at fit some_token enough other gone q v = record {
    owned = v.owned;
    sized = v.sized;
    same_free = v.same_free;
    within = batched-within p b s at fit enough v.within;
    ready = rw (items-append p.entries b) (
        All-append (Ready p.manager p.heap) (items p.entries) (item b ∷ []) v.ready
          ((s, at, some_token, fit), tt));
    distinct =
        rw (items-append p.entries b)
          (DistinctItems-append (items p.entries) (item b) v.distinct other);
    known = v.known;
    left = λ j h.
        let (q, o) = v.left j h in
        (
          q,
          rw (items-append p.entries b) (
              All-append (λ x. x.blocks ≢ j) (items p.entries) (item b ∷ []) o
                ((λ e. absurd (omega (arith, h, gone, ap (λ x. count x ids) e))), tt)),
        );
    once = v.once;
    absent = v.absent;
    among = All-append (λ x. Q x.id) p.entries (b ∷ []) v.among (q, tt);
  }

  plan_one-Planned :
      (prefix_cache : Bool) (id : ℕ) (ids : List ℕ) (p : Plan F) (s : EngineSequence P)
      (b : SequenceBlocks)
      → find id sequences ≡ some s
      → find id p.heap ≡ some b
      → SeqOk p.manager s b
      → Planned (id ∷ ids) p
      → Ensures OnlyOverflow (Planned ids) (plan_one prefix_cache id s b p)
  unfolding plan_one entry
  plan_one-Planned prefix_cache id ids p s b at at' k v =
      Ensures-bind OnlyOverflow (Fed p.manager p.heap id s) _ (share prefix_cache s b p.manager) _
        (share-Fed prefix_cache p.manager p.heap id s b v.sized at' v.owned k)
        (λ r f.
          let (tokens, e, some_token) = step_tokens-some r.0 s r.1 f.fine in
          let v' = fed-Planned id ids p s b r at at' v f in
          let wanted = blocks_for r.0 (r.1.length + length tokens) in
          rw e (elim (Bool-cases (ltb (p.budget + length r.1.block_table) wanted)) [
            | inl starved ↦ rw starved v'
            | inr room ↦ rw room (
                batched-Planned ids (fed id p r) (entry prefix_cache id s tokens) r.1
                  (ground (arith, find-put id id r.1 p.heap, ==_refl id)) f.fine.fit some_token
                  (ground arith) (v.left id (ground (arith, ==_refl id))).1
                  (ground (arith, v.once id, ==_refl id)) (v.left id (ground (arith, ==_refl id))).0
                  v')
          ]))

  plan_loop-Planned :
      (prefix_cache : Bool) (ids : List ℕ) (p : Plan F)
      → Planned ids p
      → Ensures OnlyOverflow (Planned []) (plan_loop prefix_cache sequences ids p)
  unfolding plan_loop
  plan_loop-Planned prefix_cache [] p v = v
  plan_loop-Planned prefix_cache (id ∷ ids) p v =
      let (s, b, at, at', k) = v.known id (v.left id (ground (arith, ==_refl id))).0 in
      rw (at, at')
        (Ensures-bind OnlyOverflow (Planned ids) (Planned []) (plan_one prefix_cache id s b p) _
          (plan_one-Planned prefix_cache id ids p s b at at' k v)
          (λ p' v'. plan_loop-Planned prefix_cache ids p' v'))

module _ {F P R : Type 0} where
  -- On an engine whose state is sound, the assembly fails only where a count would leave `int32_t`.
  -- Else the counts stay right, the free blocks are those it began with, every entry has tokens and a
  -- sequence of its own without spare blocks, and the blocks that the batch lacks are free.
  pub assemble-Planned :
      (e : EngineState F P R)
      → Sound e
      → Ensures OnlyOverflow
          (Planned e.sequences
            (λ id. 0 < queued e id)
            (λ id. e.next_id ≤ id)
            (free_blocks e.manager)
            [])
          (assemble e)
  unfolding assemble
  assemble-Planned e v =
      plan_loop-Planned e.sequences (λ id. 0 < queued e id) (λ id. e.next_id ≤ id)
        (free_blocks e.manager) e.prefix_cache e.running _
        (record {
          owned = v.owned;
          sized = v.sized;
          same_free = refl;
          within = omega arith;
          ready = tt;
          distinct = tt;
          known = v.known;
          left = λ id h. (omega arith, tt);
          once = λ id. omega (arith, v.once id);
          absent = v.empty;
          among = tt;
        })
