-- ===== src/Manager/Owned/Register.antt =====
-- register_prefix on a manager whose counts are right: the cache becomes one more holder of each
-- block that it takes in.
use from_scratch_inference_e.Base.{
  ℕ, zero, suc, ◌+◌, ◌/◌, ◌≤◌, ◌<◌, refl, List, [], ◌∷◌, ◌++◌, arith, count, count-append, length,
  take, drop, All, Result, ok, err, Ensures, Ensures-bind, inl, inr, Bool-cases,
}
use from_scratch_inference_e.Base.Dict.{put, put-Distinct}
use from_scratch_inference_e.Allocator.{BlockAllocator}
use from_scratch_inference_e.Allocator
use from_scratch_inference_e.Allocator.Ops.{Added}
use from_scratch_inference_e.Manager.State.{SequenceBlocks, BlockManager}
use from_scratch_inference_e.Manager.Hash.{hash_block}
use from_scratch_inference_e.Manager.Prefix.Lookup.{known, bucket}
use from_scratch_inference_e.Manager.Prefix.{register_loop, register_prefix, new_entry}
use from_scratch_inference_e.Manager.Owned.{
  Owned, count-cached-put, count-blocks-append, OnlyOverflow,
}
use from_scratch_inference_e.Manager.Owned.Share.{incref-Ensures, Keeps, Keeps-trans}

All-own :
    (table before held : List ℕ)
    → ((b : ℕ) → count b table ≤ count b before)
    → All (λ b. 0 < count b (before ++ held)) table
All-own [] before held le = tt
All-own (b ∷ table) before held le = (
  ground (arith, le b, count-append b before held),
  All-own table before held (λ j. omega (arith, le j)),
)

module _ {ℓ} {F : Type ℓ} where
  abbrev Registered : BlockManager F → List ℕ → BlockManager F → Type 0
  Registered m held m' = Owned m' held × Keeps m m'

  Registered-after :
      (m m' : BlockManager F) (held : List ℕ)
      → Keeps m m'
      → (r : Result (BlockManager F)) → Ensures OnlyOverflow (Registered m' held) r
      → Ensures OnlyOverflow (Registered m held) r
  Registered-after m m' held k (ok r) (w, k') = (w, Keeps-trans m m' r k k')
  Registered-after m m' held k (err e) x = x

  probed-Owned :
      (m : BlockManager F) (h : ℕ) (held : List ℕ)
      → Owned m held
      → Owned (record m { prefix = put h (bucket h m.prefix) m.prefix }) held
  probed-Owned m h held o = record {
    valid = o.valid;
    counted = λ b. omega (arith, o.counted b, count-cached-put b h (bucket h m.prefix) m.prefix);
    keys = put-Distinct h (bucket h m.prefix) m.prefix o.keys;
  }

  Added-Owned :
      (m : BlockManager F) (h parent block : ℕ) (span held : List ℕ) (a : BlockAllocator)
      → Owned m held
      → Added m.alloc block a
      → let es = bucket h m.prefix ++ new_entry m parent span block ∷ [] in
        Owned (record m { alloc = a; prefix = put h es m.prefix; tick = m.tick + 1 }) held
  unfolding new_entry
  Added-Owned m h parent block span held a o d =
      let es = bucket h m.prefix ++ new_entry m parent span block ∷ [] in
      record {
        valid = d.valid;
        counted = λ b. omega (
          arith,
          d.counted b,
          o.counted b,
          count-cached-put b h es m.prefix,
          count-blocks-append b (bucket h m.prefix) (new_entry m parent span block ∷ []),
        );
        keys = put-Distinct h es m.prefix o.keys;
      }

  register_loop-Owned :
      (table : List ℕ) (rounds parent : ℕ) (rest : List ℕ) (m : BlockManager F) (held : List ℕ)
      → Owned m held
      → All (λ b. 0 < count b held) table
      → Ensures OnlyOverflow (Registered m held) (register_loop rounds parent rest table m)
  unfolding register_loop
  register_loop-Owned [] rounds parent rest m held o own =
      (o, record { same_free = refl; same_size = refl })
  register_loop-Owned (block ∷ table) zero parent rest m held o own =
      (o, record { same_free = refl; same_size = refl })
  register_loop-Owned (block ∷ table) (suc rounds) parent rest m held o own =
      let span = take m.block_size rest in
      let h = hash_block parent span in
      let later = register_loop-Owned table rounds h (drop m.block_size rest) in
      elim (Bool-cases (known parent m.block_size span (bucket h m.prefix))) [
        | inl old ↦ rw old (
            Registered-after m (record m { prefix = put h (bucket h m.prefix) m.prefix }) held
              (record { same_free = refl; same_size = refl }) _
              (later _ held (probed-Owned m h held o) own.1))
        | inr new ↦ rw new (
            Ensures-bind OnlyOverflow (Added m.alloc block) (Registered m held)
              (Allocator.incref m.alloc block) _
              (incref-Ensures m.alloc block o.valid (omega (arith, o.counted block, own.0)))
              λ a d.
                Registered-after m _ held (record { same_free = d.same_free; same_size = refl }) _
                  (later _ held (Added-Owned m h parent block span held a o d) own.1))
      ]

  -- Where the counts are right, registering a sequence's blocks keeps them right and takes no block
  -- from the pool. It fails only where a count would leave `int32_t`.
  pub register_prefix-Owned :
      (m : BlockManager F) (seq : SequenceBlocks) (tokens held : List ℕ)
      → Owned m (seq.block_table ++ held)
      → Ensures OnlyOverflow
          (λ m'. Owned m' (seq.block_table ++ held) × Keeps m m')
          (register_prefix m seq tokens)
  unfolding register_prefix
  register_prefix-Owned m seq tokens held o =
      register_loop-Owned seq.block_table (length tokens / m.block_size) 0 tokens m
        (seq.block_table ++ held) o
        (All-own seq.block_table seq.block_table held (λ b. omega arith))
