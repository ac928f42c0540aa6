-- ===== src/Manager/Owned/Share.antt =====
-- Sharing and registering prefixes on a manager whose counts are right: no share of a free block,
-- and no failure but a count that would leave `int32_t`.
use from_scratch_inference_e.Base.{
  ℕ, zero, suc, ◌+◌, ◌*◌, ◌/◌, ◌<◌, ◌≡◌, refl, List, [], ◌∷◌, ◌++◌, Option, none, some, arith, true,
  ltb, ◌==◌, count, count-append, length, take, drop, Result, ok, err, ◌>>=◌, Ensures, Ensures-bind,
  inl, inr, Bool-cases,
}
use from_scratch_inference_e.Base.Dict.{put, put-Distinct}
use from_scratch_inference_e.Allocator.{BlockAllocator, num_free, int32_max}
use from_scratch_inference_e.Allocator
use from_scratch_inference_e.Allocator.Invariant.{IsValid, refs}
use from_scratch_inference_e.Allocator.Ops.{incref-Added, incref_overflow, Added}
use from_scratch_inference_e.Manager.State.{SequenceBlocks, PrefixEntry, BlockManager, free_blocks}
use from_scratch_inference_e.Manager.Hash.{hash_block}
use from_scratch_inference_e.Manager.Prefix.Lookup.{matches, touch, bucket}
use from_scratch_inference_e.Manager.Prefix.{acquire_loop, acquire_shared_prefix, is_fresh, shared}
use from_scratch_inference_e.Manager.Owned.{
  Owned, blocks, count-cached-put, count-bucket-le, OnlyOverflow,
}
use from_scratch_inference_e.Manager.Owned.Grow.{Owned-perm, count-moved}

-- A hit names a block of the bucket, and only renews a tick.
abbrev Touched : List PrefixEntry → Option (ℕ × List PrefixEntry) → Type 0
Touched es none = Unit
Touched es (some (block, es')) =
    ((b : ℕ) → count b (blocks es') ≡ count b (blocks es)) × (0 < count block (blocks es))

touch-Touched :
    (parent size : ℕ) (span : List ℕ) (now : ℕ) (es : List PrefixEntry)
    → Touched es (touch parent size span now es)
unfolding touch
touch-Touched parent size span now [] = tt
touch-Touched parent size span now (e ∷ es) = elim (Bool-cases (matches parent size span e)) [
  | inl hit ↦ rw hit (λ b. refl, ground arith)
  | inr miss ↦
      rw miss (later (touch parent size span now es) (touch-Touched parent size span now es))
]
  where
    later :
        (r : Option (ℕ × List PrefixEntry))
        → Touched es r
        → Touched (e ∷ es) (elim r [ none ↦ none | some (block, es') ↦ some (block, e ∷ es') ])
    later none t = tt
    later (some (block, es')) t = (λ b. omega (arith, t.0 b), omega (arith, t.1))

-- One more holder of a held block: it succeeds, or the count would overflow.
pub incref-Ensures :
    (a : BlockAllocator) (b : ℕ)
    → IsValid a
    → 0 < refs a b
    → Ensures OnlyOverflow (Added a b) (Allocator.incref a b)
incref-Ensures a b v pos = elim (Bool-cases (ltb (refs a b) int32_max)) [
  | inl fits ↦ let (a', e, d) = incref-Added a v b pos (ground arith) in rw e d
  | inr full ↦ rw (incref_overflow a v b pos (ground arith)) refl
]

module _ {ℓ} {F : Type ℓ} where
  -- What a call that shares or registers leaves alone.
  pub record Keeps (m m' : BlockManager F) : Type 0 where
    pub same_free : free_blocks m' ≡ free_blocks m
    pub same_size : m'.block_size ≡ m.block_size

  pub Keeps-trans : (m m' m'' : BlockManager F) → Keeps m m' → Keeps m' m'' → Keeps m m''
  Keeps-trans m m' m'' k l = record {
    same_free = omega (arith, k.same_free, l.same_free);
    same_size = cc (k.same_size, l.same_size);
  }

  -- The map with the bucket renewed, and one more holder of the block.
  renew-Owned :
      (m : BlockManager F) (held : List ℕ) (h t block : ℕ) (es : List PrefixEntry)
      (a : BlockAllocator)
      → Owned m held
      → Touched (bucket h m.prefix) (some (block, es))
      → Added m.alloc block a
      → Owned (record m { alloc = a; prefix = put h es m.prefix; tick = t }) (block ∷ held)
  renew-Owned m held h t block es a o (same, pos) d = record {
    valid = d.valid;
    counted =
        λ b. omega (arith, d.counted b, o.counted b, count-cached-put b h es m.prefix, same b);
    keys = put-Distinct h es m.prefix o.keys;
  }

  Touched-held :
      (m : BlockManager F) (held : List ℕ) (h block : ℕ) (es : List PrefixEntry)
      → Owned m held
      → Touched (bucket h m.prefix) (some (block, es))
      → 0 < refs m.alloc block
  Touched-held m held h block es o t =
      omega (arith, o.counted block, count-bucket-le block h m.prefix, t.1)

  abbrev Acquired : BlockManager F → List ℕ → BlockManager F × List ℕ → Type 0
  Acquired m held r = Owned r.0 (r.1 ++ held) × Keeps m r.0

  Acquired-after :
      (m m' : BlockManager F) (held : List ℕ)
      → Keeps m m'
      → (r : Result (BlockManager F × List ℕ)) → Ensures OnlyOverflow (Acquired m' held) r
      → Ensures OnlyOverflow (Acquired m held) r
  Acquired-after m m' held k (ok r) (w, k') = (w, Keeps-trans m m' r.0 k k')
  Acquired-after m m' held k (err e) x = x

  acquire_loop-Owned :
      (rounds parent : ℕ) (rest : List ℕ) (m : BlockManager F) (table held : List ℕ)
      → Owned m (table ++ held)
      → Ensures OnlyOverflow (Acquired m held) (acquire_loop rounds parent rest m table)
  unfolding acquire_loop
  acquire_loop-Owned zero parent rest m table held o =
      (o, record { same_free = refl; same_size = refl })
  acquire_loop-Owned (suc rounds) parent rest m table held o =
      go (touch parent m.block_size span (m.tick + 1) (bucket h m.prefix))
        (touch-Touched parent m.block_size span (m.tick + 1) (bucket h m.prefix))
        (λ a block es.
          acquire_loop-Owned rounds h (drop m.block_size rest) (next a es) (table ++ block ∷ [])
            held)
    where
      span : List ℕ
      span = take m.block_size rest

      h : ℕ
      h = hash_block parent span

      next : BlockAllocator → List PrefixEntry → BlockManager F
      next a es = record m { alloc = a; prefix = put h es m.prefix; tick = m.tick + 1 }

      go :
          (r : Option (ℕ × List PrefixEntry))
          → Touched (bucket h m.prefix) r
          → ((a : BlockAllocator) (block : ℕ) (es : List PrefixEntry)
              → Owned (next a es) ((table ++ block ∷ []) ++ held)
              → Ensures OnlyOverflow (Acquired (next a es) held) (
                  acquire_loop rounds h (drop m.block_size rest) (next a es) (table ++ block ∷ [])))
          → Ensures OnlyOverflow (Acquired m held) (elim r [
            | none ↦ ok (m, table)
            | some (block, entries) ↦ Allocator.incref m.alloc block >>= λ a.
                acquire_loop rounds h
                  (drop m.block_size rest)
                  (next a entries)
                  (table ++ block ∷ [])
          ])
      go none t ih = (o, record { same_free = refl; same_size = refl })
      go (some (block, es)) t ih =
          Ensures-bind OnlyOverflow (Added m.alloc block) (Acquired m held)
            (Allocator.incref m.alloc block) _
            (incref-Ensures m.alloc block o.valid (Touched-held m (table ++ held) h block es o t))
            λ a d.
              Acquired-after m (next a es) held
                (record { same_free = d.same_free; same_size = refl }) _
                (ih a block es (
                  Owned-perm (next a es) _ _ (λ j. count-moved j block table held)
                    (renew-Owned m (table ++ held) h (m.tick + 1) block es a o t d)))

  shared-Owned :
      (m m' : BlockManager F) (table held : List ℕ)
      → Acquired m held (m', table)
      → Owned (shared m' table).0 ((shared m' table).1.block_table ++ held)
        × Keeps m (shared m' table).0
  unfolding shared
  shared-Owned m m' table held (o, k) = elim (Bool-cases (ltb 0 (length table * m'.block_size))) [
    | inl some_shared ↦ rw some_shared (
      record { valid = o.valid; counted = o.counted; keys = o.keys },
      record { same_free = k.same_free; same_size = k.same_size },
    )
    | inr nothing ↦ rw nothing (o, k)
  ]

  -- Where the counts are right, sharing a prefix keeps them right, each shared block with the sequence
  -- as one more holder, and takes no block from the pool. It fails only where a count would leave
  -- `int32_t`.
  pub acquire_shared_prefix-Owned :
      (m : BlockManager F) (seq : SequenceBlocks) (tokens held : List ℕ)
      → Owned m (seq.block_table ++ held)
      → Ensures OnlyOverflow
          (λ r. Owned r.0 (r.1.block_table ++ held) × Keeps m r.0)
          (acquire_shared_prefix m seq tokens)
  unfolding acquire_shared_prefix
  acquire_shared_prefix-Owned m seq tokens held o = elim (Bool-cases (is_fresh seq)) [
    | inl fresh ↦ rw fresh (
        Ensures-bind OnlyOverflow (Acquired m held) _
          (acquire_loop (length tokens / m.block_size) 0 tokens m []) _
          (acquire_loop-Owned (length tokens / m.block_size) 0 tokens m [] held
            (unused_table seq o fresh))
          λ r w. shared-Owned m r.0 r.1 held w)
    | inr used ↦ rw used (o, record { same_free = refl; same_size = refl })
  ]
    where
      unused_table :
          (seq : SequenceBlocks)
          → Owned m (seq.block_table ++ held)
          → is_fresh seq ≡ true
          → Owned m held
      unused_table seq o fresh =
          Owned-perm m _ _
            (λ b. ground (arith, count-append b seq.block_table held, empty seq.block_table b)) o
        where
          empty : (t : List ℕ) (b : ℕ) → (length t == 0) ≡ true → count b t ≡ 0
          empty [] b e = refl
          empty (x ∷ t) b e = absurd (ground arith)
