-- ===== src/Engine/Sound/Share.antt =====
-- Sharing a prefix leaves a running sequence with tokens to feed and a table that its rows fill.
use from_scratch_inference_e.Base.{
  ℕ, zero, suc, ◌+◌, ◌*◌, ◌/◌, ◌≤◌, ◌≡◌, refl, List, [], ◌∷◌, ◌++◌, Option, some, none, arith,
  length, length-append, take, drop, Bool-cases, inl, inr, ◌⊎◌, Result, ok, err, Error, ◌>>=◌,
  Ensures, Ensures-bind,
}
use native.Mathlib.Nat.{mul-div-le, mul-le-mul_right}
use from_scratch_inference_e.Base.Dict.{put}
use from_scratch_inference_e.Allocator.{BlockAllocator}
use from_scratch_inference_e.Allocator
use from_scratch_inference_e.Manager.State.{SequenceBlocks, PrefixEntry, BlockManager}
use from_scratch_inference_e.Manager.Hash.{hash_block}
use from_scratch_inference_e.Manager.Prefix.Lookup.{touch, bucket}
use from_scratch_inference_e.Manager.Prefix.{acquire_loop, acquire_shared_prefix, is_fresh}

abbrev pub Anything : Error → Type 0
Anything e = Unit

pub Ensures-both {ℓ} :
    {A : Type ℓ} (E : Error → Type 0) (P Q : A → Type 0) (m : Result A)
    → Ensures E P m
    → Ensures Anything Q m
    → Ensures E (λ a. P a × Q a) m
Ensures-both E P Q (ok a) p q = (p, q)
Ensures-both E P Q (err e) p q = p

module _ {ℓ} {F : Type ℓ} where
  abbrev Bounded : BlockManager F → Result (BlockManager F × List ℕ) → ℕ → Type 0
  Bounded m r n = Ensures Anything (λ x. (length x.1 ≤ n) × (x.0.block_size ≡ m.block_size)) r

  widen :
      (m : BlockManager F) (n n' : ℕ)
      → n ≤ n'
      → (r : Result (BlockManager F × List ℕ)) → Bounded m r n
      → Bounded m r n'
  widen m n n' le (ok x) (a, b) = (omega arith, b)
  widen m n n' le (err e) b = tt

  -- At most one block for each round.
  acquire_loop-length :
      (rounds parent : ℕ) (rest : List ℕ) (m : BlockManager F) (table : List ℕ)
      → Ensures Anything
          (λ r. (length r.1 ≤ length table + rounds) × (r.0.block_size ≡ m.block_size))
          (acquire_loop rounds parent rest m table)
  unfolding acquire_loop
  acquire_loop-length zero parent rest m table = (omega arith, refl)
  acquire_loop-length (suc rounds) parent rest m table =
      go (touch parent m.block_size span (m.tick + 1) (bucket h m.prefix)) (λ a block es.
        acquire_loop-length rounds h (drop m.block_size rest)
          (record m { alloc = a; prefix = put h es m.prefix; tick = m.tick + 1 })
          (table ++ block ∷ []))
    where
      span : List ℕ
      span = take m.block_size rest

      h : ℕ
      h = hash_block parent span

      go :
          (r : Option (ℕ × List PrefixEntry))
          → ((a : BlockAllocator) (block : ℕ) (es : List PrefixEntry)
              → Bounded m
                  (acquire_loop rounds h
                    (drop m.block_size rest)
                    (record m { alloc = a; prefix = put h es m.prefix; tick = m.tick + 1 })
                    (table ++ block ∷ []))
                  (length (table ++ block ∷ []) + rounds))
          → Bounded m
              (elim r [
                | none ↦ ok (m, table)
                | some (block, entries) ↦ Allocator.incref m.alloc block >>= λ a.
                    acquire_loop rounds h
                      (drop m.block_size rest)
                      (record m { alloc = a; prefix = put h entries m.prefix; tick = m.tick + 1 })
                      (table ++ block ∷ [])
              ])
              (length table + suc rounds)
      go none ih = (omega arith, refl)
      go (some (block, es)) ih = after (Allocator.incref m.alloc block)
        where
          size : length (table ++ block ∷ []) + rounds ≡ length table + suc rounds
          size = omega (arith, length-append table (block ∷ []))

          after :
              (r : Result BlockAllocator)
              → Bounded m
                  (r >>= λ a.
                    acquire_loop rounds h
                      (drop m.block_size rest)
                      (record m { alloc = a; prefix = put h es m.prefix; tick = m.tick + 1 })
                      (table ++ block ∷ []))
                  (length table + suc rounds)
          after (ok a) = widen m _ _ (omega (arith, size)) _ (ih a block es)
          after (err e) = tt

  -- What the sequence gets: it is as it was, or its shared rows fill its table and are tokens it has.
  abbrev pub Shared : BlockManager F → SequenceBlocks → ℕ → SequenceBlocks → Type 0
  Shared m seq n b = (b ≡ seq) ⊎ ((b.length ≤ n) × (b.length ≡ length b.block_table * m.block_size))

  pub acquire_shared_prefix-Shared :
      (m : BlockManager F) (seq : SequenceBlocks) (tokens : List ℕ)
      → Ensures Anything
          (λ r. Shared m seq (length tokens) r.1)
          (acquire_shared_prefix m seq tokens)
  unfolding acquire_shared_prefix
  acquire_shared_prefix-Shared m seq tokens = elim (Bool-cases (is_fresh seq)) [
    | inr used ↦ rw used (inl refl)
    | inl fresh ↦ rw fresh (
        Ensures-bind Anything
          (λ r. (length r.1 ≤ length tokens / m.block_size) × (r.0.block_size ≡ m.block_size)) _
          (acquire_loop (length tokens / m.block_size) 0 tokens m []) _
          (widen m _ _ (omega arith) _
            (acquire_loop-length (length tokens / m.block_size) 0 tokens m []))
          λ r b. inr (rows r b.0 b.1))
  ]
    where
      rows :
          (r : BlockManager F × List ℕ)
          → length r.1 ≤ length tokens / m.block_size
          → r.0.block_size ≡ m.block_size
          → (length r.1 * r.0.block_size ≤ length tokens)
            × (length r.1 * r.0.block_size ≡ length r.1 * m.block_size)
      rows r le same =
          let e : length r.1 * r.0.block_size ≡ length r.1 * m.block_size = rw same refl in
          (
            omega (
              arith,
              e,
              mul-le-mul_right m.block_size le,
              mul-div-le (length tokens) m.block_size,
            ),
            e,
          )
