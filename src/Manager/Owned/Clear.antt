-- ===== src/Manager/Owned/Clear.antt =====
-- clear_prefix_cache gives back every reference of the cache, and fails on none.
use from_scratch_inference_e.Base.{
  ℕ, ◌≤◌, ◌≡◌, refl, sym, ◌∙◌, List, [], ◌∷◌, ◌++◌, arith, count-append, Result, ok, err, ◌>>=◌,
  Result-cases, inl, inr,
}
use from_scratch_inference_e.Allocator.{BlockAllocator, num_free}
use from_scratch_inference_e.Allocator
use from_scratch_inference_e.Manager.State.{PrefixEntry, PrefixMap, BlockManager}
use from_scratch_inference_e.Manager.Prefix.{release_entries, release_buckets, clear_prefix_cache}
use from_scratch_inference_e.Manager.Pool.{free_table}
use from_scratch_inference_e.Manager.Owned.{Owned, blocks, cached}
use from_scratch_inference_e.Manager.Owned.Free.{with_alloc, free_table-Owned}

module _ {ℓ} {F : Type ℓ} where
  release_entries-eq :
      (es : List PrefixEntry) (m : BlockManager F) → release_entries es m ≡ free_table (blocks es) m
  unfolding release_entries free_table
  release_entries-eq [] m = refl
  release_entries-eq (e ∷ es) m = elim (Result-cases (Allocator.free m.alloc e.block)) [
    | inl (a, eq) ↦ rw eq (release_entries-eq es (with_alloc m a))
    | inr (x, eq) ↦ rw eq refl
  ]

  free_table-append :
      (bs cs : List ℕ) (m : BlockManager F)
      → free_table (bs ++ cs) m ≡ (free_table bs m >>= free_table cs)
  unfolding free_table
  free_table-append [] cs m = refl
  free_table-append (b ∷ bs) cs m = elim (Result-cases (Allocator.free m.alloc b)) [
    | inl (a, eq) ↦ rw eq (free_table-append bs cs (with_alloc m a))
    | inr (x, eq) ↦ rw eq refl
  ]

  release_buckets-eq :
      (p : PrefixMap) (m : BlockManager F) → release_buckets p m ≡ free_table (cached p) m
  unfolding release_buckets free_table
  release_buckets-eq [] m = refl
  release_buckets-eq ((h, es) ∷ p) m =
      rw (free_table-append (blocks es) (cached p) m)
        (rw (release_entries-eq es m) (go (free_table (blocks es) m) (release_buckets-eq p)))
    where
      go :
          (r : Result (BlockManager F))
          → ((m' : BlockManager F) → release_buckets p m' ≡ free_table (cached p) m')
          → (r >>= release_buckets p) ≡ (r >>= free_table (cached p))
      go (ok m') ih = ih m'
      go (err e) ih = refl

  -- The loop reads the allocator only.
  free_table-prefix :
      (bs : List ℕ) (p : PrefixMap) (m : BlockManager F)
      → free_table bs (record m { prefix = p })
        ≡ (free_table bs m >>= λ m'. ok (record m' { prefix = p }))
  unfolding free_table
  free_table-prefix [] p m = refl
  free_table-prefix (b ∷ bs) p m = elim (Result-cases (Allocator.free m.alloc b)) [
    | inl (a, eq) ↦ rw eq (free_table-prefix bs p (with_alloc m a))
    | inr (x, eq) ↦ rw eq refl
  ]

  -- Where the counts are right, clearing the cache never throws: the sequences stay the only holders, and no free block is lost.
  pub clear_prefix_cache-Owned :
      (m : BlockManager F) (held : List ℕ)
      → Owned m held
      → (a : BlockAllocator) × (clear_prefix_cache m ≡ ok (record m { alloc = a; prefix = [] }))
        × Owned (record m { alloc = a; prefix = [] }) held
        × (num_free m.alloc ≤ num_free a)
  unfolding clear_prefix_cache
  clear_prefix_cache-Owned m held o =
      let bare = record m { prefix = [] } in
      let o' : Owned bare (cached m.prefix ++ held) = record {
        valid = o.valid;
        counted = λ b. omega (arith, o.counted b, count-append b (cached m.prefix) held);
        keys = tt;
      } in
      let (a, e, o'', le) = free_table-Owned (cached m.prefix) bare held o' in
      (
        a,
        rw (release_buckets-eq m.prefix m) (sym (free_table-prefix (cached m.prefix) [] m) ∙ e),
        o'',
        le,
      )
