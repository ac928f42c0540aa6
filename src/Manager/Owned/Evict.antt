-- ===== src/Manager/Owned/Evict.antt =====
-- evict_lru on a manager whose counts are right: it never fails, and frees one cached block or none.
use from_scratch_inference_e.Base.{
  ℕ, zero, suc, ◌+◌, ◌≤◌, ◌≡◌, ◌≢◌, refl, ap, ◌∙◌, List, [], ◌∷◌, ◌++◌, take, drop, Option, none,
  some, arith, one_if, count, count-append, get_elem?, ok, ◌⊎◌, inl, inr, ==_refl, ==_of_ne, ◌==◌,
  false, length,
}
use from_scratch_inference_e.Base.Dict.{
  put, put, find, find-put, find-remove, find-remove_ne, Distinct, put-Distinct, remove-Distinct,
}
use from_scratch_inference_e.Allocator.{BlockAllocator}
use from_scratch_inference_e.Allocator.Invariant.{refs}
use from_scratch_inference_e.Allocator.Ops.{free-Dropped}
use from_scratch_inference_e.Manager.State.{PrefixEntry, PrefixMap, BlockManager, free_blocks}
use from_scratch_inference_e.Manager.Prefix.Lookup.{bucket}
use from_scratch_inference_e.Manager.Evict.{
  Victim, erase_at, without, drop_victim, evict_lru, scan_buckets,
}
use from_scratch_inference_e.Manager.Owned.{
  Owned, blocks, cached, count-cached-put, count-cached-remove,
}
use from_scratch_inference_e.Manager.Owned.Scan.{Names, Fine, CoversAll, Held, HeldAll, scan_lem}

count-erase_at :
    (b : ℕ) (es : List PrefixEntry) (i : ℕ) (e : PrefixEntry)
    → get_elem? es i ≡ some e
    → count b (blocks (erase_at es i)) + one_if e.block b ≡ count b (blocks es)
count-erase_at b [] i e at = cc
count-erase_at b (x ∷ es) zero e at = let same : x ≡ e = ground arith in rw same (omega arith)
count-erase_at b (x ∷ es) (suc i) e at = omega (arith, count-erase_at b es i e at)

count-without :
    (b h : ℕ) (es : List PrefixEntry) (p : PrefixMap)
    → count b (cached (without h es p)) + count b (blocks (bucket h p))
      ≡ count b (cached p) + count b (blocks es)
unfolding without
count-without b h [] p = omega (arith, count-cached-remove b h p)
count-without b h (e ∷ es) p = ground (arith, count-cached-put b h (e ∷ es) p)

without-Distinct :
    (h : ℕ) (es : List PrefixEntry) (p : PrefixMap) → Distinct p → Distinct (without h es p)
unfolding without
without-Distinct h [] p d = remove-Distinct h p d
without-Distinct h (e ∷ es) p d = ground (arith, put-Distinct h (e ∷ es) p d)

erase_at-eq : (es : List PrefixEntry) (i : ℕ) → erase_at es i ≡ take i es ++ drop (suc i) es
erase_at-eq [] zero = refl
erase_at-eq [] (suc i) = refl
erase_at-eq (e ∷ es) zero = refl
erase_at-eq (e ∷ es) (suc i) = ap (◌∷◌ e) (erase_at-eq es i)

bucket-without :
    (h : ℕ) (es : List PrefixEntry) (p : PrefixMap) → Distinct p → bucket h (without h es p) ≡ es
unfolding without
bucket-without h [] p d = rw (find-remove h p d) refl
bucket-without h (e ∷ es) p d =
    let stays : (length (e ∷ es) == 0) ≡ false = ground arith in
    let found : find h (put h (e ∷ es) p) ≡ some (e ∷ es) =
      rw (find-put h h (e ∷ es) p, ==_refl h) refl in
    rw (stays, found) refl

find-without :
    (h k : ℕ) (es : List PrefixEntry) (p : PrefixMap) → h ≢ k → find k (without h es p) ≡ find k p
unfolding without
find-without h k [] p ne = find-remove_ne h k p ne
find-without h k (e ∷ es) p ne =
    let stays : (length (e ∷ es) == 0) ≡ false = ground arith in
    let found : find k (put h (e ∷ es) p) ≡ find k p =
      rw (find-put h k (e ∷ es) p, ==_of_ne h k ne) refl in
    rw (stays, found) refl

Held-of_count :
    (a : BlockAllocator) (es : List PrefixEntry)
    → ((b : ℕ) → count b (blocks es) ≤ refs a b)
    → Held a es
Held-of_count a [] h = tt
Held-of_count a (e ∷ es) h =
    (ground (arith, h e.block, ==_refl e.block), Held-of_count a es (λ b. omega (arith, h b)))

HeldAll-of_count :
    (a : BlockAllocator) (p : PrefixMap) → ((b : ℕ) → count b (cached p) ≤ refs a b) → HeldAll a p
HeldAll-of_count a [] h = tt
HeldAll-of_count a ((k, es) ∷ p) h = (
  Held-of_count a es (λ b. omega (arith, h b, count-append b (blocks es) (cached p))),
  HeldAll-of_count a p (λ b. omega (arith, h b, count-append b (blocks es) (cached p))),
)

-- The entry at `v` is gone from its bucket, the other entries and buckets are those of before, and
-- so are the counts but that of its block, which has one holder less and is free.
pub record Erased {ℓ} {F : Type ℓ} (m m' : BlockManager F) (v : Victim) : Type ℓ where
  pub entry : PrefixEntry
  pub named : get_elem? (bucket v.hash m.prefix) v.index ≡ some entry
  pub erased :
      bucket v.hash m'.prefix
      ≡ take v.index (bucket v.hash m.prefix) ++ drop (suc v.index) (bucket v.hash m.prefix)
  pub others : (h : ℕ) → v.hash ≢ h → find h m'.prefix ≡ find h m.prefix
  pub counted : (b : ℕ) → refs m'.alloc b + one_if entry.block b ≡ refs m.alloc b
  pub freed : refs m'.alloc entry.block ≡ 0
  pub returned : free_blocks m' ≡ free_blocks m + 1

module _ {ℓ} {F : Type ℓ} where
  -- Every cached block is held, by the cache at least.
  pub Owned-HeldAll : (m : BlockManager F) (held : List ℕ) → Owned m held → HeldAll m.alloc m.prefix
  Owned-HeldAll m held o = HeldAll-of_count m.alloc m.prefix (λ b. omega (arith, o.counted b))

  drop_victim-Owned :
      (m : BlockManager F) (held : List ℕ) (v : Victim)
      → Owned m held
      → Names m.alloc m.prefix v
      → (m' : BlockManager F) × (drop_victim m v ≡ ok m')
        × Owned m' held
        × Erased m m' v
        × ((b : ℕ) → count b (cached m'.prefix) ≤ count b (cached m.prefix))
        × (m'.block_size ≡ m.block_size)
  unfolding drop_victim
  drop_victim-Owned m held v o (e, at, one, old) =
      let es = bucket v.hash m.prefix in
      let (a, eq, d) = free-Dropped m.alloc o.valid e.block (omega arith) in
      let left = erase_at es v.index in
      let self : one_if e.block e.block ≡ 1 = rw (==_refl e.block) refl in
      (
        record m { alloc = a; prefix = without v.hash left m.prefix },
        rw (at, eq) refl,
        record {
          valid = d.valid;
          counted = λ b. omega (
            arith,
            d.counted b,
            o.counted b,
            count-without b v.hash left m.prefix,
            count-erase_at b es v.index e at,
          );
          keys = without-Distinct v.hash left m.prefix o.keys;
        },
        record {
          entry = e;
          named = at;
          erased = bucket-without v.hash left m.prefix o.keys ∙ erase_at-eq es v.index;
          others = λ h ne. find-without v.hash h left m.prefix ne;
          counted = d.counted;
          freed = omega (arith, d.counted e.block, one, self);
          returned = ground (arith, d.returned, one);
        },
        λ b. omega (arith, count-without b v.hash left m.prefix, count-erase_at b es v.index e at),
        refl,
      )

  -- What an eviction does: it drops the least recently used of the entries whose blocks only the
  -- cache holds and frees its block, or there is no such entry and nothing changes.
  pub record Evicts (m m' : BlockManager F) (held : List ℕ) : Type ℓ where
    pub owned : Owned m' held
    pub cache : (b : ℕ) → count b (cached m'.prefix) ≤ count b (cached m.prefix)
    pub same_size : m'.block_size ≡ m.block_size
    pub choice :
        ((m' ≡ m) × CoversAll m.alloc none m.prefix)
        ⊎ ((v : Victim) × Names m.alloc m.prefix v
            × CoversAll m.alloc (some v) m.prefix
            × Erased m m' v)

  -- Where the counts are right, an eviction never fails, and keeps them right: either nothing changes,
  -- and no cached block is held by the cache alone, or the least recently used entry of such a block
  -- goes out of its bucket, every other entry stays, and that block and no other goes back to the pool.
  pub evict_lru-Evicts :
      (m : BlockManager F) (held : List ℕ)
      → Owned m held
      → (m' : BlockManager F) × (evict_lru m ≡ ok m') × Evicts m m' held
  unfolding evict_lru
  evict_lru-Evicts m held o =
      let (found, e, fine, covers) = scan_lem m.alloc m.prefix (Owned-HeldAll m held o) o.keys in
      go found e fine covers
    where
      go :
          (found : Option Victim)
          → scan_buckets m.alloc m.prefix none ≡ ok found
          → Fine m.alloc m.prefix found
          → CoversAll m.alloc found m.prefix
          → (m' : BlockManager F) × (evict_lru m ≡ ok m') × Evicts m m' held
      go none e fine covers = (
        m,
        rw (e, evict_lru) refl,
        record {
          owned = o;
          cache = λ b. omega arith;
          same_size = refl;
          choice = inl (refl, covers);
        },
      )
      go (some v) e fine covers =
          let (m', e', o', more, less, size) = drop_victim-Owned m held v o fine in
          (
            m',
            rw (e, evict_lru) e',
            record {
              owned = o';
              cache = less;
              same_size = size;
              choice = inr (v, fine, covers, more);
            },
          )
