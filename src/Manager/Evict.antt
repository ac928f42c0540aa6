-- ===== src/Manager/Evict.antt =====
-- src/kvcache/block_manager.cpp, evict_lru: drop the least recently used cached block that only
-- the cache holds.
use from_scratch_inference_e.Base.{
  ℕ, zero, suc, ◌+◌, List, [], ◌∷◌, Option, none, some, Bool, true, ◌&&◌, ltb, ◌==◌, if◌then◌else◌,
  length, get_elem?, Result, ok, ◌>>=◌, or_fail, undefined,
}
use from_scratch_inference_e.Base.Dict.{put, remove}
use from_scratch_inference_e.Allocator
use from_scratch_inference_e.Allocator.{BlockAllocator}
use from_scratch_inference_e.Manager.State.{PrefixEntry, PrefixMap, BlockManager}
use from_scratch_inference_e.Manager.Prefix.Lookup.{bucket}

pub record Victim : Type 0 where
  pub hash : ℕ
  pub index : ℕ
  pub oldest : ℕ

abbrev pub older : ℕ → Option Victim → Bool
older t none = true
older t (some v) = ltb t v.oldest

unfoldable pub better :
    BlockAllocator → ℕ → ℕ → PrefixEntry → Option Victim → Result (Option Victim)
better a h i e best = do
  rc ← Allocator.ref_count a e.block
  ok (
      if (rc == 1) && older e.last_used best
      then some (record { hash = h; index = i; oldest = e.last_used })
      else best)

unfoldable pub scan_entries :
    BlockAllocator → ℕ → ℕ → List PrefixEntry → Option Victim → Result (Option Victim)
unfolding better
scan_entries a h i [] best = ok best
scan_entries a h i (e ∷ es) best = better a h i e best >>= scan_entries a h (i + 1) es

unfoldable pub scan_buckets : BlockAllocator → PrefixMap → Option Victim → Result (Option Victim)
unfolding scan_entries
scan_buckets a [] best = ok best
scan_buckets a ((h, es) ∷ rest) best = scan_entries a h 0 es best >>= scan_buckets a rest

abbrev pub erase_at : List PrefixEntry → ℕ → List PrefixEntry
erase_at [] i = []
erase_at (e ∷ es) zero = es
erase_at (e ∷ es) (suc i) = e ∷ erase_at es i

-- The bucket goes with its last entry.
unfoldable pub without : ℕ → List PrefixEntry → PrefixMap → PrefixMap
without h es p = if length es == 0 then remove h p else put h es p

module _ {ℓ} {F : Type ℓ} where
  unfoldable pub drop_victim : BlockManager F → Victim → Result (BlockManager F)
  unfolding without
  drop_victim m v = do
    let entries = bucket v.hash m.prefix
    e ← or_fail undefined (get_elem? entries v.index)
    a ← Allocator.free m.alloc e.block
    ok (record m { alloc = a; prefix = without v.hash (erase_at entries v.index) m.prefix })

  unfoldable pub evict_lru : BlockManager F → Result (BlockManager F)
  unfolding scan_buckets drop_victim
  evict_lru m = scan_buckets m.alloc m.prefix none >>= λ found. elim found [
    | none ↦ ok m
    | some v ↦ drop_victim m v
  ]
