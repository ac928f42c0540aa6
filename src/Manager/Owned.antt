-- ===== src/Manager/Owned.antt =====
-- Who holds which block: the reference counts are those of the tables outside and of the cache.
pub mod Free
pub mod Scan
pub mod Evict
pub mod Grow
pub mod Share
pub mod Register
pub mod Clear
use from_scratch_inference_e.Base.{
  ℕ, zero, suc, ◌+◌, ◌≤◌, ◌<◌, ◌≡◌, refl, List, [], ◌∷◌, ◌++◌, map, Option, none, some, arith,
  if◌then◌else◌, ◌==◌, one_if, count, count-append, length, get_elem?, Error, signed_overflow,
  out_of_blocks,
}
use from_scratch_inference_e.Base.Dict.{find, put, remove, Distinct}
use from_scratch_inference_e.Allocator.Invariant.{IsValid, refs}
use from_scratch_inference_e.Manager.State.{PrefixEntry, PrefixMap, BlockManager}
use from_scratch_inference_e.Manager.Prefix.Lookup.{bucket}

-- The blocks of a list of entries, and of the whole cache.
abbrev pub blocks : List PrefixEntry → List ℕ
blocks [] = []
blocks (e ∷ es) = e.block ∷ blocks es

abbrev pub cached : PrefixMap → List ℕ
cached [] = []
cached ((h, es) ∷ p) = blocks es ++ cached p

-- `held` lists the blocks that the sequences hold, once for each holder.
pub record Owned {ℓ} {F : Type ℓ} (m : BlockManager F) (held : List ℕ) : Type 0 where
  pub valid : IsValid m.alloc
  pub counted : (b : ℕ) → refs m.alloc b ≡ count b held + count b (cached m.prefix)
  pub keys : Distinct m.prefix

pub count-cached-put :
    (b h : ℕ) (es : List PrefixEntry) (p : PrefixMap)
    → count b (cached (put h es p)) + count b (blocks (bucket h p))
      ≡ count b (cached p) + count b (blocks es)
count-cached-put b h es [] = omega (arith, count-append b (blocks es) [])
count-cached-put b h es ((k, fs) ∷ p) = ground (
  arith,
  count-append b (blocks es) (cached p),
  count-append b (blocks fs) (cached p),
  count-append b (blocks fs) (cached (put h es p)),
  count-cached-put b h es p,
)

pub count-cached-remove :
    (b h : ℕ) (p : PrefixMap)
    → count b (cached (remove h p)) + count b (blocks (bucket h p)) ≡ count b (cached p)
count-cached-remove b h [] = refl
count-cached-remove b h ((k, fs) ∷ p) = ground (
  arith,
  count-append b (blocks fs) (cached p),
  count-append b (blocks fs) (cached (remove h p)),
  count-cached-remove b h p,
)

pub count-blocks-append :
    (b : ℕ) (es fs : List PrefixEntry)
    → count b (blocks (es ++ fs)) ≡ count b (blocks es) + count b (blocks fs)
count-blocks-append b [] fs = omega arith
count-blocks-append b (e ∷ es) fs = omega (arith, count-blocks-append b es fs)

-- The blocks of a bucket are among the cached ones.
pub count-bucket-le : (b h : ℕ) (p : PrefixMap) → count b (blocks (bucket h p)) ≤ count b (cached p)
count-bucket-le b h p = omega (arith, count-cached-remove b h p)

-- Failures that a sound manager may end in.
abbrev pub OnlyOverflow : Error → Type 0
OnlyOverflow e = e ≡ signed_overflow

abbrev pub OnlyOut : Error → Type 0
OnlyOut e = e ≡ out_of_blocks
