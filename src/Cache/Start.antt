-- ===== src/Cache/Start.antt =====
-- The caches as their constructors leave them.
use from_scratch_inference_e.Base.{
  ℕ, zero, suc, ◌*◌, ◌<◌, ◌≡◌, refl, [], some, arith, true, ltb, replicate, length-replicate,
  get_elem?, pos, ok,
}
use from_scratch_inference_e.Allocator.{BlockAllocator, num_blocks}
use from_scratch_inference_e.Allocator
use from_scratch_inference_e.Allocator.Invariant.{fresh, fresh-IsValid, refs-fresh}
use from_scratch_inference_e.Cache.Contiguous.{KvCache}
use from_scratch_inference_e.Cache.Contiguous
use from_scratch_inference_e.Cache.Paged.{PagedKvCache}
use from_scratch_inference_e.Cache.Paged
use from_scratch_inference_e.Cache.Refines.{Refines}
use from_scratch_inference_e.Cache.Sides.{Side}

pub get_elem?-replicate {ℓ} :
    {A : Type ℓ} (n i : ℕ) (a : A) → i < n → get_elem? (replicate n a) i ≡ some a
get_elem?-replicate zero i a h = elim h [ ]
get_elem?-replicate (suc n) zero a h = refl
get_elem?-replicate (suc n) (suc i) a h = get_elem?-replicate n i a (omega arith)

module _ {ℓ} {F : Type ℓ} (nil : F) where
  abbrev pub built : ℕ → ℕ → ℕ → ℕ → PagedKvCache F
  built layers width k n = record {
    num_layers = layers;
    kv_dim = width;
    block_size = k;
    alloc = fresh n;
    block_table = [];
    keys = replicate layers (replicate (n * k * width) nil);
    values = replicate layers (replicate (n * k * width) nil);
    filled = replicate layers 0;
    length_ = 0;
  }

  side :
      (layers width k n : ℕ) (sized : 0 < k) (j : ℕ)
      → j < layers
      → Side
          (num_blocks (fresh n))
          k
          width
          sized
          []
          0
          (replicate layers (replicate (n * k * width) nil))
          (replicate layers [])
          j
  side layers width k n sized j lt =
      let pool : num_blocks (fresh n) ≡ n = length-replicate {A = ℕ} n 0 in
      (
        replicate (n * k * width) nil,
        [],
        get_elem?-replicate layers j (replicate (n * k * width) nil) lt,
        get_elem?-replicate layers j [] lt,
        rw pool (length-replicate (n * k * width) nil),
        omega arith,
        λ r b h e. absurd (omega arith),
      )

  pub built-Refines :
      (layers width k n : ℕ)
      → 0 < width
      → 0 < k
      → Refines (built layers width k n) (Contiguous.init layers width)
  built-Refines layers width k n wide sized = record {
    sized = sized;
    wide = wide;
    dim = refl;
    holds = record {
      valid = fresh-IsValid n;
      counted = λ b. refs-fresh n b;
      once = λ b. omega arith;
    };
    layers = λ j lt. (
      0,
      get_elem?-replicate layers j 0 lt,
      omega arith,
      side layers width k n sized j lt,
      side layers width k n sized j lt,
    );
  }

  -- Positive sizes are accepted, and the new paged cache holds what a new contiguous cache does.
  pub init-Refines :
      (layers width k n : ℕ)
      → 0 < layers
      → 0 < width
      → 0 < k
      → (p : PagedKvCache F) × (Paged.init nil (pos layers) (pos width) (pos k) (pos n) ≡ ok p)
        × Refines p (Contiguous.init layers width)
  unfolding Paged.init Allocator.init
  init-Refines layers width k n some_layer wide sized =
      let l : ltb 0 layers ≡ true = ground arith in
      let w : ltb 0 width ≡ true = ground arith in
      let s : ltb 0 k ≡ true = ground arith in
      (built layers width k n, rw (l, w, s) refl, built-Refines layers width k n wide sized)
