-- ===== src/Manager/State.antt =====
-- include/engine/block_manager.hpp: the state of the block manager and its sizes. A float of the
-- store is a value of any type; a token is its 64-bit pattern.
use from_scratch_inference_e.Base.{
  ℕ, ◌+◌, ◌-◌, ◌*◌, ◌/◌, List, [], Bool, false, ltb, leb, length, replicate, ℤ, pos, negsuc, Result,
  ok, ◌>>=◌, ◌>>◌, guard, invalid_argument,
}
use from_scratch_inference_e.Allocator
use from_scratch_inference_e.Allocator.{BlockAllocator, num_free}

-- Logical block index to physical block, and the committed token rows.
pub record SequenceBlocks : Type 0 where
  pub block_table : List ℕ
  pub length : ℕ

-- A cached prefix block: the hash of the block before it, its tokens, the block and an LRU tick.
pub record PrefixEntry : Type 0 where
  pub parent : ℕ
  pub tokens : List ℕ
  pub block : ℕ
  pub last_used : ℕ

abbrev pub PrefixMap : Type 0
PrefixMap = List (ℕ × List PrefixEntry)

pub record BlockManager {ℓ} (F : Type ℓ) : Type ℓ where
  pub num_layers : ℕ
  pub kv_dim : ℕ
  pub block_size : ℕ
  pub alloc : BlockAllocator
  pub keys : List (List F)
  pub values : List (List F)
  pub prefix : PrefixMap
  pub prefix_hits : ℕ
  pub tick : ℕ

abbrev pub is_positive : ℤ → Bool
is_positive (pos n) = ltb 0 n
is_positive (negsuc n) = false

abbrev pub magnitude : ℤ → ℕ
magnitude (pos n) = n
magnitude (negsuc n) = 0

abbrev pub new_sequence : SequenceBlocks
new_sequence = record { block_table = []; length = 0 }

module _ {ℓ} {F : Type ℓ} where
  -- The allocator is a member, so it is built before the body checks the other sizes. `nil` is 0.0f.
  unfoldable pub init : F → ℤ → ℤ → ℤ → ℤ → Result (BlockManager F)
  init nil num_layers kv_dim block_size num_blocks = do
    a ← Allocator.init num_blocks
    guard (is_positive num_layers) invalid_argument
    guard (is_positive kv_dim) invalid_argument
    guard (is_positive block_size) invalid_argument
    let pool = replicate (magnitude num_blocks * magnitude block_size * magnitude kv_dim) nil
    ok (record {
      num_layers = magnitude num_layers;
      kv_dim = magnitude kv_dim;
      block_size = magnitude block_size;
      alloc = a;
      keys = replicate (magnitude num_layers) pool;
      values = replicate (magnitude num_layers) pool;
      prefix = [];
      prefix_hits = 0;
      tick = 0;
    })

  abbrev pub free_blocks : BlockManager F → ℕ
  free_blocks m = num_free m.alloc

  -- Blocks required to store `tokens` tokens.
  unfoldable pub blocks_for : BlockManager F → ℕ → ℕ
  blocks_for m tokens = (tokens + m.block_size - 1) / m.block_size

  -- The signed difference is below zero where the truncated one is 0; both pass the test.
  unfoldable pub can_append : BlockManager F → SequenceBlocks → ℕ → Bool
  can_append m seq n_new =
      leb (blocks_for m (seq.length + n_new) - length seq.block_table) (free_blocks m)
