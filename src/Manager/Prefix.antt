-- ===== src/Manager/Prefix.antt =====
-- src/kvcache/block_manager.cpp: sharing, registering and dropping cached prefix blocks.
pub mod Lookup
use from_scratch_inference_e.Base.{
  ℕ, zero, suc, ◌+◌, ◌*◌, ◌/◌, List, [], ◌∷◌, ◌++◌, Option, none, some, Bool, true, false, ◌&&◌,
  ◌||◌, not, ltb, ◌==◌, if◌then◌else◌, length, take, drop, get_elem?, Result, ok, err, ◌>>=◌, ◌>>◌,
  or_fail, undefined,
}
use from_scratch_inference_e.Base.Dict.{find, put}
use from_scratch_inference_e.Allocator
use from_scratch_inference_e.Manager.State.{SequenceBlocks, PrefixEntry, PrefixMap, BlockManager}
use from_scratch_inference_e.Manager.Hash.{hash_block}
use Lookup.{matches, touch, known, bucket}

unfoldable pub is_fresh : SequenceBlocks → Bool
is_fresh seq = (length seq.block_table == 0) && (seq.length == 0)

module _ {ℓ} {F : Type ℓ} where
  -- The loop over full blocks: `rounds` blocks are left, `rest` are the tokens from the current one.
  unfoldable pub acquire_loop :
      ℕ → ℕ → List ℕ → BlockManager F → List ℕ → Result (BlockManager F × List ℕ)
  acquire_loop zero parent rest m table = ok (m, table)
  acquire_loop (suc rounds) parent rest m table =
      let span = take m.block_size rest in
      let h = hash_block parent span in
      elim (touch parent m.block_size span (m.tick + 1) (bucket h m.prefix)) [
        | none ↦ ok (m, table)
        | some (block, entries) ↦ Allocator.incref m.alloc block >>= λ a.
            acquire_loop rounds h (drop m.block_size rest)
              (record m { alloc = a; prefix = put h entries m.prefix; tick = m.tick + 1 })
              (table ++ block ∷ [])
      ]

  unfoldable pub shared : BlockManager F → List ℕ → BlockManager F × SequenceBlocks × ℕ
  shared m table =
      let matched = length table * m.block_size in
      (
        (if ltb 0 matched then record m { prefix_hits = m.prefix_hits + 1 } else m),
        record { block_table = table; length = matched },
        matched,
      )

  -- The manager, the sequence and the number of shared tokens.
  unfoldable pub acquire_shared_prefix :
      BlockManager F → SequenceBlocks → List ℕ → Result (BlockManager F × SequenceBlocks × ℕ)
  unfolding acquire_loop is_fresh shared
  acquire_shared_prefix m seq tokens =
      if is_fresh seq
      then (acquire_loop (length tokens / m.block_size) 0 tokens m [] >>= λ r. ok (shared r.0 r.1))
      else ok (m, seq, 0)

  unfoldable pub new_entry : BlockManager F → ℕ → List ℕ → ℕ → PrefixEntry
  new_entry m parent span block = record {
    parent = parent;
    tokens = span;
    block = block;
    last_used = m.tick + 1;
  }

  -- The loop of `register_prefix`; `table` holds the blocks from the current one on.
  unfoldable pub register_loop : ℕ → ℕ → List ℕ → List ℕ → BlockManager F → Result (BlockManager F)
  unfolding new_entry
  register_loop rounds parent rest [] m = ok m
  register_loop zero parent rest (block ∷ table) m = ok m
  register_loop (suc rounds) parent rest (block ∷ table) m =
      let span = take m.block_size rest in
      let h = hash_block parent span in
      let entries = bucket h m.prefix in
      let later = register_loop rounds h (drop m.block_size rest) table in
      if known parent m.block_size span entries
      then later (record m { prefix = put h entries m.prefix })
      else (Allocator.incref m.alloc block >>= λ a. later (record m {
        alloc = a;
        prefix = put h (entries ++ new_entry m parent span block ∷ []) m.prefix;
        tick = m.tick + 1;
      }))

  unfoldable pub register_prefix :
      BlockManager F → SequenceBlocks → List ℕ → Result (BlockManager F)
  unfolding register_loop
  register_prefix m seq tokens =
      register_loop (length tokens / m.block_size) 0 tokens seq.block_table m

  unfoldable pub release_entries : List PrefixEntry → BlockManager F → Result (BlockManager F)
  release_entries [] m = ok m
  release_entries (e ∷ es) m =
      Allocator.free m.alloc e.block >>= λ a. release_entries es (record m { alloc = a })

  unfoldable pub release_buckets : PrefixMap → BlockManager F → Result (BlockManager F)
  unfolding release_entries
  release_buckets [] m = ok m
  release_buckets ((h, es) ∷ rest) m = release_entries es m >>= release_buckets rest

  unfoldable pub clear_prefix_cache : BlockManager F → Result (BlockManager F)
  unfolding release_buckets
  clear_prefix_cache m = release_buckets m.prefix m >>= λ m'. ok (record m' { prefix = [] })
