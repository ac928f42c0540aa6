-- ===== src/Manager/Hash.antt =====
-- src/kvcache/block_manager.cpp, hash_block: FNV-1a over the parent hash and the block's tokens.
use Prim.Native.Nat.{bit_xor}
use from_scratch_inference_e.Base.{ℕ, zero, suc, ◌*◌, ◌/◌, ◌%◌, ◌^◌, List, [], ◌∷◌}

abbrev pub fnv_offset : ℕ
fnv_offset = 0xcbf29ce484222325

abbrev pub fnv_prime : ℕ
fnv_prime = 0x100000001b3

-- for (shift = 0; shift < 64; shift += 8): `n` bytes of `value` are left, lowest first.
unfoldable pub hash_bytes : ℕ → ℕ → ℕ → ℕ
hash_bytes zero value h = h
hash_bytes (suc n) value h =
    hash_bytes n (value / 256) (bit_xor h (value % 256) * fnv_prime % 2 ^ 64)

unfoldable pub hash_tokens : List ℕ → ℕ → ℕ
hash_tokens [] h = h
hash_tokens (t ∷ ts) h = hash_tokens ts (hash_bytes 8 t h)

unfoldable pub hash_block : ℕ → List ℕ → ℕ
unfolding hash_bytes hash_tokens
hash_block parent tokens = hash_tokens tokens (bit_xor parent fnv_offset)
