-- ===== src/Network/Forward.antt =====
-- forward, forward_with_cache and forward_paged of src/model/model.cpp: one body, forward_cached,
-- for both caches.
use from_scratch_inference_e.Base.{
  ℕ, zero, suc, ◌+◌, ◌*◌, List, [], ◌∷◌, not, ◌==◌, length, ℤ, Result, ok, ◌>>=◌, ◌>>◌, guard,
  invalid_argument,
}
use from_scratch_inference_e.Tensor.{Tensor}
use from_scratch_inference_e.Layers.Floats.{Floats, Gemm}
use from_scratch_inference_e.Layers.Linear.{linear_plain}
use from_scratch_inference_e.Layers.Norm.{rms_norm}
use from_scratch_inference_e.Layers.Embed.{embedding}
use from_scratch_inference_e.Layers.Attention.{attention}
use from_scratch_inference_e.Cache.Contiguous.{KvCache}
use from_scratch_inference_e.Cache.Contiguous
use from_scratch_inference_e.Cache.Paged.{PagedKvCache}
use from_scratch_inference_e.Cache.Paged
use from_scratch_inference_e.Network.State.{Model, get, head}
use from_scratch_inference_e.Network.Block.{layers}

-- What the template parameter Cache has to offer.
pub record CacheOps {ℓ} (F C : Type ℓ) : Type ℓ where
  pub length_ : C → ℕ
  pub append : C → ℕ → List F → List F → ℕ → Result C
  pub key_tensor : C → ℕ → Result (Tensor F)
  pub value_tensor : C → ℕ → Result (Tensor F)
  pub advance : C → ℕ → C

-- past, past + 1, ...
unfoldable pub positions_from : ℕ → ℕ → List ℕ
positions_from past zero = []
positions_from past (suc n) = past ∷ positions_from (past + 1) n

module _ {ℓ} {F : Type ℓ} where
  unfoldable pub contiguous : CacheOps F (KvCache F)
  contiguous = record {
    length_ = λ c. c.length_;
    append = λ c l k v n. Contiguous.append c l k v n;
    key_tensor = λ c l. Contiguous.key_tensor c l;
    value_tensor = λ c l. Contiguous.value_tensor c l;
    advance = λ c n. Contiguous.advance c n;
  }

  unfoldable pub paged : CacheOps F (PagedKvCache F)
  paged = record {
    length_ = λ c. c.length_;
    append = λ c l k v n. Paged.append c l k v n;
    key_tensor = λ c l. Paged.key_tensor c l;
    value_tensor = λ c l. Paged.value_tensor c l;
    advance = λ c n. Paged.advance c n;
  }

module _ {ℓ} {F D : Type ℓ} (A : Floats F D) (gemm : Gemm F) (m : Model F D) where
  -- From the last hidden states to the logits [S, vocab_size].
  unfoldable pub to_logits : Tensor F → Tensor F → Result (Tensor F)
  unfolding get rms_norm head linear_plain
  to_logits embed x = do
    norm ← get m.weights "model.norm.weight"
    normed ← rms_norm A x norm m.config.rms_norm_eps
    lm_head ← head A gemm m embed
    linear_plain A gemm normed lm_head

  -- The part of the layer body that uses the cache.
  unfoldable pub attend_cached :
      {C : Type ℓ}
      → CacheOps F C
      → ℕ
      → ℕ
      → ℕ
      → Tensor F
      → Tensor F
      → Tensor F
      → C
      → Result (C × Tensor F)
  unfolding attention
  attend_cached ops past seq l q k v cache = do
    cache' ← ops.append cache l k.data_ v.data_ seq
    k_all ← ops.key_tensor cache' l
    v_all ← ops.value_tensor cache' l
    let c = m.config
    attn ← attention A q k_all v_all c.num_attention_heads c.num_key_value_heads c.head_dim past
    ok (cache', attn)

  unfoldable pub forward_cached : {C : Type ℓ} → CacheOps F C → List ℤ → C → Result (C × Tensor F)
  unfolding positions_from get embedding attend_cached layers to_logits
  forward_cached ops ids cache = do
    let seq = length ids
    guard (not (seq == 0)) invalid_argument
    let past = ops.length_ cache
    embed ← get m.weights "model.embed_tokens.weight"
    x ← embedding embed ids
    r ←
        layers A gemm m (λ l q k v c. attend_cached ops past seq l q k v c)
          (positions_from past seq) m.config.num_hidden_layers 0 cache x
    let cache' = ops.advance r.0 seq
    logits ← to_logits embed r.1
    ok (cache', logits)

  unfoldable pub forward_with_cache : List ℤ → KvCache F → Result (KvCache F × Tensor F)
  unfolding forward_cached contiguous
  forward_with_cache ids cache = forward_cached contiguous ids cache

  unfoldable pub forward_paged : List ℤ → PagedKvCache F → Result (PagedKvCache F × Tensor F)
  unfolding forward_cached paged
  forward_paged ids cache = forward_cached paged ids cache

  unfoldable pub forward : List ℤ → Result (Tensor F)
  unfolding forward_with_cache
  forward ids =
      let c = m.config in
      let cache = Contiguous.init c.num_hidden_layers (c.num_key_value_heads * c.head_dim) in
      forward_with_cache ids cache >>= λ r. ok r.1
