-- ===== src/Network/Batched.antt =====
-- forward_batch of src/model/model.cpp: the layers over the concatenated tokens of a batch. The
-- block tables are those of Batch.
use from_scratch_inference_e.Base.{
  ℕ, ◌+◌, ◌-◌, ◌*◌, List, [], ◌∷◌, ◌++◌, map, length, drop, ℤ, pos, Result, ok, ◌>>=◌,
}
use from_scratch_inference_e.Tensor.{Tensor}
use from_scratch_inference_e.Tensor.Rows.{slice}
use from_scratch_inference_e.Manager.State.{BlockManager}
use from_scratch_inference_e.Manager.Store.{write, gather_keys, gather_values}
use from_scratch_inference_e.Batch.{BatchItem, Heap, Work, LayerResult}
use from_scratch_inference_e.Batch
use from_scratch_inference_e.Layers.Floats.{Floats, Gemm}
use from_scratch_inference_e.Layers.Linear.{linear_plain}
use from_scratch_inference_e.Layers.Norm.{rms_norm}
use from_scratch_inference_e.Layers.Embed.{embedding}
use from_scratch_inference_e.Layers.Attention.{attention}
use from_scratch_inference_e.Network.State.{Model, get, head}
use from_scratch_inference_e.Network.Block.{layers}
use from_scratch_inference_e.Network.Forward.{positions_from}

-- all_ids and positions: the items' tokens one after the other.
unfoldable pub all_ids : List Work → List ℤ
all_ids [] = []
all_ids (w ∷ ws) = map (λ t. pos t) w.tokens ++ all_ids ws

unfoldable pub all_positions : List Work → List ℕ
unfolding positions_from
all_positions [] = []
all_positions (w ∷ ws) = positions_from w.past (length w.tokens) ++ all_positions ws

unfoldable pub total_tokens : List Work → ℕ
total_tokens [] = 0
total_tokens (w ∷ ws) = length w.tokens + total_tokens ws

module _ {ℓ} {F : Type ℓ} where
  -- The last row of each item; the first item's rows begin at `offset`.
  unfoldable pub last_rows : ℕ → List F → ℕ → List Work → Result (List F)
  last_rows h normed offset [] = ok []
  last_rows h normed offset (w ∷ ws) = do
    row ← slice normed ((offset + length w.tokens - 1) * h) h
    rest ← last_rows h normed (offset + length w.tokens) ws
    ok (row ++ rest)

module _ {ℓ} {F D : Type ℓ} (A : Floats F D) (gemm : Gemm F) (m : Model F D) where
  -- One item: its rows are written to its blocks, and its queries see those blocks alone.
  unfoldable pub attend_item :
      ℕ
      → Tensor F
      → Tensor F
      → Tensor F
      → ℕ
      → Work
      → BlockManager F
      → Result (BlockManager F × List F)
  unfolding write gather_keys gather_values attention
  attend_item l q k v offset w mgr = do
    let c = m.config
    let nq_dim = c.num_attention_heads * c.head_dim
    let nkv_dim = c.num_key_value_heads * c.head_dim
    let n = length w.tokens
    let k_rows = drop (offset * nkv_dim) k.data_
    let v_rows = drop (offset * nkv_dim) v.data_
    mgr' ← write mgr w.seq l w.past k_rows v_rows n
    k_all ← gather_keys mgr' w.seq l (w.past + n)
    v_all ← gather_values mgr' w.seq l (w.past + n)
    q_rows ← slice q.data_ (offset * nq_dim) (n * nq_dim)
    let q_slice : Tensor F = record { shape = n ∷ nq_dim ∷ []; data_ = q_rows }
    attn ←
        attention A q_slice k_all v_all c.num_attention_heads c.num_key_value_heads c.head_dim
          w.past
    ok (mgr', attn.data_)

  unfoldable pub attend_items :
      ℕ
      → Tensor F
      → Tensor F
      → Tensor F
      → ℕ
      → List Work
      → BlockManager F
      → Result (BlockManager F × List F)
  unfolding attend_item
  attend_items l q k v offset [] mgr = ok (mgr, [])
  attend_items l q k v offset (w ∷ ws) mgr = do
    first ← attend_item l q k v offset w mgr
    rest ← attend_items l q k v (offset + length w.tokens) ws first.0
    ok (rest.0, first.1 ++ rest.1)

  unfoldable pub attend_batch :
      List Work
      → ℕ
      → Tensor F
      → Tensor F
      → Tensor F
      → BlockManager F
      → Result (BlockManager F × Tensor F)
  unfolding attend_items total_tokens
  attend_batch works l q k v mgr = attend_items l q k v 0 works mgr >>= λ r.
      let nq_dim = m.config.num_attention_heads * m.config.head_dim in
      ok (r.0, record { shape = total_tokens works ∷ nq_dim ∷ []; data_ = r.1 })

  unfoldable pub batch_layers :
      BlockManager F → List (List F) → List (List F) → List Work → Result (LayerResult F)
  unfolding get embedding all_ids all_positions attend_batch layers rms_norm last_rows head
      linear_plain
  batch_layers manager keys values works = do
    embed ← get m.weights "model.embed_tokens.weight"
    x ← embedding embed (all_ids works)
    r ←
        layers A gemm m (λ l q k v mgr. attend_batch works l q k v mgr) (all_positions works)
          m.config.num_hidden_layers 0 (record manager { keys = keys; values = values }) x
    norm ← get m.weights "model.norm.weight"
    normed ← rms_norm A r.1 norm m.config.rms_norm_eps
    last ← last_rows m.config.hidden_size normed.data_ 0 works
    lm_head ← head A gemm m embed
    let last_hidden : Tensor F = record {
      shape = length works ∷ m.config.hidden_size ∷ [];
      data_ = last;
    }
    logits ← linear_plain A gemm last_hidden lm_head
    let after = r.0
    ok (record { keys = after.keys; values = after.values; logits = logits })

  unfoldable pub forward_batch :
      BlockManager F → Heap → List BatchItem → Result (BlockManager F × Heap × Tensor F)
  unfolding batch_layers Batch.forward_batch
  forward_batch manager h items =
      Batch.forward_batch (λ ks vs ws. batch_layers manager ks vs ws) manager h items
