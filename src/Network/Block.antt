-- ===== src/Network/Block.antt =====
-- The body of the layer loops of forward_cached and forward_batch, which differ in what they do
-- with the queries, keys and values: `attend`, on a state of its own.
use Prim.Native.String.{String, ◌++◌ as ◌<>◌}
use from_scratch_inference_e.Base.{ℕ, zero, suc, ◌+◌, List, if◌then◌else◌, Result, ok, ◌>>=◌}
use from_scratch_inference_e.Tensor.{Tensor}
use from_scratch_inference_e.Layers.Floats.{Floats, Gemm}
use from_scratch_inference_e.Layers.Linear.{silu_mul, add_inplace}
use from_scratch_inference_e.Layers.Norm.{rms_norm}
use from_scratch_inference_e.Layers.Rope.{rope_inplace}
use from_scratch_inference_e.Network.State.{Model, layer_key, get, linear_w, linear_w_bias}

module _ {ℓ} {F D : Type ℓ} (A : Floats F D) (gemm : Gemm F) (m : Model F D) where
  unfoldable pub project : ℕ → Tensor F → String → Result (Tensor F)
  unfolding layer_key get linear_w linear_w_bias
  project l normed name =
      let key = layer_key l ("self_attn." <> name <> "_proj.weight") in
      if m.config.attention_qkv_bias
      then (get m.weights (layer_key l ("self_attn." <> name <> "_proj.bias")) >>= λ bias.
          linear_w_bias A gemm m normed key bias)
      else linear_w A gemm m normed key

  -- The gated layers after the attention, added to x.
  unfoldable pub mlp : ℕ → Tensor F → Result (Tensor F)
  unfolding layer_key get linear_w rms_norm silu_mul add_inplace
  mlp l x = do
    norm2 ← get m.weights (layer_key l "post_attention_layernorm.weight")
    normed2 ← rms_norm A x norm2 m.config.rms_norm_eps
    gate ← linear_w A gemm m normed2 (layer_key l "mlp.gate_proj.weight")
    up ← linear_w A gemm m normed2 (layer_key l "mlp.up_proj.weight")
    act ← silu_mul A gate up
    down ← linear_w A gemm m act (layer_key l "mlp.down_proj.weight")
    add_inplace A x down

module _ {ℓ} {F D : Type ℓ} (A : Floats F D) (gemm : Gemm F) (m : Model F D) where
  -- The part of the body before the attention: queries, keys and values, the first two turned.
  unfoldable pub front : List ℕ → ℕ → Tensor F → Result (Tensor F × Tensor F × Tensor F)
  unfolding layer_key get project rms_norm rope_inplace
  front positions l x = do
    norm1 ← get m.weights (layer_key l "input_layernorm.weight")
    normed ← rms_norm A x norm1 m.config.rms_norm_eps
    q ← project A gemm m l normed "q"
    k ← project A gemm m l normed "k"
    v ← project A gemm m l normed "v"
    let theta = m.config.rope_theta
    q' ← rope_inplace A q m.config.num_attention_heads m.config.head_dim theta positions
    k' ← rope_inplace A k m.config.num_key_value_heads m.config.head_dim theta positions
    ok (q', k', v)

module _ {ℓ κ} {F D : Type ℓ} {S : Type κ} (A : Floats F D) (gemm : Gemm F) (m : Model F D) where
  -- The part of the body after the attention.
  unfoldable pub finish : ℕ → Tensor F → S → Tensor F → Result (S × Tensor F)
  unfolding layer_key linear_w add_inplace mlp
  finish l x st attn = do
    attn_out ← linear_w A gemm m attn (layer_key l "self_attn.o_proj.weight")
    x' ← add_inplace A x attn_out
    x'' ← mlp A gemm m l x'
    ok (st, x'')

  unfoldable pub layer :
      (ℕ → Tensor F → Tensor F → Tensor F → S → Result (S × Tensor F))
      → List ℕ
      → ℕ
      → S
      → Tensor F
      → Result (S × Tensor F)
  unfolding front finish
  layer attend positions l st x = do
    f ← front A gemm m positions l x
    r ← attend l f.0 f.1 f.2 st
    finish l x r.0 r.1

  -- `n` layers from `l` on
  unfoldable pub layers :
      (ℕ → Tensor F → Tensor F → Tensor F → S → Result (S × Tensor F))
      → List ℕ
      → ℕ
      → ℕ
      → S
      → Tensor F
      → Result (S × Tensor F)
  unfolding layer
  layers attend positions zero l st x = ok (st, x)
  layers attend positions (suc n) l st x =
      layer attend positions l st x >>= λ r. layers attend positions n (l + 1) r.0 r.1
