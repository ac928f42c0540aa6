-- ===== src/Network/Quantize.antt =====
-- Model::quantize of src/model/model.cpp.
use Prim.Native.String.{String, ◌++◌ as ◌<>◌}
use from_scratch_inference_e.Base.{
  ℕ, zero, suc, ◌+◌, List, [], ◌∷◌, ◌++◌, map, true, Result, ok, ◌>>=◌,
}
use from_scratch_inference_e.Base.Names.{emplace}
use from_scratch_inference_e.Tensor.{Tensor}
use from_scratch_inference_e.Layers.Floats.{Floats}
use from_scratch_inference_e.Quant.{QuantizedMatrix, quantize_rowwise_int8}
use from_scratch_inference_e.Network.State.{Model, layer_key, get}

abbrev attn : List String
attn = "q" ∷ "k" ∷ "v" ∷ "o" ∷ []

abbrev mlp_names : List String
mlp_names = "gate" ∷ "up" ∷ "down" ∷ []

-- The keys of one layer in the order of the loops.
unfoldable pub projection_keys : ℕ → List String
unfolding layer_key
projection_keys l =
    map (λ n. layer_key l ("self_attn." <> n <> "_proj.weight")) attn
    ++ map (λ n. layer_key l ("mlp." <> n <> "_proj.weight")) mlp_names

module _ {ℓ} {F D : Type ℓ} (A : Floats F D) (weights : List (String × Tensor F)) where
  unfoldable pub quantize_keys :
      List String → List (String × QuantizedMatrix F) → Result (List (String × QuantizedMatrix F))
  unfolding get quantize_rowwise_int8
  quantize_keys [] quant = ok quant
  quantize_keys (key ∷ keys) quant = do
    w ← get weights key
    q ← quantize_rowwise_int8 A w
    quantize_keys keys (emplace key q quant)

  -- `n` layers from `l` on
  unfoldable pub quantize_layers :
      ℕ → ℕ → List (String × QuantizedMatrix F) → Result (List (String × QuantizedMatrix F))
  unfolding quantize_keys projection_keys
  quantize_layers zero l quant = ok quant
  quantize_layers (suc n) l quant =
      quantize_keys (projection_keys l) quant >>= λ quant'. quantize_layers n (l + 1) quant'

module _ {ℓ} {F D : Type ℓ} (A : Floats F D) where
  unfoldable pub quantize : Model F D → Result (Model F D)
  unfolding quantize_layers
  quantize m = do
    quant ← quantize_layers A m.weights m.config.num_hidden_layers 0 m.quant
    ok (record m { quant = quant; quantized = true })
