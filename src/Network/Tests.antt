-- ===== src/Network/Tests.antt =====
-- A model of one layer with one head, where every matrix is 1 by 1 but the embedding of two tokens.
use Prim.Native.String.{String}
use from_scratch_inference_e.Base.{
  ℕ, zero, suc, ◌+◌, ◌*◌, ◌<◌, ◌≡◌, refl, List, [], ◌∷◌, true, false, arith, ℤ, pos, ok,
}
use from_scratch_inference_e.Allocator.Invariant.{num_free-fresh}
use from_scratch_inference_e.Tensor.{Tensor, num_elements}
use from_scratch_inference_e.Layers.Tests.{whole, product, product-IsProduct}
use from_scratch_inference_e.Layers.Shapes.Rows.{Returns}
use from_scratch_inference_e.Layers.Shapes.Simple.{IsMatrix}
use from_scratch_inference_e.Cache.Contiguous.{KvCache}
use from_scratch_inference_e.Cache.Contiguous
use from_scratch_inference_e.Cache.Paged.{PagedKvCache}
use from_scratch_inference_e.Cache.Start.{built}
use from_scratch_inference_e.Quant.{QuantizedMatrix}
use from_scratch_inference_e.Network.State.{
  Model, Sizes, from_safetensors, layer_key, get, contains, find_quant,
}
use from_scratch_inference_e.Network.Forward.{forward, forward_paged, forward_with_cache}
use from_scratch_inference_e.Network.Quantize.{quantize}
use from_scratch_inference_e.Network.Fits.{Fits, LayerFits}
use from_scratch_inference_e.Network.Both.{Both}
use from_scratch_inference_e.Network.Paged.{InStep, forward_paged-forward_with_cache}
use from_scratch_inference_e.Network.Total.{started, forward-IsMatrix}
use from_scratch_inference_e.Network.Covered.{Covers}
use from_scratch_inference_e.Network.Quantized.{quantize-Fits}

abbrev sizes : Sizes ℕ
sizes = record {
  hidden_size = 1;
  num_hidden_layers = 1;
  num_attention_heads = 1;
  num_key_value_heads = 1;
  head_dim = 1;
  rope_theta = 1;
  rms_norm_eps = 1;
  attention_qkv_bias = false;
}

abbrev scalar : Tensor ℕ
scalar = record { shape = 1 ∷ 1 ∷ []; data_ = 3 ∷ [] }

abbrev vector : Tensor ℕ
vector = record { shape = 1 ∷ []; data_ = 2 ∷ [] }

abbrev weights : List (String × Tensor ℕ)
weights =
    ("model.embed_tokens.weight", record { shape = 2 ∷ 1 ∷ []; data_ = 1 ∷ 2 ∷ [] })
    ∷ ("model.layers.0.input_layernorm.weight", vector)
    ∷ ("model.layers.0.self_attn.q_proj.weight", scalar)
    ∷ ("model.layers.0.self_attn.k_proj.weight", scalar)
    ∷ ("model.layers.0.self_attn.v_proj.weight", scalar)
    ∷ ("model.layers.0.self_attn.o_proj.weight", scalar)
    ∷ ("model.layers.0.post_attention_layernorm.weight", vector)
    ∷ ("model.layers.0.mlp.gate_proj.weight", scalar)
    ∷ ("model.layers.0.mlp.up_proj.weight", scalar)
    ∷ ("model.layers.0.mlp.down_proj.weight", scalar)
    ∷ ("model.norm.weight", vector)
    ∷ []

abbrev pub tiny : Model ℕ ℕ
tiny = record { config = sizes; weights = weights; quantized = false; quant = [] }

tiny-from_safetensors : from_safetensors sizes weights ≡ tiny
unfolding from_safetensors
tiny-from_safetensors = refl

tiny_layer : LayerFits whole product tiny 1 0
unfolding layer_key get find_quant num_elements
tiny_layer = record {
  norm1 = record { count = refl; size = refl };
  q = record { shape = refl; size = refl };
  k = record { shape = refl; size = refl };
  v = record { shape = refl; size = refl };
  q_bias = λ e. absurd (cc e);
  k_bias = λ e. absurd (cc e);
  v_bias = λ e. absurd (cc e);
  o = record { shape = refl; size = refl };
  norm2 = record { count = refl; size = refl };
  gate = record { shape = refl; size = refl };
  up = record { shape = refl; size = refl };
  down = record { shape = refl; size = refl };
}

one_layer : (l : ℕ) → l < 1 → LayerFits whole product tiny 1 l
one_layer zero lt = tiny_layer
one_layer (suc l) lt = absurd (omega arith)

pub tiny-Fits : Fits whole product tiny 2 1
unfolding get contains num_elements
tiny-Fits = record {
  heads = omega arith;
  grouped = refl;
  embed = record { shape = refl; size = refl };
  layers = one_layer;
  norm = record { count = refl; size = refl };
  lm_head = λ e. absurd (cc e);
}

abbrev ids : List ℤ
ids = pos 1 ∷ pos 0 ∷ []

forward-IsMatrix_example : Returns (IsMatrix 2 2) (forward whole product tiny ids)
forward-IsMatrix_example =
    forward-IsMatrix whole product tiny product-IsProduct 2 1 tiny-Fits ids (omega arith)
      (omega arith) (omega arith, (omega arith, tt))

abbrev new_paged : PagedKvCache ℕ
new_paged = built 0 1 1 1 2

abbrev pub new_contiguous : KvCache ℕ
new_contiguous = Contiguous.init 1 1

forward_paged-forward_with_cache_example :
    Both
      (λ r r'. (r.1 ≡ r'.1) × IsMatrix 2 2 r.1 × InStep 1 (1 * 1) (0 + 2) r.0 r'.0)
      (forward_paged whole product tiny ids new_paged)
      (forward_with_cache whole product tiny ids new_contiguous)
forward_paged-forward_with_cache_example =
    forward_paged-forward_with_cache whole product tiny product-IsProduct 2 1 tiny-Fits 0 ids
      new_paged new_contiguous (omega arith) (omega arith, (omega arith, tt))
      (started whole product tiny product-IsProduct 2 1 tiny-Fits 2 (omega arith))
      (omega (arith, num_free-fresh 2))

quantize-Fits_example :
    (quant : List (String × QuantizedMatrix ℕ)) × (quantize whole tiny
      ≡ ok (record tiny { quant = quant; quantized = true }))
    × ((l : ℕ) → l < 1 → Covers whole weights l quant)
    × Fits whole product (record tiny { quant = quant; quantized = true }) 2 1
quantize-Fits_example = quantize-Fits whole product tiny 2 1 tiny-Fits refl refl
