-- ===== src/Network/State.antt =====
-- The class Model, its named weights and its linear layers.
use Prim.Native.String.{String, ◌++◌ as ◌<>◌}
use from_scratch_inference_e.Base.{
  ℕ, zero, suc, ◌/◌, ◌%◌, List, [], ◌∷◌, Bool, false, ◌==◌, if◌then◌else◌, Option, none, some,
  Result, ok, ◌>>=◌, or_fail, get_or, runtime_error,
}
use from_scratch_inference_e.Base.Names.{lookup, has_key}
use from_scratch_inference_e.Tensor.{Tensor}
use from_scratch_inference_e.Layers.Floats.{Floats, Gemm}
use from_scratch_inference_e.Layers.Linear.{linear, linear_plain}
use from_scratch_inference_e.Quant.{QuantizedMatrix, linear_int8, linear_int8_plain}

-- The fields of ModelConfig that the passes read, where they are natural numbers.
pub record Sizes {ℓ} (D : Type ℓ) : Type ℓ where
  pub hidden_size : ℕ
  pub num_hidden_layers : ℕ
  pub num_attention_heads : ℕ
  pub num_key_value_heads : ℕ
  pub head_dim : ℕ
  pub rope_theta : D
  pub rms_norm_eps : D
  pub attention_qkv_bias : Bool

pub record Model {ℓ} (F D : Type ℓ) : Type ℓ where
  pub config : Sizes D
  pub weights : List (String × Tensor F)
  pub quantized : Bool
  pub quant : List (String × QuantizedMatrix F)

abbrev digits : List String
digits = "0" ∷ "1" ∷ "2" ∷ "3" ∷ "4" ∷ "5" ∷ "6" ∷ "7" ∷ "8" ∷ "9" ∷ []

-- std::to_string; a number has no more digits than its own size and one.
to_text_within : ℕ → ℕ → String
to_text_within zero n = ""
to_text_within (suc fuel) n =
    let more = to_text_within fuel (n / 10) <> get_or digits (n % 10) "" in
    if n / 10 == 0 then get_or digits (n % 10) "" else more

unfoldable pub to_text : ℕ → String
unfolding to_text_within
to_text n = to_text_within (suc n) n

unfoldable pub layer_key : ℕ → String → String
unfolding to_text
layer_key layer suffix = "model.layers." <> to_text layer <> "." <> suffix

module _ {ℓ} {F : Type ℓ} where
  -- SafeTensors::get and SafeTensors::contains
  unfoldable pub get : List (String × Tensor F) → String → Result (Tensor F)
  get weights name = or_fail runtime_error (lookup name weights)

  unfoldable pub contains : List (String × Tensor F) → String → Bool
  contains weights name = has_key name weights

module _ {ℓ} {F D : Type ℓ} where
  unfoldable pub from_safetensors : Sizes D → List (String × Tensor F) → Model F D
  from_safetensors config weights = record {
    config = config;
    weights = weights;
    quantized = false;
    quant = [];
  }

module _ {ℓ} {F D : Type ℓ} (A : Floats F D) (gemm : Gemm F) (m : Model F D) where
  -- quant_.find, tried only on a quantized model
  unfoldable pub find_quant : String → Option (QuantizedMatrix F)
  find_quant name = if m.quantized then lookup name m.quant else none

  unfoldable pub linear_w : Tensor F → String → Result (Tensor F)
  unfolding find_quant get linear_int8_plain linear_plain
  linear_w x name = elim (find_quant name) [
    | some q ↦ linear_int8_plain A x q
    | none ↦ get m.weights name >>= λ w. linear_plain A gemm x w
  ]

  unfoldable pub linear_w_bias : Tensor F → String → Tensor F → Result (Tensor F)
  unfolding find_quant get linear_int8 linear
  linear_w_bias x name bias = elim (find_quant name) [
    | some q ↦ linear_int8 A x q bias
    | none ↦ get m.weights name >>= λ w. linear A gemm x w bias
  ]

  -- lm_head, which tied embeddings leave out
  unfoldable pub head : Tensor F → Result (Tensor F)
  unfolding get contains
  head embed =
      if contains m.weights "lm_head.weight" then get m.weights "lm_head.weight" else ok embed
