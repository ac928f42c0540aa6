-- ===== src/Weights/Config.antt =====
-- include/engine/model_config.hpp and src/model/model_config.cpp. The JSON library's document is an
-- argument: what stands under a key.
use Prim.Native.String.{String}
use text.Mathlib.Text.{◌==◌ as same_text}
use from_scratch_inference_e.Base.{
  ℕ, zero, suc, ◌/◌, Bool, true, false, if◌then◌else◌, ℤ, pos, negsuc, Result, ok, err, ◌>>=◌, ◌>>◌,
  guard, runtime_error, json_error,
}
use from_scratch_inference_e.Manager.State.{is_positive, magnitude}

-- A key may be absent, or hold a value that is not of the type asked for.
pub data Field {ℓ} (A : Type ℓ) : Type ℓ where
  absent : Field A
  ill_typed : Field A
  present : A → Field A

pub record Document {ℓ} (D : Type ℓ) : Type ℓ where
  pub integer : String → Field ℤ
  pub real : String → Field D
  pub boolean : String → Field Bool
  pub text : String → Field String

-- j.at(key).get<T>() and j.value(key, standard)
unfoldable pub at {ℓ} : {A : Type ℓ} → Field A → Result A
at absent = err json_error
at ill_typed = err json_error
at (present a) = ok a

unfoldable pub value {ℓ} : {A : Type ℓ} → Field A → A → Result A
value absent standard = ok standard
value ill_typed standard = err json_error
value (present a) standard = ok a

pub record ModelConfig {ℓ} (D : Type ℓ) : Type ℓ where
  pub hidden_size : ℤ
  pub num_hidden_layers : ℤ
  pub num_attention_heads : ℤ
  pub num_key_value_heads : ℤ
  pub head_dim : ℤ
  pub intermediate_size : ℤ
  pub vocab_size : ℤ
  pub max_position_embeddings : ℤ
  pub rope_theta : D
  pub rms_norm_eps : D
  pub tie_word_embeddings : Bool
  pub attention_qkv_bias : Bool
  pub hidden_act : String
  pub model_type : String

-- Division by a positive number rounds towards zero.
abbrev negated : ℕ → ℤ
negated zero = pos 0
negated (suc n) = negsuc n

unfoldable pub quotient : ℤ → ℕ → ℤ
quotient (pos a) n = pos (a / n)
quotient (negsuc a) n = negated (suc a / n)

abbrev head_dim_of {ℓ} : {D : Type ℓ} → Document D → ℤ → ℤ → Result ℤ
head_dim_of j hidden heads = elim (j.integer "head_dim") [
  | absent ↦ ok (quotient hidden (magnitude heads))
  | ill_typed ↦ err json_error
  | present d ↦ ok d
]

module _ {ℓ} {D : Type ℓ} where
  -- The two numbers are 10000.0 and 1e-6.
  unfoldable pub from_json : D → D → Document D → Result (ModelConfig D)
  unfolding at value quotient
  from_json standard_theta standard_eps j = do
    model_type ← value (j.text "model_type") ""
    hidden ← at (j.integer "hidden_size")
    num_layers ← at (j.integer "num_hidden_layers")
    heads ← at (j.integer "num_attention_heads")
    guard (is_positive heads) runtime_error
    kv_heads ← value (j.integer "num_key_value_heads") heads
    dim ← head_dim_of j hidden heads
    intermediate ← at (j.integer "intermediate_size")
    vocab ← at (j.integer "vocab_size")
    max_positions ← value (j.integer "max_position_embeddings") (pos 0)
    theta ← value (j.real "rope_theta") standard_theta
    eps ← value (j.real "rms_norm_eps") standard_eps
    tie ← value (j.boolean "tie_word_embeddings") false
    act ← value (j.text "hidden_act") "silu"
    bias ←
        (if same_text model_type "qwen2" then ok true else value (j.boolean "attention_bias") false)
    ok (record {
      hidden_size = hidden;
      num_hidden_layers = num_layers;
      num_attention_heads = heads;
      num_key_value_heads = kv_heads;
      head_dim = dim;
      intermediate_size = intermediate;
      vocab_size = vocab;
      max_position_embeddings = max_positions;
      rope_theta = theta;
      rms_norm_eps = eps;
      tie_word_embeddings = tie;
      attention_qkv_bias = bias;
      hidden_act = act;
      model_type = model_type;
    })
