-- ===== src/Network/Fits.antt =====
-- A model whose weights are there, with the shapes of its configuration, quantized or not; and its
-- layers on inputs of these shapes.
use Prim.Native.String.{String, ◌++◌ as ◌<>◌}
use from_scratch_inference_e.Base.{
  ℕ, ◌*◌, ◌%◌, ◌<◌, ◌≡◌, refl, inl, inr, true, Bool-cases, none, some, Option-cases,
}
use from_scratch_inference_e.Tensor.{Tensor, default, num_elements}
use from_scratch_inference_e.Layers.Floats.{Floats, Gemm}
use from_scratch_inference_e.Layers.Linear.{linear_plain}
use from_scratch_inference_e.Layers.Shapes.Rows.{Returns, Returns-bind}
use from_scratch_inference_e.Layers.Shapes.Simple.{
  IsMatrix, IsVector, IsBias, IsProduct, linear-IsMatrix, silu_mul-IsMatrix, add_inplace-IsMatrix,
  rms_norm-IsMatrix,
}
use from_scratch_inference_e.Quant.{linear_int8_plain}
use from_scratch_inference_e.Quant.Shapes.{IsQuantized, linear_int8-IsMatrix}
use from_scratch_inference_e.Network.State.{
  Model, layer_key, get, contains, find_quant, linear_w, linear_w_bias, head,
}
use from_scratch_inference_e.Network.Block.{project, mlp}

module _ {ℓ} {F D : Type ℓ} (A : Floats F D) (gemm : Gemm F) (m : Model F D) where
  abbrev pub width : ℕ
  width = m.config.num_attention_heads * m.config.head_dim

  abbrev pub kv_width : ℕ
  kv_width = m.config.num_key_value_heads * m.config.head_dim

  -- The weight under a key is an `out` by `inner` matrix, of int8 or of floats.
  abbrev pub Weighs : ℕ → ℕ → String → Type 0
  Weighs out inner key = elim (find_quant A gemm m key) [
    | some q ↦ IsQuantized out inner q
    | none ↦ Returns (IsMatrix out inner) (get m.weights key)
  ]

  pub record LayerFits (inter l : ℕ) : Type 0 where
    pub norm1 :
        Returns
          (IsVector m.config.hidden_size)
          (get m.weights (layer_key l "input_layernorm.weight"))
    pub q : Weighs width m.config.hidden_size (layer_key l ("self_attn." <> "q" <> "_proj.weight"))
    pub k :
        Weighs kv_width m.config.hidden_size (layer_key l ("self_attn." <> "k" <> "_proj.weight"))
    pub v :
        Weighs kv_width m.config.hidden_size (layer_key l ("self_attn." <> "v" <> "_proj.weight"))
    pub q_bias :
        m.config.attention_qkv_bias ≡ true
        → Returns (IsBias width) (get m.weights (layer_key l ("self_attn." <> "q" <> "_proj.bias")))
    pub k_bias :
        m.config.attention_qkv_bias ≡ true
        → Returns
            (IsBias kv_width)
            (get m.weights (layer_key l ("self_attn." <> "k" <> "_proj.bias")))
    pub v_bias :
        m.config.attention_qkv_bias ≡ true
        → Returns
            (IsBias kv_width)
            (get m.weights (layer_key l ("self_attn." <> "v" <> "_proj.bias")))
    pub o : Weighs m.config.hidden_size width (layer_key l "self_attn.o_proj.weight")
    pub norm2 :
        Returns
          (IsVector m.config.hidden_size)
          (get m.weights (layer_key l "post_attention_layernorm.weight"))
    pub gate : Weighs inter m.config.hidden_size (layer_key l "mlp.gate_proj.weight")
    pub up : Weighs inter m.config.hidden_size (layer_key l "mlp.up_proj.weight")
    pub down : Weighs m.config.hidden_size inter (layer_key l "mlp.down_proj.weight")

  pub record Fits (vocab inter : ℕ) : Type 0 where
    pub heads : 0 < m.config.num_key_value_heads
    pub grouped : m.config.num_attention_heads % m.config.num_key_value_heads ≡ 0
    pub embed :
        Returns (IsMatrix vocab m.config.hidden_size) (get m.weights "model.embed_tokens.weight")
    pub layers : (l : ℕ) → l < m.config.num_hidden_layers → LayerFits inter l
    pub norm : Returns (IsVector m.config.hidden_size) (get m.weights "model.norm.weight")
    pub lm_head :
        contains m.weights "lm_head.weight" ≡ true
        → Returns (IsMatrix vocab m.config.hidden_size) (get m.weights "lm_head.weight")

  module _ (product : IsProduct gemm) where
    pub linear_w-IsMatrix :
        (s inner out : ℕ) (x : Tensor F) (key : String)
        → IsMatrix s inner x
        → Weighs out inner key
        → Returns (IsMatrix s out) (linear_w A gemm m x key)
    unfolding linear_w linear_plain linear_int8_plain num_elements
    linear_w-IsMatrix s inner out x key hx w = elim (Option-cases (find_quant A gemm m key)) [
      | inl e ↦
          let w' : Returns (IsMatrix out inner) (get m.weights key) = rw (e, Weighs) at w in
          rw (e, linear_w)
            (Returns-bind (IsMatrix out inner) (IsMatrix s out) (get m.weights key) _ w'
              λ t h. linear-IsMatrix A gemm s inner out x t default product hx h (inl refl))
      | inr found ↦
          let w' : IsQuantized out inner found.0 = rw (found.1, Weighs) at w in
          rw (found.1, linear_w)
            (linear_int8-IsMatrix A s inner out x found.0 default hx w' (inl refl))
    ]

    pub linear_w_bias-IsMatrix :
        (s inner out : ℕ) (x : Tensor F) (key : String) (bias : Tensor F)
        → IsMatrix s inner x
        → Weighs out inner key
        → IsBias out bias
        → Returns (IsMatrix s out) (linear_w_bias A gemm m x key bias)
    unfolding linear_w_bias
    linear_w_bias-IsMatrix s inner out x key bias hx w b =
        elim (Option-cases (find_quant A gemm m key)) [
          | inl e ↦
              let w' : Returns (IsMatrix out inner) (get m.weights key) = rw (e, Weighs) at w in
              rw (e, linear_w_bias)
                (Returns-bind (IsMatrix out inner) (IsMatrix s out) (get m.weights key) _ w'
                  λ t h. linear-IsMatrix A gemm s inner out x t bias product hx h b)
          | inr found ↦
              let w' : IsQuantized out inner found.0 = rw (found.1, Weighs) at w in
              rw (found.1, linear_w_bias)
                (linear_int8-IsMatrix A s inner out x found.0 bias hx w' b)
        ]

    pub head-IsMatrix :
        (vocab inter : ℕ) (e : Tensor F)
        → Fits vocab inter
        → IsMatrix vocab m.config.hidden_size e
        → Returns (IsMatrix vocab m.config.hidden_size) (head A gemm m e)
    unfolding head
    head-IsMatrix vocab inter e fits he = elim (Bool-cases (contains m.weights "lm_head.weight")) [
      | inl b ↦ rw (b) (fits.lm_head b)
      | inr b ↦ rw (b) he
    ]

    pub project-IsMatrix :
        (s out l : ℕ) (normed : Tensor F) (name : String)
        → IsMatrix s m.config.hidden_size normed
        → Weighs out m.config.hidden_size (layer_key l ("self_attn." <> name <> "_proj.weight"))
        → (m.config.attention_qkv_bias ≡ true
            → Returns
                (IsBias out)
                (get m.weights (layer_key l ("self_attn." <> name <> "_proj.bias"))))
        → Returns (IsMatrix s out) (project A gemm m l normed name)
    unfolding project
    project-IsMatrix s out l normed name hx w b =
        let key = layer_key l ("self_attn." <> name <> "_proj.weight") in
        elim (Bool-cases m.config.attention_qkv_bias) [
          | inl e ↦ rw (e) (
              Returns-bind (IsBias out) (IsMatrix s out) _ _ (b e)
                λ bias h. linear_w_bias-IsMatrix s m.config.hidden_size out normed key bias hx w h)
          | inr e ↦ rw (e) (linear_w-IsMatrix s m.config.hidden_size out normed key hx w)
        ]

    pub mlp-IsMatrix :
        (inter s l : ℕ) (x : Tensor F)
        → LayerFits inter l
        → IsMatrix s m.config.hidden_size x
        → Returns (IsMatrix s m.config.hidden_size) (mlp A gemm m l x)
    unfolding mlp
    mlp-IsMatrix inter s l x fits hx =
        let h = m.config.hidden_size in
        Returns-bind (IsVector h) (IsMatrix s h) _ _ fits.norm2 λ norm2 hn.
          Returns-bind (IsMatrix s h) (IsMatrix s h) _ _
            (rms_norm-IsMatrix A s h x norm2 m.config.rms_norm_eps hx hn)
            λ normed2 h2.
              Returns-bind (IsMatrix s inter) (IsMatrix s h) _ _
                (linear_w-IsMatrix s h inter normed2 (layer_key l "mlp.gate_proj.weight") h2
                  fits.gate)
                λ gate hg.
                  Returns-bind (IsMatrix s inter) (IsMatrix s h) _ _
                    (linear_w-IsMatrix s h inter normed2 (layer_key l "mlp.up_proj.weight") h2
                      fits.up)
                    λ up hu.
                      Returns-bind (IsMatrix s inter) (IsMatrix s h) _ _
                        (silu_mul-IsMatrix A s inter gate up hg hu)
                        λ act ha.
                          Returns-bind (IsMatrix s h) (IsMatrix s h) _ _
                            (linear_w-IsMatrix s inter h act (layer_key l "mlp.down_proj.weight") ha
                              fits.down)
                            λ down hd. add_inplace-IsMatrix A s h x down hx hd
