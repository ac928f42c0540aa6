-- ===== src/Network/Chunks/Layers.antt =====
-- The parts of the layer body around the attention, on two inputs and on both in one.
use Prim.Native.String.{String, ◌++◌ as ◌<>◌}
use from_scratch_inference_e.Base.{ℕ, ◌≡◌, refl, inl, inr, true, Bool-cases, Option-cases}
use from_scratch_inference_e.Tensor.{Tensor, default, num_elements}
use from_scratch_inference_e.Layers.Floats.{Floats, Gemm}
use from_scratch_inference_e.Layers.Linear.{linear_plain}
use from_scratch_inference_e.Layers.Shapes.Rows.{Returns}
use from_scratch_inference_e.Layers.Shapes.Simple.{IsMatrix, IsVector, IsBias}
use from_scratch_inference_e.Layers.Joined.Rows.{Three, Three-ok, Three-same, Three-bind}
use from_scratch_inference_e.Layers.Joined.Simple.{
  Joined, IsRowwise, silu_mul-Joined, add_inplace-Joined, rms_norm-Joined,
}
use from_scratch_inference_e.Layers.Joined.Linear.{linear-Joined, linear_int8-Joined}
use from_scratch_inference_e.Quant.{linear_int8_plain}
use from_scratch_inference_e.Quant.Shapes.{IsQuantized}
use from_scratch_inference_e.Network.State.{
  Model, layer_key, get, find_quant, linear_w, linear_w_bias,
}
use from_scratch_inference_e.Network.Block.{project, mlp, finish}
use from_scratch_inference_e.Network.Forward.{to_logits}
use from_scratch_inference_e.Network.Fits.{Fits, LayerFits, Weighs, width, head-IsMatrix}

module _ {ℓ} {F D : Type ℓ} (A : Floats F D) (gemm : Gemm F) (m : Model F D)
    (rowwise : IsRowwise gemm) (s1 s2 : ℕ) where
  linear_w-Joined :
      (inner out : ℕ) (x x1 x2 : Tensor F) (key : String)
      → Joined s1 s2 inner x x1 x2
      → Weighs A gemm m out inner key
      → Three
          (Joined s1 s2 out)
          (linear_w A gemm m x key)
          (linear_w A gemm m x1 key)
          (linear_w A gemm m x2 key)
  unfolding linear_w linear_plain linear_int8_plain num_elements
  linear_w-Joined inner out x x1 x2 key hx w = elim (Option-cases (find_quant A gemm m key)) [
    | inl e ↦
        let w' : Returns (IsMatrix out inner) (get m.weights key) = rw (e, Weighs) at w in
        rw (e, linear_w)
          (Three-same (IsMatrix out inner) (Joined s1 s2 out) _ _ _ _ w'
            λ t h. linear-Joined A s1 s2 gemm inner out x x1 x2 t default rowwise hx h (inl refl))
    | inr found ↦
        let w' : IsQuantized out inner found.0 = rw (found.1, Weighs) at w in
        rw (found.1, linear_w)
          (linear_int8-Joined A s1 s2 inner out x x1 x2 found.0 default hx w' (inl refl))
  ]

  linear_w_bias-Joined :
      (inner out : ℕ) (x x1 x2 : Tensor F) (key : String) (bias : Tensor F)
      → Joined s1 s2 inner x x1 x2
      → Weighs A gemm m out inner key
      → IsBias out bias
      → Three
          (Joined s1 s2 out)
          (linear_w_bias A gemm m x key bias)
          (linear_w_bias A gemm m x1 key bias)
          (linear_w_bias A gemm m x2 key bias)
  unfolding linear_w_bias
  linear_w_bias-Joined inner out x x1 x2 key bias hx w b =
      elim (Option-cases (find_quant A gemm m key)) [
        | inl e ↦
            let w' : Returns (IsMatrix out inner) (get m.weights key) = rw (e, Weighs) at w in
            rw (e, linear_w_bias)
              (Three-same (IsMatrix out inner) (Joined s1 s2 out) _ _ _ _ w'
                λ t h. linear-Joined A s1 s2 gemm inner out x x1 x2 t bias rowwise hx h b)
        | inr found ↦
            let w' : IsQuantized out inner found.0 = rw (found.1, Weighs) at w in
            rw (found.1, linear_w_bias)
              (linear_int8-Joined A s1 s2 inner out x x1 x2 found.0 bias hx w' b)
      ]

  pub project-Joined :
      (out l : ℕ) (x x1 x2 : Tensor F) (name : String)
      → Joined s1 s2 m.config.hidden_size x x1 x2
      → Weighs A gemm m out m.config.hidden_size
          (layer_key l ("self_attn." <> name <> "_proj.weight"))
      → (m.config.attention_qkv_bias ≡ true
          → Returns
              (IsBias out)
              (get m.weights (layer_key l ("self_attn." <> name <> "_proj.bias"))))
      → Three
          (Joined s1 s2 out)
          (project A gemm m l x name)
          (project A gemm m l x1 name)
          (project A gemm m l x2 name)
  unfolding project
  project-Joined out l x x1 x2 name hx w b =
      let h = m.config.hidden_size in
      let key = layer_key l ("self_attn." <> name <> "_proj.weight") in
      elim (Bool-cases m.config.attention_qkv_bias) [
        | inl e ↦ rw (e) (
            Three-same (IsBias out) (Joined s1 s2 out) _ _ _ _ (b e)
              λ bias hb. linear_w_bias-Joined h out x x1 x2 key bias hx w hb)
        | inr e ↦ rw (e) (linear_w-Joined h out x x1 x2 key hx w)
      ]

  mlp-Joined :
      (inter l : ℕ) (x x1 x2 : Tensor F)
      → LayerFits A gemm m inter l
      → Joined s1 s2 m.config.hidden_size x x1 x2
      → Three
          (Joined s1 s2 m.config.hidden_size)
          (mlp A gemm m l x)
          (mlp A gemm m l x1)
          (mlp A gemm m l x2)
  unfolding mlp
  mlp-Joined inter l x x1 x2 fits hx =
      let h = m.config.hidden_size in
      let R = Joined s1 s2 h in
      Three-same (IsVector h) R _ _ _ _ fits.norm2 λ norm2 hn.
        Three-bind (Joined s1 s2 h) R _ _ _ _ _ _
          (rms_norm-Joined A s1 s2 h x x1 x2 norm2 m.config.rms_norm_eps hx hn)
          λ n n1 n2 hn'.
            Three-bind (Joined s1 s2 inter) R _ _ _ _ _ _
              (linear_w-Joined h inter n n1 n2 (layer_key l "mlp.gate_proj.weight") hn' fits.gate)
              λ g g1 g2 hg.
                Three-bind (Joined s1 s2 inter) R _ _ _ _ _ _
                  (linear_w-Joined h inter n n1 n2 (layer_key l "mlp.up_proj.weight") hn' fits.up)
                  λ u u1 u2 hu.
                    Three-bind (Joined s1 s2 inter) R _ _ _ _ _ _
                      (silu_mul-Joined A s1 s2 inter g g1 g2 u u1 u2 hg hu)
                      λ a a1 a2 ha.
                        Three-bind (Joined s1 s2 h) R _ _ _ _ _ _
                          (linear_w-Joined inter h a a1 a2 (layer_key l "mlp.down_proj.weight") ha
                            fits.down)
                          λ d d1 d2 hd. add_inplace-Joined A s1 s2 h x x1 x2 d d1 d2 hx hd

  -- finish with states of their own, which it passes on
  pub finish-Joined :
      {S : Type ℓ}
      → (inter l : ℕ) (x x1 x2 t t1 t2 : Tensor F) (st st1 st2 : S) → LayerFits A gemm m inter l
      → Joined s1 s2 m.config.hidden_size x x1 x2
      → Joined s1 s2 (width A gemm m) t t1 t2
      → Three
          (λ r r1 r2.
            (r.0 ≡ st)
            × (r1.0 ≡ st1)
            × (r2.0 ≡ st2)
            × Joined s1 s2 m.config.hidden_size r.1 r1.1 r2.1)
          (finish A gemm m l x st t)
          (finish A gemm m l x1 st1 t1)
          (finish A gemm m l x2 st2 t2)
  unfolding finish
  finish-Joined {S = S} inter l x x1 x2 t t1 t2 st st1 st2 fits hx ht =
      let h = m.config.hidden_size in
      let R : S × Tensor F → S × Tensor F → S × Tensor F → Type ℓ =
        λ r r1 r2. (r.0 ≡ st) × (r1.0 ≡ st1) × (r2.0 ≡ st2) × Joined s1 s2 h r.1 r1.1 r2.1 in
      Three-bind (Joined s1 s2 h) R _ _ _ _ _ _
        (linear_w-Joined (width A gemm m) h t t1 t2 (layer_key l "self_attn.o_proj.weight") ht
          fits.o)
        λ o o1 o2 ho.
          Three-bind (Joined s1 s2 h) R _ _ _ _ _ _
            (add_inplace-Joined A s1 s2 h x x1 x2 o o1 o2 hx ho)
            λ y y1 y2 hy.
              Three-bind (Joined s1 s2 h) R _ _ _ _ _ _ (mlp-Joined inter l y y1 y2 fits hy)
                λ z z1 z2 hz. Three-ok R _ _ _ (refl, refl, refl, hz)

  pub to_logits-Joined :
      (vocab inter : ℕ) (embed x x1 x2 : Tensor F)
      → Fits A gemm m vocab inter
      → IsMatrix vocab m.config.hidden_size embed
      → Joined s1 s2 m.config.hidden_size x x1 x2
      → Three
          (Joined s1 s2 vocab)
          (to_logits A gemm m embed x)
          (to_logits A gemm m embed x1)
          (to_logits A gemm m embed x2)
  unfolding to_logits linear_plain num_elements
  to_logits-Joined vocab inter embed x x1 x2 fits he hx =
      let h = m.config.hidden_size in
      let R = Joined s1 s2 vocab in
      Three-same (IsVector h) R _ _ _ _ fits.norm λ norm hn.
        Three-bind (Joined s1 s2 h) R _ _ _ _ _ _
          (rms_norm-Joined A s1 s2 h x x1 x2 norm m.config.rms_norm_eps hx hn)
          λ n n1 n2 hn'.
            Three-same (IsMatrix vocab h) R _ _ _ _
              (head-IsMatrix A gemm m rowwise.product vocab inter embed fits he)
              λ lm_head hl.
                linear-Joined A s1 s2 gemm h vocab n n1 n2 lm_head default rowwise hn' hl (inl refl)
