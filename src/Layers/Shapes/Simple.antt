-- ===== src/Layers/Shapes/Simple.antt =====
-- The layers before and after the attention: linear, silu_mul, add_inplace, rms_norm, embedding
-- and rope_inplace.
use from_scratch_inference_e.Base.{
  ℕ, ◌*◌, ◌≡◌, refl, ◌∙◌, subst, ◌⊎◌, inl, inr, List, [], ◌∷◌, true, arith, ◌==◌, ==_refl,
  Bool-cases, if◌then◌else◌, length, ok,
}
use from_scratch_inference_e.Tensor.{Tensor, numel}
use from_scratch_inference_e.Layers.Floats.{Floats, Gemm}
use from_scratch_inference_e.Layers.Rows.{zip_with}
use from_scratch_inference_e.Layers.Linear.{linear, add_bias, silu_mul, add_inplace, same_shape}
use from_scratch_inference_e.Layers.Norm.{rms_norm, norm_row, norm_scale}
use from_scratch_inference_e.Layers.Shapes.Rows.{
  Returns, Returns-bind, Long, zip_with-Long, each_row-Long,
}

module _ {ℓ} {F : Type ℓ} where
  pub record IsMatrix (s w : ℕ) (t : Tensor F) : Type 0 where
    pub shape : t.shape ≡ s ∷ w ∷ []
    pub size : Long (s * w) t.data_

  pub record IsVector (n : ℕ) (t : Tensor F) : Type 0 where
    pub count : numel t ≡ n
    pub size : Long n t.data_

  -- A bias may be empty.
  abbrev pub IsBias : ℕ → Tensor F → Type 0
  IsBias n t = (numel t ≡ 0) ⊎ IsVector n t

  -- What the layers use of a product of matrices.
  pub record IsProduct (gemm : Gemm F) : Type ℓ where
    pub size :
        (s inner out : ℕ) (x w : List F)
        → Long (s * inner) x
        → Long (out * inner) w
        → Long (s * out) (gemm s inner out x w)

pub same_shape_refl : (ds : List ℕ) → same_shape ds ds ≡ true
same_shape_refl [] = refl
same_shape_refl (d ∷ ds) = rw (==_refl d) (same_shape_refl ds)

module _ {ℓ} {F D : Type ℓ} (A : Floats F D) where
  add_bias-Long :
      (s out : ℕ) (y : List F) (bias : Tensor F)
      → Long (s * out) y
      → IsVector out bias
      → Returns (Long (s * out)) (add_bias A s out y bias)
  unfolding add_bias
  add_bias-Long s out y bias h b =
      rw (b.count, ==_refl out)
        (each_row-Long (λ i row. zip_with A.add row bias.data_) out out 0 s y
          (λ j row _ _ e.
            subst (λ n. Returns (Long n) (zip_with A.add row bias.data_)) e
              (zip_with-Long A.add row bias.data_ (omega (arith, b.size))))
          h)

  biased :
      (s out : ℕ) (y : List F) (bias : Tensor F)
      → Long (s * out) y
      → IsBias out bias
      → Returns (Long (s * out)) (if numel bias == 0 then ok y else add_bias A s out y bias)
  biased s out y bias h (inl e) = rw (e) h
  biased s out y bias h (inr b) = elim (Bool-cases (numel bias == 0)) [
    | inl e ↦ rw (e) h
    | inr e ↦ rw (e) (add_bias-Long s out y bias h b)
  ]

  pub linear-IsMatrix :
      (gemm : Gemm F) (s inner out : ℕ) (x w bias : Tensor F)
      → IsProduct gemm
      → IsMatrix s inner x
      → IsMatrix out inner w
      → IsBias out bias
      → Returns (IsMatrix s out) (linear A gemm x w bias)
  unfolding linear
  linear-IsMatrix gemm s inner out x w bias p hx hw b =
      rw (hx.shape, hw.shape, ==_refl inner)
        (Returns-bind (Long (s * out)) (IsMatrix s out) _ _
          (biased s out (gemm s inner out x.data_ w.data_) bias
            (p.size s inner out x.data_ w.data_ hx.size hw.size) b)
          λ values e. record { shape = refl; size = e })

  pub silu_mul-IsMatrix :
      (s w : ℕ) (gate up : Tensor F)
      → IsMatrix s w gate
      → IsMatrix s w up
      → Returns (IsMatrix s w) (silu_mul A gate up)
  unfolding silu_mul
  silu_mul-IsMatrix s w gate up g u =
      rw (g.shape, u.shape, same_shape_refl (s ∷ w ∷ []))
        (Returns-bind (Long (length gate.data_)) (IsMatrix s w) _ _
          (zip_with-Long (λ x u. A.mul (A.div x (A.add A.one (A.exp (A.neg x)))) u) gate.data_
            up.data_ (omega (arith, g.size, u.size)))
          λ values e. record { shape = refl; size = e ∙ g.size })

  pub add_inplace-IsMatrix :
      (s w : ℕ) (x y : Tensor F)
      → IsMatrix s w x
      → IsMatrix s w y
      → Returns (IsMatrix s w) (add_inplace A x y)
  unfolding add_inplace
  add_inplace-IsMatrix s w x y hx hy =
      Returns-bind (Long (length x.data_)) (IsMatrix s w) _ _
        (zip_with-Long A.add x.data_ y.data_ (omega (arith, hx.size, hy.size)))
        λ values e. record { shape = hx.shape; size = e ∙ hx.size }

  pub norm_row-Long :
      (eps : D) (h : ℕ) (weight row : List F)
      → Long h weight
      → Long h row
      → Returns (Long h) (norm_row A eps h weight row)
  unfolding norm_row
  norm_row-Long eps h weight row hw hr =
      let scale = norm_scale A eps h row in
      subst (λ n. Returns (Long n) (norm_row A eps h weight row)) hr
        (zip_with-Long (λ v w. A.mul (A.narrow (A.dmul (A.wide v) scale)) w) row weight
          (omega arith))

  pub rms_norm-IsMatrix :
      (s h : ℕ) (x weight : Tensor F) (eps : D)
      → IsMatrix s h x
      → IsVector h weight
      → Returns (IsMatrix s h) (rms_norm A x weight eps)
  unfolding rms_norm
  rms_norm-IsMatrix s h x weight eps hx hw =
      rw (hx.shape, hw.count, ==_refl h)
        (Returns-bind (Long (s * h)) (IsMatrix s h) _ _
          (each_row-Long (λ i row. norm_row A eps h weight.data_ row) h h 0 s x.data_
            (λ j row _ _ e. norm_row-Long eps h weight.data_ row hw.size e) hx.size)
          λ values e. record { shape = refl; size = e })
