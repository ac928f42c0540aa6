-- ===== src/Layers/Joined/Linear.antt =====
-- The linear layers, of floats and of int8, on two inputs and on both in one.
use from_scratch_inference_e.Base.{
  ℕ, ◌+◌, ◌*◌, ◌≡◌, refl, subst, inl, inr, List, ◌++◌, true, false, arith, ◌==◌, ==_refl,
  Bool-cases, if◌then◌else◌, Result, ok,
}
use from_scratch_inference_e.Tensor.{Tensor, numel}
use from_scratch_inference_e.Layers.Floats.{Floats, Gemm}
use from_scratch_inference_e.Layers.Rows.{zip_with}
use from_scratch_inference_e.Layers.Linear.{linear, add_bias}
use from_scratch_inference_e.Layers.Shapes.Rows.{Returns, Long, zip_with-Long}
use from_scratch_inference_e.Layers.Shapes.Simple.{IsMatrix, IsVector, IsBias}
use from_scratch_inference_e.Layers.Joined.Rows.{Three, Three-ok, Three-bind, Cat, each_row-Three}
use from_scratch_inference_e.Layers.Joined.Simple.{Joined, IsRowwise, rows-Joined}
use from_scratch_inference_e.Quant.{QuantizedMatrix, linear_int8, output_row}
use from_scratch_inference_e.Quant.Shapes.{IsQuantized, output_row-Long, bias_fits}

bias-IsVector {ℓ} :
    {F : Type ℓ} (out : ℕ) (bias : Tensor F)
    → IsBias out bias
    → (numel bias == 0) ≡ false
    → IsVector out bias
bias-IsVector out bias (inr b) e = b
bias-IsVector out bias (inl b) e = let never : true ≡ false = rw (b) at e in absurd (cc never)

module _ {ℓ} {F D : Type ℓ} (A : Floats F D) (s1 s2 : ℕ) where
  add_bias-Three :
      (out : ℕ) (ys zs : List F) (bias : Tensor F)
      → Long (s1 * out) ys
      → Long (s2 * out) zs
      → IsVector out bias
      → Three
          (Cat (s1 * out) (s2 * out))
          (add_bias A (s1 + s2) out (ys ++ zs) bias)
          (add_bias A s1 out ys bias)
          (add_bias A s2 out zs bias)
  unfolding add_bias
  add_bias-Three out ys zs bias ly lz b =
      let f : ℕ → List F → Result (List F) = λ i row. zip_with A.add row bias.data_ in
      let total : (j : ℕ) (row : List F) → Long out row → Returns (Long out) (f j row) = λ j row e.
        subst (λ n. Returns (Long n) (zip_with A.add row bias.data_)) e
          (zip_with-Long A.add row bias.data_ (omega (arith, b.size))) in
      rw (b.count, ==_refl out)
        (each_row-Three f f f out out s1 s2 ys zs (λ j row _ e. total j row e)
          (λ j row _ e. total j row e) (λ j row _ _. refl) (λ j row _ _. refl) ly lz)

  biased-Three :
      (out : ℕ) (ys zs : List F) (bias : Tensor F)
      → Long (s1 * out) ys
      → Long (s2 * out) zs
      → IsBias out bias
      → Three
          (Cat (s1 * out) (s2 * out))
          (if numel bias == 0 then ok (ys ++ zs) else add_bias A (s1 + s2) out (ys ++ zs) bias)
          (if numel bias == 0 then ok ys else add_bias A s1 out ys bias)
          (if numel bias == 0 then ok zs else add_bias A s2 out zs bias)
  biased-Three out ys zs bias ly lz b = elim (Bool-cases (numel bias == 0)) [
    | inl e ↦ rw (e) (Three-ok (Cat (s1 * out) (s2 * out)) (ys ++ zs) ys zs (refl, ly, lz))
    | inr e ↦ rw (e) (add_bias-Three out ys zs bias ly lz (bias-IsVector out bias b e))
  ]

  pub linear-Joined :
      (gemm : Gemm F) (inner out : ℕ) (x x1 x2 w bias : Tensor F)
      → IsRowwise gemm
      → Joined s1 s2 inner x x1 x2
      → IsMatrix out inner w
      → IsBias out bias
      → Three
          (Joined s1 s2 out)
          (linear A gemm x w bias)
          (linear A gemm x1 w bias)
          (linear A gemm x2 w bias)
  unfolding linear
  linear-Joined gemm inner out x x1 x2 w bias rowwise hx hw b =
      let p = rowwise.product in
      let split =
        rowwise.append s1 s2 inner out x1.data_ x2.data_ w.data_ hx.first.size hx.second.size in
      rw (hx.rows, hx.all.shape, hx.first.shape, hx.second.shape, hw.shape, ==_refl inner, split)
        (Three-bind (Cat (s1 * out) (s2 * out)) (Joined s1 s2 out) _ _ _ _ _ _
          (biased-Three out (gemm s1 inner out x1.data_ w.data_)
            (gemm s2 inner out x2.data_ w.data_) bias
            (p.size s1 inner out x1.data_ w.data_ hx.first.size hw.size)
            (p.size s2 inner out x2.data_ w.data_ hx.second.size hw.size) b)
          λ a c d e. Three-ok (Joined s1 s2 out) _ _ _ (rows-Joined s1 s2 out a c d e))

  pub linear_int8-Joined :
      (inner out : ℕ) (x x1 x2 : Tensor F) (q : QuantizedMatrix F) (bias : Tensor F)
      → Joined s1 s2 inner x x1 x2
      → IsQuantized out inner q
      → IsBias out bias
      → Three
          (Joined s1 s2 out)
          (linear_int8 A x q bias)
          (linear_int8 A x1 q bias)
          (linear_int8 A x2 q bias)
  unfolding linear_int8
  linear_int8-Joined inner out x x1 x2 q bias hx hq b =
      let f : ℕ → List F → Result (List F) = λ i row. output_row A q bias row 0 out in
      let total : (j : ℕ) (row : List F) → Long inner row → Returns (Long out) (f j row) =
        λ j row e. output_row-Long A out inner 0 out q bias row hq b e (omega arith) in
      simp
        (
          hx.rows,
          hx.all.shape,
          hx.first.shape,
          hx.second.shape,
          hq.cols,
          hq.rows,
          bias_fits A out bias b,
          ==_refl inner,
        )
        (Three-bind (Cat (s1 * out) (s2 * out)) (Joined s1 s2 out) _ _ _ _ _ _
          (each_row-Three f f f inner out s1 s2 x1.data_ x2.data_ (λ j row _ e. total j row e)
            (λ j row _ e. total j row e) (λ j row _ _. refl) (λ j row _ _. refl) hx.first.size
            hx.second.size)
          λ a c d e. Three-ok (Joined s1 s2 out) _ _ _ (rows-Joined s1 s2 out a c d e))
