-- ===== src/Network/Both.antt =====
-- Two runs of the layers that differ in the state of the attention only.
use from_scratch_inference_e.Base.{
  ℕ, zero, suc, ◌+◌, ◌≤◌, ◌<◌, ◌≡◌, refl, subst, List, arith, Result, ok, err, ◌>>=◌,
}
use from_scratch_inference_e.Tensor.{Tensor}
use from_scratch_inference_e.Layers.Floats.{Floats, Gemm}
use from_scratch_inference_e.Layers.Shapes.Rows.{Returns, Returns-bind, Long}
use from_scratch_inference_e.Layers.Shapes.Simple.{
  IsMatrix, IsVector, IsProduct, rms_norm-IsMatrix, add_inplace-IsMatrix,
}
use from_scratch_inference_e.Layers.Shapes.Positions.{rope_inplace-IsMatrix}
use from_scratch_inference_e.Network.State.{Model, layer_key}
use from_scratch_inference_e.Network.Block.{front, finish, layer, layers}
use from_scratch_inference_e.Network.Fits.{
  Fits, LayerFits, width, kv_width, linear_w-IsMatrix, project-IsMatrix, mlp-IsMatrix,
}

-- Both calls return, with related values.
module _ {ℓ} {A B : Type ℓ} where
  pub record Both (R : A → B → Type ℓ) (m : Result A) (m' : Result B) : Type ℓ where
    pub left : A
    pub right : B
    pub left_eq : m ≡ ok left
    pub right_eq : m' ≡ ok right
    pub holds : R left right

module _ {ℓ} {A B : Type ℓ} where
  pub Both-ok : (R : A → B → Type ℓ) (a : A) (b : B) → R a b → Both R (ok a) (ok b)
  Both-ok R a b r = record { left = a; right = b; left_eq = refl; right_eq = refl; holds = r }

  -- The same first call on both sides.
  pub Both-same {κ} :
      {C : Type κ} (P : C → Type 0) (R : A → B → Type ℓ) (m : Result C) (f : C → Result A)
      (g : C → Result B)
      → Returns P m
      → ((c : C) → P c → Both R (f c) (g c))
      → Both R (m >>= f) (m >>= g)
  Both-same P R (ok c) f g h k = k c h
  Both-same P R (err e) f g h k = elim h [ ]

module _ {ℓ} {A B A' B' : Type ℓ} where
  pub Both-bind :
      (Q : A → B → Type ℓ) (R : A' → B' → Type ℓ) (m : Result A) (m' : Result B) (f : A → Result A')
      (g : B → Result B')
      → Both Q m m'
      → ((a : A) (b : B) → Q a b → Both R (f a) (g b))
      → Both R (m >>= f) (m' >>= g)
  Both-bind Q R m m' f g h k = rw (h.left_eq, h.right_eq) (k h.left h.right h.holds)

module _ {ℓ} {F D : Type ℓ} (A : Floats F D) (gemm : Gemm F) (m : Model F D)
    (product : IsProduct gemm) where
  -- Queries, keys and values of the right widths.
  pub record IsFront (s : ℕ) (f : Tensor F × Tensor F × Tensor F) : Type 0 where
    pub q : IsMatrix s (width A gemm m) f.0
    pub k : IsMatrix s (kv_width A gemm m) f.1
    pub v : IsMatrix s (kv_width A gemm m) f.2

  pub front-IsFront :
      (inter s l : ℕ) (positions : List ℕ) (x : Tensor F)
      → Long s positions
      → LayerFits A gemm m inter l
      → IsMatrix s m.config.hidden_size x
      → Returns (IsFront s) (front A gemm m positions l x)
  unfolding front
  front-IsFront inter s l positions x placed f hx =
      let h = m.config.hidden_size in
      let w = width A gemm m in
      let kv = kv_width A gemm m in
      let R = IsFront s in
      Returns-bind (IsVector h) R _ _ f.norm1 λ norm1 hn.
        Returns-bind (IsMatrix s h) R _ _
          (rms_norm-IsMatrix A s h x norm1 m.config.rms_norm_eps hx hn)
          λ normed h1.
            Returns-bind (IsMatrix s w) R _ _
              (project-IsMatrix A gemm m product s w l normed "q" h1 f.q f.q_bias)
              λ q hq.
                Returns-bind (IsMatrix s kv) R _ _
                  (project-IsMatrix A gemm m product s kv l normed "k" h1 f.k f.k_bias)
                  λ k hk.
                    Returns-bind (IsMatrix s kv) R _ _
                      (project-IsMatrix A gemm m product s kv l normed "v" h1 f.v f.v_bias)
                      λ v hv.
                        Returns-bind (IsMatrix s w) R _ _
                          (rope_inplace-IsMatrix A s m.config.num_attention_heads m.config.head_dim
                            m.config.rope_theta q positions hq placed)
                          λ q' hq'.
                            Returns-bind (IsMatrix s kv) R _ _
                              (rope_inplace-IsMatrix A s m.config.num_key_value_heads
                                m.config.head_dim m.config.rope_theta k positions hk placed)
                              λ k' hk'. record { q = hq'; k = hk'; v = hv }

module _ {ℓ} {F D S S' : Type ℓ} (A : Floats F D) (gemm : Gemm F) (m : Model F D)
    (product : IsProduct gemm) (vocab inter s : ℕ) (fits : Fits A gemm m vocab inter)
    (positions : List ℕ) (placed : Long s positions) (I : ℕ → S → S' → Type ℓ)
    (attend : ℕ → Tensor F → Tensor F → Tensor F → S → Result (S × Tensor F))
    (attend' : ℕ → Tensor F → Tensor F → Tensor F → S' → Result (S' × Tensor F)) where
  -- Related states, and the same activations.
  abbrev pub Same : ℕ → ℕ → S × Tensor F → S' × Tensor F → Type ℓ
  Same l w r r' = I l r.0 r'.0 × (r.1 ≡ r'.1) × IsMatrix s w r.1

  -- What the two attentions have to do: keep the states related, and give the same matrix.
  abbrev pub Attends : Type ℓ
  Attends =
      (l : ℕ) (q k v : Tensor F) (st : S) (st' : S')
      → l < m.config.num_hidden_layers
      → IsMatrix s (width A gemm m) q
      → IsMatrix s (kv_width A gemm m) k
      → IsMatrix s (kv_width A gemm m) v
      → I l st st'
      → Both (Same (suc l) (width A gemm m)) (attend l q k v st) (attend' l q k v st')

  finish-Same :
      (l : ℕ) (st : S) (st' : S') (x t : Tensor F)
      → LayerFits A gemm m inter l
      → I (suc l) st st'
      → IsMatrix s m.config.hidden_size x
      → IsMatrix s (width A gemm m) t
      → Both
          (Same (suc l) m.config.hidden_size)
          (finish A gemm m l x st t)
          (finish A gemm m l x st' t)
  unfolding finish
  finish-Same l st st' x t f i hx ht =
      let h = m.config.hidden_size in
      let R = Same (suc l) h in
      Both-same (IsMatrix s h) R _ _ _
        (linear_w-IsMatrix A gemm m product s (width A gemm m) h t
          (layer_key l "self_attn.o_proj.weight") ht f.o)
        λ attn_out ho.
          Both-same (IsMatrix s h) R _ _ _ (add_inplace-IsMatrix A s h x attn_out hx ho) λ x' hx'.
            Both-same (IsMatrix s h) R _ _ _ (mlp-IsMatrix A gemm m product inter s l x' f hx')
              λ x'' hx''. Both-ok R (st, x'') (st', x'') (i, refl, hx'')

  module _ (attends : Attends) where
    layer-Same :
        (l : ℕ) (st : S) (st' : S') (x : Tensor F)
        → l < m.config.num_hidden_layers
        → I l st st'
        → IsMatrix s m.config.hidden_size x
        → Both
            (Same (suc l) m.config.hidden_size)
            (layer A gemm m attend positions l st x)
            (layer A gemm m attend' positions l st' x)
    unfolding layer
    layer-Same l st st' x lt i hx =
        let w = width A gemm m in
        let f = fits.layers l lt in
        let R = Same (suc l) m.config.hidden_size in
        Both-same (IsFront A gemm m product s) R _ _ _
          (front-IsFront A gemm m product inter s l positions x placed f hx)
          λ t ht.
            Both-bind (Same (suc l) w) R _ _ _ _ (attends l t.0 t.1 t.2 st st' lt ht.q ht.k ht.v i)
              λ r r' e.
                subst (λ t. Both R (finish A gemm m l x r.0 r.1) (finish A gemm m l x r'.0 t)) e.1
                  (finish-Same l r.0 r'.0 x r.1 f e.0 hx e.2)

    pub layers-Same :
        (n l : ℕ) (st : S) (st' : S') (x : Tensor F)
        → l + n ≤ m.config.num_hidden_layers
        → I l st st'
        → IsMatrix s m.config.hidden_size x
        → Both
            (Same (l + n) m.config.hidden_size)
            (layers A gemm m attend positions n l st x)
            (layers A gemm m attend' positions n l st' x)
    unfolding layers
    layers-Same zero l st st' x room i hx =
        let l0 : l ≡ l + 0 = omega arith in
        Both-ok (Same (l + 0) m.config.hidden_size) (st, x) (st', x)
          (subst (λ j. I j st st') l0 i, refl, hx)
    layers-Same (suc n) l st st' x room i hx =
        let h = m.config.hidden_size in
        let moved : l + 1 + n ≡ l + suc n = omega arith in
        Both-bind (Same (suc l) h) (Same (l + suc n) h) _ _ _ _
          (layer-Same l st st' x (omega arith) i hx)
          λ r r' e.
            subst
              (λ j.
                Both (Same j h) (layers A gemm m attend positions n (l + 1) r.0 r.1)
                  (layers A gemm m attend' positions n (l + 1) r'.0 r'.1))
              moved
              (subst
                (λ t.
                  Both (Same (l + 1 + n) h) (layers A gemm m attend positions n (l + 1) r.0 r.1)
                    (layers A gemm m attend' positions n (l + 1) r'.0 t))
                e.1
                (layers-Same n (l + 1) r.0 r'.0 r.1 (omega arith)
                  (subst (λ j. I j r.0 r'.0) (omega arith) e.0) e.2))
