-- ===== src/Network/Simulates.antt =====
-- What two caches have to do for the cached forward pass to give the same on both.
use from_scratch_inference_e.Base.{
  ℕ, zero, suc, ◌+◌, ◌*◌, ◌<◌, ◌≡◌, refl, inl, subst, ap, List, arith, ==_of_ne, All, length, ℤ, ok,
  ◌>>=◌,
}
use from_scratch_inference_e.Tensor.{Tensor, default, num_elements}
use from_scratch_inference_e.Layers.Floats.{Floats, Gemm}
use from_scratch_inference_e.Layers.Linear.{linear_plain}
use from_scratch_inference_e.Layers.Shapes.Rows.{Returns, Returns-bind, Long}
use from_scratch_inference_e.Layers.Shapes.Simple.{
  IsMatrix, IsVector, IsProduct, linear-IsMatrix, rms_norm-IsMatrix,
}
use from_scratch_inference_e.Layers.Shapes.Positions.{IsToken, embedding-IsMatrix}
use from_scratch_inference_e.Layers.Shapes.Attended.{attention-IsMatrix}
use from_scratch_inference_e.Network.State.{Model}
use from_scratch_inference_e.Network.Forward.{
  CacheOps, positions_from, to_logits, attend_cached, forward_cached,
}
use from_scratch_inference_e.Network.Fits.{Fits, width, kv_width, head-IsMatrix}
use from_scratch_inference_e.Network.Both.{Both, Both-ok, Both-same, Both-bind, layers-Same}

module _ {ℓ} {F : Type ℓ} where
  -- Two tensors that are one matrix.
  abbrev pub SameMatrix : ℕ → ℕ → Tensor F → Tensor F → Type ℓ
  SameMatrix rows w t t' = (t ≡ t') × IsMatrix rows w t

module _ {ℓ} {F C C' : Type ℓ} where
  -- `I l` relates the caches when `l` of the layers have their `s` new rows, which make `total`.
  pub record Simulates (ops : CacheOps F C) (ops' : CacheOps F C') (num_layers kv s total : ℕ)
      (I : ℕ → C → C' → Type ℓ) : Type ℓ where
    pub append :
        (l : ℕ) (k v : List F) (c : C) (c' : C')
        → l < num_layers
        → Long (s * kv) k
        → Long (s * kv) v
        → I l c c'
        → Both
            (λ d d'.
              I (suc l) d d'
              × Both (SameMatrix total kv) (ops.key_tensor d l) (ops'.key_tensor d' l)
              × Both (SameMatrix total kv) (ops.value_tensor d l) (ops'.value_tensor d' l))
            (ops.append c l k v s)
            (ops'.append c' l k v s)

module _ {ℓ} {F D C C' : Type ℓ} (A : Floats F D) (gemm : Gemm F) (m : Model F D)
    (product : IsProduct gemm) (vocab inter : ℕ) (fits : Fits A gemm m vocab inter)
    (ops : CacheOps F C) (ops' : CacheOps F C') (past s : ℕ) (I : ℕ → C → C' → Type ℓ)
    (sim : Simulates ops ops' m.config.num_hidden_layers (kv_width A gemm m) s (past + s) I) where
  attend_cached-Same :
      (l : ℕ) (q k v : Tensor F) (c : C) (c' : C')
      → l < m.config.num_hidden_layers
      → IsMatrix s (width A gemm m) q
      → IsMatrix s (kv_width A gemm m) k
      → IsMatrix s (kv_width A gemm m) v
      → I l c c'
      → Both
          (λ r r'. I (suc l) r.0 r'.0 × (r.1 ≡ r'.1) × IsMatrix s (width A gemm m) r.1)
          (attend_cached A gemm m ops past s l q k v c)
          (attend_cached A gemm m ops' past s l q k v c')
  unfolding attend_cached
  attend_cached-Same l q k v c c' lt hq hk hv i =
      let w = width A gemm m in
      let kv = kv_width A gemm m in
      let R : C × Tensor F → C' × Tensor F → Type ℓ =
        λ r r'. I (suc l) r.0 r'.0 × (r.1 ≡ r'.1) × IsMatrix s w r.1 in
      Both-bind _ R _ _ _ _ (sim.append l k.data_ v.data_ c c' lt hk.size hv.size i) λ d d' after.
        Both-bind (SameMatrix (past + s) kv) R _ _ _ _ after.1 λ ks ks' same_k.
          Both-bind (SameMatrix (past + s) kv) R _ _ _ _ after.2 λ vs vs' same_v.
            rw (← same_k.0, ← same_v.0)
              (Both-same (IsMatrix s w) R _ _ _
                (attention-IsMatrix A s (past + s) m.config.num_attention_heads
                  m.config.num_key_value_heads m.config.head_dim past q ks vs fits.heads
                  fits.grouped (omega arith) hq same_k.1 same_v.1)
                λ attn h. Both-ok R (d, attn) (d', attn) (after.0, refl, h))

pub length-positions_from : (p n : ℕ) → length (positions_from p n) ≡ n
unfolding positions_from
length-positions_from p zero = refl
length-positions_from p (suc n) = ap suc (length-positions_from (p + 1) n)

module _ {ℓ} {F D : Type ℓ} (A : Floats F D) (gemm : Gemm F) (m : Model F D)
    (product : IsProduct gemm) (vocab inter : ℕ) (fits : Fits A gemm m vocab inter) where
  to_logits-IsMatrix :
      (s : ℕ) (embed x : Tensor F)
      → IsMatrix vocab m.config.hidden_size embed
      → IsMatrix s m.config.hidden_size x
      → Returns (IsMatrix s vocab) (to_logits A gemm m embed x)
  unfolding to_logits linear_plain num_elements
  to_logits-IsMatrix s embed x he hx =
      let h = m.config.hidden_size in
      Returns-bind (IsVector h) (IsMatrix s vocab) _ _ fits.norm λ norm hn.
        Returns-bind (IsMatrix s h) (IsMatrix s vocab) _ _
          (rms_norm-IsMatrix A s h x norm m.config.rms_norm_eps hx hn)
          λ normed h'.
            Returns-bind (IsMatrix vocab h) (IsMatrix s vocab) _ _
              (head-IsMatrix A gemm m product vocab inter embed fits he)
              λ lm_head hl.
                linear-IsMatrix A gemm s h vocab normed lm_head default product h' hl (inl refl)

module _ {ℓ} {F D C C' : Type ℓ} (A : Floats F D) (gemm : Gemm F) (m : Model F D)
    (product : IsProduct gemm) (vocab inter : ℕ) (fits : Fits A gemm m vocab inter)
    (ops : CacheOps F C) (ops' : CacheOps F C') (past : ℕ) (ids : List ℤ) (I : ℕ → C → C' → Type ℓ)
    (sim : Simulates ops ops' m.config.num_hidden_layers
      (kv_width A gemm m)
      (length ids)
      (past + length ids)
      I) where
  -- The same logits, and caches that are related after the last layer.
  abbrev pub Ends : C × Tensor F → C' × Tensor F → Type ℓ
  Ends r r' =
      (r.1 ≡ r'.1)
      × IsMatrix (length ids) vocab r.1
      × ((d : C) × (d' : C') × I m.config.num_hidden_layers d d'
          × (r.0 ≡ ops.advance d (length ids))
          × (r'.0 ≡ ops'.advance d' (length ids)))

  pub forward_cached-Same :
      (c : C) (c' : C')
      → 0 < length ids
      → All (IsToken vocab) ids
      → ops.length_ c ≡ past
      → ops'.length_ c' ≡ past
      → I 0 c c'
      → Both Ends (forward_cached A gemm m ops ids c) (forward_cached A gemm m ops' ids c')
  unfolding forward_cached
  forward_cached-Same c c' some_id tokens at at' i =
      let h = m.config.hidden_size in
      let L = m.config.num_hidden_layers in
      let s = length ids in
      let Q : C × Tensor F → C' × Tensor F → Type ℓ =
        λ r r'. I (0 + L) r.0 r'.0 × (r.1 ≡ r'.1) × IsMatrix s h r.1 in
      let all_layers : 0 + L ≡ L = omega arith in
      simp (at, at', ==_of_ne (length ids) 0 (λ e. absurd (omega arith)))
        (Both-same (IsMatrix vocab h) Ends _ _ _ fits.embed λ embed he.
          Both-same (IsMatrix s h) Ends _ _ _ (embedding-IsMatrix vocab h embed ids he tokens)
            λ x hx.
              Both-bind Q Ends _ _ _ _
                (layers-Same A gemm m product vocab inter s fits (positions_from past s)
                  (length-positions_from past s) I _ _
                  (attend_cached-Same A gemm m product vocab inter fits ops ops' past s I sim) L 0 c
                  c' x (omega arith) i hx)
                λ r r' e.
                  subst
                    (λ t.
                      Both Ends
                        (to_logits A gemm m embed r.1 >>= λ logits. ok (ops.advance r.0 s, logits))
                        (to_logits A gemm m embed t >>= λ logits. ok (ops'.advance r'.0 s, logits)))
                    e.1
                    (Both-same (IsMatrix s vocab) Ends _ _ _
                      (to_logits-IsMatrix A gemm m product vocab inter fits s embed r.1 he e.2)
                      λ logits hl. Both-ok Ends _ _ (
                        refl,
                        hl,
                        (r.0, r'.0, subst (λ j. I j r.0 r'.0) all_layers e.0, refl, refl),
                      )))
