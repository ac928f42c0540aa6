-- ===== src/Network/Chunks/Grown.antt =====
-- The layers of one pass on a contiguous cache: they return, they give every layer its new rows, and
-- they leave the layers before them alone.
use native.Mathlib.Decide.{ℕ_discrete}
use from_scratch_inference_e.Base.{
  ℕ, suc, ◌+◌, ◌*◌, ◌≤◌, ◌<◌, ◌≡◌, refl, sym, subst, ◌∙◌, List, ◌++◌, arith, ok,
}
use from_scratch_inference_e.Tensor.{Tensor}
use from_scratch_inference_e.Layers.Floats.{Floats, Gemm}
use from_scratch_inference_e.Layers.Shapes.Rows.{returned, Long}
use from_scratch_inference_e.Layers.Shapes.Simple.{IsMatrix, IsProduct}
use from_scratch_inference_e.Layers.Shapes.Attended.{attention-IsMatrix}
use from_scratch_inference_e.Cache.Contiguous.{KvCache}
use from_scratch_inference_e.Cache.Refines.{extended}
use from_scratch_inference_e.Network.State.{Model}
use from_scratch_inference_e.Network.Block.{layers}
use from_scratch_inference_e.Network.Forward.{contiguous, attend_cached}
use from_scratch_inference_e.Network.Fits.{Fits, width, kv_width}
use from_scratch_inference_e.Network.Both.{Both, layers-Same}
use from_scratch_inference_e.Network.Chunks.Rows.{
  At, SameAt, rows_of, At-extended, At-other, attend_cached-eq, rows_of-IsMatrix, append-Long,
}

module _ {ℓ} {F D : Type ℓ} (A : Floats F D) (gemm : Gemm F) (m : Model F D)
    (product : IsProduct gemm) (vocab inter : ℕ) (fits : Fits A gemm m vocab inter)
    (wide : 0 < kv_width A gemm m) (past s : ℕ) where
  -- A cache whose layers from `from` to `to` have their new rows, whose later layers wait for
  -- theirs, and whose earlier layers are those of `base`.
  pub record Grown (base : KvCache F) (from to : ℕ) (c c' : KvCache F) : Type ℓ where
    pub same : c ≡ c'
    pub later : from ≤ to
    pub counted : c.length_ ≡ base.length_
    pub dim : c.kv_dim ≡ kv_width A gemm m
    pub below : (j : ℕ) (ks vs : List F) → j < from → At base j ks vs → At c j ks vs
    pub grown : (j : ℕ) → from ≤ j → j < to → SameAt (kv_width A gemm m) (past + s) c c j
    pub waiting :
        (j : ℕ) → to ≤ j → j < m.config.num_hidden_layers → SameAt (kv_width A gemm m) past c c j

  extended-Grown :
      (base : KvCache F) (from l : ℕ) (c : KvCache F) (k v ks vs : List F)
      → Grown base from l c c
      → l < m.config.num_hidden_layers
      → At c l ks vs
      → Long (past * kv_width A gemm m) ks
      → Long (past * kv_width A gemm m) vs
      → Long (s * kv_width A gemm m) k
      → Long (s * kv_width A gemm m) v
      → Grown base from
          (suc l)
          (extended c l (ks ++ k) (vs ++ v))
          (extended c l (ks ++ k) (vs ++ v))
  extended-Grown base from l c k v ks vs g lt at lk lv lk' lv' =
      let kv = kv_width A gemm m in
      let new = extended c l (ks ++ k) (vs ++ v) in
      let mine = At-extended c l ks vs (ks ++ k) (vs ++ v) at in
      record {
        same = refl;
        later = omega (arith, g.later);
        counted = g.counted;
        dim = g.dim;
        below = λ j ks' vs' below at'.
            At-other c l j ks' vs' (ks ++ k) (vs ++ v) (λ e. absurd (omega (arith, e, g.later)))
              (g.below j ks' vs' below at');
        grown = λ j above below. elim (ℕ_discrete l j) [
          | yes e ↦
              subst (λ i. SameAt kv (past + s) new new i) e
                (
                  ks ++ k,
                  vs ++ v,
                  mine,
                  mine,
                  append-Long past s kv ks k lk lk',
                  append-Long past s kv vs v lv lv',
                )
          | no ne ↦
              let (ks', vs', at', _, lk'', lv'') = g.grown j above (omega (arith, ne)) in
              let kept = At-other c l j ks' vs' (ks ++ k) (vs ++ v) ne at' in
              (ks', vs', kept, kept, lk'', lv'')
        ];
        waiting = λ j above below.
            let (ks', vs', at', _, lk'', lv'') = g.waiting j (omega arith) below in
            let kept =
              At-other c l j ks' vs' (ks ++ k) (vs ++ v) (λ e. absurd (omega (arith, e))) at' in
            (ks', vs', kept, kept, lk'', lv'');
      }

  attend-Grown :
      (base : KvCache F) (from l : ℕ) (q k v : Tensor F) (c c' : KvCache F)
      → l < m.config.num_hidden_layers
      → IsMatrix s (width A gemm m) q
      → IsMatrix s (kv_width A gemm m) k
      → IsMatrix s (kv_width A gemm m) v
      → Grown base from l c c'
      → Both
          (λ r r'.
            Grown base from (suc l) r.0 r'.0 × (r.1 ≡ r'.1) × IsMatrix s (width A gemm m) r.1)
          (attend_cached A gemm m contiguous past s l q k v c)
          (attend_cached A gemm m contiguous past s l q k v c')
  attend-Grown base from l q k v c c' lt hq hk hv g =
      let kv = kv_width A gemm m in
      let g' : Grown base from l c c = subst (λ x. Grown base from l c x) (sym g.same) g in
      let (ks, vs, at, _, lk, lv) = g.waiting l (omega arith) lt in
      let c1 = m.config in
      let (attn, e, h) = returned (IsMatrix s (width A gemm m)) _ (
        attention-IsMatrix A s (past + s) c1.num_attention_heads c1.num_key_value_heads c1.head_dim
          past q (rows_of (past + s) kv (ks ++ k.data_)) (rows_of (past + s) kv (vs ++ v.data_))
          fits.heads fits.grouped (omega arith) hq
          (rows_of-IsMatrix past s kv ks k.data_ lk hk.size)
          (rows_of-IsMatrix past s kv vs v.data_ lv hv.size)) in
      let eq =
        attend_cached-eq A gemm m past s l q k v c ks vs wide g.dim at lk lv hk.size hv.size in
      let out : KvCache F × Tensor F = (extended c l (ks ++ k.data_) (vs ++ v.data_), attn) in
      let done : attend_cached A gemm m contiguous past s l q k v c ≡ ok out = eq ∙ rw (e) refl in
      record {
        left = out;
        right = out;
        left_eq = done;
        right_eq =
            subst (λ x. attend_cached A gemm m contiguous past s l q k v x ≡ ok out) g.same done;
        holds = (
          extended-Grown base from l c k.data_ v.data_ ks vs g' lt at lk lv hk.size hv.size,
          refl,
          h,
        );
      }

  -- The layers from `l` on return a cache that has grown.
  pub layers-Grown :
      (n l : ℕ) (base c : KvCache F) (positions : List ℕ) (x : Tensor F)
      → Long s positions
      → l + n ≤ m.config.num_hidden_layers
      → Grown base l l c c
      → IsMatrix s m.config.hidden_size x
      → (e : KvCache F) × (y : Tensor F) × (layers A gemm m
            (λ i q k v st. attend_cached A gemm m contiguous past s i q k v st)
            positions
            n
            l
            c
            x
          ≡ ok (e, y))
        × Grown base l (l + n) e e
        × IsMatrix s m.config.hidden_size y
  layers-Grown n l base c positions x placed room g hx =
      let both =
        layers-Same A gemm m product vocab inter s fits positions placed (Grown base l)
          (λ i q k v st. attend_cached A gemm m contiguous past s i q k v st)
          (λ i q k v st. attend_cached A gemm m contiguous past s i q k v st) (attend-Grown base l)
          n l c c x room g hx in
      let h = both.holds in
      (
        both.left.0,
        both.left.1,
        both.left_eq,
        subst (λ e. Grown base l (l + n) both.left.0 e) (sym h.0.same) h.0,
        h.2,
      )
