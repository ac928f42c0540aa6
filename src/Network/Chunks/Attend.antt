-- ===== src/Network/Chunks/Attend.antt =====
-- One layer of the three passes: over the whole prompt, over its first part, and over its second part
-- on the cache that the first has filled.
use from_scratch_inference_e.Base.{
  ℕ, zero, suc, ◌+◌, ◌*◌, ◌<◌, ◌≡◌, refl, sym, ap, ◌∙◌, some, List, ◌++◌, arith, get_elem?,
}
use from_scratch_inference_e.Tensor.{Tensor}
use from_scratch_inference_e.Layers.Floats.{Floats, Gemm}
use from_scratch_inference_e.Layers.Shapes.Rows.{Long}
use from_scratch_inference_e.Layers.Shapes.Simple.{IsVector}
use from_scratch_inference_e.Layers.Joined.Rows.{Three, Three-ok, Three-same, Three-bind}
use from_scratch_inference_e.Layers.Joined.Simple.{Joined, IsRowwise, rms_norm-Joined}
use from_scratch_inference_e.Layers.Joined.Positions.{rope_inplace-Joined}
use from_scratch_inference_e.Layers.Joined.Attended.{attention-Joined}
use from_scratch_inference_e.Cache.Contiguous.{KvCache}
use from_scratch_inference_e.Cache.Refines.{extended}
use from_scratch_inference_e.Network.State.{Model}
use from_scratch_inference_e.Network.Block.{front}
use from_scratch_inference_e.Network.Forward.{contiguous, attend_cached, positions_from}
use from_scratch_inference_e.Network.Fits.{Fits, LayerFits, width, kv_width}
use from_scratch_inference_e.Network.Simulates.{length-positions_from}
use from_scratch_inference_e.Network.Chunks.Layers.{project-Joined}
use from_scratch_inference_e.Network.Chunks.Rows.{
  At, rows_of, attend_cached-eq, append-Long, rows_of-IsMatrix, append_parts,
}

pub get_elem?-positions_from : (p n j : ℕ) → j < n → get_elem? (positions_from p n) j ≡ some (p + j)
unfolding positions_from
get_elem?-positions_from p zero j lt = absurd (omega arith)
get_elem?-positions_from p (suc n) zero lt = ap some (omega arith)
get_elem?-positions_from p (suc n) (suc j) lt =
    get_elem?-positions_from (p + 1) n j (omega arith) ∙ ap some (omega arith)

module _ {ℓ} {F D : Type ℓ} (A : Floats F D) (gemm : Gemm F) (m : Model F D)
    (rowwise : IsRowwise gemm) (past s1 s2 : ℕ) where
  -- Queries, keys and values of the three passes.
  pub record Fronts (f f1 f2 : Tensor F × Tensor F × Tensor F) : Type ℓ where
    pub q : Joined s1 s2 (width A gemm m) f.0 f1.0 f2.0
    pub k : Joined s1 s2 (kv_width A gemm m) f.1 f1.1 f2.1
    pub v : Joined s1 s2 (kv_width A gemm m) f.2 f1.2 f2.2

  pub front-Fronts :
      (inter l : ℕ) (x x1 x2 : Tensor F)
      → LayerFits A gemm m inter l
      → Joined s1 s2 m.config.hidden_size x x1 x2
      → Three Fronts
          (front A gemm m (positions_from past (s1 + s2)) l x)
          (front A gemm m (positions_from past s1) l x1)
          (front A gemm m (positions_from (past + s1) s2) l x2)
  unfolding front
  front-Fronts inter l x x1 x2 f hx =
      let h = m.config.hidden_size in
      let w = width A gemm m in
      let kv = kv_width A gemm m in
      let ps = positions_from past (s1 + s2) in
      let ps1 = positions_from past s1 in
      let ps2 = positions_from (past + s1) s2 in
      let long = length-positions_from past (s1 + s2) in
      let long1 = length-positions_from past s1 in
      let long2 = length-positions_from (past + s1) s2 in
      let same1 : (j : ℕ) → j < s1 → get_elem? ps j ≡ get_elem? ps1 j = λ j lt.
        get_elem?-positions_from past (s1 + s2) j (omega arith)
        ∙ sym (get_elem?-positions_from past s1 j lt) in
      let same2 : (j : ℕ) → j < s2 → get_elem? ps (s1 + j) ≡ get_elem? ps2 j = λ j lt.
        get_elem?-positions_from past (s1 + s2) (s1 + j) (omega arith)
        ∙ (ap some (omega arith) ∙ sym (get_elem?-positions_from (past + s1) s2 j lt)) in
      Three-same (IsVector h) Fronts _ _ _ _ f.norm1 λ norm1 hn.
        Three-bind (Joined s1 s2 h) Fronts _ _ _ _ _ _
          (rms_norm-Joined A s1 s2 h x x1 x2 norm1 m.config.rms_norm_eps hx hn)
          λ n n1 n2 hn'.
            Three-bind (Joined s1 s2 w) Fronts _ _ _ _ _ _
              (project-Joined A gemm m rowwise s1 s2 w l n n1 n2 "q" hn' f.q f.q_bias)
              λ q q1 q2 hq.
                Three-bind (Joined s1 s2 kv) Fronts _ _ _ _ _ _
                  (project-Joined A gemm m rowwise s1 s2 kv l n n1 n2 "k" hn' f.k f.k_bias)
                  λ k k1 k2 hk.
                    Three-bind (Joined s1 s2 kv) Fronts _ _ _ _ _ _
                      (project-Joined A gemm m rowwise s1 s2 kv l n n1 n2 "v" hn' f.v f.v_bias)
                      λ v v1 v2 hv.
                        Three-bind (Joined s1 s2 w) Fronts _ _ _ _ _ _
                          (rope_inplace-Joined A s1 s2 m.config.num_attention_heads
                            m.config.head_dim m.config.rope_theta q q1 q2 ps ps1 ps2 hq long long1
                            long2 same1 same2)
                          λ q' q1' q2' hq'.
                            Three-bind (Joined s1 s2 kv) Fronts _ _ _ _ _ _
                              (rope_inplace-Joined A s1 s2 m.config.num_key_value_heads
                                m.config.head_dim m.config.rope_theta k k1 k2 ps ps1 ps2 hk long
                                long1 long2 same1 same2)
                              λ k' k1' k2' hk'.
                                Three-ok Fronts _ _ _ (record { q = hq'; k = hk'; v = hv })

  module _ (heads : 0 < m.config.num_key_value_heads) (vocab inter : ℕ)
      (fits : Fits A gemm m vocab inter) (wide : 0 < kv_width A gemm m) where
    -- The first pass finds the rows ks and vs in the layer and leaves its own behind them; the
    -- second finds those.
    pub attend-Joined :
        (l : ℕ) (f f1 f2 : Tensor F × Tensor F × Tensor F) (c c1 c2 : KvCache F) (ks vs : List F)
        → Fronts f f1 f2
        → c.kv_dim ≡ kv_width A gemm m
        → c1.kv_dim ≡ kv_width A gemm m
        → c2.kv_dim ≡ kv_width A gemm m
        → Long (past * kv_width A gemm m) ks
        → Long (past * kv_width A gemm m) vs
        → At c l ks vs
        → At c1 l ks vs
        → At c2 l (ks ++ f1.1.data_) (vs ++ f1.2.data_)
        → Three
            (λ r r1 r2.
              (r.0 ≡ extended c l (ks ++ f.1.data_) (vs ++ f.2.data_))
              × (r1.0 ≡ extended c1 l (ks ++ f1.1.data_) (vs ++ f1.2.data_))
              × (r2.0
                  ≡ extended c2 l
                      ((ks ++ f1.1.data_) ++ f2.1.data_)
                      ((vs ++ f1.2.data_) ++ f2.2.data_))
              × Joined s1 s2 (width A gemm m) r.1 r1.1 r2.1)
            (attend_cached A gemm m contiguous past (s1 + s2) l f.0 f.1 f.2 c)
            (attend_cached A gemm m contiguous past s1 l f1.0 f1.1 f1.2 c1)
            (attend_cached A gemm m contiguous (past + s1) s2 l f2.0 f2.1 f2.2 c2)
    attend-Joined l f f1 f2 c c1 c2 ks vs h dim dim1 dim2 lk lv at at1 at2 =
        let kv = kv_width A gemm m in
        let lk1 = append-Long past s1 kv ks f1.1.data_ lk h.k.first.size in
        let lv1 = append-Long past s1 kv vs f1.2.data_ lv h.v.first.size in
        let k_rows = append_parts ks f.1.data_ f1.1.data_ f2.1.data_ h.k.rows in
        let v_rows = append_parts vs f.2.data_ f1.2.data_ f2.2.data_ h.v.rows in
        let cfg = m.config in
        rw
          (
            attend_cached-eq A gemm m past (s1 + s2) l f.0 f.1 f.2 c ks vs wide dim at lk lv
                h.k.all.size h.v.all.size,
            attend_cached-eq A gemm m past s1 l f1.0 f1.1 f1.2 c1 ks vs wide dim1 at1 lk lv
                h.k.first.size h.v.first.size,
            attend_cached-eq A gemm m (past + s1) s2 l f2.0 f2.1 f2.2 c2 (ks ++ f1.1.data_)
                (vs ++ f1.2.data_) wide dim2 at2 lk1 lv1 h.k.second.size h.v.second.size,
          )
          (Three-bind (Joined s1 s2 (width A gemm m)) _ _ _ _ _ _ _
            (attention-Joined A past s1 s2 cfg.num_attention_heads cfg.num_key_value_heads
              cfg.head_dim f.0 f1.0 f2.0 (rows_of (past + (s1 + s2)) kv (ks ++ f.1.data_))
              (rows_of (past + s1) kv (ks ++ f1.1.data_))
              (rows_of (past + s1 + s2) kv ((ks ++ f1.1.data_) ++ f2.1.data_))
              (rows_of (past + (s1 + s2)) kv (vs ++ f.2.data_))
              (rows_of (past + s1) kv (vs ++ f1.2.data_))
              (rows_of (past + s1 + s2) kv ((vs ++ f1.2.data_) ++ f2.2.data_)) f2.1.data_ f2.2.data_
              heads fits.grouped h.q
              (rows_of-IsMatrix past (s1 + s2) kv ks f.1.data_ lk h.k.all.size)
              (rows_of-IsMatrix past (s1 + s2) kv vs f.2.data_ lv h.v.all.size)
              (rows_of-IsMatrix past s1 kv ks f1.1.data_ lk h.k.first.size)
              (rows_of-IsMatrix past s1 kv vs f1.2.data_ lv h.v.first.size)
              (rows_of-IsMatrix (past + s1) s2 kv (ks ++ f1.1.data_) f2.1.data_ lk1 h.k.second.size)
              (rows_of-IsMatrix (past + s1) s2 kv (vs ++ f1.2.data_) f2.2.data_ lv1 h.v.second.size)
              k_rows v_rows k_rows v_rows)
            λ a a1 a2 ha. Three-ok _ _ _ _ (refl, refl, refl, ha))
