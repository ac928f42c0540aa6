-- ===== src/Network/Chunks/Layer.antt =====
-- One whole layer of the three passes.
use from_scratch_inference_e.Base.{
  ℕ, ◌+◌, ◌*◌, ◌<◌, ◌≡◌, refl, List, ◌++◌, arith, Result, ok, subst,
}
use from_scratch_inference_e.Tensor.{Tensor}
use from_scratch_inference_e.Layers.Floats.{Floats, Gemm}
use from_scratch_inference_e.Layers.Linear.{add_inplace}
use from_scratch_inference_e.Layers.Shapes.Rows.{returned, Long}
use from_scratch_inference_e.Layers.Shapes.Simple.{IsMatrix, IsProduct, add_inplace-IsMatrix}
use from_scratch_inference_e.Layers.Shapes.Attended.{attention-IsMatrix}
use from_scratch_inference_e.Cache.Contiguous.{KvCache}
use from_scratch_inference_e.Cache.Refines.{extended}
use from_scratch_inference_e.Network.State.{Model, layer_key, linear_w}
use from_scratch_inference_e.Network.Block.{front, finish, mlp, layer}
use from_scratch_inference_e.Network.Forward.{contiguous, attend_cached}
use from_scratch_inference_e.Network.Fits.{
  Fits, LayerFits, width, kv_width, linear_w-IsMatrix, mlp-IsMatrix,
}
use from_scratch_inference_e.Network.Chunks.Rows.{At, rows_of, attend_cached-eq, rows_of-IsMatrix}

module _ {ℓ} {F D : Type ℓ} (A : Floats F D) (gemm : Gemm F) (m : Model F D) where
  -- The attention of a layer over a contiguous cache.
  abbrev pub over_cache :
      ℕ → ℕ → ℕ → Tensor F → Tensor F → Tensor F → KvCache F → Result (KvCache F × Tensor F)
  over_cache past s l q k v c = attend_cached A gemm m contiguous past s l q k v c

  -- A layer from its three parts, with a name for the cache that it ends with.
  pub layer-eq :
      (past s l : ℕ) (positions : List ℕ) (x : Tensor F) (f : Tensor F × Tensor F × Tensor F)
      (c d : KvCache F) (r out : KvCache F × Tensor F)
      → front A gemm m positions l x ≡ ok f
      → over_cache past s l f.0 f.1 f.2 c ≡ ok r
      → finish A gemm m l x r.0 r.1 ≡ ok out
      → out.0 ≡ d
      → layer A gemm m (over_cache past s) positions l c x ≡ ok (d, out.1)
  unfolding layer
  layer-eq past s l positions x f c d r out ef ea eo ed =
      let whole : layer A gemm m (over_cache past s) positions l c x ≡ ok out =
        rw (ef, ea, eo) refl in
      subst (λ e. layer A gemm m (over_cache past s) positions l c x ≡ ok (e, out.1)) ed whole

  finish-eq :
      {S : Type ℓ}
      → (product : IsProduct gemm) (inter s l : ℕ) (x t : Tensor F) (st : S)
      → LayerFits A gemm m inter l
      → IsMatrix s m.config.hidden_size x
      → IsMatrix s (width A gemm m) t
      → (y : Tensor F) × (finish A gemm m l x st t ≡ ok (st, y)) × IsMatrix s m.config.hidden_size y
  unfolding finish
  finish-eq product inter s l x t st f hx ht =
      let h = m.config.hidden_size in
      let key = layer_key l "self_attn.o_proj.weight" in
      let (o, eo, ho) =
        returned (IsMatrix s h) (linear_w A gemm m t key)
          (linear_w-IsMatrix A gemm m product s (width A gemm m) h t key ht f.o) in
      let (y, ey, hy) =
        returned (IsMatrix s h) (add_inplace A x o) (add_inplace-IsMatrix A s h x o hx ho) in
      let (z, ez, hz) =
        returned (IsMatrix s h) (mlp A gemm m l y)
          (mlp-IsMatrix A gemm m product inter s l y f hy) in
      (z, rw (eo, ey, ez) refl, hz)

  -- A layer whose queries, keys and values are known, on a cache whose rows are known.
  pub layer-first :
      (product : IsProduct gemm) (vocab inter past s l : ℕ) (positions : List ℕ) (x : Tensor F)
      (f : Tensor F × Tensor F × Tensor F) (c : KvCache F) (ks vs : List F)
      → Fits A gemm m vocab inter
      → LayerFits A gemm m inter l
      → 0 < kv_width A gemm m
      → front A gemm m positions l x ≡ ok f
      → IsMatrix s m.config.hidden_size x
      → IsMatrix s (width A gemm m) f.0
      → IsMatrix s (kv_width A gemm m) f.1
      → IsMatrix s (kv_width A gemm m) f.2
      → c.kv_dim ≡ kv_width A gemm m
      → At c l ks vs
      → Long (past * kv_width A gemm m) ks
      → Long (past * kv_width A gemm m) vs
      → (y : Tensor F) × (layer A gemm m (over_cache past s) positions l c x
          ≡ ok (extended c l (ks ++ f.1.data_) (vs ++ f.2.data_), y))
        × IsMatrix s m.config.hidden_size y
  unfolding layer
  layer-first product vocab inter past s l positions x f c ks vs fits lf wide ef hx hq hk hv dim at
        lk lv =
      let kv = kv_width A gemm m in
      let cfg = m.config in
      let (attn, ea, ha) = returned (IsMatrix s (width A gemm m)) _ (
        attention-IsMatrix A s (past + s) cfg.num_attention_heads cfg.num_key_value_heads
          cfg.head_dim past f.0 (rows_of (past + s) kv (ks ++ f.1.data_))
          (rows_of (past + s) kv (vs ++ f.2.data_)) fits.heads fits.grouped (omega arith) hq
          (rows_of-IsMatrix past s kv ks f.1.data_ lk hk.size)
          (rows_of-IsMatrix past s kv vs f.2.data_ lv hv.size)) in
      let new = extended c l (ks ++ f.1.data_) (vs ++ f.2.data_) in
      let (y, ey, hy) = finish-eq product inter s l x attn new lf hx ha in
      let eq =
        attend_cached-eq A gemm m past s l f.0 f.1 f.2 c ks vs wide dim at lk lv hk.size hv.size in
      (y, rw (ef, eq, ea, ey) refl, hy)
