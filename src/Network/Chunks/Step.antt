-- ===== src/Network/Chunks/Step.antt =====
-- The three caches of the passes before a layer and after it.
use native.Mathlib.Decide.{ℕ_discrete}
use from_scratch_inference_e.Base.{
  ℕ, suc, ◌+◌, ◌≤◌, ◌<◌, ◌≡◌, ◌≢◌, refl, sym, subst, List, ◌++◌, arith, Result, ok,
}
use from_scratch_inference_e.Tensor.{Tensor}
use from_scratch_inference_e.Layers.Floats.{Floats, Gemm}
use from_scratch_inference_e.Layers.Shapes.Simple.{IsMatrix}
use from_scratch_inference_e.Layers.Joined.Simple.{IsRowwise}
use from_scratch_inference_e.Cache.Contiguous.{KvCache}
use from_scratch_inference_e.Cache.Refines.{extended}
use from_scratch_inference_e.Network.State.{Model}
use from_scratch_inference_e.Network.Block.{layers}
use from_scratch_inference_e.Network.Forward.{positions_from}
use from_scratch_inference_e.Network.Fits.{Fits, kv_width}
use from_scratch_inference_e.Network.Simulates.{length-positions_from}
use from_scratch_inference_e.Network.Chunks.Rows.{At, SameAt, At-extended, At-other, append_parts}
use from_scratch_inference_e.Network.Chunks.Grown.{Grown, layers-Grown}
use from_scratch_inference_e.Network.Chunks.Layer.{over_cache}

pub ok-inj {ℓ} : {A : Type ℓ} {a b : A} (m : Result A) → m ≡ ok a → m ≡ ok b → a ≡ b
ok-inj m e e' = cc (e, e')

module _ {ℓ} {F D : Type ℓ} (A : Floats F D) (gemm : Gemm F) (m : Model F D)
    (rowwise : IsRowwise gemm) (vocab inter : ℕ) (fits : Fits A gemm m vocab inter)
    (wide : 0 < kv_width A gemm m) (past s1 s2 : ℕ) where
  -- The three caches before layer `l`: over the whole prompt, over the first part, and over the
  -- second part, which begins with the cache `e1` that the first part ends with.
  pub record Step (l : ℕ) (c c1 e1 c2 : KvCache F) : Type ℓ where
    pub dim : c.kv_dim ≡ kv_width A gemm m
    pub dim1 : c1.kv_dim ≡ kv_width A gemm m
    pub dim2 : c2.kv_dim ≡ kv_width A gemm m
    pub waiting :
        (j : ℕ) → l ≤ j → j < m.config.num_hidden_layers → SameAt (kv_width A gemm m) past c1 c j
    pub filled : (j : ℕ) (ks vs : List F) → l ≤ j → At e1 j ks vs → At c2 j ks vs
    pub done : (j : ℕ) → j < l → (ks : List F) × (vs : List F) × At c j ks vs × At c2 j ks vs

  pub grown_from :
      (l : ℕ) (c1 : KvCache F)
      → c1.kv_dim ≡ kv_width A gemm m
      → ((j : ℕ) → l ≤ j → j < m.config.num_hidden_layers → SameAt (kv_width A gemm m) past c1 c1 j)
      → Grown A gemm m rowwise.product vocab inter fits wide past s1 c1 l l c1 c1
  grown_from l c1 dim waiting = record {
    same = refl;
    later = omega arith;
    counted = refl;
    dim = dim;
    below = λ j ks vs _ at. at;
    grown = λ j above below. absurd (omega arith);
    waiting = waiting;
  }

  -- After the first part the layer `l` has its new rows whatever the later layers do.
  pub kept_after :
      (n l : ℕ) (c1 e1 : KvCache F) (x1 y1 : Tensor F) (ks vs : List F)
      → suc l + n ≤ m.config.num_hidden_layers
      → c1.kv_dim ≡ kv_width A gemm m
      → ((j : ℕ)
          → suc l ≤ j
          → j < m.config.num_hidden_layers
          → SameAt (kv_width A gemm m) past c1 c1 j)
      → IsMatrix s1 m.config.hidden_size x1
      → layers A gemm m (over_cache A gemm m past s1) (positions_from past s1) n (l + 1) c1 x1
        ≡ ok (e1, y1)
      → At c1 l ks vs
      → At e1 l ks vs
  kept_after n l c1 e1 x1 y1 ks vs room dim waiting hx run at =
      let next : l + 1 ≡ suc l = omega arith in
      let (e, y, eq, g, _) =
        layers-Grown A gemm m rowwise.product vocab inter fits wide past s1 n (suc l) c1 c1
          (positions_from past s1) x1 (length-positions_from past s1) room
          (grown_from (suc l) c1 dim waiting) hx in
      let run' : layers A gemm m (over_cache A gemm m past s1) (positions_from past s1) n (suc l) c1
            x1
          ≡ ok (e1, y1) =
        rw (next) at run in
      let same : Path (KvCache F × Tensor F) (e, y) (e1, y1) = ok-inj _ eq run' in
      subst (λ r. At r.0 l ks vs) same (g.below l ks vs (omega arith) at)

  -- The caches before the next layer.
  pub next_Step :
      (l : ℕ) (c c1 e1 c2 : KvCache F) (k v k1 v1 k2 v2 ks vs : List F)
      → Step l c c1 e1 c2
      → At c l ks vs
      → At c1 l ks vs
      → At c2 l (ks ++ k1) (vs ++ v1)
      → k ≡ k1 ++ k2
      → v ≡ v1 ++ v2
      → Step
          (suc l)
          (extended c l (ks ++ k) (vs ++ v))
          (extended c1 l (ks ++ k1) (vs ++ v1))
          e1
          (extended c2 l ((ks ++ k1) ++ k2) ((vs ++ v1) ++ v2))
  next_Step l c c1 e1 c2 k v k1 v1 k2 v2 ks vs st at at1 at2 ek ev =
      let new2 = extended c2 l ((ks ++ k1) ++ k2) ((vs ++ v1) ++ v2) in
      let mine : At new2 l (ks ++ k) (vs ++ v) =
        subst (λ a. At new2 l a (vs ++ v)) (sym (append_parts ks k k1 k2 ek))
          (subst (λ b. At new2 l ((ks ++ k1) ++ k2) b) (sym (append_parts vs v v1 v2 ev))
            (At-extended c2 l (ks ++ k1) (vs ++ v1) ((ks ++ k1) ++ k2) ((vs ++ v1) ++ v2) at2)) in
      record {
        dim = st.dim;
        dim1 = st.dim1;
        dim2 = st.dim2;
        waiting = λ j above below.
            let (a, b, in1, in_all, la, lb) = st.waiting j (omega arith) below in
            let ne : l ≢ j = λ e. absurd (omega (arith, e)) in
            (
              a,
              b,
              At-other c1 l j a b (ks ++ k1) (vs ++ v1) ne in1,
              At-other c l j a b (ks ++ k) (vs ++ v) ne in_all,
              la,
              lb,
            );
        filled = λ j a b above in1.
            At-other c2 l j a b ((ks ++ k1) ++ k2) ((vs ++ v1) ++ v2)
              (λ e. absurd (omega (arith, e))) (st.filled j a b (omega arith) in1);
        done = λ j below. elim (ℕ_discrete l j) [
          | yes e ↦
              subst
                (λ i.
                  (a : List F) × (b : List F) × At (extended c l (ks ++ k) (vs ++ v)) i a b
                  × At new2 i a b)
                e (ks ++ k, vs ++ v, At-extended c l ks vs (ks ++ k) (vs ++ v) at, mine)
          | no ne ↦
              let (a, b, in_all, in2) = st.done j (omega (arith, ne)) in
              (
                a,
                b,
                At-other c l j a b (ks ++ k) (vs ++ v) ne in_all,
                At-other c2 l j a b ((ks ++ k1) ++ k2) ((vs ++ v1) ++ v2) ne in2,
              )
        ];
      }
