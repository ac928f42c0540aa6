-- ===== src/Network/Chunks/Run.antt =====
-- The loops over the layers of the three passes.
use from_scratch_inference_e.Base.{
  ℕ, zero, suc, ◌+◌, ◌*◌, ◌≤◌, ◌<◌, ◌≡◌, refl, sym, subst, ap, ◌∙◌, List, ◌++◌, arith, Result, ok,
  ◌>>=◌,
}
use from_scratch_inference_e.Tensor.{Tensor}
use from_scratch_inference_e.Layers.Floats.{Floats, Gemm}
use from_scratch_inference_e.Layers.Joined.Simple.{Joined, IsRowwise}
use from_scratch_inference_e.Cache.Contiguous.{KvCache}
use from_scratch_inference_e.Cache.Refines.{extended}
use from_scratch_inference_e.Network.State.{Model}
use from_scratch_inference_e.Network.Block.{layer, layers, front}
use from_scratch_inference_e.Network.Forward.{positions_from}
use from_scratch_inference_e.Network.Fits.{Fits, kv_width, width}
use from_scratch_inference_e.Network.Chunks.Layers.{finish-Joined}
use from_scratch_inference_e.Network.Chunks.Rows.{At, SameAt, At-extended, At-other}
use from_scratch_inference_e.Network.Chunks.Attend.{front-Fronts, attend-Joined}
use from_scratch_inference_e.Network.Chunks.Layer.{over_cache, layer-first, layer-eq}
use from_scratch_inference_e.Network.Chunks.Step.{Step, kept_after, next_Step, ok-inj}
use from_scratch_inference_e.Layers.Shapes.Rows.{Long}
use from_scratch_inference_e.Layers.Shapes.Simple.{IsMatrix}

module _ {ℓ} {F D : Type ℓ} (A : Floats F D) (gemm : Gemm F) (m : Model F D)
    (rowwise : IsRowwise gemm) (vocab inter : ℕ) (fits : Fits A gemm m vocab inter)
    (wide : 0 < kv_width A gemm m) (past s1 s2 : ℕ) where
  abbrev whole_layer : ℕ → KvCache F → Tensor F → Result (KvCache F × Tensor F)
  whole_layer l c x =
      layer A gemm m (over_cache A gemm m past (s1 + s2)) (positions_from past (s1 + s2)) l c x

  abbrev first_layer : ℕ → KvCache F → Tensor F → Result (KvCache F × Tensor F)
  first_layer l c x = layer A gemm m (over_cache A gemm m past s1) (positions_from past s1) l c x

  abbrev second_layer : ℕ → KvCache F → Tensor F → Result (KvCache F × Tensor F)
  second_layer l c x =
      layer A gemm m (over_cache A gemm m (past + s1) s2) (positions_from (past + s1) s2) l c x

  abbrev pub whole_layers : ℕ → ℕ → KvCache F → Tensor F → Result (KvCache F × Tensor F)
  whole_layers n l c x =
      layers A gemm m (over_cache A gemm m past (s1 + s2)) (positions_from past (s1 + s2)) n l c x

  abbrev pub first_layers : ℕ → ℕ → KvCache F → Tensor F → Result (KvCache F × Tensor F)
  first_layers n l c x =
      layers A gemm m (over_cache A gemm m past s1) (positions_from past s1) n l c x

  abbrev pub second_layers : ℕ → ℕ → KvCache F → Tensor F → Result (KvCache F × Tensor F)
  second_layers n l c x =
      layers A gemm m (over_cache A gemm m (past + s1) s2) (positions_from (past + s1) s2) n l c x

  -- What a layer of the three passes does, where the later layers of the first pass end with e1.
  record Moved (n l : ℕ) (x x1 x2 y1 : Tensor F) (c c1 e1 c2 : KvCache F) : Type ℓ where
    c' : KvCache F
    c1' : KvCache F
    c2' : KvCache F
    x' : Tensor F
    x1' : Tensor F
    x2' : Tensor F
    whole : whole_layer l c x ≡ ok (c', x')
    second : second_layer l c2 x2 ≡ ok (c2', x2')
    joined : Joined s1 s2 m.config.hidden_size x' x1' x2'
    step : Step A gemm m rowwise vocab inter fits wide past s1 s2 (suc l) c' c1' e1 c2'
    rest : first_layers n (l + 1) c1' x1' ≡ ok (e1, y1)
    length_whole : c'.length_ ≡ c.length_
    length_second : c2'.length_ ≡ c2.length_

  -- The layer of the first pass, and its rows when all layers are through.
  first-At :
      (n l : ℕ) (x1 y1 : Tensor F) (f1 : Tensor F × Tensor F × Tensor F) (c c1 e1 c2 : KvCache F)
      (ks vs : List F)
      → l + suc n ≤ m.config.num_hidden_layers
      → Step A gemm m rowwise vocab inter fits wide past s1 s2 l c c1 e1 c2
      → front A gemm m (positions_from past s1) l x1 ≡ ok f1
      → IsMatrix s1 m.config.hidden_size x1
      → IsMatrix s1 (width A gemm m) f1.0
      → IsMatrix s1 (kv_width A gemm m) f1.1
      → IsMatrix s1 (kv_width A gemm m) f1.2
      → At c1 l ks vs
      → Long (past * kv_width A gemm m) ks
      → Long (past * kv_width A gemm m) vs
      → first_layers (suc n) l c1 x1 ≡ ok (e1, y1)
      → (z1 : Tensor F) × (first_layer l c1 x1
          ≡ ok (extended c1 l (ks ++ f1.1.data_) (vs ++ f1.2.data_), z1))
        × (first_layers n (l + 1) (extended c1 l (ks ++ f1.1.data_) (vs ++ f1.2.data_)) z1
            ≡ ok (e1, y1))
        × At e1 l (ks ++ f1.1.data_) (vs ++ f1.2.data_)
  unfolding layers
  first-At n l x1 y1 f1 c c1 e1 c2 ks vs room st ef hx hq hk hv at1 lk lv run =
      let ks1 = ks ++ f1.1.data_ in
      let vs1 = vs ++ f1.2.data_ in
      let d1 = extended c1 l ks1 vs1 in
      let (z1, ez1, hz1) =
        layer-first A gemm m rowwise.product vocab inter past s1 l (positions_from past s1) x1 f1 c1
          ks vs fits (fits.layers l (omega arith)) wide ef hx hq hk hv st.dim1 at1 lk lv in
      let rest : first_layers n (l + 1) d1 z1 ≡ ok (e1, y1) =
        sym (ap (λ r. r >>= λ p. first_layers n (l + 1) p.0 p.1) ez1) ∙ run in
      let waiting1 : (j : ℕ)
          → suc l ≤ j
          → j < m.config.num_hidden_layers
          → SameAt (kv_width A gemm m) past d1 d1 j =
        λ j above below.
          let (a, b, in1, _, la, lb) = st.waiting j (omega arith) below in
          let kept = At-other c1 l j a b ks1 vs1 (λ e. absurd (omega (arith, e))) in1 in
          (a, b, kept, kept, la, lb) in
      (
        z1,
        ez1,
        rest,
        kept_after A gemm m rowwise vocab inter fits wide past s1 s2 n l d1 e1 z1 y1 ks1 vs1
            (omega arith) st.dim1 waiting1 hz1 rest (At-extended c1 l ks vs ks1 vs1 at1),
      )

  layer-Moved :
      (n l : ℕ) (x x1 x2 y1 : Tensor F) (c c1 e1 c2 : KvCache F)
      → l + suc n ≤ m.config.num_hidden_layers
      → Joined s1 s2 m.config.hidden_size x x1 x2
      → Step A gemm m rowwise vocab inter fits wide past s1 s2 l c c1 e1 c2
      → first_layers (suc n) l c1 x1 ≡ ok (e1, y1)
      → Moved n l x x1 x2 y1 c c1 e1 c2
  layer-Moved n l x x1 x2 y1 c c1 e1 c2 room hx st run =
      let lf = fits.layers l (omega arith) in
      let t = front-Fronts A gemm m rowwise past s1 s2 inter l x x1 x2 lf hx in
      let (ks, vs, at1, at, lk, lv) = st.waiting l (omega arith) (omega arith) in
      let (z1, ez1, rest, at_end) =
        first-At n l x1 y1 t.first c c1 e1 c2 ks vs room st t.first_eq hx.first t.holds.q.first
          t.holds.k.first t.holds.v.first at1 lk lv run in
      let at2 = st.filled l (ks ++ t.first.1.data_) (vs ++ t.first.2.data_) (omega arith) at_end in
      let t2 =
        attend-Joined A gemm m rowwise past s1 s2 fits.heads vocab inter fits wide l t.all t.first
          t.second c c1 c2 ks vs t.holds st.dim st.dim1 st.dim2 lk lv at at1 at2 in
      let (is, is1, is2, hj) = t2.holds in
      let t3 =
        finish-Joined A gemm m rowwise s1 s2 inter l x x1 x2 t2.all.1 t2.first.1 t2.second.1
          t2.all.0 t2.first.0 t2.second.0 lf hx hj in
      let (same, same1, same2, hy) = t3.holds in
      let once : Path (KvCache F × Tensor F) (_, t3.first.1) (_, z1) =
        ok-inj (first_layer l c1 x1)
          (layer-eq A gemm m past s1 l (positions_from past s1) x1 t.first c1 _ t2.first t3.first
            t.first_eq t2.first_eq t3.first_eq (same1 ∙ is1))
          ez1 in
      record {
        c' = _;
        c1' = _;
        c2' = _;
        x' = t3.all.1;
        x1' = z1;
        x2' = t3.second.1;
        whole =
            layer-eq A gemm m past (s1 + s2) l (positions_from past (s1 + s2)) x t.all c _ t2.all
              t3.all t.all_eq t2.all_eq t3.all_eq (same ∙ is);
        second =
            layer-eq A gemm m (past + s1) s2 l (positions_from (past + s1) s2) x2 t.second c2 _
              t2.second t3.second t.second_eq t2.second_eq t3.second_eq (same2 ∙ is2);
        joined =
            subst (λ z. Joined s1 s2 m.config.hidden_size t3.all.1 z t3.second.1)
              (ap {A = KvCache F × Tensor F} (λ r. r.1) once) hy;
        step =
            next_Step A gemm m rowwise vocab inter fits wide past s1 s2 l c c1 e1 c2 t.all.1.data_
              t.all.2.data_ t.first.1.data_ t.first.2.data_ t.second.1.data_ t.second.2.data_ ks vs
              st at at1 at2 t.holds.k.rows t.holds.v.rows;
        rest = rest;
        length_whole = refl;
        length_second = refl;
      }

  -- Where the first pass ends with e1, the other two return, with the rows of their results joined, and
  -- with the same rows in every layer.
  pub layers-Joined :
      (n l : ℕ) (x x1 x2 y1 : Tensor F) (c c1 e1 c2 : KvCache F)
      → l + n ≤ m.config.num_hidden_layers
      → Joined s1 s2 m.config.hidden_size x x1 x2
      → Step A gemm m rowwise vocab inter fits wide past s1 s2 l c c1 e1 c2
      → first_layers n l c1 x1 ≡ ok (e1, y1)
      → (e : KvCache F) × (y : Tensor F) × (e2 : KvCache F) × (y2 : Tensor F) × (whole_layers n l c
            x
          ≡ ok (e, y))
        × (second_layers n l c2 x2 ≡ ok (e2, y2))
        × Joined s1 s2 m.config.hidden_size y y1 y2
        × ((j : ℕ) → j < l + n → (ks : List F) × (vs : List F) × At e j ks vs × At e2 j ks vs)
        × (e.length_ ≡ c.length_)
        × (e2.length_ ≡ c2.length_)
  unfolding layers
  layers-Joined zero l x x1 x2 y1 c c1 e1 c2 room hx st run =
      let same : Path (KvCache F × Tensor F) (c1, x1) (e1, y1) =
        ok-inj {A = KvCache F × Tensor F} (ok (c1, x1)) refl run in
      (
        c,
        x,
        c2,
        x2,
        refl,
        refl,
        subst (λ z. Joined s1 s2 m.config.hidden_size x z x2)
            (ap {A = KvCache F × Tensor F} (λ r. r.1) same) hx,
        λ j lt. st.done j (omega arith),
        refl,
        refl,
      )
  layers-Joined (suc n) l x x1 x2 y1 c c1 e1 c2 room hx st run =
      let mv = layer-Moved n l x x1 x2 y1 c c1 e1 c2 room hx st run in
      let next : l + 1 ≡ suc l = omega arith in
      let (e, y, e2, y2, eq, eq2, hy, same, len, len2) =
        layers-Joined n (suc l) mv.x' mv.x1' mv.x2' y1 mv.c' mv.c1' e1 mv.c2' (omega arith)
          mv.joined mv.step
          (subst (λ i. first_layers n i mv.c1' mv.x1' ≡ ok (e1, y1)) next mv.rest) in
      (
        e,
        y,
        e2,
        y2,
        ap (λ r. r >>= λ p. whole_layers n (l + 1) p.0 p.1) mv.whole
            ∙ subst (λ i. whole_layers n i mv.c' mv.x' ≡ ok (e, y)) (sym next) eq,
        ap (λ r. r >>= λ p. second_layers n (l + 1) p.0 p.1) mv.second
            ∙ subst (λ i. second_layers n i mv.c2' mv.x2' ≡ ok (e2, y2)) (sym next) eq2,
        hy,
        λ j lt. same j (omega arith),
        len ∙ mv.length_whole,
        len2 ∙ mv.length_second,
      )
