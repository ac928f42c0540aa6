-- ===== src/Network/Chunks/Forward.antt =====
-- forward_with_cache on a prompt, and on its two parts one after the other.
use from_scratch_inference_e.Base.{
  ℕ, ◌+◌, ◌<◌, ◌≡◌, refl, sym, subst, ap, ◌∙◌, List, ◌++◌, arith, All, false, ◌==◌, ==_of_ne,
  length, length-append, ℤ, Result, ok, ◌>>=◌,
}
use from_scratch_inference_e.Tensor.{Tensor}
use from_scratch_inference_e.Layers.Floats.{Floats, Gemm}
use from_scratch_inference_e.Layers.Embed.{embedding}
use from_scratch_inference_e.Layers.Shapes.Rows.{returned}
use from_scratch_inference_e.Layers.Shapes.Simple.{IsMatrix}
use from_scratch_inference_e.Layers.Shapes.Positions.{IsToken}
use from_scratch_inference_e.Layers.Joined.Rows.{Three}
use from_scratch_inference_e.Layers.Joined.Simple.{Joined, IsRowwise}
use from_scratch_inference_e.Layers.Joined.Positions.{embedding-Joined}
use from_scratch_inference_e.Cache.Contiguous.{KvCache}
use from_scratch_inference_e.Cache.Contiguous
use from_scratch_inference_e.Network.State.{Model, get}
use from_scratch_inference_e.Network.Block.{layers}
use from_scratch_inference_e.Network.Forward.{
  contiguous, positions_from, to_logits, forward_cached, forward_with_cache,
}
use from_scratch_inference_e.Network.Fits.{Fits, kv_width}
use from_scratch_inference_e.Network.Simulates.{length-positions_from}
use from_scratch_inference_e.Network.Chunks.Layers.{to_logits-Joined}
use from_scratch_inference_e.Network.Chunks.Rows.{At, SameAt}
use from_scratch_inference_e.Network.Chunks.Grown.{layers-Grown}
use from_scratch_inference_e.Network.Chunks.Layer.{over_cache}
use from_scratch_inference_e.Network.Chunks.Step.{Step, grown_from}
use from_scratch_inference_e.Network.Chunks.Run.{layers-Joined}

module _ {ℓ} {F : Type ℓ} where
  -- A cache with `rows` rows of keys and of values in each of its layers.
  pub record Holds (num_layers kv rows : ℕ) (c : KvCache F) : Type ℓ where
    pub dim : c.kv_dim ≡ kv
    pub counted : c.length_ ≡ rows
    pub filled : (l : ℕ) → l < num_layers → SameAt kv rows c c l

  -- Two caches of the same length with the same rows in each layer.
  pub record SameRows (num_layers : ℕ) (c c' : KvCache F) : Type ℓ where
    pub counted : c.length_ ≡ c'.length_
    pub filled :
        (l : ℕ) → l < num_layers → (ks : List F) × (vs : List F) × At c l ks vs × At c' l ks vs

-- Four calls that return, the last with the results of two of them.
chain-ok {ℓ} :
    {C T : Type ℓ} (end : C → C) (mw : Result T) (f : T → Result T) (g : T → Result (C × T))
    (h : T → T → Result T) (w x : T) (e : C) (y z : T)
    → mw ≡ ok w
    → f w ≡ ok x
    → g x ≡ ok (e, y)
    → h w y ≡ ok z
    → (mw >>= λ a. f a >>= λ b. g b >>= λ r. ◌>>=◌ {C = C × T} (h a r.1) (λ d. ok (end r.0, d)))
      ≡ ok (end e, z)
chain-ok end mw f g h w x e y z ew ex run ez = rw (ew, ex, run, ez) refl

module _ {ℓ} {F D : Type ℓ} (A : Floats F D) (gemm : Gemm F) (m : Model F D) where
  -- A pass from its parts.
  pass-eq :
      (past s : ℕ) (ids : List ℤ) (c e : KvCache F) (w x y z : Tensor F)
      → 0 < s
      → length ids ≡ s
      → c.length_ ≡ past
      → get m.weights "model.embed_tokens.weight" ≡ ok w
      → embedding w ids ≡ ok x
      → layers A gemm m
          (over_cache A gemm m past s)
          (positions_from past s)
          m.config.num_hidden_layers
          0
          c
          x
        ≡ ok (e, y)
      → to_logits A gemm m w y ≡ ok z
      → forward_with_cache A gemm m ids c ≡ ok (Contiguous.advance e s, z)
  unfolding forward_with_cache forward_cached contiguous
  pass-eq past s ids c e w x y z some_id long counted ew ex run ez =
      let nonempty : (length ids == 0) ≡ false =
        ==_of_ne (length ids) 0 (λ none. absurd (omega (arith, none))) in
      let run' : layers A gemm m (over_cache A gemm m c.length_ (length ids))
            (positions_from c.length_ (length ids)) m.config.num_hidden_layers 0 c x
          ≡ ok (e, y) =
        subst
          (λ n.
            layers A gemm m (over_cache A gemm m c.length_ n) (positions_from c.length_ n)
              m.config.num_hidden_layers 0 c x
            ≡ ok (e, y))
          (sym long)
          (subst
            (λ n.
              layers A gemm m (over_cache A gemm m n s) (positions_from n s)
                m.config.num_hidden_layers 0 c x
              ≡ ok (e, y))
            (sym counted) run) in
      let done : forward_with_cache A gemm m ids c ≡ ok (Contiguous.advance e (length ids), z) =
        rw (nonempty) (
          chain-ok (λ r. Contiguous.advance r (length ids))
            (get m.weights "model.embed_tokens.weight") (λ t. embedding t ids)
            (λ t.
              layers A gemm m (over_cache A gemm m c.length_ (length ids))
                (positions_from c.length_ (length ids)) m.config.num_hidden_layers 0 c t)
            (to_logits A gemm m) w x e y z ew ex run' ez) in
      subst (λ n. forward_with_cache A gemm m ids c ≡ ok (Contiguous.advance e n, z)) long done

module _ {ℓ} {F D : Type ℓ} (A : Floats F D) (gemm : Gemm F) (m : Model F D)
    (rowwise : IsRowwise gemm) (vocab inter : ℕ) (fits : Fits A gemm m vocab inter)
    (wide : 0 < kv_width A gemm m) where
  start-Step :
      (past s1 s2 : ℕ) (c e1 : KvCache F)
      → Holds m.config.num_hidden_layers (kv_width A gemm m) past c
      → e1.kv_dim ≡ kv_width A gemm m
      → Step A gemm m rowwise vocab inter fits wide past s1 s2 0 c c e1 (Contiguous.advance e1 s1)
  start-Step past s1 s2 c e1 holds dim = record {
    dim = holds.dim;
    dim1 = holds.dim;
    dim2 = dim;
    waiting = λ j _ lt. holds.filled j lt;
    filled = λ j ks vs _ at. at;
    done = λ j below. absurd (omega arith);
  }

  -- A pass over a prompt returns the logits rows of the pass over its first part, and behind them
  -- those of the pass over its second part on the cache the first has left, with the same rows of
  -- keys and values in every layer at the end. The matrix product works row by row, the model has
  -- its weights in the shapes of its sizes, the cache holds as many rows in every layer as it
  -- counts, and both parts have token ids, all of the vocabulary.
  pub forward_with_cache-append :
      (past : ℕ) (ids ids' : List ℤ) (c : KvCache F)
      → 0 < length ids
      → 0 < length ids'
      → All (IsToken vocab) ids
      → All (IsToken vocab) ids'
      → Holds m.config.num_hidden_layers (kv_width A gemm m) past c
      → Three
          (λ r r1 r2.
            Joined (length ids) (length ids') vocab r.1 r1.1 r2.1
            × SameRows m.config.num_hidden_layers r.0 r2.0)
          (forward_with_cache A gemm m (ids ++ ids') c)
          (forward_with_cache A gemm m ids c)
          (forward_with_cache A gemm m ids c >>= λ r. forward_with_cache A gemm m ids' r.0)
  forward_with_cache-append past ids ids' c some_id some_id' tokens tokens' holds =
      let L = m.config.num_hidden_layers in
      let h = m.config.hidden_size in
      let s1 = length ids in
      let s2 = length ids' in
      let (w, ew, hw) =
        returned (IsMatrix vocab h) (get m.weights "model.embed_tokens.weight") fits.embed in
      let x = embedding-Joined vocab h w ids ids' hw tokens tokens' in
      let (e1, y1, run1, g, _) =
        layers-Grown A gemm m rowwise.product vocab inter fits wide past s1 L 0 c c
          (positions_from past s1) x.first (length-positions_from past s1) (omega arith)
          (grown_from A gemm m rowwise vocab inter fits wide past s1 s2 0 c holds.dim
            (λ j _ lt. holds.filled j lt))
          x.holds.first in
      let c2 = Contiguous.advance e1 s1 in
      let start = start-Step past s1 s2 c e1 holds g.dim in
      let (e, y, e2, y2, run, run2, hy, same, len, len2) =
        layers-Joined A gemm m rowwise vocab inter fits wide past s1 s2 L 0 x.all x.first x.second
          y1 c c e1 c2 (omega arith) x.holds start run1 in
      let z = to_logits-Joined A gemm m rowwise s1 s2 vocab inter w y y1 y2 fits hw hy in
      let first_eq =
        pass-eq A gemm m past s1 ids c e1 w x.first y1 z.first some_id refl holds.counted ew
          x.first_eq run1 z.first_eq in
      record {
        all = (Contiguous.advance e (s1 + s2), z.all);
        first = (c2, z.first);
        second = (Contiguous.advance e2 s2, z.second);
        all_eq =
            pass-eq A gemm m past (s1 + s2) (ids ++ ids') c e w x.all y z.all (omega arith)
              (length-append ids ids') holds.counted ew x.all_eq run z.all_eq;
        first_eq = first_eq;
        second_eq =
            ap (λ r. r >>= λ p. forward_with_cache A gemm m ids' p.0) first_eq
            ∙ pass-eq A gemm m (past + s1) s2 ids' c2 e2 w x.second y2 z.second some_id' refl
                (omega (arith, g.counted, holds.counted)) ew x.second_eq run2 z.second_eq;
        holds = (
          z.holds,
          record {
            counted = omega (arith, len, len2, g.counted);
            filled = λ l lt. same l (omega arith);
          },
        );
      }
