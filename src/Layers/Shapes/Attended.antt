-- ===== src/Layers/Shapes/Attended.antt =====
-- attention on tensors of the right shapes: every access lies inside the keys and values.
use from_scratch_inference_e.Base.{
  ℕ, zero, suc, ◌+◌, ◌*◌, ◌/◌, ◌%◌, ◌≤◌, ◌<◌, ◌≡◌, refl, ◌∙◌, List, [], ◌∷◌, map, arith, le→leb,
  ==_refl, All, length, length-drop, length-replicate, replicate, drop, ==_of_ne,
}
use native.Mathlib.Nat.{suc-mul, mul-le-mul_right, mod-add-div', div-lt_iff_lt-mul, mul_comm}
use from_scratch_inference_e.Tensor.{Tensor}
use from_scratch_inference_e.Layers.Floats.{Floats}
use from_scratch_inference_e.Layers.Rows.{fold_left}
use from_scratch_inference_e.Layers.Attention.{
  attention, attend_row, attend, head_vectors, mix, scores, dot,
}
use from_scratch_inference_e.Layers.Shapes.Rows.{
  Returns, Returns-bind, Long, slice-Long, zip_with-Long, each_row-Long,
}
use from_scratch_inference_e.Layers.Shapes.Simple.{IsMatrix}
use from_scratch_inference_e.Layers.Shapes.Positions.{length-map}

div-lt-of_lt :
    (n_heads n_kv_heads h : ℕ)
    → 0 < n_kv_heads
    → n_heads % n_kv_heads ≡ 0
    → h < n_heads
    → h / (n_heads / n_kv_heads) < n_kv_heads
div-lt-of_lt n_heads n_kv_heads h pos whole lt =
    let group = n_heads / n_kv_heads in
    let parts : group * n_kv_heads ≡ n_heads = omega (arith, mod-add-div' n_heads n_kv_heads) in
    let some_in : 0 < group = grind (arith, parts) in
    (div-lt_iff_lt-mul some_in).1 (omega (arith, parts, mul_comm group n_kv_heads))

module _ {ℓ} {F : Type ℓ} where
  pub head_vectors-Long :
      (width off head_dim n : ℕ) (xs : List F)
      → off + head_dim ≤ width
      → n * width ≤ length xs
      → Returns (All (Long head_dim)) (head_vectors width off head_dim n xs)
  unfolding head_vectors
  head_vectors-Long width off head_dim zero xs fits room = tt
  head_vectors-Long width off head_dim (suc n) xs fits room =
      Returns-bind (Long head_dim) (All (Long head_dim)) _ _
        (slice-Long xs off head_dim (omega (arith, suc-mul n width)))
        λ vec e.
          Returns-bind (All (Long head_dim)) (All (Long head_dim)) _ _
            (head_vectors-Long width off head_dim n (drop width xs) fits
              (omega (arith, suc-mul n width, length-drop width xs)))
            λ rest all. (e, all)

module _ {ℓ} {F D : Type ℓ} (A : Floats F D) where
  scores-Returns :
      (head_dim : ℕ) (scale : D) (q : List F) (ks : List (List F))
      → Long head_dim q
      → All (Long head_dim) ks
      → Returns (λ ss. Unit {0}) (scores A scale q ks)
  unfolding scores dot
  scores-Returns head_dim scale q [] hq all = tt
  scores-Returns head_dim scale q (k ∷ ks) hq all =
      Returns-bind (λ d. Unit {0}) (λ ss. Unit {0}) (dot A q k) _
        (Returns-bind (Long (length q)) (λ d. Unit {0}) _ _
          (zip_with-Long (λ a b. A.dmul (A.wide a) (A.wide b)) q k (omega (arith, all.0)))
          (λ products e. tt))
        λ value done.
          Returns-bind (λ ss. Unit {0}) (λ ss. Unit {0}) _ _
            (scores-Returns head_dim scale q ks hq all.1) (λ rest done. tt)

  mix-Long :
      (head_dim : ℕ) (inv_sum : D) (acc es : List D) (vs : List (List F))
      → Long head_dim acc
      → All (Long head_dim) vs
      → Returns (Long head_dim) (mix A inv_sum acc es vs)
  unfolding mix
  mix-Long head_dim inv_sum acc [] vs h all = h
  mix-Long head_dim inv_sum acc (e ∷ es) [] h all = h
  mix-Long head_dim inv_sum acc (e ∷ es) (v ∷ vs) h all =
      Returns-bind (Long (length acc)) (Long head_dim) _ _
        (zip_with-Long (λ a x. A.dadd a (A.dmul (A.dmul e inv_sum) (A.wide x))) acc v
          (omega (arith, all.0)))
        λ acc' e'. mix-Long head_dim inv_sum acc' es vs (e' ∙ h) all.1

  attend-Long :
      (head_dim : ℕ) (q : List F) (ks vs : List (List F))
      → Long head_dim q
      → All (Long head_dim) ks
      → All (Long head_dim) vs
      → Returns (Long head_dim) (attend A head_dim q ks vs)
  unfolding attend
  attend-Long head_dim q ks vs hq hk hv =
      Returns-bind (λ ss. Unit {0}) (Long head_dim) _ _
        (scores-Returns head_dim (A.ddiv A.done (A.dsqrt (A.dof_nat head_dim))) q ks hq hk)
        λ ss done.
          let top = fold_left A.dlarger A.dlowest ss in
          let es = map (λ s. A.dexp (A.dsub s top)) ss in
          let sum = fold_left A.dadd A.dnil es in
          Returns-bind (Long head_dim) (Long head_dim) _ _
            (mix-Long head_dim (A.ddiv A.done sum) (replicate head_dim A.dnil) es vs
              (length-replicate head_dim A.dnil) hv)
            λ acc e. length-map A.narrow acc ∙ e

  -- The key and value head of query head `h` is one of them.
  pub head_fits :
      (n_heads n_kv_heads head_dim h : ℕ)
      → 0 < n_kv_heads
      → n_heads % n_kv_heads ≡ 0
      → h < n_heads
      → h / (n_heads / n_kv_heads) * head_dim + head_dim ≤ n_kv_heads * head_dim
  head_fits n_heads n_kv_heads head_dim h pos whole lt =
      let kvh = h / (n_heads / n_kv_heads) in
      let below : kvh < n_kv_heads = div-lt-of_lt n_heads n_kv_heads h pos whole lt in
      omega (arith, suc-mul kvh head_dim, mul-le-mul_right head_dim below)

  pub attend_row-Long :
      (k v : List F) (n_heads n_kv_heads head_dim last : ℕ) (row : List F)
      → 0 < n_kv_heads
      → n_heads % n_kv_heads ≡ 0
      → (last + 1) * (n_kv_heads * head_dim) ≤ length k
      → (last + 1) * (n_kv_heads * head_dim) ≤ length v
      → Long (n_heads * head_dim) row
      → Returns (Long (n_heads * head_dim)) (attend_row A k v n_heads n_kv_heads head_dim last row)
  unfolding attend_row
  attend_row-Long k v n_heads n_kv_heads head_dim last row pos whole hk hv hr =
      each_row-Long _ head_dim head_dim 0 n_heads row
        (λ h q _ lt e.
          let width = n_kv_heads * head_dim in
          let off = h / (n_heads / n_kv_heads) * head_dim in
          let fits = head_fits n_heads n_kv_heads head_dim h pos whole (omega arith) in
          Returns-bind (All (Long head_dim)) (Long head_dim) _ _
            (head_vectors-Long width off head_dim (last + 1) k fits hk)
            λ ks all.
              Returns-bind (All (Long head_dim)) (Long head_dim) _ _
                (head_vectors-Long width off head_dim (last + 1) v fits hv)
                λ vs all'. attend-Long head_dim q ks vs e all all')
        hr

  -- `total` cached rows, of which the last ones belong to the queries.
  pub attention-IsMatrix :
      (s total n_heads n_kv_heads head_dim query_offset : ℕ) (q k v : Tensor F)
      → 0 < n_kv_heads
      → n_heads % n_kv_heads ≡ 0
      → query_offset + s ≤ total
      → IsMatrix s (n_heads * head_dim) q
      → IsMatrix total (n_kv_heads * head_dim) k
      → IsMatrix total (n_kv_heads * head_dim) v
      → Returns
          (IsMatrix s (n_heads * head_dim))
          (attention A q k v n_heads n_kv_heads head_dim query_offset)
  unfolding attention
  attention-IsMatrix s total n_heads n_kv_heads head_dim query_offset q k v pos whole room hq hk
        hv =
      let width = n_heads * head_dim in
      let kv = n_kv_heads * head_dim in
      let reach : (last : ℕ) → last < total → (last + 1) * kv ≤ total * kv =
        λ last lt. mul-le-mul_right kv (omega arith) in
      rw
        (
          hq.shape,
          hk.shape,
          hv.shape,
          ==_refl width,
          ==_refl kv,
          ==_refl total,
          ==_of_ne n_kv_heads 0 (λ e. absurd (omega arith)),
          whole,
          le→leb (query_offset + s) total room,
        )
        (Returns-bind (Long (s * width)) (IsMatrix s width) _ _
          (each_row-Long _ width width 0 s q.data_
            (λ i row _ lt e.
              attend_row-Long k.data_ v.data_ n_heads n_kv_heads head_dim (query_offset + i) row pos
                whole (omega (arith, hk.size, reach (query_offset + i) (omega arith)))
                (omega (arith, hv.size, reach (query_offset + i) (omega arith))) e)
            hq.size)
          λ values e. record { shape = refl; size = e })
