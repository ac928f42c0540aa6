-- ===== src/Layers/Joined/Attended.antt =====
-- attention is causal: a query sees the keys and values up to its own row alone.
use from_scratch_inference_e.Base.{
  ℕ, zero, suc, ◌+◌, ◌*◌, ◌/◌, ◌%◌, ◌≤◌, ◌<◌, ◌≡◌, refl, ap, sym, ◌∙◌, List, ◌++◌, arith, ==_refl,
  ==_of_ne, le→leb, length, length-append, length-drop, take, drop, Result, ok, ◌>>=◌,
}
use native.Mathlib.Nat.{suc-mul, mul-le-mul_right}
use from_scratch_inference_e.Tensor.{Tensor}
use from_scratch_inference_e.Tensor.Rows.{slice, slice_in}
use from_scratch_inference_e.Manager.Store.Splice.{take-append_left, drop-append_left}
use from_scratch_inference_e.Layers.Floats.{Floats}
use from_scratch_inference_e.Layers.Attention.{attention, attend_row, attend, head_vectors}
use from_scratch_inference_e.Layers.Shapes.Rows.{Returns, Long}
use from_scratch_inference_e.Layers.Shapes.Simple.{IsMatrix}
use from_scratch_inference_e.Layers.Shapes.Attended.{attend_row-Long, head_fits}
use from_scratch_inference_e.Layers.Joined.Rows.{
  Three, Three-ok, Three-bind, Cat, each_row-shift, each_row-Three,
}
use from_scratch_inference_e.Layers.Joined.Simple.{Joined, rows-Joined}

module _ {ℓ} {F : Type ℓ} where
  slice-prefix :
      (xs ys : List F) (off n : ℕ) → off + n ≤ length xs → slice (xs ++ ys) off n ≡ slice xs off n
  slice-prefix xs ys off n h =
      slice_in (xs ++ ys) off n (omega (arith, length-append xs ys))
      ∙ (ap (λ zs. ok (take n zs)) (drop-append_left off xs ys (omega arith))
          ∙ (ap (λ zs. ok zs)
                (take-append_left n (drop off xs) ys (omega (arith, length-drop off xs)))
              ∙ sym (slice_in xs off n h)))

  -- Rows behind the first `n` make no difference to the vectors of those.
  head_vectors-prefix :
      (width off head_dim n : ℕ) (xs ys : List F)
      → off + head_dim ≤ width
      → n * width ≤ length xs
      → head_vectors width off head_dim n (xs ++ ys) ≡ head_vectors width off head_dim n xs
  unfolding head_vectors
  head_vectors-prefix width off head_dim zero xs ys fits room = refl
  head_vectors-prefix width off head_dim (suc n) xs ys fits room =
      rw
        (
          slice-prefix xs ys off head_dim (omega (arith, suc-mul n width)),
          drop-append_left width xs ys (omega (arith, suc-mul n width)),
          head_vectors-prefix width off head_dim n (drop width xs) ys fits
              (omega (arith, suc-mul n width, length-drop width xs)),
        )
        refl

module _ {ℓ} {F D : Type ℓ} (A : Floats F D) where
  attend_row-prefix :
      (k k' v v' : List F) (n_heads n_kv_heads head_dim last : ℕ) (row : List F)
      → 0 < n_kv_heads
      → n_heads % n_kv_heads ≡ 0
      → (last + 1) * (n_kv_heads * head_dim) ≤ length k
      → (last + 1) * (n_kv_heads * head_dim) ≤ length v
      → Long (n_heads * head_dim) row
      → attend_row A (k ++ k') (v ++ v') n_heads n_kv_heads head_dim last row
        ≡ attend_row A k v n_heads n_kv_heads head_dim last row
  unfolding attend_row
  attend_row-prefix k k' v v' n_heads n_kv_heads head_dim last row pos whole hk hv hr =
      let width = n_kv_heads * head_dim in
      let f : List F → List F → ℕ → List F → Result (List F) = λ ks vs h q.
        head_vectors width (h / (n_heads / n_kv_heads) * head_dim) head_dim (last + 1) ks >>= λ a.
        head_vectors width (h / (n_heads / n_kv_heads) * head_dim) head_dim (last + 1) vs >>= λ b.
        attend A head_dim q a b in
      each_row-shift (f (k ++ k') (v ++ v')) (f k v) head_dim 0 0 n_heads row
        (λ h q lt e.
          let here : 0 + h ≡ h = omega arith in
          let off = h / (n_heads / n_kv_heads) * head_dim in
          let fits = head_fits A n_heads n_kv_heads head_dim h pos whole lt in
          rw
            (
              here,
              head_vectors-prefix width off head_dim (last + 1) k k' fits hk,
              head_vectors-prefix width off head_dim (last + 1) v v' fits hv,
            )
            refl)
        hr

  -- The first queries see the first keys and values only; the second see all, from an offset.
  pub attention-Joined :
      (past s1 s2 n_heads n_kv_heads head_dim : ℕ) (q q1 q2 k k1 k2 v v1 v2 : Tensor F)
      (k' v' : List F)
      → 0 < n_kv_heads
      → n_heads % n_kv_heads ≡ 0
      → Joined s1 s2 (n_heads * head_dim) q q1 q2
      → IsMatrix (past + (s1 + s2)) (n_kv_heads * head_dim) k
      → IsMatrix (past + (s1 + s2)) (n_kv_heads * head_dim) v
      → IsMatrix (past + s1) (n_kv_heads * head_dim) k1
      → IsMatrix (past + s1) (n_kv_heads * head_dim) v1
      → IsMatrix (past + s1 + s2) (n_kv_heads * head_dim) k2
      → IsMatrix (past + s1 + s2) (n_kv_heads * head_dim) v2
      → k.data_ ≡ k1.data_ ++ k'
      → v.data_ ≡ v1.data_ ++ v'
      → k.data_ ≡ k2.data_
      → v.data_ ≡ v2.data_
      → Three
          (Joined s1 s2 (n_heads * head_dim))
          (attention A q k v n_heads n_kv_heads head_dim past)
          (attention A q1 k1 v1 n_heads n_kv_heads head_dim past)
          (attention A q2 k2 v2 n_heads n_kv_heads head_dim (past + s1))
  unfolding attention
  attention-Joined past s1 s2 n_heads n_kv_heads head_dim q q1 q2 k k1 k2 v v1 v2 k' v' pos whole hq
        hk hv hk1 hv1 hk2 hv2 ek ev ek2 ev2 =
      let width = n_heads * head_dim in
      let kv = n_kv_heads * head_dim in
      let reach : (last total : ℕ) → last < total → (last + 1) * kv ≤ total * kv =
        λ last total lt. mul-le-mul_right kv (omega arith) in
      let f : List F → List F → ℕ → ℕ → List F → Result (List F) =
        λ ks vs off i row. attend_row A ks vs n_heads n_kv_heads head_dim (off + i) row in
      let total : (ks vs : List F) (off rows i : ℕ) (row : List F)
          → Long (rows * kv) ks
          → Long (rows * kv) vs
          → off + i < rows
          → Long width row
          → Returns (Long width) (f ks vs off i row) =
        λ ks vs off rows i row lk lv lt e.
          attend_row-Long A ks vs n_heads n_kv_heads head_dim (off + i) row pos whole
            (omega (arith, reach (off + i) rows lt)) (omega (arith, reach (off + i) rows lt)) e in
      rw
        (
          hq.all.shape,
          hq.first.shape,
          hq.second.shape,
          hk.shape,
          hk1.shape,
          hk2.shape,
          hv.shape,
          hv1.shape,
          hv2.shape,
          ==_refl width,
          ==_refl kv,
          ==_refl (past + (s1 + s2)),
          ==_refl (past + s1),
          ==_refl (past + s1 + s2),
          ==_of_ne n_kv_heads 0 (λ e. absurd (omega arith)),
          whole,
          le→leb (past + (s1 + s2)) (past + (s1 + s2)) (omega arith),
          le→leb (past + s1) (past + s1) (omega arith),
          le→leb (past + s1 + s2) (past + s1 + s2) (omega arith),
          hq.rows,
        )
        (Three-bind (Cat (s1 * width) (s2 * width)) (Joined s1 s2 width) _ _ _ _ _ _
          (each_row-Three (f k.data_ v.data_ past) (f k1.data_ v1.data_ past)
            (f k2.data_ v2.data_ (past + s1)) width width s1 s2 q1.data_ q2.data_
            (λ j row lt e.
              total k1.data_ v1.data_ past (past + s1) j row hk1.size hv1.size (omega arith) e)
            (λ j row lt e.
              total k2.data_ v2.data_ (past + s1) (past + s1 + s2) j row hk2.size hv2.size
                (omega arith) e)
            (λ j row lt e.
              rw (ek, ev)
                (attend_row-prefix k1.data_ k' v1.data_ v' n_heads n_kv_heads head_dim (past + j)
                  row pos whole
                  (omega (arith, hk1.size, reach (past + j) (past + s1) (omega arith)))
                  (omega (arith, hv1.size, reach (past + j) (past + s1) (omega arith))) e))
            (λ j row lt e.
              let moved : past + (s1 + j) ≡ past + s1 + j = omega arith in
              rw (ek2, ev2, moved) refl)
            hq.first.size hq.second.size)
          λ a b c e. Three-ok (Joined s1 s2 width) _ _ _ (rows-Joined s1 s2 width a b c e))
