-- ===== src/Layers/Joined/Positions.antt =====
-- embedding and rope_inplace on two inputs and on both in one.
use from_scratch_inference_e.Base.{
  ℕ, ◌+◌, ◌*◌, ◌/◌, ◌<◌, ◌≡◌, refl, sym, List, [], ◌∷◌, ◌++◌, arith, lt→ltb, ==_refl, All, length,
  length-append, get_elem?, get_elem?-of_lt, take, drop, ℤ, pos, negsuc, Result, ok, ◌>>=◌, or_fail,
  undefined,
}
use native.Mathlib.Nat.{suc-mul, mul-le-mul_right}
use from_scratch_inference_e.Tensor.{Tensor}
use from_scratch_inference_e.Tensor.Rows.{slice_in}
use from_scratch_inference_e.Layers.Floats.{Floats}
use from_scratch_inference_e.Layers.Embed.{embedding, embed_rows, token_row}
use from_scratch_inference_e.Layers.Rope.{rope_inplace, turn_row, frequencies}
use from_scratch_inference_e.Layers.Shapes.Rows.{Returns, returned, Long}
use from_scratch_inference_e.Layers.Shapes.Simple.{IsMatrix}
use from_scratch_inference_e.Layers.Shapes.Positions.{
  IsToken, embed_rows-Long, turn_row-Long, length-frequencies,
}
use from_scratch_inference_e.Layers.Joined.Rows.{
  Three, Three-ok, Three-bind, Cat, bind-ok, regroup, each_row-Three,
}
use from_scratch_inference_e.Layers.Joined.Simple.{Joined, rows-Joined}

module _ {ℓ} {F : Type ℓ} where
  embed_rows-append :
      (vocab h : ℕ) (table : List F) (ids ids' : List ℤ)
      → Long (vocab * h) table
      → All (IsToken vocab) ids
      → embed_rows vocab h table (ids ++ ids')
        ≡ (embed_rows vocab h table ids >>= λ a. embed_rows vocab h table ids' >>= λ b. ok (a ++ b))
  unfolding embed_rows token_row
  embed_rows-append vocab h table [] ids' t a = sym (bind-ok (embed_rows vocab h table ids'))
  embed_rows-append vocab h table (negsuc n ∷ ids) ids' t a = elim a.0 [ ]
  embed_rows-append vocab h table (pos id ∷ ids) ids' t a =
      let room = mul-le-mul_right h a.0 in
      rw
        (
          lt→ltb id vocab a.0,
          slice_in table (id * h) h (omega (arith, suc-mul id h, room)),
          embed_rows-append vocab h table ids ids' t a.1,
        )
        (regroup (ok (take h (drop (id * h) table))) (embed_rows vocab h table ids)
          (embed_rows vocab h table ids'))

  pub embedding-Joined :
      (vocab h : ℕ) (weight : Tensor F) (ids ids' : List ℤ)
      → IsMatrix vocab h weight
      → All (IsToken vocab) ids
      → All (IsToken vocab) ids'
      → Three
          (Joined (length ids) (length ids') h)
          (embedding weight (ids ++ ids'))
          (embedding weight ids)
          (embedding weight ids')
  unfolding embedding
  embedding-Joined vocab h weight ids ids' hw a a' =
      let (xs, ex, lx) =
        returned _ (embed_rows vocab h weight.data_ ids)
          (embed_rows-Long vocab h weight.data_ ids hw.size a) in
      let (ys, ey, ly) =
        returned _ (embed_rows vocab h weight.data_ ids')
          (embed_rows-Long vocab h weight.data_ ids' hw.size a') in
      rw
        (
          hw.shape,
          embed_rows-append vocab h weight.data_ ids ids' hw.size a,
          ex,
          ey,
          length-append ids ids',
        )
        (Three-ok (Joined (length ids) (length ids') h) _ _ _
          (rows-Joined (length ids) (length ids') h (xs ++ ys) xs ys (refl, lx, ly)))

module _ {ℓ} {F D : Type ℓ} (A : Floats F D) (s1 s2 : ℕ) where
  pub rope_inplace-Joined :
      (n_heads head_dim : ℕ) (theta : D) (x x1 x2 : Tensor F) (ps ps1 ps2 : List ℕ)
      → Joined s1 s2 (n_heads * head_dim) x x1 x2
      → Long (s1 + s2) ps
      → Long s1 ps1
      → Long s2 ps2
      → ((j : ℕ) → j < s1 → get_elem? ps j ≡ get_elem? ps1 j)
      → ((j : ℕ) → j < s2 → get_elem? ps (s1 + j) ≡ get_elem? ps2 j)
      → Three
          (Joined s1 s2 (n_heads * head_dim))
          (rope_inplace A x n_heads head_dim theta ps)
          (rope_inplace A x1 n_heads head_dim theta ps1)
          (rope_inplace A x2 n_heads head_dim theta ps2)
  unfolding rope_inplace
  rope_inplace-Joined n_heads head_dim theta x x1 x2 ps ps1 ps2 hx hp hp1 hp2 same1 same2 =
      let width = n_heads * head_dim in
      let freqs = frequencies A theta head_dim 0 (head_dim / 2) in
      let f : List ℕ → ℕ → List F → Result (List F) = λ qs t row.
        or_fail undefined (get_elem? qs t) >>= λ position.
        turn_row A n_heads head_dim freqs position row in
      let total : (qs : List ℕ) (j : ℕ) (row : List F)
          → j < length qs
          → Long width row
          → Returns (Long width) (f qs j row) =
        λ qs j row lt e.
          let found = get_elem?-of_lt qs j lt in
          rw (found.1) (
            turn_row-Long A n_heads head_dim found.0 freqs row
              (length-frequencies A theta head_dim 0 (head_dim / 2)) e) in
      rw
        (
          hx.rows,
          hx.all.shape,
          hx.first.shape,
          hx.second.shape,
          hp,
          hp1,
          hp2,
          ==_refl width,
          ==_refl (s1 + s2),
          ==_refl s1,
          ==_refl s2,
        )
        (Three-bind (Cat (s1 * width) (s2 * width)) (Joined s1 s2 width) _ _ _ _ _ _
          (each_row-Three (f ps) (f ps1) (f ps2) width width s1 s2 x1.data_ x2.data_
            (λ j row lt e. total ps1 j row (omega arith) e)
            (λ j row lt e. total ps2 j row (omega arith) e) (λ j row lt _. rw (same1 j lt) refl)
            (λ j row lt _. rw (same2 j lt) refl) hx.first.size hx.second.size)
          λ a b c e. Three-ok (Joined s1 s2 width) _ _ _ (rows-Joined s1 s2 width a b c e))
