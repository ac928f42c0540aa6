-- ===== src/Layers/Shapes/Positions.antt =====
-- embedding and rope_inplace on tensors of the right shapes.
use from_scratch_inference_e.Base.{
  ℕ, zero, suc, ◌+◌, ◌*◌, ◌/◌, ◌≤◌, ◌<◌, ◌≡◌, refl, ap, ◌∙◌, List, [], ◌∷◌, ◌++◌, map, arith,
  lt→ltb, ==_refl, All, length, length-append, length-drop, take, drop, length-take,
  get_elem?-of_lt, ℤ, pos, negsuc,
}
use native.Mathlib.Nat.{suc-mul, mul-le-mul_right}
use from_scratch_inference_e.Tensor.{Tensor}
use from_scratch_inference_e.Tensor.Rows.{slice}
use from_scratch_inference_e.Layers.Floats.{Floats}
use from_scratch_inference_e.Layers.Embed.{embedding, embed_rows, token_row}
use from_scratch_inference_e.Layers.Rope.{
  rope_inplace, turn_row, turn_head, turn_first, turn_second, frequencies,
}
use from_scratch_inference_e.Layers.Shapes.Rows.{
  Returns, Returns-bind, Long, slice-Long, zip_with-Long, each_row-Long,
}
use from_scratch_inference_e.Layers.Shapes.Simple.{IsMatrix}

-- A token id of the vocabulary.
abbrev pub IsToken : ℕ → ℤ → Type 0
IsToken vocab (pos id) = id < vocab
IsToken vocab (negsuc n) = ⊥

module _ {ℓ κ} {A : Type ℓ} {B : Type κ} where
  pub length-map : (f : A → B) (xs : List A) → length (map f xs) ≡ length xs
  length-map f [] = refl
  length-map f (x ∷ xs) = ap suc (length-map f xs)

module _ {ℓ} {F : Type ℓ} where
  pub embed_rows-Long :
      (vocab h : ℕ) (table : List F) (ids : List ℤ)
      → Long (vocab * h) table
      → All (IsToken vocab) ids
      → Returns (Long (length ids * h)) (embed_rows vocab h table ids)
  unfolding embed_rows token_row
  embed_rows-Long vocab h table [] t a = omega arith
  embed_rows-Long vocab h table (negsuc n ∷ ids) t a = elim a.0 [ ]
  embed_rows-Long vocab h table (pos id ∷ ids) t a = rw (lt→ltb id vocab a.0) (
      Returns-bind (Long h) (Long (length (pos id ∷ ids) * h)) (slice table (id * h) h) _
        (slice-Long table (id * h) h (omega (arith, suc-mul id h, mul-le-mul_right h a.0)))
        λ first e.
          Returns-bind (Long (length ids * h)) (Long (length (pos id ∷ ids) * h))
            (embed_rows vocab h table ids) _ (embed_rows-Long vocab h table ids t a.1)
            λ rest e'. omega (arith, suc-mul (length ids) h, length-append first rest))

  pub embedding-IsMatrix :
      (vocab h : ℕ) (weight : Tensor F) (ids : List ℤ)
      → IsMatrix vocab h weight
      → All (IsToken vocab) ids
      → Returns (IsMatrix (length ids) h) (embedding weight ids)
  unfolding embedding
  embedding-IsMatrix vocab h weight ids hw a = rw (hw.shape) (
      Returns-bind (Long (length ids * h)) (IsMatrix (length ids) h) _ _
        (embed_rows-Long vocab h weight.data_ ids hw.size a)
        λ values e. record { shape = refl; size = e })

module _ {ℓ} {F D : Type ℓ} (A : Floats F D) where
  pub length-frequencies :
      (theta : D) (head_dim i n : ℕ) → length (frequencies A theta head_dim i n) ≡ n
  unfolding frequencies
  length-frequencies theta head_dim i zero = refl
  length-frequencies theta head_dim i (suc n) = ap suc (length-frequencies theta head_dim (i + 1) n)

  turn_head-Long :
      (half head_dim : ℕ) (angles : List D) (head : List F)
      → half + half ≤ head_dim
      → Long half angles
      → Long head_dim head
      → Returns (Long head_dim) (turn_head A half angles head)
  unfolding turn_head
  turn_head-Long half head_dim angles head room ha hh =
      let len1 : length (take half head) ≡ half = omega (arith, length-take half head) in
      let len2 : length (take half (drop half head)) ≡ half =
        omega (arith, length-take half (drop half head), length-drop half head) in
      Returns-bind (Long (length angles)) (Long head_dim) _ _
        (zip_with-Long (λ a x. (a, x)) angles (take half head) (omega arith))
        λ pairs e.
          Returns-bind (Long (length pairs)) (Long head_dim) _ _
            (zip_with-Long (turn_first A) pairs (take half (drop half head)) (omega arith))
            λ firsts e1.
              Returns-bind (Long (length pairs)) (Long head_dim) _ _
                (zip_with-Long (turn_second A) pairs (take half (drop half head)) (omega arith))
                λ seconds e2. omega (
                  arith,
                  length-append (firsts ++ seconds) (drop (half + half) head),
                  length-append firsts seconds,
                  length-drop (half + half) head,
                )

  pub turn_row-Long :
      (n_heads head_dim position : ℕ) (freqs : List D) (row : List F)
      → Long (head_dim / 2) freqs
      → Long (n_heads * head_dim) row
      → Returns (Long (n_heads * head_dim)) (turn_row A n_heads head_dim freqs position row)
  unfolding turn_row
  turn_row-Long n_heads head_dim position freqs row hf hr =
      let angles = map (λ f. A.dmul (A.dof_nat position) f) freqs in
      each_row-Long (λ h head. turn_head A (head_dim / 2) angles head) head_dim head_dim 0 n_heads
        row
        (λ j head _ _ e.
          turn_head-Long (head_dim / 2) head_dim angles head (omega arith)
            (length-map (λ f. A.dmul (A.dof_nat position) f) freqs ∙ hf) e)
        hr

  pub rope_inplace-IsMatrix :
      (s n_heads head_dim : ℕ) (theta : D) (x : Tensor F) (positions : List ℕ)
      → IsMatrix s (n_heads * head_dim) x
      → Long s positions
      → Returns
          (IsMatrix s (n_heads * head_dim))
          (rope_inplace A x n_heads head_dim theta positions)
  unfolding rope_inplace
  rope_inplace-IsMatrix s n_heads head_dim theta x positions hx hp =
      let width = n_heads * head_dim in
      rw (hx.shape, hp, ==_refl width, ==_refl s)
        (Returns-bind (Long (s * width)) (IsMatrix s width) _ _
          (each_row-Long _ width width 0 s x.data_
            (λ j row _ lt e.
              let found = get_elem?-of_lt positions j (omega arith) in
              rw (found.1) (
                turn_row-Long n_heads head_dim found.0
                  (frequencies A theta head_dim 0 (head_dim / 2)) row
                  (length-frequencies theta head_dim 0 (head_dim / 2)) e))
            hx.size)
          λ values e. record { shape = refl; size = e })
