-- ===== src/Sampler/Argmax.antt =====
-- src/sampler/sampler.cpp, argmax; argmax_row of src/engine/speculative.cpp is the same loop. All
-- that it asks of a float is the comparison `>`.
use from_scratch_inference_e.Base.{
  ℕ, ◌+◌, ◌<◌, List, [], ◌∷◌, arith, Bool, if◌then◌else◌, length, Bool-cases, inl, inr,
}

module _ {ℓ} {F : Type ℓ} (gt : F → F → Bool) where
  -- The loop from index `i` on; `top` is the value at `best`.
  unfoldable pub argmax_loop : F → ℕ → ℕ → List F → ℕ
  argmax_loop top best i [] = best
  argmax_loop top best i (x ∷ xs) =
      argmax_loop (if gt x top then x else top) (if gt x top then i else best) (i + 1) xs

  unfoldable pub argmax : List F → ℕ
  unfolding argmax_loop
  argmax [] = 0
  argmax (x ∷ xs) = argmax_loop x 0 1 xs

  argmax_loop-lt :
      (top : F) (best i : ℕ) (xs : List F) → best < i → argmax_loop top best i xs < i + length xs
  unfolding argmax_loop
  argmax_loop-lt top best i [] h = omega arith
  argmax_loop-lt top best i (x ∷ xs) h = elim (Bool-cases (gt x top)) [
    | inl up ↦ rw up (omega (arith, argmax_loop-lt x i (i + 1) xs (omega arith)))
    | inr down ↦ rw down (omega (arith, argmax_loop-lt top best (i + 1) xs (omega arith)))
  ]

  -- Of a row that is not empty, the chosen index is one of the row.
  pub argmax-lt : (xs : List F) → 0 < length xs → argmax xs < length xs
  unfolding argmax
  argmax-lt [] h = elim h [ ]
  argmax-lt (x ∷ xs) h = omega (arith, argmax_loop-lt x 0 1 xs (omega arith))
