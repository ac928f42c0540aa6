-- ===== src/Tensor/Rows.antt =====
-- A part of a flat buffer, as the pointer arithmetic of the source reads it: outside the buffer the
-- behaviour is undefined.
use from_scratch_inference_e.Base.{
  ℕ, ◌+◌, ◌≤◌, ◌≡◌, List, arith, leb, if◌then◌else◌, length, take, drop, length-take, length-drop,
  Result, ok, err, undefined,
}

module _ {ℓ} {A : Type ℓ} where
  -- `n` elements from offset `off`.
  unfoldable pub slice : List A → ℕ → ℕ → Result (List A)
  slice xs off n = if leb (off + n) (length xs) then ok (take n (drop off xs)) else err undefined

  pub slice_in :
      (xs : List A) (off n : ℕ) → off + n ≤ length xs → slice xs off n ≡ ok (take n (drop off xs))
  unfolding slice
  slice_in xs off n h = ground arith

  pub length-slice :
      (xs : List A) (off n : ℕ) → off + n ≤ length xs → length (take n (drop off xs)) ≡ n
  length-slice xs off n h = omega (arith, length-take n (drop off xs), length-drop off xs)
