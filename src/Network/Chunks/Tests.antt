-- ===== src/Network/Chunks/Tests.antt =====
-- The tiny model on a prompt and on its two parts.
use from_scratch_inference_e.Base.{
  ℕ, zero, suc, ◌<◌, ◌≡◌, refl, List, [], ◌∷◌, Bool, arith, ltb, length, pos, ok, ◌>>=◌,
}
use from_scratch_inference_e.Tensor.{Tensor, num_elements, of_data}
use from_scratch_inference_e.Tensor.Rows.{slice}
use from_scratch_inference_e.Cache.Contiguous
use from_scratch_inference_e.Layers.Tests.{whole, product, product-IsRowwise}
use from_scratch_inference_e.Layers.Joined.Rows.{Three}
use from_scratch_inference_e.Layers.Joined.Simple.{Joined}
use from_scratch_inference_e.Speculative.{speculative_greedy}
use from_scratch_inference_e.Speculative.Causal.{row_of, greedy}
use from_scratch_inference_e.Network.Forward.{forward, forward_with_cache}
use from_scratch_inference_e.Network.Tests.{tiny, tiny-Fits, new_contiguous}
use from_scratch_inference_e.Network.Chunks.Rows.{SameAt}
use from_scratch_inference_e.Network.Chunks.Forward.{Holds, SameRows, forward_with_cache-append}
use from_scratch_inference_e.Network.Chunks.Causal.{
  row_of-forward, forward_ids, speculative_greedy-forward,
}

no_rows : (l : ℕ) → l < 1 → SameAt 1 0 new_contiguous new_contiguous l
no_rows zero lt = ([], [], (refl, refl), (refl, refl), refl, refl)
no_rows (suc l) lt = absurd (omega arith)

new_contiguous-Holds : Holds 1 1 0 new_contiguous
new_contiguous-Holds = record { dim = refl; counted = refl; filled = no_rows }

forward_with_cache-append_example :
    Three
      (λ r r1 r2. Joined 1 2 2 r.1 r1.1 r2.1 × SameRows 1 r.0 r2.0)
      (forward_with_cache whole product tiny (pos 1 ∷ pos 0 ∷ pos 1 ∷ []) new_contiguous)
      (forward_with_cache whole product tiny (pos 1 ∷ []) new_contiguous)
      (forward_with_cache whole product tiny (pos 1 ∷ []) new_contiguous >>= λ r.
        forward_with_cache whole product tiny (pos 0 ∷ pos 1 ∷ []) r.0)
forward_with_cache-append_example =
    forward_with_cache-append whole product tiny product-IsRowwise 2 1 tiny-Fits (omega arith) 0
      (pos 1 ∷ []) (pos 0 ∷ pos 1 ∷ []) new_contiguous (omega arith) (omega arith) (omega arith, tt)
      (omega arith, (omega arith, tt)) new_contiguous-Holds

abbrev more : ℕ → ℕ → Bool
more a b = ltb b a

abbrev always_one : List ℕ → ℕ
always_one context = 1

speculative_greedy-forward_example :
    (out : List ℕ) × (speculative_greedy more
        (forward_ids whole product tiny)
        always_one
        (0 ∷ [])
        (pos 3)
        (pos 2)
      ≡ ok out)
    × (greedy more (forward_ids whole product tiny) 3 (0 ∷ []) ≡ ok out)
    × (length out ≡ 3)
speculative_greedy-forward_example =
    speculative_greedy-forward whole product tiny product-IsRowwise 2 1 tiny-Fits (omega arith) more
      always_one (0 ∷ []) (pos 3) (pos 2) (omega arith) (λ context. omega arith) (omega arith)
      (omega arith, tt)

abbrev one_row : Tensor ℕ
one_row = record { shape = 1 ∷ 2 ∷ []; data_ = 156028 ∷ 312056 ∷ [] }

abbrev two_rows : Tensor ℕ
two_rows = record { shape = 2 ∷ 2 ∷ []; data_ = 156028 ∷ 312056 ∷ 110 ∷ 220 ∷ [] }

one_row-forward : forward whole product tiny (pos 1 ∷ []) ≡ ok one_row
unfolding forward product slice num_elements Contiguous.append Contiguous.key_tensor of_data
    Contiguous.value_tensor
one_row-forward = refl

two_rows-forward : forward whole product tiny (pos 1 ∷ pos 0 ∷ []) ≡ ok two_rows
unfolding forward product slice num_elements Contiguous.append Contiguous.key_tensor of_data
    Contiguous.value_tensor
two_rows-forward = refl

row_of-forward_example : row_of 2 two_rows 0 ≡ row_of 2 one_row 0
row_of-forward_example =
    row_of-forward whole product tiny product-IsRowwise 2 1 tiny-Fits (omega arith) (pos 1 ∷ [])
      (pos 0 ∷ []) one_row two_rows 0 one_row-forward two_rows-forward (omega arith)
