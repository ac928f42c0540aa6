-- ===== src/Sampler/Chosen.antt =====
-- What the sampler answers for a row.
use from_scratch_inference_e.Base.{
  ℕ, ◌<◌, ◌≡◌, List, Bool, true, false, ◌⊎◌, err, undefined, length, ok, some, get_elem?,
}
use from_scratch_inference_e.Sampler.Argmax.{argmax}
use from_scratch_inference_e.Sampler.Ordered.{beaten}
use from_scratch_inference_e.Sampler.Sample.{
  Arithmetic, SamplingParams, strict_weak, keep_of, sample,
}

module _ {ℓ} {F D R : Type ℓ} (A : Arithmetic F D) (lt : D → D → Bool) (uniform : R → D × R) where
  -- An index of the row whose logit has fewer than `keep` logits before it.
  abbrev pub Kept : List F → SamplingParams D → ℕ → Type ℓ
  Kept logits params t =
      (x : F) × (get_elem? logits t ≡ some x)
      × (beaten A.gt x logits < keep_of params.top_k (length logits))

  -- The answers for a row: at temperature zero or below the greedy choice without a draw; above it,
  -- where the sort is defined, one of the kept logits after one draw; and where it is not, nothing.
  abbrev pub Answers : R → List F → SamplingParams D → Type ℓ
  Answers rng logits params =
      ((A.at_most params.temperature A.nought ≡ true)
        × (sample A lt uniform rng logits params ≡ ok (argmax A.gt logits, rng))
        × (argmax A.gt logits < length logits))
      ⊎ ((A.at_most params.temperature A.nought ≡ false)
          × (((strict_weak A.gt logits ≡ true)
                × (t : ℕ) × (sample A lt uniform rng logits params ≡ ok (t, (uniform rng).1))
                × Kept logits params t)
              ⊎ ((strict_weak A.gt logits ≡ false)
                  × (sample A lt uniform rng logits params ≡ err undefined))))
