-- ===== src/Sampler/Sample.antt =====
-- include/engine/sampler.hpp and src/sampler/sampler.cpp, sample. The arithmetic of doubles and the
-- draws of the random engine are arguments. An index carries its logit.
use from_scratch_inference_e.Base.{
  ℕ, ◌+◌, ◌-◌, List, [], ◌∷◌, map, Bool, true, not, ◌&&◌, ◌||◌, ltb, ◌==◌, if◌then◌else◌, length,
  take, get_elem?, ℤ, pos, negsuc, Result, ok, err, ◌>>=◌, ◌>>◌, guard, or_fail, undefined,
  invalid_argument,
}
use from_scratch_inference_e.Sampler.Argmax.{argmax}

-- `wide` is the cast of a float to a double; `at_most` is <= on doubles.
pub record Arithmetic {ℓ} (F D : Type ℓ) : Type ℓ where
  pub gt : F → F → Bool
  pub wide : F → D
  pub nought : D
  pub one : D
  pub add : D → D → D
  pub minus : D → D → D
  pub times : D → D → D
  pub over : D → D → D
  pub exp : D → D
  pub at_most : D → D → Bool

pub record SamplingParams {ℓ} (D : Type ℓ) : Type ℓ where
  pub temperature : D
  pub top_k : ℤ
  pub top_p : D

unfoldable pub all {ℓ} : {A : Type ℓ} → (A → Bool) → List A → Bool
all test [] = true
all test (x ∷ xs) = test x && all test xs

module _ {ℓ} {F : Type ℓ} where
  unfoldable pub indexed : ℕ → List F → List (ℕ × F)
  indexed i [] = []
  indexed i (x ∷ xs) = (i, x) ∷ indexed (i + 1) xs

  -- What std::sort asks of a comparison: no two of the values come before each other, and what
  -- comes before another comes before it also with any third between them.
  unfoldable pub strict_weak : (F → F → Bool) → List F → Bool
  unfolding all
  strict_weak gt xs =
      all
        (λ x.
          all (λ y. not (gt x y && gt y x) && all (λ z. not (gt x z) || gt x y || gt y z) xs) xs)
        xs

  unfoldable pub insert : (F → F → Bool) → ℕ × F → List (ℕ × F) → List (ℕ × F)
  insert gt p [] = p ∷ []
  insert gt p (q ∷ qs) = if gt q.1 p.1 then q ∷ insert gt p qs else p ∷ q ∷ qs

  unfoldable pub insertion_sort : (F → F → Bool) → List (ℕ × F) → List (ℕ × F)
  unfolding insert
  insertion_sort gt [] = []
  insertion_sort gt (p ∷ ps) = insert gt p (insertion_sort gt ps)

  -- std::sort. It is undefined for a comparison that is no strict weak order of the values, which >
  -- is not where a NaN stands beside two numbers that differ. It leaves the order of equal logits
  -- open; here the earlier index comes first.
  unfoldable pub sort : (F → F → Bool) → List (ℕ × F) → Result (List (ℕ × F))
  unfolding strict_weak insertion_sort
  sort gt ps =
      if strict_weak gt (map (λ p. p.1) ps) then ok (insertion_sort gt ps) else err undefined

-- top_k where it is positive and below the vocabulary.
unfoldable pub keep_of : ℤ → ℕ → ℕ
keep_of (pos k) vocab = if ltb 0 k && ltb k vocab then k else vocab
keep_of (negsuc k) vocab = vocab

module _ {ℓ} {F D : Type ℓ} (A : Arithmetic F D) where
  unfoldable pub total : D → List D → D
  total acc [] = acc
  total acc (x ∷ xs) = total (A.add acc x) xs

  unfoldable pub weights : D → D → List (ℕ × F) → List D
  weights inv_temp max_logit [] = []
  weights inv_temp max_logit (p ∷ ps) =
      A.exp (A.minus (A.times (A.wide p.1) inv_temp) max_logit) ∷ weights inv_temp max_logit ps

  unfoldable pub scaled : D → List D → List D
  scaled sum [] = []
  scaled sum (x ∷ xs) = A.over x sum ∷ scaled sum xs

  -- Softmax over the kept logits, stabilised by the first of them.
  unfoldable pub softmax : D → List (ℕ × F) → List D
  unfolding weights scaled total
  softmax temperature [] = []
  softmax temperature (p ∷ ps) =
      let inv_temp = A.over A.one temperature in
      let es = weights inv_temp (A.times (A.wide p.1) inv_temp) (p ∷ ps) in
      scaled (total A.nought es) es

  -- The prefix whose cumulative probability reaches top_p, all where none does.
  unfoldable pub nucleus_loop : D → D → ℕ → List D → ℕ
  nucleus_loop top_p cumulative i [] = i
  nucleus_loop top_p cumulative i (x ∷ xs) =
      let sum = A.add cumulative x in
      if A.at_most top_p sum then i + 1 else nucleus_loop top_p sum (i + 1) xs

  -- `top_p < 1.0` is false where 1.0 <= top_p, and for a top_p that is not a number.
  unfoldable pub nucleus_of : (D → D → Bool) → D → List D → ℕ
  unfolding nucleus_loop
  nucleus_of lt top_p probs =
      if lt top_p A.one then nucleus_loop top_p A.nought 0 probs else length probs

  -- The loop over the nucleus; `none` of the indices is chosen where the loop ends.
  unfoldable pub pick : D → D → List (ℕ × F) → List D → ℕ → ℕ
  pick threshold cumulative [] probs fallback = fallback
  pick threshold cumulative (p ∷ ps) [] fallback = fallback
  pick threshold cumulative (p ∷ ps) (x ∷ xs) fallback =
      let sum = A.add cumulative x in
      if A.at_most threshold sum then p.0 else pick threshold sum ps xs fallback

module _ {ℓ} {F D R : Type ℓ} (A : Arithmetic F D) (lt : D → D → Bool) (uniform : R → D × R) where
  unfoldable pub sample_from : R → List (ℕ × F) → SamplingParams D → Result (ℕ × R)
  unfolding softmax nucleus_of pick total
  sample_from rng order params = do
    let kept = take (keep_of params.top_k (length order)) order
    let probs = softmax A params.temperature kept
    let nucleus = nucleus_of A lt params.top_p probs
    let u = uniform rng
    let threshold = A.times u.0 (total A A.nought (take nucleus probs))
    final ← or_fail undefined (get_elem? order (nucleus - 1))
    ok (pick A threshold A.nought (take nucleus order) (take nucleus probs) final.0, u.1)

  -- The logits of one row; the random engine is drawn from once above temperature zero.
  unfoldable pub sample : R → List F → SamplingParams D → Result (ℕ × R)
  unfolding sample_from sort indexed
  sample rng logits params = do
    guard (not (length logits == 0)) invalid_argument
    (if A.at_most params.temperature A.nought
        then ok (argmax A.gt logits, rng)
        else (do order ← sort A.gt (indexed 0 logits); sample_from rng order params))
