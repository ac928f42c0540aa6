-- ===== src/Sampler/Bounds.antt =====
-- How many logits the sampler keeps, and how many of these are in the nucleus.
use from_scratch_inference_e.Base.{
  ℕ, suc, ◌+◌, ◌≤◌, ◌<◌, ◌≡◌, refl, ap, ◌∙◌, List, [], ◌∷◌, arith, Bool, length, ℤ, pos, negsuc,
  Bool-cases, inl, inr,
}
use from_scratch_inference_e.Sampler.Sample.{
  Arithmetic, keep_of, total, weights, scaled, softmax, nucleus_loop, nucleus_of,
}

pub keep_of-bounds : (k : ℤ) (n : ℕ) → 0 < n → (0 < keep_of k n) × (keep_of k n ≤ n)
unfolding keep_of
keep_of-bounds (pos k) n h = (ground arith, ground arith)
keep_of-bounds (negsuc k) n h = (omega arith, omega arith)

module _ {ℓ} {F D : Type ℓ} (A : Arithmetic F D) where
  length-scaled : (sum : D) (xs : List D) → length (scaled A sum xs) ≡ length xs
  unfolding scaled
  length-scaled sum [] = refl
  length-scaled sum (x ∷ xs) = ap suc (length-scaled sum xs)

  length-weights : (t m : D) (ps : List (ℕ × F)) → length (weights A t m ps) ≡ length ps
  unfolding weights
  length-weights t m [] = refl
  length-weights t m (p ∷ ps) = ap suc (length-weights t m ps)

  pub length-softmax : (t : D) (ps : List (ℕ × F)) → length (softmax A t ps) ≡ length ps
  unfolding softmax
  length-softmax t [] = refl
  length-softmax t (p ∷ ps) =
      let inv = A.over A.one t in
      let es = weights A inv (A.times (A.wide p.1) inv) (p ∷ ps) in
      length-scaled (total A A.nought es) es
      ∙ length-weights inv (A.times (A.wide p.1) inv) (p ∷ ps)

  -- The nucleus is not empty and keeps to the probabilities.
  nucleus_loop-bounds :
      (top_p c : D) (i : ℕ) (xs : List D)
      → 0 < i + length xs
      → (0 < nucleus_loop A top_p c i xs) × (nucleus_loop A top_p c i xs ≤ i + length xs)
  unfolding nucleus_loop
  nucleus_loop-bounds top_p c i [] h = (omega arith, omega arith)
  nucleus_loop-bounds top_p c i (x ∷ xs) h =
      let rec = nucleus_loop-bounds top_p (A.add c x) (i + 1) xs (omega arith) in
      elim (Bool-cases (A.at_most top_p (A.add c x))) [
        | inl stop ↦ rw stop (omega arith, omega arith)
        | inr on ↦ rw on (rec.0, omega (arith, rec.1))
      ]

  pub nucleus_of-bounds :
      (lt : D → D → Bool) (top_p : D) (probs : List D)
      → 0 < length probs
      → (0 < nucleus_of A lt top_p probs) × (nucleus_of A lt top_p probs ≤ length probs)
  unfolding nucleus_of
  nucleus_of-bounds lt top_p probs h =
      let rec = nucleus_loop-bounds top_p A.nought 0 probs (omega arith) in
      elim (Bool-cases (lt top_p A.one)) [
        | inl cut ↦ rw cut (rec.0, omega (arith, rec.1))
        | inr all ↦ rw all (h, omega arith)
      ]
