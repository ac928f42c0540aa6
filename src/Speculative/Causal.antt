-- ===== src/Speculative/Causal.antt =====
-- What the decoding needs of the target, and the plain greedy decoding that it is held to.
use from_scratch_inference_e.Base.{
  ℕ, zero, suc, ◌+◌, ◌-◌, ◌*◌, ◌≤◌, ◌<◌, ◌≡◌, refl, subst, ap, ◌∙◌, List, [], ◌∷◌, ◌++◌, arith,
  Bool, length, All, take, drop, length-append, Result, ok, ◌>>=◌,
}
use from_scratch_inference_e.Tensor.{Tensor}
use from_scratch_inference_e.Tensor.Rows.{slice_in, length-slice}
use from_scratch_inference_e.Sampler.Argmax.{argmax, argmax-lt}
use from_scratch_inference_e.Speculative.{argmax_row}

-- Token ids below the vocabulary size.
abbrev pub InVocab : ℕ → List ℕ → Type 0
InVocab vocab = All (λ t. t < vocab)

-- Row `i` of a tensor with `vocab` columns.
abbrev pub row_of {ℓ} : {F : Type ℓ} → ℕ → Tensor F → ℕ → List F
row_of vocab t i = take vocab (drop (i * vocab) t.data_)

-- The logits of one forward pass: a row for each token.
pub record HasLogits {ℓ} {F : Type ℓ} (vocab rows : ℕ) (t : Tensor F) : Type ℓ where
  pub shape : t.shape ≡ rows ∷ vocab ∷ []
  pub size : length t.data_ ≡ rows * vocab

-- A decoder with causal attention: a forward pass over known tokens succeeds, and the row of a
-- position depends on the tokens up to it.
pub record IsCausal {ℓ} {F : Type ℓ} (forward : List ℕ → Result (Tensor F)) (vocab : ℕ)
    : Type ℓ where
  pub some_token : 0 < vocab
  pub total :
      (ids : List ℕ)
      → 0 < length ids
      → InVocab vocab ids
      → (t : Tensor F) × (forward ids ≡ ok t) × HasLogits vocab (length ids) t
  pub causal :
      (ids later : List ℕ) (t u : Tensor F)
      → forward ids ≡ ok t
      → forward (ids ++ later) ≡ ok u
      → (i : ℕ) → i < length ids
      → row_of vocab u i ≡ row_of vocab t i

module _ {ℓ} {F : Type ℓ} (gt : F → F → Bool) (forward : List ℕ → Result (Tensor F)) where
  -- The target's greedy choice after a context.
  unfoldable pub greedy_step : List ℕ → Result ℕ
  greedy_step ids = forward ids >>= λ logits. argmax_row gt logits (length ids - 1)

  -- Plain greedy decoding, one forward pass for each token.
  unfoldable pub greedy : ℕ → List ℕ → Result (List ℕ)
  greedy zero ids = ok []
  greedy (suc n) ids = greedy_step ids >>= λ t. greedy n (ids ++ t ∷ []) >>= λ rest. ok (t ∷ rest)

  module _ (vocab : ℕ) (laws : IsCausal forward vocab) where
    open laws use {some_token, total, causal}

    argmax_row-eq :
        (rows i : ℕ) (t : Tensor F)
        → HasLogits vocab rows t
        → i < rows
        → argmax_row gt t i ≡ ok (argmax gt (row_of vocab t i))
    unfolding argmax_row
    argmax_row-eq rows i t h lt =
        let fits : i * vocab + vocab ≤ length t.data_ = grind (arith, h.size) in
        rw h.shape (rw (slice_in t.data_ (i * vocab) vocab fits) refl)

    -- The step succeeds with a known token, and any longer pass has it at its row.
    pub greedy_step-eq :
        (ids later : List ℕ) (u : Tensor F) (i : ℕ)
        → i + 1 ≡ length ids
        → InVocab vocab ids
        → forward (ids ++ later) ≡ ok u
        → HasLogits vocab (length (ids ++ later)) u
        → (t : ℕ) × (greedy_step ids ≡ ok t) × (argmax_row gt u i ≡ ok t) × (t < vocab)
    unfolding greedy_step
    greedy_step-eq ids later u i at known e h =
        let (t, e', h') = total ids (omega arith) known in
        let lt : i < length ids = omega arith in
        let last : length ids - 1 ≡ i = omega arith in
        let lt' : i < length (ids ++ later) = omega (arith, length-append ids later) in
        let fits : i * vocab + vocab ≤ length t.data_ = grind (arith, h'.size) in
        (
          argmax gt (row_of vocab t i),
          rw (e', last) (argmax_row-eq (length ids) i t h' lt),
          argmax_row-eq (length (ids ++ later)) i u h lt'
              ∙ ap (λ r. ok (argmax gt r)) (causal ids later t u e' e i lt),
          subst (λ n. argmax gt (row_of vocab t i) < n)
              (length-slice t.data_ (i * vocab) vocab fits)
              (argmax-lt gt (row_of vocab t i)
                (omega (arith, length-slice t.data_ (i * vocab) vocab fits, some_token))),
        )
