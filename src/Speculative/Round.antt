-- ===== src/Speculative/Round.antt =====
-- One round of speculative decoding emits tokens of the target's greedy decoding.
use from_scratch_inference_e.Base.{
  ℕ, ◌+◌, ◌≤◌, ◌<◌, ◌≡◌, refl, sym, subst, ap, ◌∙◌, List, [], ◌∷◌, ◌++◌, arith, Bool, true, false,
  ltb, ◌==◌, length, All-append, length-append, Result, ok, append_assoc, append-nil, Bool-cases,
  inl, inr,
}
use from_scratch_inference_e.Tensor.{Tensor}
use from_scratch_inference_e.Speculative.{Progress, accept}
use from_scratch_inference_e.Speculative.Causal.{
  InVocab, HasLogits, IsCausal, greedy_step, greedy_step-eq,
}

abbrev pub at : List ℕ → List ℕ → Bool → Progress
at out ids rejected = record { out = out; ids = ids; rejected = rejected }

pub at-append :
    (out ids acc : List ℕ) (t : ℕ) (r : Bool)
    → at ((out ++ t ∷ []) ++ acc) ((ids ++ t ∷ []) ++ acc) r
      ≡ at (out ++ t ∷ acc) (ids ++ t ∷ acc) r
at-append out ids acc t r = cc (append_assoc out (t ∷ []) acc, append_assoc ids (t ∷ []) acc)

module _ {ℓ} {F : Type ℓ} (gt : F → F → Bool) (forward : List ℕ → Result (Tensor F)) (vocab : ℕ)
    (laws : IsCausal forward vocab) where
  -- Each token of `acc` is the target's greedy choice after what precedes it.
  abbrev pub Emits : List ℕ → List ℕ → Type ℓ
  Emits ids [] = Unit
  Emits ids (t ∷ acc) = (greedy_step gt forward ids ≡ ok t) × Emits (ids ++ t ∷ []) acc

  pub Emits-append : (ids a b : List ℕ) → Emits ids a → Emits (ids ++ a) b → Emits ids (a ++ b)
  Emits-append ids [] b p q = subst (λ x. Emits x b) (append-nil ids) q
  Emits-append ids (t ∷ a) b p q = (
    p.0,
    Emits-append (ids ++ t ∷ []) a b p.1
        (subst (λ x. Emits x b) (sym (append_assoc ids (t ∷ []) a)) q),
  )

  -- What the loop over the proposals `rest` appends.
  pub record Accepts (max : ℕ) (out ids rest acc : List ℕ) (rejected : Bool) : Type ℓ where
    pub emits : Emits ids acc
    pub known : InVocab vocab acc
    pub within : length out ≤ max → length out + length acc ≤ max
    pub progress : length out < max → 0 < length rest → 0 < length acc
    pub whole : rejected ≡ false → length out + length acc < max → acc ≡ rest

  Accepts-cons :
      (max : ℕ) (out ids rest acc : List ℕ) (t : ℕ) (r : Bool)
      → length out < max
      → greedy_step gt forward ids ≡ ok t
      → t < vocab
      → Accepts max (out ++ t ∷ []) (ids ++ t ∷ []) rest acc r
      → Accepts max out ids (t ∷ rest) (t ∷ acc) r
  Accepts-cons max out ids rest acc t r lt e known a =
      let len = length-append out (t ∷ []) in
      record {
        emits = (e, a.emits);
        known = (known, a.known);
        within = λ h. omega (arith, a.within (omega (arith, len)), len);
        progress = λ h k. omega arith;
        whole = λ h k. ap (◌∷◌ t) (a.whole h (omega (arith, len)));
      }

  Accepts-one :
      (max : ℕ) (out ids rest : List ℕ) (t p : ℕ)
      → length out < max
      → greedy_step gt forward ids ≡ ok t
      → t < vocab
      → Accepts max out ids (p ∷ rest) (t ∷ []) true
  Accepts-one max out ids rest t p lt e known = record {
    emits = (e, tt);
    known = (known, tt);
    within = λ h. omega arith;
    progress = λ h k. omega arith;
    whole = λ h. cc;
  }

  pub accept-Accepts :
      (max row : ℕ) (u : Tensor F) (rest out ids : List ℕ)
      → row + 1 ≡ length ids
      → InVocab vocab ids
      → forward (ids ++ rest) ≡ ok u
      → HasLogits vocab (length (ids ++ rest)) u
      → (acc : List ℕ) × (r : Bool) × (accept gt max u row rest (at out ids false)
          ≡ ok (at (out ++ acc) (ids ++ acc) r))
        × Accepts max out ids rest acc r
  unfolding accept
  accept-Accepts max row u [] out ids len known e h = (
    [],
    false,
    ap ok (cc (append-nil out, append-nil ids)),
    record {
      emits = tt;
      known = tt;
      within = λ k. omega arith;
      progress = λ k l. absurd (omega arith);
      whole = λ k l. refl;
    },
  )
  accept-Accepts max row u (p ∷ rest) out ids len known e h =
      let (t, step, argmax, lt) =
        greedy_step-eq gt forward vocab laws ids (p ∷ rest) u row len known e h in
      elim (Bool-cases (ltb (length out) max)) [
        | inr full ↦ (
          [],
          false,
          rw full (ap ok (cc (append-nil out, append-nil ids))),
          record {
            emits = tt;
            known = tt;
            within = λ k. omega arith;
            progress = λ k l. absurd (ground arith);
            whole = λ k l. absurd (ground arith);
          },
        )
        | inl room ↦ elim (Bool-cases (t == p)) [
          | inr miss ↦ (
            t ∷ [],
            true,
            rw (room, argmax, miss) refl,
            Accepts-one max out ids rest t p (ground arith) step lt,
          )
          | inl hit ↦
              let same : t ≡ p = ground arith in
              let full : (ids ++ t ∷ []) ++ rest ≡ ids ++ p ∷ rest =
                append_assoc ids (t ∷ []) rest ∙ ap (λ x. ids ++ x ∷ rest) same in
              let (acc, r, e', a) =
                accept-Accepts max (row + 1) u rest (out ++ t ∷ []) (ids ++ t ∷ [])
                  (omega (arith, length-append ids (t ∷ [])))
                  (All-append (λ x. x < vocab) ids (t ∷ []) known (lt, tt))
                  (subst (λ x. forward x ≡ ok u) (sym full) e)
                  (subst (λ x. HasLogits vocab (length x) u) (sym full) h) in
              (
                t ∷ acc,
                r,
                rw (room, argmax, hit) (e' ∙ ap ok (at-append out ids acc t r)),
                subst (λ x. Accepts max out ids (x ∷ rest) (t ∷ acc) r) same
                    (Accepts-cons max out ids rest acc t r (ground arith) step lt a),
              )
        ]
      ]
