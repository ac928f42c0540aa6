-- ===== src/Speculative/Greedy.antt =====
-- Speculative decoding gives the tokens of plain greedy decoding, whatever the draft proposes.
use from_scratch_inference_e.Base.{
  ℕ, zero, suc, ◌+◌, ◌-◌, ◌≤◌, ◌<◌, ◌≡◌, refl, sym, subst, ap, ◌∙◌, List, [], ◌∷◌, ◌++◌, arith,
  Bool, true, not, ◌&&◌, ltb, ◌==◌, length, All-append, length-append, Result, ok, append_assoc,
  append-nil, Bool-cases, inl, inr, ℤ, pos, negsuc,
}
use from_scratch_inference_e.Tensor.{Tensor}
use from_scratch_inference_e.Speculative.{
  propose, bonus, round, decode, speculative_greedy, bound, at_least_one,
}
use from_scratch_inference_e.Speculative.Causal.{
  InVocab, HasLogits, IsCausal, greedy_step, greedy_step-eq, greedy,
}
use from_scratch_inference_e.Speculative.Round.{at, Emits, Emits-append, Accepts, accept-Accepts}

length-propose :
    (draft : List ℕ → ℕ) (n : ℕ) (context : List ℕ) → length (propose draft n context) ≡ n
unfolding propose
length-propose draft zero context = refl
length-propose draft (suc n) context =
    ap suc (length-propose draft n (context ++ draft context ∷ []))

propose-InVocab :
    (vocab : ℕ) (draft : List ℕ → ℕ)
    → ((context : List ℕ) → draft context < vocab)
    → (n : ℕ) (context : List ℕ) → InVocab vocab (propose draft n context)
unfolding propose
propose-InVocab vocab draft known zero context = tt
propose-InVocab vocab draft known (suc n) context =
    (known context, propose-InVocab vocab draft known n (context ++ draft context ∷ []))

at_least_one-pos : (z : ℤ) → 0 < at_least_one z
at_least_one-pos (pos zero) = omega arith
at_least_one-pos (pos (suc n)) = omega arith
at_least_one-pos (negsuc n) = omega arith

module _ {ℓ} {F : Type ℓ} (gt : F → F → Bool) (forward : List ℕ → Result (Tensor F)) (vocab : ℕ)
    (laws : IsCausal forward vocab) where
  open laws use {total}

  -- What a round appends.
  record Emitted (max : ℕ) (out ids acc : List ℕ) : Type ℓ where
    emits : Emits gt forward vocab laws ids acc
    known : InVocab vocab acc
    within : length out + length acc ≤ max
    progress : 0 < length acc

  bonus-Emitted :
      (max row : ℕ) (u : Tensor F) (out ids rest acc : List ℕ) (r : Bool)
      → row + 1 ≡ length (ids ++ rest)
      → 0 < length rest
      → length out < max
      → InVocab vocab (ids ++ rest)
      → forward (ids ++ rest) ≡ ok u
      → HasLogits vocab (length (ids ++ rest)) u
      → Accepts gt forward vocab laws max out ids rest acc r
      → (acc' : List ℕ) × (r' : Bool) × (bonus gt max u row (at (out ++ acc) (ids ++ acc) r)
          ≡ ok (at (out ++ acc') (ids ++ acc') r'))
        × Emitted max out ids acc'
  unfolding bonus
  bonus-Emitted max row u out ids rest acc r len some lt known e h a =
      elim (Bool-cases (not r && ltb (length (out ++ acc)) max)) [
        | inr stop ↦ (
          acc,
          r,
          rw stop refl,
          record {
            emits = a.emits;
            known = a.known;
            within = a.within (omega arith);
            progress = a.progress lt some;
          },
        )
        | inl go ↦
            let room : length out + length acc < max = ground (arith, length-append out acc) in
            let all : acc ≡ rest = a.whole (ground arith) room in
            let nothing : (ids ++ rest) ++ [] ≡ ids ++ rest = append-nil (ids ++ rest) in
            let (t, step, argmax, small) =
              greedy_step-eq gt forward vocab laws (ids ++ rest) [] u row len known
                (subst (λ x. forward x ≡ ok u) (sym nothing) e)
                (subst (λ x. HasLogits vocab (length x) u) (sym nothing) h) in
            (
              acc ++ t ∷ [],
              r,
              rw (go, argmax)
                  (ap ok (cc (append_assoc out acc (t ∷ []), append_assoc ids acc (t ∷ [])))),
              record {
                emits =
                    Emits-append gt forward vocab laws ids acc (t ∷ []) a.emits
                      (subst (λ x. greedy_step gt forward (ids ++ x) ≡ ok t) (sym all) step, tt);
                known = All-append (λ x. x < vocab) acc (t ∷ []) a.known (small, tt);
                within = omega (arith, length-append acc (t ∷ []));
                progress = omega (arith, length-append acc (t ∷ []));
              },
            )
      ]

  module _ (draft : List ℕ → ℕ) (drafted : (context : List ℕ) → draft context < vocab) where
    round-Emitted :
        (k max : ℕ) (out ids : List ℕ)
        → 0 < k
        → length out < max
        → 0 < length ids
        → InVocab vocab ids
        → (acc : List ℕ) × (r : Bool) × (round gt forward draft k max out ids
            ≡ ok (at (out ++ acc) (ids ++ acc) r))
          × Emitted max out ids acc
    unfolding round
    round-Emitted k max out ids kpos lt some known =
        let rest = propose draft k ids in
        let known' =
          All-append (λ x. x < vocab) ids rest known (propose-InVocab vocab draft drafted k ids) in
        let len = length-append ids rest in
        let size = length-propose draft k ids in
        let (u, e, h) = total (ids ++ rest) (omega arith) known' in
        let (acc, r, e1, a) =
          accept-Accepts gt forward vocab laws max (length ids - 1) u rest out ids (omega arith)
            known e h in
        let (acc', r', e2, b) =
          bonus-Emitted max (length ids - 1 + k) u out ids rest acc r (omega arith) (omega arith) lt
            known' e h a in
        (acc', r', rw (e, e1) e2, b)

    decode-Emits :
        (fuel k max : ℕ) (out ids : List ℕ)
        → 0 < k
        → length out ≤ max
        → max < fuel + length out
        → 0 < length ids
        → InVocab vocab ids
        → (acc : List ℕ) × (decode gt forward fuel draft k max out ids ≡ ok (out ++ acc))
          × Emits gt forward vocab laws ids acc
          × (length out + length acc ≡ max)
    unfolding decode
    decode-Emits zero k max out ids kpos le fuel some known = absurd (omega arith)
    decode-Emits (suc n) k max out ids kpos le fuel some known =
        elim (Bool-cases (ltb (length out) max)) [
          | inr done ↦ ([], rw done (ap ok (sym (append-nil out))), tt, ground arith)
          | inl more ↦
              let (acc, r, e, b) = round-Emitted k max out ids kpos (ground arith) some known in
              let (acc', e', b', total') =
                decode-Emits n k max (out ++ acc) (ids ++ acc) kpos
                  (omega (arith, length-append out acc, b.within))
                  (omega (arith, length-append out acc, b.progress))
                  (omega (arith, length-append ids acc))
                  (All-append (λ x. x < vocab) ids acc known b.known) in
              (
                acc ++ acc',
                rw (more, e) (e' ∙ ap ok (append_assoc out acc acc')),
                Emits-append gt forward vocab laws ids acc acc' b.emits b',
                omega (arith, length-append out acc, length-append acc acc'),
              )
        ]

  Emits-greedy :
      (acc ids : List ℕ)
      → Emits gt forward vocab laws ids acc
      → greedy gt forward (length acc) ids ≡ ok acc
  unfolding greedy
  Emits-greedy [] ids h = refl
  Emits-greedy (t ∷ acc) ids h = rw h.0 (rw (Emits-greedy acc (ids ++ t ∷ []) h.1) refl)

  -- For a target with causal attention, any draft over the vocabulary and any lookahead, speculative
  -- decoding of a prompt over the vocabulary that is not empty ends, with exactly `max_tokens` tokens (none
  -- for a negative bound), and they are those of plain greedy decoding.
  pub speculative_greedy-eq-greedy :
      (draft : List ℕ → ℕ) (prompt : List ℕ) (max_tokens lookahead : ℤ)
      → ((context : List ℕ) → draft context < vocab)
      → 0 < length prompt
      → InVocab vocab prompt
      → (out : List ℕ) × (speculative_greedy gt forward draft prompt max_tokens lookahead ≡ ok out)
        × (greedy gt forward (bound max_tokens) prompt ≡ ok out)
        × (length out ≡ bound max_tokens)
  unfolding speculative_greedy
  speculative_greedy-eq-greedy draft prompt max_tokens lookahead drafted some known =
      let (out, e, h, len) =
        decode-Emits draft drafted (suc (bound max_tokens)) (at_least_one lookahead)
          (bound max_tokens) [] prompt (at_least_one-pos lookahead) (omega arith) (omega arith) some
          known in
      let nonempty : not (length prompt == 0) ≡ true = ground arith in
      let size : length out ≡ bound max_tokens = omega arith in
      (
        out,
        rw nonempty e,
        subst (λ n. greedy gt forward n prompt ≡ ok out) size (Emits-greedy out prompt h),
        size,
      )
