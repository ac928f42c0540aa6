-- ===== src/Speculative.antt =====
-- include/engine/speculative.hpp and src/engine/speculative.cpp: greedy decoding with a draft that
-- proposes and a target that verifies. The target's forward pass is a parameter here.
pub mod Causal
pub mod Round
pub mod Greedy
pub mod Tests
use from_scratch_inference_e.Base.{
  ℕ, zero, suc, ◌+◌, ◌-◌, ◌*◌, List, [], ◌∷◌, ◌++◌, Bool, true, false, not, ◌&&◌, ltb, ◌==◌,
  if◌then◌else◌, length, ℤ, pos, negsuc, Result, ok, err, ◌>>=◌, ◌>>◌, guard, invalid_argument,
  no_fuel,
}
use from_scratch_inference_e.Tensor.{Tensor, dim}
use from_scratch_inference_e.Tensor.Rows.{slice}
use from_scratch_inference_e.Sampler.Argmax.{argmax}

-- The tokens so far, the context, and whether the draft diverged.
pub record Progress : Type 0 where
  pub out : List ℕ
  pub ids : List ℕ
  pub rejected : Bool

-- lookahead < 1 counts as 1.
abbrev pub at_least_one : ℤ → ℕ
at_least_one (pos zero) = 1
at_least_one (pos (suc n)) = suc n
at_least_one (negsuc n) = 1

-- out.size() < max_tokens fails at once for a negative bound.
abbrev pub bound : ℤ → ℕ
bound (pos n) = n
bound (negsuc n) = 0

abbrev emit : ℕ → Progress → Progress
emit t p = record p { out = p.out ++ t ∷ []; ids = p.ids ++ t ∷ [] }

-- `lookahead` calls of the draft on the growing context.
unfoldable pub propose : (List ℕ → ℕ) → ℕ → List ℕ → List ℕ
propose draft zero context = []
propose draft (suc n) context = draft context ∷ propose draft n (context ++ draft context ∷ [])

module _ {ℓ} {F : Type ℓ} (gt : F → F → Bool) where
  unfoldable pub argmax_row : Tensor F → ℕ → Result ℕ
  argmax_row logits row = do
    vocab ← dim logits 1
    r ← slice logits.data_ (row * vocab) vocab
    ok (argmax gt r)

  -- The verification loop over the proposals that are left; `row` is base - 1 + j.
  unfoldable pub accept : ℕ → Tensor F → ℕ → List ℕ → Progress → Result Progress
  accept max_tokens logits row [] p = ok p
  accept max_tokens logits row (proposal ∷ rest) p =
      let step = argmax_row logits row >>= λ token.
      (let next = accept max_tokens logits (row + 1) rest (emit token p) in
        if token == proposal then next else ok (record (emit token p) { rejected = true })) in
      if ltb (length p.out) max_tokens then step else ok p

  -- The bonus token, where the whole proposal was accepted.
  unfoldable pub bonus : ℕ → Tensor F → ℕ → Progress → Result Progress
  bonus max_tokens logits row p =
      if not p.rejected && ltb (length p.out) max_tokens
      then (argmax_row logits row >>= λ token. ok (emit token p))
      else ok p

module _ {ℓ} {F : Type ℓ} (gt : F → F → Bool) (forward : List ℕ → Result (Tensor F)) where
  -- One turn of the while loop.
  unfoldable pub round : (List ℕ → ℕ) → ℕ → ℕ → List ℕ → List ℕ → Result Progress
  unfolding propose accept bonus
  round draft lookahead max_tokens out ids = do
    let proposed = propose draft lookahead ids
    logits ← forward (ids ++ proposed)
    let base = length ids
    p ←
        accept gt max_tokens logits (base - 1) proposed
          (record { out = out; ids = ids; rejected = false })
    bonus gt max_tokens logits (base - 1 + lookahead) p

  unfoldable pub decode : ℕ → (List ℕ → ℕ) → ℕ → ℕ → List ℕ → List ℕ → Result (List ℕ)
  decode zero draft lookahead max_tokens out ids = err no_fuel
  decode (suc fuel) draft lookahead max_tokens out ids =
      let more = round draft lookahead max_tokens out ids >>= λ p.
      decode fuel draft lookahead max_tokens p.out p.ids in
      if ltb (length out) max_tokens then more else ok out

  -- Every round emits a token, so that max_tokens rounds and the last test are enough fuel.
  unfoldable pub speculative_greedy : (List ℕ → ℕ) → List ℕ → ℤ → ℤ → Result (List ℕ)
  unfolding decode
  speculative_greedy draft prompt max_tokens lookahead = do
    guard (not (length prompt == 0)) invalid_argument
    decode (suc (bound max_tokens)) draft (at_least_one lookahead) (bound max_tokens) [] prompt
