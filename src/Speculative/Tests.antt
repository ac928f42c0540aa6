-- ===== src/Speculative/Tests.antt =====
-- A target over three tokens that counts upwards, and runs of the decoding.
use from_scratch_inference_e.Base.{
  ℕ, zero, suc, ◌+◌, ◌*◌, ◌%◌, ◌<◌, ◌≡◌, refl, subst, List, [], ◌∷◌, ◌++◌, arith, Bool, ltb, ◌==◌,
  if◌then◌else◌, length, take, drop, pos, Result, ok, err, invalid_argument,
}
use from_scratch_inference_e.Tensor.{Tensor}
use from_scratch_inference_e.Tensor.Rows.{slice}
use from_scratch_inference_e.Sampler.Argmax.{argmax}
use from_scratch_inference_e.Speculative.{speculative_greedy, round, argmax_row}
use from_scratch_inference_e.Speculative.Causal.{IsCausal, greedy}
use from_scratch_inference_e.Speculative.Greedy.{speculative_greedy-eq-greedy}

abbrev after : ℕ → ℕ → ℕ
after t j = if (t + 1) % 3 == j then 1 else 0

abbrev scores : List ℕ → List ℕ
scores [] = []
scores (t ∷ ts) = after t 0 ∷ after t 1 ∷ after t 2 ∷ scores ts

abbrev counting : List ℕ → Result (Tensor ℕ)
counting ids = ok (record { shape = length ids ∷ 3 ∷ []; data_ = scores ids })

abbrev more : ℕ → ℕ → Bool
more a b = ltb b a

length-scores : (ids : List ℕ) → length (scores ids) ≡ length ids * 3
length-scores [] = refl
length-scores (t ∷ ts) = omega (arith, length-scores ts)

row-scores :
    (ids later : List ℕ) (i : ℕ)
    → i < length ids
    → take 3 (drop (i * 3) (scores (ids ++ later))) ≡ take 3 (drop (i * 3) (scores ids))
row-scores [] later i h = elim h [ ]
row-scores (t ∷ ts) later zero h = refl
row-scores (t ∷ ts) later (suc i) h =
    let e : suc i * 3 ≡ suc (suc (suc (i * 3))) = omega arith in
    rw e (row-scores ts later i (omega arith))

scores_of : (ids : List ℕ) {t : Tensor ℕ} → counting ids ≡ ok t → scores ids ≡ t.data_
scores_of ids e = cc

counting-IsCausal : IsCausal counting 3
counting-IsCausal = record {
  some_token = omega arith;
  total = λ ids some known. (
    record { shape = length ids ∷ 3 ∷ []; data_ = scores ids },
    refl,
    record { shape = refl; size = length-scores ids },
  );
  causal = λ ids later t u e e' i h.
      subst (λ x. take 3 (drop (i * 3) u.data_) ≡ take 3 (drop (i * 3) x)) (scores_of ids e)
        (subst (λ x. take 3 (drop (i * 3) x) ≡ take 3 (drop (i * 3) (scores ids)))
          (scores_of (ids ++ later) e') (row-scores ids later i h));
}

-- A draft that is right after 0 only.
abbrev half_right : List ℕ → ℕ
half_right [] = 1
half_right (t ∷ ts) = 1

half_right-lt : (context : List ℕ) → half_right context < 3
half_right-lt [] = omega arith
half_right-lt (t ∷ ts) = omega arith

runs :
    speculative_greedy more counting half_right (0 ∷ []) (pos 5) (pos 2)
    ≡ ok (1 ∷ 2 ∷ 0 ∷ 1 ∷ 2 ∷ [])
unfolding speculative_greedy round argmax_row slice argmax
runs = refl

refuses_empty :
    speculative_greedy more counting half_right [] (pos 5) (pos 2) ≡ err invalid_argument
unfolding speculative_greedy
refuses_empty = refl

speculative_greedy-eq-greedy_example :
    (out : List ℕ) × (speculative_greedy more counting half_right (0 ∷ []) (pos 5) (pos 2) ≡ ok out)
    × (greedy more counting 5 (0 ∷ []) ≡ ok out)
    × (length out ≡ 5)
speculative_greedy-eq-greedy_example =
    speculative_greedy-eq-greedy more counting 3 counting-IsCausal half_right (0 ∷ []) (pos 5)
      (pos 2) half_right-lt (omega arith) (omega arith)
