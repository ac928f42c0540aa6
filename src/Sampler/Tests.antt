-- ===== src/Sampler/Tests.antt =====
-- Three scores, and a draw among the best two.
use from_scratch_inference_e.Base.{
  ℕ, ◌+◌, ◌-◌, ◌*◌, ◌/◌, ◌≡◌, refl, true, [], ◌∷◌, ltb, leb, pos, not, ◌&&◌, ◌==◌, err, undefined,
}
use from_scratch_inference_e.Sampler.Sample.{Arithmetic, SamplingParams, sample, sort, strict_weak}

-- Natural numbers for floats and doubles, and 7 for every draw.
abbrev whole : Arithmetic ℕ ℕ
whole = record {
  gt = λ a b. ltb b a;
  wide = λ a. a;
  nought = 0;
  one = 1;
  add = λ a b. a + b;
  minus = λ a b. a - b;
  times = λ a b. a * b;
  over = λ a b. a / b;
  exp = λ a. a + 1;
  at_most = leb;
}

abbrev seven : ℕ → ℕ × ℕ
seven seed = (7, seed + 1)

abbrev top_two : SamplingParams ℕ
top_two = record { temperature = 1; top_k = pos 2; top_p = 1 }

-- 0 stands for a NaN, which compares with nothing: a 0 between 1 and 2 leaves the sort undefined, a
-- 0 beside one number alone does not.
abbrev with_nan : Arithmetic ℕ ℕ
with_nan = record whole { gt = λ a b. not (a == 0) && not (b == 0) && ltb b a }

nan_between : sample with_nan ltb seven 5 (2 ∷ 0 ∷ 1 ∷ []) top_two ≡ err undefined
unfolding sample sort
nan_between = refl

nan_alone : strict_weak with_nan.gt (2 ∷ 0 ∷ []) ≡ true
unfolding strict_weak
nan_alone = refl
