-- ===== src/Weights/Formats/Normalize.antt =====
-- The loop that normalises the mantissa of a half, and the fields of a 32-bit pattern.
use native.Mathlib.Nat.{add-zero, pow-suc, pow-succ', mul_assoc}
use native.Mathlib.Decide.{dec_lt}
use from_scratch_inference_e.Base.{
  ℕ, zero, suc, ◌+◌, ◌-◌, ◌*◌, ◌/◌, ◌%◌, ◌^◌, ◌≤◌, ◌<◌, ◌≡◌, refl, sym, ap, ◌∙◌, arith, ◌==◌,
  ==_of_ne, true, false, ==_iff, ok,
}
use from_scratch_inference_e.Weights.Formats.{normalize, pattern32}

low : (mant : ℕ) → mant < 1024 → (mant / 1024 % 2 == 0) ≡ true
low mant h = (==_iff (mant / 1024 % 2) 0).1 (omega arith)

high : (mant : ℕ) → 1024 ≤ mant → mant < 2048 → (mant / 1024 % 2 == 0) ≡ false
high mant h h' = ==_of_ne (mant / 1024 % 2) 0 (λ e. absurd (omega (arith, e)))

normalize-step :
    (fuel mant e : ℕ)
    → mant < 1024
    → normalize (suc fuel) mant e ≡ normalize fuel (mant * 2) (e - 1)
unfolding normalize
normalize-step fuel mant e lt =
    let clear : (mant / 1024 % 2 == 0) ≡ true = low mant lt in
    let whole : mant * 2 % 2 ^ 32 ≡ mant * 2 = omega arith in
    rw (clear) (ap (λ n. normalize fuel n (e - 1)) whole)

pub pow_add : (a b : ℕ) → 2 ^ (a + b) ≡ 2 ^ a * 2 ^ b
pow_add a zero = omega (arith, ap (λ n. 2 ^ n) (add-zero a))
pow_add a (suc b) =
    let moved : a + suc b ≡ suc (a + b) = omega arith in
    ap (λ n. 2 ^ n) moved
    ∙ (pow-suc 2 (a + b)
        ∙ (ap (λ n. n * 2) (pow_add a b)
            ∙ (mul_assoc (2 ^ a) (2 ^ b) 2 ∙ ap (λ n. 2 ^ a * n) (sym (pow-suc 2 b)))))

-- A mantissa that is not zero gets its leading bit, and mant * 2 ^ e stays the same.
pub normalize-value :
    (fuel mant e : ℕ)
    → 0 < mant
    → mant < 2048
    → 1024 ≤ mant * 2 ^ fuel
    → fuel < e
    → (mant' : ℕ) × (e' : ℕ) × (normalize fuel mant e ≡ ok (mant', e'))
      × (1024 ≤ mant')
      × (mant' < 2048)
      × (0 < e')
      × (e' ≤ e)
      × (mant' * 2 ^ e' ≡ mant * 2 ^ e)
unfolding normalize
normalize-value zero mant e pos small enough room =
    let top : (mant / 1024 % 2 == 0) ≡ false = high mant (omega arith) small in
    (mant, e, rw (top) refl, omega arith, small, room, omega arith, refl)
normalize-value (suc fuel) mant e pos small enough room = elim (dec_lt mant 1024) [
  | yes lt ↦
      let doubled : mant * 2 * 2 ^ fuel ≡ mant * 2 ^ suc fuel =
        mul_assoc mant 2 (2 ^ fuel) ∙ ap (λ n. mant * n) (sym (pow-succ' 2 fuel)) in
      let halved : mant * 2 * 2 ^ (e - 1) ≡ mant * 2 ^ e =
        mul_assoc mant 2 (2 ^ (e - 1))
        ∙ (ap (λ n. mant * n) (sym (pow-succ' 2 (e - 1))) ∙ ap (λ n. mant * 2 ^ n) (omega arith)) in
      let (mant', e', eq, big, small', pos', below, same) =
        normalize-value fuel (mant * 2) (e - 1) (omega arith) (omega arith) (omega (arith, doubled))
          (omega arith) in
      (mant', e', normalize-step fuel mant e lt ∙ eq, big, small', pos', omega arith, same ∙ halved)
  | no ge ↦
      let top : (mant / 1024 % 2 == 0) ≡ false = high mant (omega arith) small in
      (mant, e, rw (top) refl, omega arith, small, omega arith, omega arith, refl)
]

pub pattern32-sign : (s e m : ℕ) → s < 2 → e < 256 → m < 2 ^ 23 → pattern32 s e m / 2 ^ 31 ≡ s
pattern32-sign s e m hs he hm = omega arith

pub pattern32-exponent :
    (s e m : ℕ) → s < 2 → e < 256 → m < 2 ^ 23 → pattern32 s e m / 2 ^ 23 % 256 ≡ e
pattern32-exponent s e m hs he hm = omega arith

pub pattern32-mantissa : (s e m : ℕ) → s < 2 → e < 256 → m < 2 ^ 23 → pattern32 s e m % 2 ^ 23 ≡ m
pattern32-mantissa s e m hs he hm = omega arith

pub positive : (n : ℕ) → (n == 0) ≡ false → 0 < n
positive n h = ground arith
