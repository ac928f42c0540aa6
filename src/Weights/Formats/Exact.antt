-- ===== src/Weights/Formats/Exact.antt =====
-- The conversion of half precision to single precision, against the values of the two formats.
use native.Mathlib.Nat.{pow-suc}
use native.Mathlib.Decide.{ℕ_discrete}
use mathlib.Core.Bool.{true≢false}
use from_scratch_inference_e.Base.{
  ℕ, ◌+◌, ◌-◌, ◌*◌, ◌/◌, ◌%◌, ◌^◌, ◌≤◌, ◌<◌, ◌≡◌, ◌≢◌, refl, sym, ap, ◌∙◌, arith, ◌==◌, ==_of_ne,
  true, false, ==_iff, inl, inr, Bool-cases, if◌then◌else◌, ok,
}
use from_scratch_inference_e.Weights.Formats.{f16_bits, pattern32}
use from_scratch_inference_e.Weights.Formats.Normalize.{
  normalize-value, pow_add, pattern32-sign, pattern32-exponent, pattern32-mantissa, positive,
}

-- The absolute value of a finite half, in units of 2 ^ -24.
pub magnitude16 : ℕ → ℕ
magnitude16 bits =
    if bits / 2 ^ 10 % 32 == 0
    then bits % 2 ^ 10
    else (2 ^ 10 + bits % 2 ^ 10) * 2 ^ (bits / 2 ^ 10 % 32 - 1)

-- The absolute value of a finite float, in units of 2 ^ -149.
pub magnitude32 : ℕ → ℕ
magnitude32 bits =
    if bits / 2 ^ 23 % 256 == 0
    then bits % 2 ^ 23
    else (2 ^ 23 + bits % 2 ^ 23) * 2 ^ (bits / 2 ^ 23 % 256 - 1)

regroup : (a b : ℕ) → a * 2 ^ 13 * (b * 2 ^ 112) ≡ a * b * 2 ^ 125
regroup a b = grind arith

regroup_low : (a b : ℕ) → a * 2 ^ 13 * b ≡ a * (b * 2) * 2 ^ 12
regroup_low a b = grind arith

module _ (bits : ℕ) (short : bits < 2 ^ 16) where
  abbrev exponent16 : ℕ
  exponent16 = bits / 2 ^ 10 % 32

  -- What the pattern of a float has to be for it to have the value of the half.
  record Represents (p : ℕ) : Type 0 where
    width : p < 2 ^ 32
    sign : p / 2 ^ 31 ≡ bits / 2 ^ 15
    value : magnitude32 p ≡ magnitude16 bits * 2 ^ 125

  built :
      (e m : ℕ)
      → e < 256
      → m < 2 ^ 23
      → (e ≢ 0 → (2 ^ 23 + m) * 2 ^ (e - 1) ≡ magnitude16 bits * 2 ^ 125)
      → (e ≡ 0 → m ≡ magnitude16 bits * 2 ^ 125)
      → Represents (pattern32 (bits / 2 ^ 15 % 2) e m)
  unfolding magnitude32
  built e m he hm normal subnormal =
      let s = bits / 2 ^ 15 % 2 in
      record {
        width = omega arith;
        sign = pattern32-sign s e m (omega arith) he hm ∙ omega arith;
        value =
            rw
              (
                pattern32-exponent s e m (omega arith) he hm,
                pattern32-mantissa s e m (omega arith) he hm,
              )
              (elim (Bool-cases (e == 0)) [
                | inl z ↦ rw (z) (subnormal ((==_iff e 0).0 z))
                | inr z ↦
                    rw (z) (normal (λ same. absurd (true≢false ((sym ((==_iff e 0).1 same)) ∙ z))))
              ]);
      }

  scaled_normal :
      exponent16 ≢ 0
      → (2 ^ 23 + bits % 2 ^ 10 * 2 ^ 13) * 2 ^ (exponent16 + (127 - 15) - 1)
        ≡ magnitude16 bits * 2 ^ 125
  unfolding magnitude16
  scaled_normal nonzero =
      let field : (exponent16 == 0) ≡ false = ==_of_ne exponent16 0 nonzero in
      let e : exponent16 + (127 - 15) - 1 ≡ exponent16 - 1 + 112 = omega (arith, nonzero) in
      let split : 2 ^ (exponent16 - 1 + 112) ≡ 2 ^ (exponent16 - 1) * 2 ^ 112 =
        pow_add (exponent16 - 1) 112 in
      let lead : 2 ^ 23 + bits % 2 ^ 10 * 2 ^ 13 ≡ (2 ^ 10 + bits % 2 ^ 10) * 2 ^ 13 =
        omega arith in
      rw (field, e, split, lead) (regroup (2 ^ 10 + bits % 2 ^ 10) (2 ^ (exponent16 - 1)))

  nothing : exponent16 ≡ 0 → (bits % 2 ^ 10 == 0) ≡ true → 0 ≡ magnitude16 bits * 2 ^ 125
  unfolding magnitude16
  nothing z none_set =
      let field : (exponent16 == 0) ≡ true = (==_iff exponent16 0).1 z in
      let empty : bits % 2 ^ 10 ≡ 0 = (==_iff (bits % 2 ^ 10) 0).0 none_set in
      rw (field) (omega (arith, empty))

  -- A leading bit in place, and the exponent of the normalised mantissa.
  scaled_subnormal :
      (mant e : ℕ)
      → exponent16 ≡ 0
      → 1024 ≤ mant
      → mant < 2048
      → 0 < e
      → mant * 2 ^ e ≡ bits % 2 ^ 10 * 2 ^ 113
      → (2 ^ 23 + mant % 2 ^ 10 * 2 ^ 13) * 2 ^ (e - 1) ≡ magnitude16 bits * 2 ^ 125
  unfolding magnitude16
  scaled_subnormal mant e z big small pos same =
      let field : (exponent16 == 0) ≡ true = (==_iff exponent16 0).1 z in
      let lead : 2 ^ 23 + mant % 2 ^ 10 * 2 ^ 13 ≡ mant * 2 ^ 13 = omega arith in
      let raised : 2 ^ (e - 1) * 2 ≡ 2 ^ e =
        sym (pow-suc 2 (e - 1)) ∙ ap (λ n. 2 ^ n) (omega arith) in
      rw (field, lead)
        (regroup_low mant (2 ^ (e - 1))
          ∙ (ap (λ n. mant * n * 2 ^ 12) raised ∙ omega (arith, same)))

  f16_bits-Represents : exponent16 ≢ 31 → (p : ℕ) × (f16_bits bits ≡ ok p) × Represents p
  unfolding f16_bits
  f16_bits-Represents finite = elim (Bool-cases (exponent16 == 0)) [
    | inl z ↦
        let z' : exponent16 ≡ 0 = (==_iff exponent16 0).0 z in
        elim (Bool-cases (bits % 2 ^ 10 == 0)) [
          | inl none_set ↦ (
            pattern32 (bits / 2 ^ 15 % 2) 0 0,
            rw (z, none_set) refl,
            built 0 0 (omega arith) (omega arith) (λ ne. absurd (ne refl))
                (λ _. nothing z' none_set),
          )
          | inr set ↦
              let some_bit : 0 < bits % 2 ^ 10 = positive (bits % 2 ^ 10) set in
              let (mant, e, eq, big, small, pos', below, same) =
                normalize-value 10 (bits % 2 ^ 10) 113 some_bit (omega arith) (omega arith)
                  (omega arith) in
              (
                pattern32 (bits / 2 ^ 15 % 2) e (mant % 2 ^ 10 * 2 ^ 13),
                rw (z, set, eq) refl,
                built e (mant % 2 ^ 10 * 2 ^ 13) (omega arith) (omega arith)
                    (λ _. scaled_subnormal mant e z' big small pos' same)
                    (λ zero_e. absurd (omega (arith, zero_e))),
              )
        ]
    | inr nz ↦
        let ne : exponent16 ≢ 0 = λ e. absurd (true≢false (sym ((==_iff exponent16 0).1 e) ∙ nz)) in
        (
          pattern32 (bits / 2 ^ 15 % 2) (exponent16 + (127 - 15)) (bits % 2 ^ 10 * 2 ^ 13),
          rw (nz, ==_of_ne exponent16 31 finite) refl,
          built (exponent16 + (127 - 15)) (bits % 2 ^ 10 * 2 ^ 13) (omega (arith, finite))
              (omega arith) (λ _. scaled_normal ne) (λ e. absurd (omega (arith, e))),
        )
  ]

  f16_bits-special :
      exponent16 ≡ 31
      → (p : ℕ) × (f16_bits bits ≡ ok p)
        × (p < 2 ^ 32)
        × (p / 2 ^ 31 ≡ bits / 2 ^ 15)
        × (p / 2 ^ 23 % 256 ≡ 255)
        × (p % 2 ^ 23 ≡ bits % 2 ^ 10 * 2 ^ 13)
  unfolding f16_bits
  f16_bits-special special =
      let s = bits / 2 ^ 15 % 2 in
      let m = bits % 2 ^ 10 * 2 ^ 13 in
      (
        pattern32 s 255 m,
        rw (special) refl,
        omega arith,
        pattern32-sign s 255 m (omega arith) (omega arith) (omega arith) ∙ omega arith,
        pattern32-exponent s 255 m (omega arith) (omega arith) (omega arith),
        pattern32-mantissa s 255 m (omega arith) (omega arith) (omega arith),
      )

  -- Exponent field 31 is that of the infinities and the NaNs.
  pub record Converts (p : ℕ) : Type 0 where
    pub width : p < 2 ^ 32
    pub sign : p / 2 ^ 31 ≡ bits / 2 ^ 15
    pub finite : exponent16 ≢ 31 → magnitude32 p ≡ magnitude16 bits * 2 ^ 125
    pub special : exponent16 ≡ 31 → (p / 2 ^ 23 % 256 ≡ 255) × (p % 2 ^ 23 ≡ bits % 2 ^ 10 * 2 ^ 13)

  -- For every pattern of 16 bits the conversion ends, in a pattern of 32 bits with the same sign.
  -- A finite half becomes a float of exactly its value; an infinity stays one, and a NaN stays a
  -- NaN with its mantissa in the upper bits.
  pub f16_bits-Converts : (p : ℕ) × (f16_bits bits ≡ ok p) × Converts p
  f16_bits-Converts = elim (ℕ_discrete exponent16 31) [
    | yes is ↦
        let (p, eq, w, s, e, m) = f16_bits-special is in
        (
          p,
          eq,
          record { width = w; sign = s; finite = λ ne. absurd (ne is); special = λ _. (e, m) },
        )
    | no is_not ↦
        let (p, eq, r) = f16_bits-Represents is_not in
        (
          p,
          eq,
          record {
            width = r.width;
            sign = r.sign;
            finite = λ _. r.value;
            special = λ is. absurd (is_not is);
          },
        )
  ]

-- The conversion ends on any number.
pub f16_bits-ok : (bits : ℕ) → (p : ℕ) × (f16_bits bits ≡ ok p)
unfolding f16_bits
f16_bits-ok bits = elim (Bool-cases (bits / 2 ^ 10 % 32 == 0)) [
  | inl z ↦ elim (Bool-cases (bits % 2 ^ 10 == 0)) [
    | inl none_set ↦ (pattern32 (bits / 2 ^ 15 % 2) 0 0, rw (z, none_set) refl)
    | inr set ↦
        let some_bit : 0 < bits % 2 ^ 10 = positive (bits % 2 ^ 10) set in
        let (mant, e, eq, _, _, _, _, _) =
          normalize-value 10 (bits % 2 ^ 10) 113 some_bit (omega arith) (omega arith)
            (omega arith) in
        (pattern32 (bits / 2 ^ 15 % 2) e (mant % 2 ^ 10 * 2 ^ 13), rw (z, set, eq) refl)
  ]
  | inr nz ↦ elim (Bool-cases (bits / 2 ^ 10 % 32 == 31)) [
    | inl special ↦
        (pattern32 (bits / 2 ^ 15 % 2) 255 (bits % 2 ^ 10 * 2 ^ 13), rw (nz, special) refl)
    | inr finite ↦ (
      pattern32 (bits / 2 ^ 15 % 2) (bits / 2 ^ 10 % 32 + (127 - 15)) (bits % 2 ^ 10 * 2 ^ 13),
      rw (nz, finite) refl,
    )
  ]
]
