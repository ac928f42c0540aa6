-- ===== src/Weights/Formats.antt =====
-- include/engine/dtype.hpp. Bit patterns are numbers: a mask or a shift is a quotient or a
-- remainder by a power of two, and `|` of fields without a common bit is their sum.
pub mod Normalize
pub mod Exact
use Prim.Native.String.{String}
use text.Mathlib.Text.{◌==◌ as same_text}
use from_scratch_inference_e.Base.{
  ℕ, zero, suc, ◌+◌, ◌-◌, ◌*◌, ◌/◌, ◌%◌, ◌^◌, leb, ◌==◌, if◌then◌else◌, Result, ok, err, ◌>>=◌,
  runtime_error, no_fuel,
}

pub data Dtype : Type 0 where
  f32 f16 bf16 : Dtype

unfoldable pub dtype_size : Dtype → ℕ
dtype_size f32 = 4
dtype_size f16 = 2
dtype_size bf16 = 2

unfoldable pub dtype_from_string : String → Result Dtype
dtype_from_string name =
    if same_text name "F32"
    then ok f32
    else if same_text name "F16"
    then ok f16
    else if same_text name "BF16"
    then ok bf16
    else err runtime_error

-- The loop that normalises a subnormal mantissa. `e` is kept with the offset 127 - 15 that the
-- source adds after the loop.
unfoldable pub normalize : ℕ → ℕ → ℕ → Result (ℕ × ℕ)
normalize zero mant e = if mant / 1024 % 2 == 0 then err no_fuel else ok (mant, e)
normalize (suc fuel) mant e =
    let rest = normalize fuel (mant * 2 % 2 ^ 32) (e - 1) in
    if mant / 1024 % 2 == 0 then rest else ok (mant, e)

-- A binary32 pattern from its sign bit, exponent field and mantissa field.
abbrev pub pattern32 : ℕ → ℕ → ℕ → ℕ
pattern32 sign e mant = sign * 2 ^ 31 + e * 2 ^ 23 + mant

-- f16_to_f32, up to the pattern that is copied into the float
unfoldable pub f16_bits : ℕ → Result ℕ
unfolding normalize
f16_bits bits =
    let sign = bits / 2 ^ 15 % 2 in
    let e = bits / 2 ^ 10 % 32 in
    let mant = bits % 2 ^ 10 in
    if e == 0
    then (if mant == 0
        then ok (pattern32 sign 0 0)
        else (normalize 10 mant (1 + (127 - 15)) >>= λ r.
            ok (pattern32 sign r.1 (r.0 % 2 ^ 10 * 2 ^ 13))))
    else (if e == 31
        then ok (pattern32 sign 255 (mant * 2 ^ 13))
        else ok (pattern32 sign (e + (127 - 15)) (mant * 2 ^ 13)))

unfoldable pub bf16_bits : ℕ → ℕ
bf16_bits bits = bits * 2 ^ 16
