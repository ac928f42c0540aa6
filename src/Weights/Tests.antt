-- ===== src/Weights/Tests.antt =====
-- Half precision patterns, and a file with two tensors behind a header of three bytes.
use Prim.Native.String.{String}
use from_scratch_inference_e.Base.{
  ℕ, ◌*◌, ◌^◌, ◌≡◌, refl, List, [], ◌∷◌, Option, none, some, arith, pos, ok, err, Ensures,
  signed_overflow,
}
use from_scratch_inference_e.Tensor.{of_data, num_elements}
use from_scratch_inference_e.Tensor.Rows.{slice}
use from_scratch_inference_e.Weights.Formats.{f16_bits, normalize}
use from_scratch_inference_e.Weights.Formats.Exact.{Converts, f16_bits-Converts}
use from_scratch_inference_e.Weights.Reader.{Entry, parse, element_count}
use from_scratch_inference_e.Weights.Reader.Entries.{Refusal}
use from_scratch_inference_e.Weights.Reader.Sound.{Items, IsFile, parse-IsFile}

-- The least subnormal, 2 ^ -24.
f16_least : f16_bits 1 ≡ ok (103 * 2 ^ 23)
unfolding f16_bits normalize
f16_least = refl

f16_one : f16_bits 15360 ≡ ok 1065353216
unfolding f16_bits
f16_one = refl

f16_bits-Converts_example : (p : ℕ) × (f16_bits 32769 ≡ ok p) × Converts 32769 (omega arith) p
f16_bits-Converts_example = f16_bits-Converts 32769 (omega arith)

abbrev entry_of : String → ℕ → ℕ → Option Entry
entry_of dtype from to =
    some (record { dtype = dtype; shape = pos 2 ∷ []; begin_ = from; end_ = to })

abbrev items : Items
items = ("a", entry_of "F16" 0 4) ∷ ("__metadata__", none) ∷ ("b", entry_of "BF16" 4 8) ∷ []

abbrev file : List ℕ
file = 1 ∷ 0 ∷ 0 ∷ 0 ∷ 0 ∷ 0 ∷ 0 ∷ 0 ∷ 9 ∷ 0 ∷ 60 ∷ 0 ∷ 64 ∷ 128 ∷ 63 ∷ 0 ∷ 64 ∷ []

read_file :
    parse (λ bits. bits) (λ header. some items) file
    ≡ ok (
        ("a", record { shape = 2 ∷ []; data_ = 1065353216 ∷ 1073741824 ∷ [] })
        ∷ ("b", record { shape = 2 ∷ []; data_ = 1065353216 ∷ 1073741824 ∷ [] })
        ∷ [])
unfolding parse of_data num_elements slice
read_file = refl

-- Two dimensions of 2 ^ 32 overflow before the bytes are compared with the shape.
overflow : element_count (2 ^ 32 ∷ 2 ^ 32 ∷ []) ≡ err signed_overflow
unfolding element_count
overflow = refl

parse-IsFile_example :
    Ensures Refusal
      (IsFile (λ bits. bits) (λ header. some items) file)
      (parse (λ bits. bits) (λ header. some items) file)
parse-IsFile_example = parse-IsFile (λ bits. bits) (λ header. some items) file
