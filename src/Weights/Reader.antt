-- ===== src/Weights/Reader.antt =====
-- include/engine/safetensors.hpp and src/model/safetensors.cpp. The file is a list of bytes, and
-- the JSON library is an argument that reads the header.
pub mod Entries
pub mod Spans
pub mod Sound
use Prim.Native.String.{String}
use text.Mathlib.Text.{◌==◌ as same_text}
use from_scratch_inference_e.Base.{
  ℕ, zero, suc, ◌+◌, ◌-◌, ◌*◌, ◌/◌, ◌%◌, ◌^◌, List, [], ◌∷◌, ◌++◌, take, drop, length, not, ◌&&◌,
  ◌||◌, Bool, true, false, ltb, ◌==◌, if◌then◌else◌, Option, none, some, ℤ, pos, negsuc, Result, ok,
  err, ◌>>=◌, ◌>>◌, guard, or_fail, runtime_error, signed_overflow, undefined,
}
use from_scratch_inference_e.Base.Names.{emplace, has_key}
use from_scratch_inference_e.Tensor.{Tensor, of_data}
use from_scratch_inference_e.Tensor.Rows.{slice}
use from_scratch_inference_e.Weights.Formats.{
  Dtype, f32, f16, bf16, dtype_size, dtype_from_string, f16_bits, bf16_bits,
}

-- A header entry as the library hands it over.
pub record Entry : Type 0 where
  pub dtype : String
  pub shape : List ℤ
  pub begin_ : ℕ
  pub end_ : ℕ

abbrev pub Span : Type 0
Span = ℕ × ℕ

-- The bytes of a number, the lowest first.
unfoldable pub little_endian : List ℕ → ℕ
little_endian [] = 0
little_endian (b ∷ bs) = b + 256 * little_endian bs

unfoldable pub dimensions : List ℤ → Result (List ℕ)
dimensions [] = ok []
dimensions (pos d ∷ ds) = dimensions ds >>= λ rest. ok (d ∷ rest)
dimensions (negsuc d ∷ ds) = err runtime_error

-- num_elements in `int64_t`, whose overflow is undefined.
unfoldable pub product_within : ℕ → List ℕ → Result ℕ
product_within n [] = ok n
product_within n (d ∷ ds) =
    if ltb (n * d) (2 ^ 63) then product_within (n * d) ds else err signed_overflow

unfoldable pub element_count : List ℕ → Result ℕ
unfolding product_within
element_count [] = ok 0
element_count (d ∷ ds) = product_within 1 (d ∷ ds)

-- std::sort on pairs
abbrev pub before : Span → Span → Bool
before p q = ltb p.0 q.0 || ((p.0 == q.0) && ltb p.1 q.1)

unfoldable pub insert_span : Span → List Span → List Span
insert_span p [] = p ∷ []
insert_span p (q ∷ qs) = if before q p then q ∷ insert_span p qs else p ∷ q ∷ qs

unfoldable pub sort_spans : List Span → List Span
unfolding insert_span
sort_spans [] = []
sort_spans (p ∷ ps) = insert_span p (sort_spans ps)

unfoldable pub check_spans : List Span → Result (Unit {0})
check_spans [] = ok tt
check_spans (p ∷ []) = ok tt
check_spans (p ∷ q ∷ qs) =
    let rest = check_spans (q ∷ qs) in if ltb q.0 p.1 then err runtime_error else rest

-- `of_bits` is the float with a bit pattern.
module _ {ℓ} {F : Type ℓ} (of_bits : ℕ → F) where
  unfoldable pub read_value : Dtype → List ℕ → Result F
  unfolding little_endian f16_bits bf16_bits
  read_value f32 bytes = ok (of_bits (little_endian bytes))
  read_value f16 bytes = f16_bits (little_endian bytes) >>= λ bits. ok (of_bits bits)
  read_value bf16 bytes = ok (of_bits (bf16_bits (little_endian bytes)))

  unfoldable pub read_values : Dtype → ℕ → List ℕ → Result (List F)
  unfolding read_value dtype_size
  read_values dtype zero p = ok []
  read_values dtype (suc n) p = do
    bytes ← slice p 0 (dtype_size dtype)
    value ← read_value dtype bytes
    rest ← read_values dtype n (drop (dtype_size dtype) p)
    ok (value ∷ rest)

  -- One entry, in the data after the header.
  unfoldable pub read_entry : List ℕ → Entry → Result (Tensor F)
  unfolding dtype_from_string dtype_size dimensions element_count read_values of_data
  read_entry region e = do
    dtype ← dtype_from_string e.dtype
    guard (not (ltb e.end_ e.begin_ || ltb (length region) e.end_)) runtime_error
    shape ← dimensions e.shape
    numel ← element_count shape
    let nbytes = e.end_ - e.begin_
    let size = dtype_size dtype
    guard ((nbytes % size == 0) && (nbytes / size == numel)) runtime_error
    values ← read_values dtype numel (drop e.begin_ region)
    of_data shape values

  -- The loop over the header. An entry that the library cannot read is `none`.
  unfoldable pub read_entries :
      List ℕ
      → List (String × Option Entry)
      → List (String × Tensor F)
      → List Span
      → Result (List (String × Tensor F) × List Span)
  unfolding read_entry
  read_entries region [] tensors spans = ok (tensors, spans)
  read_entries region ((name, entry) ∷ items) tensors spans = elim (same_text name "__metadata__") [
    | true ↦ read_entries region items tensors spans
    | false ↦ or_fail runtime_error entry >>= λ e. read_entry region e >>= λ t.
        guard (not (has_key name tensors)) runtime_error
        >> read_entries region items (emplace name t tensors) (spans ++ (e.begin_, e.end_) ∷ [])
  ]

  unfoldable pub parse :
      (List ℕ → Option (List (String × Option Entry))) → List ℕ → Result (List (String × Tensor F))
  unfolding little_endian read_entries sort_spans check_spans
  parse read_header bytes = do
    guard (not (ltb (length bytes) 8)) runtime_error
    let header_len = little_endian (take 8 bytes)
    guard (not (ltb (length bytes - 8) header_len)) runtime_error
    items ← or_fail runtime_error (read_header (take header_len (drop 8 bytes)))
    r ← read_entries (drop (8 + header_len) bytes) items [] []
    check_spans (sort_spans r.1)
    ok r.0

  -- load: the file's bytes, if it can be opened
  unfoldable pub load :
      (List ℕ → Option (List (String × Option Entry)))
      → (String → Option (List ℕ))
      → String
      → Result (List (String × Tensor F))
  unfolding parse
  load read_header read_file path =
      or_fail runtime_error (read_file path) >>= λ bytes. parse read_header bytes
