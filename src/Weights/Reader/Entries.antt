-- ===== src/Weights/Reader/Entries.antt =====
-- One entry of the header: what a tensor that is read from it is, and how the reading can fail.
use Prim.Native.String.{String}
use native.Mathlib.Nat.{suc-mul, div-add-mod'}
use from_scratch_inference_e.Base.{
  ℕ, zero, suc, ◌-◌, ◌*◌, ◌/◌, ◌%◌, ◌^◌, ◌≤◌, ◌<◌, ◌≡◌, refl, List, [], ◌∷◌, Bool, true, false, not,
  ◌&&◌, ◌||◌, ltb, ◌==◌, ==_iff, Bool-cases, arith, length, drop, length-drop, ◌⊎◌, inl, inr, ℤ,
  pos, negsuc, Result, ok, err, ◌>>=◌, guard, Error, runtime_error, signed_overflow, Ensures,
  Ensures-bind, Result-cases,
}
use from_scratch_inference_e.Tensor.{Tensor, of_data, num_elements, product_from}
use from_scratch_inference_e.Tensor.Rows.{slice}
use from_scratch_inference_e.Layers.Shapes.Rows.{Returns, Long, slice-Long}
use from_scratch_inference_e.Weights.Formats.{Dtype, f32, f16, bf16, dtype_size, dtype_from_string}
use from_scratch_inference_e.Weights.Formats.Exact.{f16_bits-ok}
use from_scratch_inference_e.Weights.Reader.{
  Entry, little_endian, dimensions, product_within, element_count, read_value, read_values,
  read_entry,
}

-- The errors of a reader that accesses nothing outside the file.
abbrev pub Refusal : Error → Type 0
Refusal e = (e ≡ runtime_error) ⊎ (e ≡ signed_overflow)

-- A test that throws where it fails.
pub Ensures-guard {ℓ} :
    {A : Type ℓ} (b : Bool) (e : Error) (P : A → Type 0) (m : Result A)
    → Refusal e
    → (b ≡ true → Ensures Refusal P m)
    → Ensures Refusal P (guard b e >>= λ done. m)
Ensures-guard true e P m r h = h refl
Ensures-guard false e P m r h = r

product_within-eq :
    (n : ℕ) (ds : List ℕ) → Ensures Refusal (λ c. c ≡ product_from n ds) (product_within n ds)
unfolding product_within
product_within-eq n [] = refl
product_within-eq n (d ∷ ds) = elim (Bool-cases (ltb (n * d) (2 ^ 63))) [
  | inl e ↦ rw (e) (product_within-eq (n * d) ds)
  | inr e ↦ rw (e) (inr refl)
]

element_count-eq : (ds : List ℕ) → Ensures Refusal (λ c. c ≡ num_elements ds) (element_count ds)
unfolding element_count num_elements
element_count-eq [] = refl
element_count-eq (d ∷ ds) = product_within-eq 1 (d ∷ ds)

dimensions-Refusal : (ds : List ℤ) → Ensures Refusal (λ r. Unit {0}) (dimensions ds)
unfolding dimensions
dimensions-Refusal [] = tt
dimensions-Refusal (pos d ∷ ds) =
    Ensures-bind Refusal (λ r. Unit {0}) (λ r. Unit {0}) (dimensions ds) _ (dimensions-Refusal ds)
      λ rest done. tt
dimensions-Refusal (negsuc d ∷ ds) = inl refl

dtype_from_string-Refusal :
    (name : String) → Ensures Refusal (λ d. 0 < dtype_size d) (dtype_from_string name)
unfolding dtype_from_string dtype_size
dtype_from_string-Refusal name = ground arith

Returns-Refusal {ℓ} :
    {A : Type ℓ} (P : A → Type 0) (m : Result A) → Returns P m → Ensures Refusal P m
Returns-Refusal P (ok a) h = h
Returns-Refusal P (err e) h = elim h [ ]

in_order : (b e region : ℕ) → not (ltb e b || ltb region e) ≡ true → (b ≤ e) × (e ≤ region)
in_order b e region h = ground arith

both_eq : (a b c : ℕ) → ((a == 0) && (b == c)) ≡ true → (a ≡ 0) × (b ≡ c)
both_eq a b c h = ground arith

exact_size :
    (nbytes size numel : ℕ)
    → ((nbytes % size == 0) && (nbytes / size == numel)) ≡ true
    → numel * size ≡ nbytes
exact_size nbytes size numel h =
    let (whole, count) : (nbytes % size ≡ 0) × (nbytes / size ≡ numel) =
      both_eq (nbytes % size) (nbytes / size) numel h in
    rw (← count) (omega (arith, div-add-mod' nbytes size, whole))

module _ {ℓ} {F : Type ℓ} (of_bits : ℕ → F) where
  read_value-Refusal :
      (d : Dtype) (bytes : List ℕ) → Returns (λ v. Unit {0}) (read_value of_bits d bytes)
  unfolding read_value
  read_value-Refusal f32 bytes = tt
  read_value-Refusal f16 bytes = rw ((f16_bits-ok (little_endian bytes)).1) tt
  read_value-Refusal bf16 bytes = tt

  read_values-Long :
      (d : Dtype) (n : ℕ) (p : List ℕ)
      → n * dtype_size d ≤ length p
      → Ensures Refusal (Long n) (read_values of_bits d n p)
  unfolding read_values
  read_values-Long d zero p room = refl
  read_values-Long d (suc n) p room =
      let size = dtype_size d in
      Ensures-bind Refusal (Long size) (Long (suc n)) _ _
        (Returns-Refusal (Long size) (slice p 0 size)
          (slice-Long p 0 size (omega (arith, suc-mul n size))))
        λ bytes e.
          Ensures-bind Refusal (λ v. Unit {0}) (Long (suc n)) _ _
            (Returns-Refusal (λ v. Unit {0}) (read_value of_bits d bytes)
              (read_value-Refusal d bytes))
            λ value done.
              Ensures-bind Refusal (Long n) (Long (suc n)) _ _
                (read_values-Long d n (drop size p)
                  (omega (arith, suc-mul n size, length-drop size p)))
                λ rest e'. omega arith

  -- What a tensor of the file is: as many values as its shape says, which take up exactly the bytes
  -- between the offsets, and these lie in the data.
  pub record IsEntry (region : List ℕ) (e : Entry) (t : Tensor F) : Type 0 where
    pub ordered : e.begin_ ≤ e.end_
    pub inside : e.end_ ≤ length region
    pub counted : num_elements t.shape ≡ length t.data_
    pub sized :
        Ensures
          (λ x. ⊥)
          (λ d. length t.data_ * dtype_size d ≡ e.end_ - e.begin_)
          (dtype_from_string e.dtype)

  -- The part of read_entry after the format is known.
  read_as-IsEntry :
      (region : List ℕ) (e : Entry) (d : Dtype)
      → dtype_from_string e.dtype ≡ ok d
      → 0 < dtype_size d
      → Ensures Refusal (IsEntry region e) (read_entry of_bits region e)
  unfolding read_entry of_data
  read_as-IsEntry region e d eq wide =
      let size = dtype_size d in
      let nbytes = e.end_ - e.begin_ in
      rw (eq) (
        Ensures-guard _ runtime_error (IsEntry region e) _ (inl refl) λ offsets.
          let (ordered, inside) = in_order e.begin_ e.end_ (length region) offsets in
          Ensures-bind Refusal (λ r. Unit {0}) (IsEntry region e) _ _ (dimensions-Refusal e.shape)
            λ shape done.
              Ensures-bind Refusal (λ c. c ≡ num_elements shape) (IsEntry region e) _ _
                (element_count-eq shape)
                λ numel counted.
                  Ensures-guard _ runtime_error (IsEntry region e) _ (inl refl) λ matches.
                    let exact : numel * size ≡ nbytes = exact_size nbytes size numel matches in
                    Ensures-bind Refusal (Long numel) (IsEntry region e) _ _
                      (read_values-Long d numel (drop e.begin_ region)
                        (omega (arith, exact, length-drop e.begin_ region)))
                      λ values long.
                        let same : (num_elements shape == length values) ≡ true =
                          (==_iff (num_elements shape) (length values)).1
                            (omega (arith, counted, long)) in
                        rw (same) (record {
                          ordered = ordered;
                          inside = inside;
                          counted = omega (arith, counted, long);
                          sized = rw (eq, long) exact;
                        }))

  pub read_entry-IsEntry :
      (region : List ℕ) (e : Entry)
      → Ensures Refusal (IsEntry region e) (read_entry of_bits region e)
  unfolding read_entry
  read_entry-IsEntry region e = elim (Result-cases (dtype_from_string e.dtype)) [
    | inl (d, eq) ↦
        let positive : Ensures Refusal (λ f. 0 < dtype_size f) (ok d) =
          rw (eq) at (dtype_from_string-Refusal e.dtype) in
        read_as-IsEntry region e d eq positive
    | inr (problem, eq) ↦
        let refused : Ensures {A = Dtype} Refusal (λ f. 0 < dtype_size f) (err problem) =
          rw (eq) at (dtype_from_string-Refusal e.dtype) in
        rw (eq) refused
  ]
