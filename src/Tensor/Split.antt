-- ===== src/Tensor/Split.antt =====
-- Splitting a matrix along its columns and joining the parts gives the matrix back.
use from_scratch_inference_e.Base.{
  ℕ, zero, suc, ◌+◌, ◌*◌, ◌/◌, ◌%◌, ◌≤◌, ◌<◌, ◌≡◌, refl, subst, ap, ◌∙◌, List, [], ◌∷◌, ◌++◌, arith,
  ltb, true, length, length-append, take, drop, pos, ok, ==_refl,
}
use native.Mathlib.Nat.{mul-le-mul_right, div-add-mod}
use from_scratch_inference_e.Tensor.{Tensor}
use from_scratch_inference_e.Tensor.Rows.{slice_in, length-slice}
use from_scratch_inference_e.Tensor.Shards.{
  part_rows, column_parts, split_columns, total_cols, join_row, join_rows, concat_columns,
}
use from_scratch_inference_e.Manager.Store.Reads.{take_length}
use from_scratch_inference_e.Manager.Store.Splice.{drop-drop, take-add, take_all, drop-append_right}

module _ {ℓ} {F : Type ℓ} (per cols : ℕ) (values : List F) where
  -- The row `r` of the shard `s`.
  abbrev piece : ℕ → ℕ → List F
  piece r s = take per (drop (r * cols + s * per) values)

  abbrev rows_from : ℕ → ℕ → ℕ → List F
  rows_from zero r s = []
  rows_from (suc n) r s = piece r s ++ rows_from n (r + 1) s

  piece_in :
      (rows r s : ℕ)
      → r < rows
      → length values ≡ rows * cols
      → s * per + per ≤ cols
      → r * cols + s * per + per ≤ length values
  piece_in rows r s lt size fits = omega (arith, mul-le-mul_right {m = suc r} {n = rows} cols lt)

  length-rows_from :
      (rows n r s : ℕ)
      → r + n ≤ rows
      → length values ≡ rows * cols
      → s * per + per ≤ cols
      → length (rows_from n r s) ≡ n * per
  length-rows_from rows zero r s le size fits = omega arith
  length-rows_from rows (suc n) r s le size fits = omega (
    arith,
    length-append (piece r s) (rows_from n (r + 1) s),
    length-slice values (r * cols + s * per) per (piece_in rows r s (omega arith) size fits),
    length-rows_from rows n (r + 1) s (omega arith) size fits,
  )

  part_rows-eq :
      (rows n r s : ℕ)
      → r + n ≤ rows
      → length values ≡ rows * cols
      → s * per + per ≤ cols
      → part_rows per cols values s n r ≡ ok (rows_from n r s)
  unfolding part_rows
  part_rows-eq rows zero r s le size fits = refl
  part_rows-eq rows (suc n) r s le size fits =
      rw
        (
          slice_in values (r * cols + s * per) per (piece_in rows r s (omega arith) size fits),
          part_rows-eq rows n (r + 1) s (omega arith) size fits,
        )
        refl

  -- The rows of a shard stand in order.
  row_of :
      (rows n r s i : ℕ)
      → i < n
      → r + n ≤ rows
      → length values ≡ rows * cols
      → s * per + per ≤ cols
      → take per (drop (i * per) (rows_from n r s)) ≡ piece (r + i) s
  row_of rows zero r s i lt le size fits = absurd (omega arith)
  row_of rows (suc n) r s zero lt le size fits =
      let wide =
        length-slice values (r * cols + s * per) per (piece_in rows r s (omega arith) size fits) in
      let z : 0 * per ≡ 0 = omega arith in
      let same : r + 0 ≡ r = omega arith in
      rw (z, same)
        (subst (λ w. take w (piece r s ++ rows_from n (r + 1) s) ≡ piece r s) wide
          (take_all (piece r s) (rows_from n (r + 1) s)))
  row_of rows (suc n) r s (suc i) lt le size fits =
      let wide =
        length-slice values (r * cols + s * per) per (piece_in rows r s (omega arith) size fits) in
      let next : suc i * per ≡ length (piece r s) + i * per = omega arith in
      let same : r + suc i ≡ r + 1 + i = omega arith in
      rw (next, drop-append_right (i * per) (piece r s) (rows_from n (r + 1) s), same)
        (row_of rows n (r + 1) s i (omega arith) (omega arith) size fits)

  module _ (rows : ℕ) where
    abbrev shard : ℕ → Tensor F
    shard s = record { shape = rows ∷ per ∷ []; data_ = rows_from rows 0 s }

    abbrev shards_from : ℕ → ℕ → List (Tensor F)
    shards_from zero s = []
    shards_from (suc n) s = shard s ∷ shards_from n (s + 1)

    length-shards_from : (n s : ℕ) → length (shards_from n s) ≡ n
    length-shards_from zero s = refl
    length-shards_from (suc n) s = ap suc (length-shards_from n (s + 1))

    column_parts-eq :
        (n s : ℕ)
        → (s + n) * per ≤ cols
        → length values ≡ rows * cols
        → column_parts rows per cols values n s ≡ ok (shards_from n s)
    unfolding column_parts
    column_parts-eq zero s fits size = refl
    column_parts-eq (suc n) s fits size =
        rw
          (
            part_rows-eq rows rows 0 s (omega arith) size (omega arith),
            column_parts-eq n (s + 1) (omega arith) size,
          )
          refl

    total_cols-eq : (n s : ℕ) → total_cols rows (shards_from n s) ≡ ok (n * per)
    unfolding total_cols
    total_cols-eq zero s = ap ok (omega arith)
    total_cols-eq (suc n) s = rw (==_refl rows, total_cols-eq n (s + 1)) (ap ok (omega arith))

    join_row-eq :
        (n r s : ℕ)
        → r < rows
        → (s + n) * per ≤ cols
        → length values ≡ rows * cols
        → join_row r (shards_from n s) ≡ ok (take (n * per) (drop (r * cols + s * per) values))
    unfolding join_row
    join_row-eq zero r s lt fits size = let z : 0 * per ≡ 0 = omega arith in rw z refl
    join_row-eq (suc n) r s lt fits size =
        let inside : r * per + per ≤ length (rows_from rows 0 s) = omega (
          arith,
          length-rows_from rows rows 0 s (omega arith) size (omega arith),
          mul-le-mul_right {m = suc r} {n = rows} per lt,
        ) in
        let z : 0 + r ≡ r = omega arith in
        let row : take per (drop (r * per) (rows_from rows 0 s)) ≡ piece r s =
          row_of rows rows 0 s r lt (omega arith) size (omega arith) ∙ ap (λ x. piece x s) z in
        let split : suc n * per ≡ per + n * per = omega arith in
        let next : r * cols + s * per + per ≡ r * cols + (s + 1) * per = omega arith in
        rw
          (
            slice_in (rows_from rows 0 s) (r * per) per inside,
            row,
            join_row-eq n r (s + 1) lt (omega arith) size,
            split,
            take-add per (n * per) (drop (r * cols + s * per) values),
            drop-drop (r * cols + s * per) per values,
            next,
          )
          refl

    join_rows-eq :
        (n k r : ℕ)
        → r + k ≤ rows
        → n * per ≡ cols
        → length values ≡ rows * cols
        → join_rows (shards_from n 0) k r ≡ ok (take (k * cols) (drop (r * cols) values))
    unfolding join_rows
    join_rows-eq n zero r le whole size = let z : 0 * cols ≡ 0 = omega arith in rw z refl
    join_rows-eq n (suc k) r le whole size =
        let start : r * cols + 0 * per ≡ r * cols = omega arith in
        let row : join_row r (shards_from n 0) ≡ ok (take cols (drop (r * cols) values)) =
          join_row-eq n r 0 (omega arith) (omega arith) size
          ∙ (ap (λ x. ok (take x (drop (r * cols + 0 * per) values))) whole
              ∙ ap (λ x. ok (take cols (drop x values))) start) in
        let split : suc k * cols ≡ cols + k * cols = omega arith in
        let next : r * cols + cols ≡ (r + 1) * cols = omega arith in
        rw
          (
            row,
            join_rows-eq n k (r + 1) (omega arith) whole size,
            split,
            take-add cols (k * cols) (drop (r * cols) values),
            drop-drop (r * cols) cols values,
            next,
          )
          refl

    concat_columns-eq :
        (n : ℕ)
        → 0 < n
        → n * per ≡ cols
        → length values ≡ rows * cols
        → concat_columns (shards_from n 0)
          ≡ ok (record { shape = rows ∷ cols ∷ []; data_ = values })
    unfolding concat_columns
    concat_columns-eq zero h whole size = elim h [ ]
    concat_columns-eq (suc n) h whole size =
        let flat : 0 * cols ≡ 0 = omega arith in
        let all : take (rows * cols) (drop (0 * cols) values) ≡ values =
          ap (λ x. take (rows * cols) (drop x values)) flat
          ∙ subst (λ x. take x values ≡ values) size (take_length values) in
        rw
          (
            total_cols-eq (suc n) 0,
            join_rows-eq (suc n) rows 0 (omega arith) whole size,
            whole,
            all,
          )
          refl

module _ {ℓ} {F : Type ℓ} where
  -- A matrix whose column count is a multiple of a positive number of shards is split into that many
  -- parts, and joining the parts gives the matrix.
  pub split_columns-concat_columns :
      (rows cols n : ℕ) (values : List F)
      → length values ≡ rows * cols
      → 0 < n
      → cols % n ≡ 0
      → (parts : List (Tensor F)) × (split_columns
            (record { shape = rows ∷ cols ∷ []; data_ = values })
            (pos n)
          ≡ ok parts)
        × (length parts ≡ n)
        × (concat_columns parts ≡ ok (record { shape = rows ∷ cols ∷ []; data_ = values }))
  unfolding split_columns
  split_columns-concat_columns rows cols n values size some_shard even =
      let per = cols / n in
      let whole : n * per ≡ cols = omega (arith, div-add-mod cols n) in
      let s : ltb 0 n ≡ true = ground arith in
      let fits : (0 + n) * per ≤ cols = omega arith in
      (
        shards_from per cols values rows n 0,
        rw (s, even, column_parts-eq per cols values rows n 0 fits size) refl,
        length-shards_from per cols values rows n 0,
        concat_columns-eq per cols values rows n some_shard whole size,
      )
