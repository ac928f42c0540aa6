-- ===== src/Manager/Store/RoundTrip.antt =====
-- Writing rows through a block table appends them to the sequence, and touches no other block.
use from_scratch_inference_e.Base.{
  ℕ, zero, suc, ◌+◌, ◌*◌, ◌/◌, ◌≤◌, ◌<◌, ◌≡◌, ◌≢◌, refl, sym, subst, ap, ◌∙◌, List, ◌++◌, some,
  arith, get_elem?, length, take, drop, length-append, ok, append-nil, append_assoc, inl, inr,
}
use native.Mathlib.Nat.{mul-le-mul_right}
use from_scratch_inference_e.Tensor.Rows.{slice_in, length-slice}
use from_scratch_inference_e.Manager.Store.{write_rows}
use from_scratch_inference_e.Manager.Store.Splice.{
  spliced, take-add, drop-drop, copy_into-eq, length-spliced, read_before, read_after,
}
use from_scratch_inference_e.Manager.Store.Slots.{
  Injective, place, rows_apart, row_fits, place_ne_block,
}
use from_scratch_inference_e.Manager.Store.Reads.{Mapped, Reads, Reads-append, read}

module _ {ℓ} {F : Type ℓ} (n k width : ℕ) (pos : 0 < k) (table : List ℕ)
    (inj : Injective table) where
  -- The store after rows were written behind `rows` rows with `content`.
  pub record Wrote (rows m : ℕ) (store content new store' : List F) : Type ℓ where
    pub size : length store' ≡ n * k * width
    pub reads : Reads n k width pos table (rows + m) store' (content ++ new)
    pub others :
        (r b : ℕ)
        → b < n
        → ((l : ℕ) → rows ≤ l → l < rows + m → get_elem? table (l / k) ≢ some b)
        → read n k width pos table store' r b ≡ read n k width pos table store r b

  one_row-others :
      (rows b : ℕ) (store row : List F)
      → length store ≡ n * k * width
      → length row ≡ width
      → b < n
      → (r c : ℕ) → c < n
      → b ≢ c
      → read n k width pos table (spliced store (place k rows b * width) row) r c
        ≡ read n k width pos table store r c
  one_row-others rows b store row size wide lt r c below ne =
      let off = place k rows b * width in
      let fits : off + length row ≤ length store =
        omega (arith, row_fits n k width rows b pos lt) in
      elim (rows_apart width (place k r c) (place k rows b)
        (place_ne_block k r rows c b pos (λ e. ne (sym e)))) [
          | inl left ↦ read_before store row off fits (place k r c * width) width left
          | inr right ↦
              read_after store row off fits (place k r c * width) width (omega (arith, wide))
        ]

  -- Where the first `start + r` logical rows hold `content`, no block stands twice in the table and
  -- each row up to the last has a block of the pool, writing `m` rows of `src` from its `r`-th on
  -- succeeds. The store keeps its size, its rows are then `content` and the rows written, and a row of
  -- a block that no written row stands in is unchanged.
  pub write_rows-Wrote :
      (m r start : ℕ) (src store content : List F)
      → length store ≡ n * k * width
      → length content ≡ (start + r) * width
      → (r + m) * width ≤ length src
      → Mapped n k table (start + r + m)
      → Reads n k width pos table (start + r) store content
      → (store' : List F) × (write_rows k width table m r start src store ≡ ok store')
        × Wrote (start + r) m store content (take (m * width) (drop (r * width) src)) store'
  unfolding write_rows
  write_rows-Wrote zero r start src store content size long enough mapped reads =
      let z : 0 * width ≡ 0 = omega arith in
      let s : start + r + 0 ≡ start + r = omega arith in
      (
        store,
        refl,
        record {
          size = size;
          reads = rw (z, s, append-nil content) reads;
          others = λ l b lt h. refl;
        },
      )
  write_rows-Wrote (suc m) r start src store content size long enough mapped reads =
      let (b, at, lt) = mapped (start + r) (omega arith) in
      let in_src : r * width + width ≤ length src =
        omega (arith, mul-le-mul_right {m = suc r} {n = r + suc m} width (omega arith)) in
      let row = take width (drop (r * width) src) in
      let wide : length row ≡ width = length-slice src (r * width) width in_src in
      let off = place k (start + r) b * width in
      let fits : off + length row ≤ length store =
        omega (arith, row_fits n k width (start + r) b pos lt) in
      let store1 = spliced store off row in
      let size1 : length store1 ≡ n * k * width =
        omega (arith, length-spliced store row off fits) in
      let next : start + (r + 1) ≡ start + r + 1 = omega arith in
      let reads1 : Reads n k width pos table (start + (r + 1)) store1 (content ++ row) =
        subst (λ x. Reads n k width pos table x store1 (content ++ row)) (sym next)
          (Reads-append n k width pos table inj (start + r) b store content row size wide long at lt
            reads) in
      let (store', e, w) =
        write_rows-Wrote m (r + 1) start src store1 (content ++ row) size1
          (omega (arith, length-append content row))
          (let q : r + 1 + m ≡ r + suc m = omega arith in rw q enough)
          (let q : start + (r + 1) + m ≡ start + r + suc m = omega arith in rw q mapped) reads1 in
      let split : suc m * width ≡ width + m * width = omega arith in
      let further : (r + 1) * width ≡ r * width + width = omega arith in
      let tail = take (m * width) (drop ((r + 1) * width) src) in
      let all : (content ++ row) ++ tail ≡ content ++ take (suc m * width) (drop (r * width) src) =
        append_assoc content row tail
        ∙ ap (◌++◌ content) (
            rw
              (
                split,
                take-add width (m * width) (drop (r * width) src),
                drop-drop (r * width) width src,
                further,
              )
              refl) in
      let total : start + (r + 1) + m ≡ start + r + suc m = omega arith in
      (
        store',
        rw (at, slice_in src (r * width) width in_src, copy_into-eq store row off fits) e,
        record {
          size = w.size;
          reads =
              subst
                (λ x.
                  Reads n k width pos table x store'
                    (content ++ take (suc m * width) (drop (r * width) src)))
                total
                (subst (λ x. Reads n k width pos table (start + (r + 1) + m) store' x) all w.reads);
          others = λ l c below h.
              w.others l c below (λ x lo hi. h x (omega arith) (omega arith))
              ∙ one_row-others (start + r) b store row size wide lt l c below
                  (λ e. h (start + r) (omega arith) (omega arith) (at ∙ ap some e));
        },
      )
