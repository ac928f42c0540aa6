-- ===== src/Manager/Store/Reads.antt =====
-- The store as the rows of one sequence: what a gather finds, and what one written row changes.
use from_scratch_inference_e.Base.{
  ℕ, zero, suc, ◌+◌, ◌*◌, ◌/◌, ◌≤◌, ◌<◌, ◌≡◌, refl, sym, subst, ap, ◌∙◌, List, [], ◌++◌, some,
  arith, get_elem?, length, take, drop, length-drop, ok, inl, inr, append-nil,
}
use native.Mathlib.Nat.{mul-le-mul_right}
use native.Mathlib.Decide.{ℕ_discrete}
use from_scratch_inference_e.Tensor.Rows.{slice_in}
use from_scratch_inference_e.Manager.Store.{gather_rows}
use from_scratch_inference_e.Manager.Store.Splice.{
  spliced, take-add, drop-drop, take-append_left, drop-append_left, drop-append_right, take_all,
  read_self, read_before, read_after,
}
use from_scratch_inference_e.Manager.Store.Slots.{Injective, place, place_ne, rows_apart, row_fits}

pub take_length {ℓ} : {A : Type ℓ} (xs : List A) → take (length xs) xs ≡ xs
take_length xs = subst (λ ys. take (length xs) ys ≡ xs) (append-nil xs) (take_all xs [])

-- The rows below `rows` have blocks of the pool of `n` blocks.
abbrev pub Mapped : ℕ → ℕ → List ℕ → ℕ → Type 0
Mapped n k table rows = (r : ℕ) → r < rows → (b : ℕ) × (get_elem? table (r / k) ≡ some b) × (b < n)

module _ {ℓ} {F : Type ℓ} (n k width : ℕ) (pos : 0 < k) (table : List ℕ) where
  abbrev pub read : List F → ℕ → ℕ → List F
  read store r b = take width (drop (place k r b * width) store)

  -- The first `rows` logical rows hold `content`.
  abbrev pub Reads : ℕ → List F → List F → Type ℓ
  Reads rows store content =
      (r b : ℕ)
      → r < rows
      → get_elem? table (r / k) ≡ some b
      → read store r b ≡ take width (drop (r * width) content)

  -- From a store whose first `rows` logical rows hold `content`, each in a block of the pool, a gather
  -- of the last `m` of them succeeds, and gives those rows in their logical order.
  pub gather_rows-Reads :
      (rows m r : ℕ) (store content : List F)
      → Mapped n k table rows
      → length store ≡ n * k * width
      → Reads rows store content
      → r + m ≡ rows
      → gather_rows k width table m r store ≡ ok (take (m * width) (drop (r * width) content))
  unfolding gather_rows
  gather_rows-Reads rows zero r store content mapped size reads e =
      let z : 0 * width ≡ 0 = omega arith in rw z refl
  gather_rows-Reads rows (suc m) r store content mapped size reads e =
      let (b, at, lt) = mapped r (omega arith) in
      let rest = gather_rows-Reads rows m (r + 1) store content mapped size reads (omega arith) in
      let fits : place k r b * width + width ≤ length store =
        omega (arith, row_fits n k width r b pos lt) in
      let split : suc m * width ≡ width + m * width = omega arith in
      let next : r * width + width ≡ (r + 1) * width = omega arith in
      rw
        (
          at,
          slice_in store (place k r b * width) width fits,
          rest,
          reads r b (omega arith) at,
          split,
          take-add width (m * width) (drop (r * width) content),
          drop-drop (r * width) width content,
          next,
        )
        refl

  module _ (inj : Injective table) where
    -- A row written behind the others.
    pub Reads-append :
        (rows b : ℕ) (store content row : List F)
        → length store ≡ n * k * width
        → length row ≡ width
        → length content ≡ rows * width
        → get_elem? table (rows / k) ≡ some b
        → b < n
        → Reads rows store content
        → Reads (rows + 1) (spliced store (place k rows b * width) row) (content ++ row)
    Reads-append rows b store content row size wide long at lt reads r c below atr =
        elim (ℕ_discrete r rows) [ yes same ↦ last same | no other ↦ before (omega arith) ]
      where
        off : ℕ
        off = place k rows b * width

        fits : off + length row ≤ length store
        fits = omega (arith, row_fits n k width rows b pos lt)

        before :
            r < rows
            → read (spliced store off row) r c ≡ take width (drop (r * width) (content ++ row))
        before small =
            let apart =
              rows_apart width (place k r c) (place k rows b)
                (place_ne k table r rows c b pos inj (λ e. absurd (omega arith)) atr at) in
            let inside : r * width + width ≤ length content =
              omega (arith, mul-le-mul_right {m = suc r} {n = rows} width small) in
            let kept : read (spliced store off row) r c ≡ read store r c = elim apart [
              | inl left ↦ read_before store row off fits (place k r c * width) width left
              | inr right ↦
                  read_after store row off fits (place k r c * width) width (omega (arith, wide))
            ] in
            kept
            ∙ (reads r c small atr
                ∙ sym (
                    ap (take width) (drop-append_left (r * width) content row (omega arith))
                    ∙ take-append_left width (drop (r * width) content) row
                        (omega (arith, length-drop (r * width) content))))

        last :
            r ≡ rows
            → read (spliced store off row) r c ≡ take width (drop (r * width) (content ++ row))
        last same =
            let atr' : get_elem? table (rows / k) ≡ some c =
              subst (λ x. get_elem? table (x / k) ≡ some c) same atr in
            let blocks : c ≡ b = cc (at, atr') in
            let self : take width (drop off (spliced store off row)) ≡ row =
              subst (λ w. take w (drop off (spliced store off row)) ≡ row) wide
                (read_self store row off fits) in
            let end : length content + 0 ≡ rows * width = omega arith in
            let tail : drop (rows * width) (content ++ row) ≡ row =
              subst (λ x. drop x (content ++ row) ≡ row) end (drop-append_right 0 content row) in
            let whole : take width row ≡ row =
              subst (λ w. take w row ≡ row) wide (take_length row) in
            subst
              (λ x.
                read (spliced store off row) x c ≡ take width (drop (x * width) (content ++ row)))
              (sym same)
              (subst
                (λ x.
                  read (spliced store off row) rows x
                  ≡ take width (drop (rows * width) (content ++ row)))
                (sym blocks) (self ∙ sym (ap (take width) tail ∙ whole)))
