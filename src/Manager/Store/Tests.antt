-- ===== src/Manager/Store/Tests.antt =====
-- A table of two blocks of two rows, one number a row, in a pool of two blocks.
use from_scratch_inference_e.Base.{ℕ, zero, suc, ◌≡◌, refl, List, [], ◌∷◌, arith, ok}
use from_scratch_inference_e.Manager.Store.{write_rows, gather_rows}
use from_scratch_inference_e.Manager.Store.Slots.{Injective, Injective-of_count}
use from_scratch_inference_e.Manager.Store.Reads.{Mapped, Reads, gather_rows-Reads}
use from_scratch_inference_e.Manager.Store.RoundTrip.{Wrote, write_rows-Wrote}

abbrev table : List ℕ
table = 1 ∷ 0 ∷ []

table-Injective : Injective table
table-Injective = Injective-of_count table (λ b. ground arith)

table-Mapped : Mapped 2 2 table 3
table-Mapped zero h = (1, refl, omega arith)
table-Mapped (suc zero) h = (1, refl, omega arith)
table-Mapped (suc (suc zero)) h = (0, refl, omega arith)
table-Mapped (suc (suc (suc r))) h = absurd (omega arith)

abbrev rows : List ℕ
rows = 5 ∷ 6 ∷ 7 ∷ []

write_rows-Wrote_example :
    (store' : List ℕ) × (write_rows 2 1 table 3 0 0 rows (0 ∷ 0 ∷ 0 ∷ 0 ∷ []) ≡ ok store')
    × Wrote 2 2 1 (omega arith) table table-Injective 0 3 (0 ∷ 0 ∷ 0 ∷ 0 ∷ []) [] rows store'
write_rows-Wrote_example =
    write_rows-Wrote 2 2 1 (omega arith) table table-Injective 3 0 0 rows (0 ∷ 0 ∷ 0 ∷ 0 ∷ []) []
      refl refl (omega arith) table-Mapped (λ r b h e. absurd (omega arith))

-- The store that those three rows leave.
abbrev filled : List ℕ
filled = 7 ∷ 0 ∷ 5 ∷ 6 ∷ []

filled-Reads : Reads 2 2 1 (omega arith) table 3 filled rows
filled-Reads zero zero h e = absurd (cc e)
filled-Reads zero (suc zero) h e = refl
filled-Reads zero (suc (suc b)) h e = absurd (cc e)
filled-Reads (suc zero) zero h e = absurd (cc e)
filled-Reads (suc zero) (suc zero) h e = refl
filled-Reads (suc zero) (suc (suc b)) h e = absurd (cc e)
filled-Reads (suc (suc zero)) zero h e = refl
filled-Reads (suc (suc zero)) (suc b) h e = absurd (cc e)
filled-Reads (suc (suc (suc r))) b h e = absurd (omega arith)

gather_rows-Reads_example : gather_rows 2 1 table 3 0 filled ≡ ok rows
gather_rows-Reads_example =
    gather_rows-Reads 2 2 1 (omega arith) table 3 3 0 filled rows table-Mapped refl filled-Reads
      refl
