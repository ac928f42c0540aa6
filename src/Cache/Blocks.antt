-- ===== src/Cache/Blocks.antt =====
-- ensure_blocks: the table of a paged cache holds its blocks alone, each once.
use from_scratch_inference_e.Base.{
  ℕ, zero, suc, ◌+◌, ◌-◌, ◌*◌, ◌/◌, ◌≤◌, ◌<◌, ◌≡◌, refl, ap, ◌∙◌, List, [], ◌∷◌, ◌++◌, arith, count,
  count-append, length, append_assoc, append-nil, get_elem?-of_lt, ok, inl, inr,
}
use native.Mathlib.Nat.{div-lt_iff_lt-mul, lt-div-mul-add, mul-le-mul_right}
use from_scratch_inference_e.Allocator.{BlockAllocator, num_free, num_blocks}
use from_scratch_inference_e.Allocator
use from_scratch_inference_e.Allocator.Invariant.{IsValid, refs}
use from_scratch_inference_e.Allocator.Counts.{get_or-pos_lt}
use from_scratch_inference_e.Allocator.Ops.{allocate-Took, Took}
use from_scratch_inference_e.Manager.Store.Slots.{Injective, Injective-of_count, count-pos}
use from_scratch_inference_e.Manager.Store.Reads.{Mapped}
use from_scratch_inference_e.Cache.Paged.{take_blocks}

pub record Holds (a : BlockAllocator) (table : List ℕ) : Type 0 where
  pub valid : IsValid a
  pub counted : (b : ℕ) → refs a b ≡ count b table
  pub once : (b : ℕ) → count b table ≤ 1

pub Holds-Injective : (a : BlockAllocator) (table : List ℕ) → Holds a table → Injective table
Holds-Injective a table h = Injective-of_count table h.once

pub div_lt : (r k c : ℕ) → 0 < k → r < c * k → r / k < c
div_lt r k c pos h = (div-lt_iff_lt-mul pos).1 h

-- The rows that the table has room for have blocks of the pool.
pub Holds-Mapped :
    (a : BlockAllocator) (table : List ℕ) (k rows : ℕ)
    → 0 < k
    → Holds a table
    → rows ≤ length table * k
    → Mapped (num_blocks a) k table rows
Holds-Mapped a table k rows pos h le r lt =
    let (b, e) = get_elem?-of_lt table (r / k) (div_lt r k (length table) pos (omega arith)) in
    (b, e, get_or-pos_lt a.ref_count b (omega (arith, h.counted b, count-pos table (r / k) b e)))

Took-Holds :
    (a : BlockAllocator) (table : List ℕ) (b : ℕ) (a' : BlockAllocator)
    → Holds a table
    → Took a b a'
    → Holds a' (table ++ b ∷ [])
Took-Holds a table b a' h t = record {
  valid = t.valid;
  counted = λ j. omega (arith, t.counted j, h.counted j, count-append j table (b ∷ []));
  once = λ j. ground (arith, t.was_free, h.counted j, h.once j, count-append j table (b ∷ []));
}

take_blocks-suc :
    (n : ℕ) (a : BlockAllocator) (table : List ℕ) (b : ℕ) (new : List ℕ) {a1 a2 : BlockAllocator}
    → Allocator.allocate a ≡ ok (b, a1)
    → take_blocks n a1 (table ++ b ∷ []) ≡ ok (a2, (table ++ b ∷ []) ++ new)
    → take_blocks (suc n) a table ≡ ok (a2, table ++ b ∷ new)
unfolding take_blocks
take_blocks-suc n a table b new {a2 = a2} e e' =
    rw e (e' ∙ ap (λ t. ok (a2, t)) (append_assoc table (b ∷ []) new))

-- Within the free blocks the loop succeeds, and the blocks so far keep their places.
pub take_blocks-Holds :
    (n : ℕ) (a : BlockAllocator) (table : List ℕ)
    → Holds a table
    → n ≤ num_free a
    → (a' : BlockAllocator) × (new : List ℕ) × (take_blocks n a table ≡ ok (a', table ++ new))
      × (length new ≡ n)
      × Holds a' (table ++ new)
      × (num_blocks a' ≡ num_blocks a)
      × (num_free a' + n ≡ num_free a)
unfolding take_blocks
take_blocks-Holds zero a table h le =
    (a, [], rw (append-nil table) refl, refl, rw (append-nil table) h, refl, omega arith)
take_blocks-Holds (suc n) a table h le = elim (allocate-Took a h.valid) [
  | inl (none_free, _) ↦ absurd (omega arith)
  | inr (b, a1, e, t) ↦
      let (a2, new, e', long, h', size, used) =
        take_blocks-Holds n a1 (table ++ b ∷ []) (Took-Holds a table b a1 h t)
          (omega (arith, t.taken)) in
      (
        a2,
        b ∷ new,
        take_blocks-suc n a table b new e e',
        omega arith,
        rw (← append_assoc table (b ∷ []) new) h',
        size ∙ t.size,
        omega (arith, t.taken),
      )
]

-- The blocks of `needed` have room for the rows.
pub needed_room : (rows k c : ℕ) → 0 < k → (rows + k - 1) / k ≤ c → rows ≤ c * k
needed_room rows k c pos h = omega (
  arith,
  lt-div-mul-add {a = rows + k - 1} {b = k} pos,
  mul-le-mul_right {m = (rows + k - 1) / k} {n = c} k h,
)
