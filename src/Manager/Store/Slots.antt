-- ===== src/Manager/Store/Slots.antt =====
-- Logical rows of one table stand at places of their own, inside the store.
use from_scratch_inference_e.Base.{
  ℕ, zero, suc, ◌+◌, ◌*◌, ◌/◌, ◌%◌, ◌≤◌, ◌<◌, ◌≡◌, ◌≢◌, refl, sym, subst, ap, List, [], ◌∷◌, some,
  arith, get_elem?, count, ◌⊎◌, inl, inr,
}
use native.Mathlib.Nat.{mul-le-mul_right, mod-lt, div-add-mod}
use native.Mathlib.Decide.{dec_lt}

-- No block stands twice in the table.
abbrev pub Injective : List ℕ → Type 0
Injective table = (i j b : ℕ) → get_elem? table i ≡ some b → get_elem? table j ≡ some b → i ≡ j

-- Every block of the table is one of the `n` blocks of the pool.
abbrev pub InPool : ℕ → List ℕ → Type 0
InPool n table = (i b : ℕ) → get_elem? table i ≡ some b → b < n

pub count-pos : (xs : List ℕ) (i b : ℕ) → get_elem? xs i ≡ some b → 0 < count b xs
count-pos [] i b e = cc
count-pos (x ∷ xs) zero b e = ground arith
count-pos (x ∷ xs) (suc i) b e = omega (arith, count-pos xs i b e)

pub Injective-of_count : (xs : List ℕ) → ((b : ℕ) → count b xs ≤ 1) → Injective xs
Injective-of_count [] h i j b e f = cc
Injective-of_count (x ∷ xs) h zero zero b e f = refl
Injective-of_count (x ∷ xs) h zero (suc j) b e f = absurd (ground (arith, h b, count-pos xs j b f))
Injective-of_count (x ∷ xs) h (suc i) zero b e f = absurd (ground (arith, h b, count-pos xs i b e))
Injective-of_count (x ∷ xs) h (suc i) (suc j) b e f =
    ap suc (Injective-of_count xs (λ c. omega (arith, h c)) i j b e f)

-- A block below another has all its places below the other's.
place_lt : (k b b' m m' : ℕ) → m < k → b < b' → b * k + m < b' * k + m'
place_lt k b b' m m' h lt = omega (arith, mul-le-mul_right k lt)

-- Equal places have equal blocks and equal slots.
place_unique : (k b b' m m' : ℕ) → m < k → m' < k → b * k + m ≡ b' * k + m' → (b ≡ b') × (m ≡ m')
place_unique k b b' m m' h h' e = elim (dec_lt b b') [
  | yes lt ↦ absurd (omega (arith, place_lt k b b' m m' h lt))
  | no ge ↦ elim (dec_lt b' b) [
    | yes lt ↦ absurd (omega (arith, place_lt k b' b m' m h' lt))
    | no ge' ↦ let same : b ≡ b' = omega arith in (same, omega (arith, ap (λ (x : ℕ). x * k) same))
  ]
]

-- The place of row `r` in block `b`.
abbrev pub place : ℕ → ℕ → ℕ → ℕ
place block_size r b = b * block_size + r % block_size

pub place_ne :
    (k : ℕ) (table : List ℕ) (r r' b b' : ℕ)
    → 0 < k
    → Injective table
    → r ≢ r'
    → get_elem? table (r / k) ≡ some b
    → get_elem? table (r' / k) ≡ some b'
    → place k r b ≢ place k r' b'
place_ne k table r r' b b' pos inj ne at at' e =
    let (blocks, slots) = place_unique k b b' (r % k) (r' % k) (mod-lt r pos) (mod-lt r' pos) e in
    let rows : r / k ≡ r' / k =
      inj (r / k) (r' / k) b at (subst (λ x. get_elem? table (r' / k) ≡ some x) (sym blocks) at') in
    ne (omega (arith, div-add-mod r k, div-add-mod r' k, ap (λ (x : ℕ). k * x) rows))

-- Rows of different blocks stand at different places, whoever's tables they are in.
pub place_ne_block : (k r r' b b' : ℕ) → 0 < k → b ≢ b' → place k r b ≢ place k r' b'
place_ne_block k r r' b b' pos ne e =
    ne (place_unique k b b' (r % k) (r' % k) (mod-lt r pos) (mod-lt r' pos) e).0

-- Different places are a whole row apart.
pub rows_apart :
    (width s s' : ℕ) → s ≢ s' → (s * width + width ≤ s' * width) ⊎ (s' * width + width ≤ s * width)
rows_apart width s s' ne = elim (dec_lt s s') [
  | yes lt ↦ inl (omega (arith, mul-le-mul_right width lt))
  | no ge ↦ let lt : s' < s = omega arith in inr (omega (arith, mul-le-mul_right width lt))
]

-- A row of a block of the pool lies inside the store.
pub row_fits : (n k width r b : ℕ) → 0 < k → b < n → place k r b * width + width ≤ n * k * width
row_fits n k width r b pos lt =
    let below : suc (place k r b) ≤ n * k = omega (arith, mul-le-mul_right k lt, mod-lt r pos) in
    omega (arith, mul-le-mul_right width below)
