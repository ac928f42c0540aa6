-- ===== src/Allocator/Counts.antt =====
-- Reference counts as a function of the block, and what a write to the vector does to them.
use from_scratch_inference_e.Base.{
  ℕ, zero, suc, ◌+◌, ◌<◌, ◌≤◌, ◌≡◌, refl, List, [], ◌∷◌, some, arith, ◌==◌, if◌then◌else◌,
  get_elem?, set, get_or, length, replicate,
}

-- 1 for a block of the pool that nobody holds, else 0.
abbrev pub unused : List ℕ → ℕ → ℕ
unused [] b = 0
unused (c ∷ cs) zero = if c == 0 then 1 else 0
unused (c ∷ cs) (suc b) = unused cs b

-- How many blocks somebody holds.
abbrev pub live : List ℕ → ℕ
live [] = 0
live (c ∷ cs) = (if c == 0 then 0 else 1) + live cs

pub get_elem?-of_pos :
    (cs : List ℕ) (b : ℕ) → 0 < get_or cs b 0 → get_elem? cs b ≡ some (get_or cs b 0)
get_elem?-of_pos [] b h = elim h [ ]
get_elem?-of_pos (c ∷ cs) zero h = refl
get_elem?-of_pos (c ∷ cs) (suc b) h = get_elem?-of_pos cs b h

pub get_or-set :
    (cs : List ℕ) (b j v : ℕ)
    → b < length cs
    → get_or (set cs b v) j 0 ≡ (if b == j then v else get_or cs j 0)
get_or-set [] b j v h = elim h [ ]
get_or-set (c ∷ cs) zero zero v h = refl
get_or-set (c ∷ cs) zero (suc j) v h = ground arith
get_or-set (c ∷ cs) (suc b) zero v h = ground arith
get_or-set (c ∷ cs) (suc b) (suc j) v h = ground (arith, get_or-set cs b j v)

pub unused-set :
    (cs : List ℕ) (b j v : ℕ)
    → b < length cs
    → unused (set cs b v) j ≡ (if b == j then (if v == 0 then 1 else 0) else unused cs j)
unused-set [] b j v h = elim h [ ]
unused-set (c ∷ cs) zero zero v h = refl
unused-set (c ∷ cs) zero (suc j) v h = ground arith
unused-set (c ∷ cs) (suc b) zero v h = ground arith
unused-set (c ∷ cs) (suc b) (suc j) v h = ground (arith, unused-set cs b j v)

pub live-set :
    (cs : List ℕ) (b v : ℕ)
    → b < length cs
    → live (set cs b v) + (if get_or cs b 0 == 0 then 0 else 1)
      ≡ live cs + (if v == 0 then 0 else 1)
live-set [] b v h = elim h [ ]
live-set (c ∷ cs) zero v h = omega arith
live-set (c ∷ cs) (suc b) v h = omega (arith, live-set cs b v)

pub unused-pos : (cs : List ℕ) (b : ℕ) → 0 < unused cs b → (b < length cs) × (get_or cs b 0 ≡ 0)
unused-pos [] b h = elim h [ ]
unused-pos (c ∷ cs) zero h = ground arith
unused-pos (c ∷ cs) (suc b) h = ground (arith, unused-pos cs b h)

pub get_or-pos_lt : (cs : List ℕ) (b : ℕ) → 0 < get_or cs b 0 → b < length cs
get_or-pos_lt [] b h = elim h [ ]
get_or-pos_lt (c ∷ cs) zero h = omega arith
get_or-pos_lt (c ∷ cs) (suc b) h = omega (arith, get_or-pos_lt cs b h)

pub unused-of_pos : (cs : List ℕ) (b : ℕ) → 0 < get_or cs b 0 → unused cs b ≡ 0
unused-of_pos [] b h = refl
unused-of_pos (c ∷ cs) zero h = ground arith
unused-of_pos (c ∷ cs) (suc b) h = unused-of_pos cs b h

pub live-replicate : (n : ℕ) → live (replicate n 0) ≡ 0
live-replicate zero = refl
live-replicate (suc n) = omega (arith, live-replicate n)

pub get_or-replicate : (n b : ℕ) → get_or (replicate {A = ℕ} n 0) b 0 ≡ 0
get_or-replicate zero b = refl
get_or-replicate (suc n) zero = refl
get_or-replicate (suc n) (suc b) = get_or-replicate n b

pub unused-le-one : (cs : List ℕ) (b : ℕ) → unused cs b ≤ 1
unused-le-one [] b = omega arith
unused-le-one (c ∷ cs) zero = ground arith
unused-le-one (c ∷ cs) (suc b) = unused-le-one cs b
