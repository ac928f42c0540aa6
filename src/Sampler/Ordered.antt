-- ===== src/Sampler/Ordered.antt =====
-- The sort of the sampler: what it puts at position i has at most i values before it.
use from_scratch_inference_e.Base.{
  ℕ, zero, suc, ◌+◌, ◌≤◌, ◌≡◌, refl, subst, List, [], ◌∷◌, map, some, arith, Bool, true, false, not,
  ◌&&◌, ◌||◌, if◌then◌else◌, get_elem?, All, Bool-cases, inl, inr,
}
use from_scratch_inference_e.Sampler.Sample.{all, strict_weak, insert, insertion_sort}

and-true : (a b : Bool) → (a && b) ≡ true → (a ≡ true) × (b ≡ true)
and-true true b h = (refl, h)
and-true false b h = absurd (cc h)

-- A value of a list.
abbrev pub Among {ℓ} : {F : Type ℓ} → F → List F → Type ℓ
Among x xs = (i : ℕ) × (get_elem? xs i ≡ some x)

all-Among {ℓ} :
    {F : Type ℓ} (test : F → Bool) (xs : List F) (x : F)
    → all test xs ≡ true
    → Among x xs
    → test x ≡ true
unfolding all
all-Among test [] x h (i, at) = absurd (cc at)
all-Among test (y ∷ ys) x h (zero, at) =
    let same : y ≡ x = ground arith in
    subst (λ z. test z ≡ true) same (and-true (test y) (all test ys) h).0
all-Among test (y ∷ ys) x h (suc i, at) =
    all-Among test ys x (and-true (test y) (all test ys) h).1 (i, at)

module _ {ℓ} {F : Type ℓ} (gt : F → F → Bool) where
  -- The number of values that come before x.
  abbrev pub beaten : F → List F → ℕ
  beaten x [] = 0
  beaten x (y ∷ ys) = (if gt y x then 1 else 0) + beaten x ys

  pub insert-All {κ} :
      (P : ℕ × F → Type κ) (p : ℕ × F) (ps : List (ℕ × F)) → P p → All P ps → All P (insert gt p ps)
  unfolding insert
  insert-All P p [] h hs = (h, tt)
  insert-All P p (q ∷ qs) h (k, ks) = elim (Bool-cases (gt q.1 p.1)) [
    | inl up ↦ rw up (k, insert-All P p qs h ks)
    | inr down ↦ rw down (h, (k, ks))
  ]

  pub insertion_sort-All {κ} :
      (P : ℕ × F → Type κ) (ps : List (ℕ × F)) → All P ps → All P (insertion_sort gt ps)
  unfolding insertion_sort
  insertion_sort-All P [] h = tt
  insertion_sort-All P (p ∷ ps) (h, hs) =
      insert-All P p (insertion_sort gt ps) h (insertion_sort-All P ps hs)

  beaten-insert :
      (x : F) (p : ℕ × F) (ps : List (ℕ × F))
      → beaten x (map (λ q. q.1) (insert gt p ps)) ≡ beaten x (map (λ q. q.1) (p ∷ ps))
  unfolding insert
  beaten-insert x p [] = refl
  beaten-insert x p (q ∷ qs) = elim (Bool-cases (gt q.1 p.1)) [
    | inl up ↦ rw up (omega (arith, beaten-insert x p qs))
    | inr down ↦ rw down refl
  ]

  pub beaten-insertion_sort :
      (x : F) (ps : List (ℕ × F))
      → beaten x (map (λ q. q.1) (insertion_sort gt ps)) ≡ beaten x (map (λ q. q.1) ps)
  unfolding insertion_sort
  beaten-insertion_sort x [] = refl
  beaten-insertion_sort x (p ∷ ps) =
      omega (arith, beaten-insert x p (insertion_sort gt ps), beaten-insertion_sort x ps)

  module _ (xs : List F) (ordered : strict_weak gt xs ≡ true) where
    asymmetric : (x y : F) → Among x xs → Among y xs → gt x y ≡ true → gt y x ≡ false
    unfolding strict_weak
    asymmetric x y hx hy up =
        let row = all-Among _ xs x ordered hx in
        let pair = all-Among _ xs y row hy in
        let both = (and-true (not (gt x y && gt y x)) _ pair).0 in
        let down : not (gt y x) ≡ true = rw (up) at both in ground arith

    negative :
        (x y z : F)
        → Among x xs
        → Among y xs
        → Among z xs
        → gt x y ≡ false
        → gt y z ≡ false
        → gt x z ≡ false
    unfolding strict_weak
    negative x y z hx hy hz e e' =
        let row = all-Among _ xs x ordered hx in
        let pair = all-Among _ xs y row hy in
        let triple = all-Among _ xs z (and-true (not (gt x y && gt y x)) _ pair).1 hz in
        let none_between : (not (gt x z) || false || false) ≡ true = rw (e, e') at triple in
        ground arith

    -- No later pair comes before an earlier one.
    abbrev pub Sorted : List (ℕ × F) → Type 0
    Sorted [] = Unit
    Sorted (p ∷ ps) = All (λ q. gt q.1 p.1 ≡ false) ps × Sorted ps

    abbrev pub Inside : List (ℕ × F) → Type ℓ
    Inside = All (λ p. Among p.1 xs)

    after-negative :
        (p q : ℕ × F) (qs : List (ℕ × F))
        → Among p.1 xs
        → Among q.1 xs
        → Inside qs
        → gt q.1 p.1 ≡ false
        → All (λ r. gt r.1 q.1 ≡ false) qs
        → All (λ r. gt r.1 p.1 ≡ false) qs
    after-negative p q [] hp hq i e h = tt
    after-negative p q (r ∷ rs) hp hq (hr, i) e (h, hs) =
        (negative r.1 q.1 p.1 hr hq hp h e, after-negative p q rs hp hq i e hs)

    insert-Sorted :
        (p : ℕ × F) (ps : List (ℕ × F))
        → Among p.1 xs
        → Inside ps
        → Sorted ps
        → Sorted (insert gt p ps)
    unfolding insert
    insert-Sorted p [] hp i s = (tt, tt)
    insert-Sorted p (q ∷ qs) hp (hq, i) (h, s) = elim (Bool-cases (gt q.1 p.1)) [
      | inl up ↦ rw up (
        insert-All (λ r. gt r.1 q.1 ≡ false) p qs (asymmetric q.1 p.1 hq hp up) h,
        insert-Sorted p qs hp i s,
      )
      | inr down ↦ rw down ((down, after-negative p q qs hp hq i down h), (h, s))
    ]

    insertion_sort-Sorted : (ps : List (ℕ × F)) → Inside ps → Sorted (insertion_sort gt ps)
    unfolding insertion_sort
    insertion_sort-Sorted [] i = tt
    insertion_sort-Sorted (p ∷ ps) (h, i) =
        insert-Sorted p (insertion_sort gt ps) h (insertion_sort-All (λ q. Among q.1 xs) ps i)
          (insertion_sort-Sorted ps i)

    none-beaten :
        (x : F) (ps : List (ℕ × F))
        → All (λ q. gt q.1 x ≡ false) ps
        → beaten x (map (λ q. q.1) ps) ≡ 0
    none-beaten x [] h = refl
    none-beaten x (p ∷ ps) (h, hs) = rw (h) (omega (arith, none-beaten x ps hs))

    beaten-at :
        (ps : List (ℕ × F)) (i : ℕ) (p : ℕ × F)
        → Inside ps
        → Sorted ps
        → get_elem? ps i ≡ some p
        → beaten p.1 (map (λ q. q.1) ps) ≤ i
    beaten-at [] i p inside s at = absurd (cc at)
    beaten-at (q ∷ qs) zero p (hq, inside) (h, s) at =
        let same : q ≡ p = ground arith in
        let self : gt q.1 q.1 ≡ false = elim (Bool-cases (gt q.1 q.1)) [
          | inl up ↦ asymmetric q.1 q.1 hq hq up
          | inr down ↦ down
        ] in
        subst (λ r. beaten r.1 (map (λ q. q.1) (q ∷ qs)) ≤ 0) same
          (rw (self) (omega (arith, none-beaten q.1 qs h)))
    beaten-at (q ∷ qs) (suc i) p (hq, inside) (h, s) at =
        ground (arith, beaten-at qs i p inside s at)

    -- What stands at position i has at most i of the values before it.
    pub beaten-sorted :
        (ps : List (ℕ × F)) (i : ℕ) (p : ℕ × F)
        → Inside ps
        → get_elem? (insertion_sort gt ps) i ≡ some p
        → beaten p.1 (map (λ q. q.1) ps) ≤ i
    beaten-sorted ps i p inside at = omega (
      arith,
      beaten-insertion_sort p.1 ps,
      beaten-at (insertion_sort gt ps) i p (insertion_sort-All (λ q. Among q.1 xs) ps inside)
          (insertion_sort-Sorted ps inside) at,
    )
