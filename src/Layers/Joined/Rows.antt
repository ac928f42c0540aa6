-- ===== src/Layers/Joined/Rows.antt =====
-- Three calls side by side, the last two on the two parts of what the first works on; and the loops
-- over rows.
use native.Mathlib.Nat.{suc-mul}
use from_scratch_inference_e.Base.{
  ℕ, zero, suc, ◌+◌, ◌*◌, ◌≤◌, ◌<◌, ◌≡◌, refl, sym, subst, ap, ◌∙◌, List, [], ◌∷◌, ◌++◌,
  append_assoc, arith, length, length-append, length-drop, take, drop, Result, ok, err, ◌>>=◌,
}
use from_scratch_inference_e.Tensor.Rows.{slice, slice_in, length-slice}
use from_scratch_inference_e.Manager.Store.Splice.{take-append_left, drop-append_left}
use from_scratch_inference_e.Layers.Rows.{each_row}
use from_scratch_inference_e.Layers.Shapes.Rows.{Returns, returned, Long, each_row-Long}

module _ {ℓ} {A B C : Type ℓ} where
  pub record Three (R : A → B → C → Type ℓ) (m : Result A) (m1 : Result B) (m2 : Result C)
      : Type ℓ where
    pub all : A
    pub first : B
    pub second : C
    pub all_eq : m ≡ ok all
    pub first_eq : m1 ≡ ok first
    pub second_eq : m2 ≡ ok second
    pub holds : R all first second

  pub Three-ok :
      (R : A → B → C → Type ℓ) (a : A) (b : B) (c : C) → R a b c → Three R (ok a) (ok b) (ok c)
  Three-ok R a b c r = record {
    all = a;
    first = b;
    second = c;
    all_eq = refl;
    first_eq = refl;
    second_eq = refl;
    holds = r;
  }

  -- The same first call in all three.
  pub Three-same {κ} :
      {D : Type κ} (P : D → Type 0) (R : A → B → C → Type ℓ) (m : Result D) (f : D → Result A)
      (g : D → Result B) (h : D → Result C)
      → Returns P m
      → ((d : D) → P d → Three R (f d) (g d) (h d))
      → Three R (m >>= f) (m >>= g) (m >>= h)
  Three-same P R (ok d) f g h r k = k d r
  Three-same P R (err e) f g h r k = elim r [ ]

module _ {ℓ} {A B C A' B' C' : Type ℓ} where
  pub Three-bind :
      (Q : A → B → C → Type ℓ) (R : A' → B' → C' → Type ℓ) (m : Result A) (m1 : Result B)
      (m2 : Result C) (f : A → Result A') (g : B → Result B') (h : C → Result C')
      → Three Q m m1 m2
      → ((a : A) (b : B) (c : C) → Q a b c → Three R (f a) (g b) (h c))
      → Three R (m >>= f) (m1 >>= g) (m2 >>= h)
  Three-bind Q R m m1 m2 f g h t k =
      rw (t.all_eq, t.first_eq, t.second_eq) (k t.all t.first t.second t.holds)

module _ {ℓ} {F : Type ℓ} where
  -- Two buffers of `n1` and `n2` values, and both in one.
  abbrev pub Cat : ℕ → ℕ → List F → List F → List F → Type ℓ
  Cat n1 n2 xs ys zs = (xs ≡ ys ++ zs) × Long n1 ys × Long n2 zs

  slice-first : (xs ys : List F) (n : ℕ) → n ≤ length xs → slice (xs ++ ys) 0 n ≡ ok (take n xs)
  slice-first xs ys n h =
      slice_in (xs ++ ys) 0 n (omega (arith, length-append xs ys))
      ∙ ap (λ zs. ok zs) (take-append_left n xs ys h)

  pub bind-ok : (m : Result (List F)) → (m >>= λ rest. ok ([] ++ rest)) ≡ m
  bind-ok (ok a) = refl
  bind-ok (err e) = refl

  pub regroup :
      (m : Result (List F)) (n k : Result (List F))
      → (m >>= λ o. (n >>= λ out. k >>= λ rest. ok (out ++ rest)) >>= λ r. ok (o ++ r))
        ≡ ((m >>= λ o. n >>= λ out. ok (o ++ out)) >>= λ out. k >>= λ rest. ok (out ++ rest))
  regroup (err e) n k = refl
  regroup (ok a) (err e) k = refl
  regroup (ok a) (ok b) (err e) = refl
  regroup (ok a) (ok b) (ok c) = ap (λ zs. ok zs) (sym (append_assoc a b c))

  -- The rows of the first buffer, and then those of the second.
  each_row-append :
      (f g : ℕ → List F → Result (List F)) (width i n1 n2 : ℕ) (xs ys : List F)
      → ((j : ℕ) (row : List F) → i ≤ j → j < i + n1 → Long width row → f j row ≡ g j row)
      → Long (n1 * width) xs
      → each_row f width i (n1 + n2) (xs ++ ys) ≡ (
          each_row g width i n1 xs >>= λ out.
          each_row f width (i + n1) n2 ys >>= λ rest. ok (out ++ rest))
  unfolding each_row
  each_row-append f g width i zero n2 [] ys same long =
      let none_before : 0 + n2 ≡ n2 = omega arith in
      let here : i + 0 ≡ i = omega arith in
      rw (none_before, here) (sym (bind-ok (each_row f width i n2 ys)))
  each_row-append f g width i zero n2 (x ∷ xs) ys same long = absurd (omega arith)
  each_row-append f g width i (suc n1) n2 xs ys same long =
      let enough : width ≤ length xs = omega (arith, suc-mul n1 width) in
      let row = take width xs in
      let one_more : suc n1 + n2 ≡ suc (n1 + n2) = omega arith in
      let moved : i + suc n1 ≡ i + 1 + n1 = omega arith in
      rw
        (
          one_more,
          moved,
          slice-first xs ys width enough,
          slice_in xs 0 width (omega arith),
          same i row (omega arith) (omega arith) (length-slice xs 0 width (omega arith)),
          drop-append_left width xs ys enough,
          each_row-append f g width (i + 1) n1 n2 (drop width xs) ys
              (λ j r a b c. same j r (omega arith) (omega arith) c)
              (omega (arith, suc-mul n1 width, length-drop width xs)),
        )
        (regroup (g i row) (each_row g width (i + 1) n1 (drop width xs))
          (each_row f width (i + 1 + n1) n2 ys))

  -- The same rows under another numbering.
  pub each_row-shift :
      (f g : ℕ → List F → Result (List F)) (width i k n : ℕ) (xs : List F)
      → ((j : ℕ) (row : List F) → j < n → Long width row → f (i + j) row ≡ g (k + j) row)
      → Long (n * width) xs
      → each_row f width i n xs ≡ each_row g width k n xs
  unfolding each_row
  each_row-shift f g width i k zero xs same long = refl
  each_row-shift f g width i k (suc n) xs same long =
      let enough : width ≤ length xs = omega (arith, suc-mul n width) in
      let row = take width xs in
      let here : (f i row) ≡ g k row =
        subst (λ a. f a row ≡ g k row) (omega arith)
          (subst (λ b. f (i + 0) row ≡ g b row) (omega arith)
            (same 0 row (omega arith) (length-slice xs 0 width (omega arith)))) in
      rw
        (
          slice_in xs 0 width (omega arith),
          here,
          each_row-shift f g width (i + 1) (k + 1) n (drop width xs)
              (λ j r lt e.
                subst (λ a. f a r ≡ g (k + 1 + j) r) (omega arith)
                  (subst (λ b. f (i + suc j) r ≡ g b r) (omega arith)
                    (same (suc j) r (omega arith) e)))
              (omega (arith, suc-mul n width, length-drop width xs)),
        )
        refl

  -- A loop over all rows, and the loops over the two parts.
  pub each_row-Three :
      (f f1 f2 : ℕ → List F → Result (List F)) (width v n1 n2 : ℕ) (xs ys : List F)
      → ((j : ℕ) (row : List F) → j < n1 → Long width row → Returns (Long v) (f1 j row))
      → ((j : ℕ) (row : List F) → j < n2 → Long width row → Returns (Long v) (f2 j row))
      → ((j : ℕ) (row : List F) → j < n1 → Long width row → f j row ≡ f1 j row)
      → ((j : ℕ) (row : List F) → j < n2 → Long width row → f (n1 + j) row ≡ f2 j row)
      → Long (n1 * width) xs
      → Long (n2 * width) ys
      → Three
          (Cat (n1 * v) (n2 * v))
          (each_row f width 0 (n1 + n2) (xs ++ ys))
          (each_row f1 width 0 n1 xs)
          (each_row f2 width 0 n2 ys)
  each_row-Three f f1 f2 width v n1 n2 xs ys total1 total2 same1 same2 long1 long2 =
      let (a, ea, la) =
        returned (Long (n1 * v)) (each_row f1 width 0 n1 xs)
          (each_row-Long f1 width v 0 n1 xs (λ j r _ lt e. total1 j r (omega arith) e) long1) in
      let (b, eb, lb) =
        returned (Long (n2 * v)) (each_row f2 width 0 n2 ys)
          (each_row-Long f2 width v 0 n2 ys (λ j r _ lt e. total2 j r (omega arith) e) long2) in
      let split =
        each_row-append f f1 width 0 n1 n2 xs ys (λ j r _ lt e. same1 j r (omega arith) e) long1 in
      let shifted : each_row f width (0 + n1) n2 ys ≡ each_row f2 width 0 n2 ys =
        each_row-shift f f2 width (0 + n1) 0 n2 ys
          (λ j r lt e.
            subst (λ t. f t r ≡ f2 (0 + j) r) (omega arith)
              (subst (λ t. f (n1 + j) r ≡ f2 t r) (omega arith) (same2 j r lt e)))
          long2 in
      record {
        all = a ++ b;
        first = a;
        second = b;
        all_eq = split ∙ rw (ea, shifted, eb) refl;
        first_eq = ea;
        second_eq = eb;
        holds = (refl, la, lb);
      }
