-- ===== src/Manager/Store/Splice.antt =====
-- What a copy into a buffer does to a read of it.
use from_scratch_inference_e.Base.{
  ℕ, zero, suc, ◌+◌, ◌-◌, ◌≤◌, ◌≡◌, refl, sym, subst, ap, ◌∙◌, List, [], ◌∷◌, ◌++◌, arith, length,
  take, drop, length-append, length-take, length-drop, ok,
}
use from_scratch_inference_e.Manager.Store.{copy_into}

module _ {ℓ} {A : Type ℓ} where
  pub drop-drop : (a b : ℕ) (xs : List A) → drop b (drop a xs) ≡ drop (a + b) xs
  drop-drop zero b xs = let e : 0 + b ≡ b = omega arith in rw e refl
  drop-drop (suc a) zero [] = let e : suc a + 0 ≡ suc a = omega arith in rw e refl
  drop-drop (suc a) (suc b) [] = let e : suc a + suc b ≡ suc (a + suc b) = omega arith in rw e refl
  drop-drop (suc a) b (x ∷ xs) =
      let e : suc a + b ≡ suc (a + b) = omega arith in rw e (drop-drop a b xs)

  pub take-add : (a b : ℕ) (xs : List A) → take (a + b) xs ≡ take a xs ++ take b (drop a xs)
  take-add zero b xs = let e : 0 + b ≡ b = omega arith in rw e refl
  take-add (suc a) zero [] = let e : suc a + 0 ≡ suc a = omega arith in rw e refl
  take-add (suc a) (suc b) [] = let e : suc a + suc b ≡ suc (a + suc b) = omega arith in rw e refl
  take-add (suc a) b (x ∷ xs) =
      let e : suc a + b ≡ suc (a + b) = omega arith in rw e (ap (◌∷◌ x) (take-add a b xs))

  pub take-append_left : (n : ℕ) (xs ys : List A) → n ≤ length xs → take n (xs ++ ys) ≡ take n xs
  take-append_left zero xs ys h = refl
  take-append_left (suc n) [] ys h = elim h [ ]
  take-append_left (suc n) (x ∷ xs) ys h = ap (◌∷◌ x) (take-append_left n xs ys (omega arith))

  pub drop-append_left :
      (n : ℕ) (xs ys : List A) → n ≤ length xs → drop n (xs ++ ys) ≡ drop n xs ++ ys
  drop-append_left zero xs ys h = refl
  drop-append_left (suc n) [] ys h = elim h [ ]
  drop-append_left (suc n) (x ∷ xs) ys h = drop-append_left n xs ys (omega arith)

  pub drop-append_right : (n : ℕ) (xs ys : List A) → drop (length xs + n) (xs ++ ys) ≡ drop n ys
  drop-append_right n [] ys = let e : 0 + n ≡ n = omega arith in rw e refl
  drop-append_right n (x ∷ xs) ys =
      let e : suc (length xs) + n ≡ suc (length xs + n) = omega arith in
      rw e (drop-append_right n xs ys)

  pub take_all : (xs ys : List A) → take (length xs) (xs ++ ys) ≡ xs
  take_all [] ys = refl
  take_all (x ∷ xs) ys = ap (◌∷◌ x) (take_all xs ys)

  pub take-take : (a b : ℕ) (xs : List A) → a ≤ b → take a (take b xs) ≡ take a xs
  take-take zero b xs h = refl
  take-take (suc a) zero xs h = elim h [ ]
  take-take (suc a) (suc b) [] h = refl
  take-take (suc a) (suc b) (x ∷ xs) h = ap (◌∷◌ x) (take-take a b xs (omega arith))

  pub take-drop-take :
      (k o b : ℕ) (xs : List A) → o + k ≤ b → take k (drop o (take b xs)) ≡ take k (drop o xs)
  take-drop-take k zero b xs h = take-take k b xs (omega arith)
  take-drop-take k (suc o) zero xs h = absurd (omega arith)
  take-drop-take k (suc o) (suc b) [] h = refl
  take-drop-take k (suc o) (suc b) (x ∷ xs) h = take-drop-take k o b xs (omega arith)

  -- The buffer after the copy.
  abbrev pub spliced : List A → ℕ → List A → List A
  spliced store off src = take off store ++ (src ++ drop (off + length src) store)

  module _ (store src : List A) (off : ℕ) (fits : off + length src ≤ length store) where
    length-front : length (take off store) ≡ off
    length-front = omega (arith, length-take off store)

    pub length-spliced : length (spliced store off src) ≡ length store
    length-spliced = omega (
      arith,
      length-append (take off store) (src ++ drop (off + length src) store),
      length-append src (drop (off + length src) store),
      length-front,
      length-drop (off + length src) store,
    )

    pub copy_into-eq : copy_into store off src ≡ ok (spliced store off src)
    unfolding copy_into
    copy_into-eq = ground arith

    drop-front : drop off (spliced store off src) ≡ src ++ drop (off + length src) store
    drop-front =
        let at : length (take off store) + 0 ≡ off = omega (arith, length-front) in
        subst (λ n. drop n (spliced store off src) ≡ src ++ drop (off + length src) store) at
          (drop-append_right 0 (take off store) (src ++ drop (off + length src) store))

    -- A read of the place that was written gives what was written.
    pub read_self : take (length src) (drop off (spliced store off src)) ≡ src
    read_self = rw drop-front (take_all src (drop (off + length src) store))

    -- A read of another place gives what was there.
    pub read_before :
        (o k : ℕ) → o + k ≤ off → take k (drop o (spliced store off src)) ≡ take k (drop o store)
    read_before o k h =
        rw
          (drop-append_left o (take off store) (src ++ drop (off + length src) store)
            (omega (arith, length-front)))
          (take-append_left k (drop o (take off store)) _
              (omega (arith, length-drop o (take off store), length-front))
            ∙ take-drop-take k o off store h)

    pub read_after :
        (o k : ℕ)
        → off + length src ≤ o
        → take k (drop o (spliced store off src)) ≡ take k (drop o store)
    read_after o k h =
        let back = o - (off + length src) in
        let e : off + (length src + back) ≡ o = omega arith in
        let e' : off + length src + back ≡ o = omega arith in
        ap (take k) (
          subst (λ n. drop o (spliced store off src) ≡ drop n store) e'
            (subst (λ n. drop n (spliced store off src) ≡ drop (off + length src + back) store) e
              (sym (drop-drop off (length src + back) (spliced store off src))
                ∙ (ap (drop (length src + back)) drop-front
                    ∙ (drop-append_right back src (drop (off + length src) store)
                        ∙ drop-drop (off + length src) back store)))))
