-- ===== src/Layers/Joined/Simple.antt =====
-- linear, silu_mul, add_inplace and rms_norm on two inputs and on both in one.
use from_scratch_inference_e.Base.{
  ℕ, ◌+◌, ◌*◌, ◌≡◌, refl, ap, sym, ◌∙◌, List, [], ◌∷◌, ◌++◌, arith, ==_refl, length, length-append,
  Result, ok, err, ◌>>=◌,
}
use native.Mathlib.Nat.{add-mul}
use from_scratch_inference_e.Tensor.{Tensor}
use from_scratch_inference_e.Layers.Floats.{Floats, Gemm}
use from_scratch_inference_e.Layers.Rows.{zip_with}
use from_scratch_inference_e.Layers.Linear.{silu_mul, add_inplace}
use from_scratch_inference_e.Layers.Norm.{rms_norm, norm_row}
use from_scratch_inference_e.Layers.Shapes.Rows.{returned, Long, zip_with-Long}
use from_scratch_inference_e.Layers.Shapes.Simple.{
  IsMatrix, IsVector, IsProduct, same_shape_refl, norm_row-Long,
}
use from_scratch_inference_e.Layers.Joined.Rows.{
  Three, Three-ok, Three-bind, Cat, bind-ok, each_row-Three,
}

module _ {ℓ} {F : Type ℓ} where
  -- Matrices of `s1` and `s2` rows, and the matrix of the rows of both.
  pub record Joined (s1 s2 w : ℕ) (x x1 x2 : Tensor F) : Type ℓ where
    pub rows : x.data_ ≡ x1.data_ ++ x2.data_
    pub all : IsMatrix (s1 + s2) w x
    pub first : IsMatrix s1 w x1
    pub second : IsMatrix s2 w x2

  -- Every row of a product is that row times the matrix.
  pub record IsRowwise (gemm : Gemm F) : Type ℓ where
    pub product : IsProduct gemm
    pub append :
        (s1 s2 inner out : ℕ) (x y w : List F)
        → Long (s1 * inner) x
        → Long (s2 * inner) y
        → gemm (s1 + s2) inner out (x ++ y) w ≡ gemm s1 inner out x w ++ gemm s2 inner out y w

  pub rows-Joined :
      (s1 s2 w : ℕ) (xs ys zs : List F)
      → Cat (s1 * w) (s2 * w) xs ys zs
      → Joined s1 s2 w
          (record { shape = (s1 + s2) ∷ w ∷ []; data_ = xs })
          (record { shape = s1 ∷ w ∷ []; data_ = ys })
          (record { shape = s2 ∷ w ∷ []; data_ = zs })
  rows-Joined s1 s2 w xs ys zs (cat, long1, long2) = record {
    rows = cat;
    all = record {
      shape = refl;
      size = ap length cat ∙ omega (arith, length-append ys zs, long1, long2, add-mul s1 s2 w);
    };
    first = record { shape = refl; size = long1 };
    second = record { shape = refl; size = long2 };
  }

module _ {ℓ} {F : Type ℓ} (f : F → F → F) where
  regroup_cons :
      (c : F) (m k : Result (List F))
      → ((m >>= λ a. k >>= λ b. ok (a ++ b)) >>= λ r. ok (c ∷ r))
        ≡ ((m >>= λ a. ok (c ∷ a)) >>= λ a. k >>= λ b. ok (a ++ b))
  regroup_cons c (err e) k = refl
  regroup_cons c (ok a) (err e) = refl
  regroup_cons c (ok a) (ok b) = refl

  zip_with-append :
      (xs xs' ys ys' : List F)
      → length xs ≡ length ys
      → zip_with f (xs ++ xs') (ys ++ ys')
        ≡ (zip_with f xs ys >>= λ a. zip_with f xs' ys' >>= λ b. ok (a ++ b))
  unfolding zip_with
  zip_with-append [] xs' [] ys' long = sym (bind-ok (zip_with f xs' ys'))
  zip_with-append [] xs' (y ∷ ys) ys' long = absurd (omega arith)
  zip_with-append (x ∷ xs) xs' [] ys' long = absurd (omega arith)
  zip_with-append (x ∷ xs) xs' (y ∷ ys) ys' long =
      ap (λ m. m >>= λ r. ok (f x y ∷ r)) (zip_with-append xs xs' ys ys' (omega arith))
      ∙ regroup_cons (f x y) (zip_with f xs ys) (zip_with f xs' ys')

  zip_with-Three :
      (n1 n2 : ℕ) (xs xs' ys ys' : List F)
      → Long n1 xs
      → Long n2 xs'
      → Long n1 ys
      → Long n2 ys'
      → Three
          (Cat n1 n2)
          (zip_with f (xs ++ xs') (ys ++ ys'))
          (zip_with f xs ys)
          (zip_with f xs' ys')
  zip_with-Three n1 n2 xs xs' ys ys' lx lx' ly ly' =
      let (a, ea, la) =
        returned (Long (length xs)) (zip_with f xs ys) (zip_with-Long f xs ys (omega arith)) in
      let (b, eb, lb) =
        returned (Long (length xs')) (zip_with f xs' ys') (zip_with-Long f xs' ys' (omega arith)) in
      record {
        all = a ++ b;
        first = a;
        second = b;
        all_eq = zip_with-append xs xs' ys ys' (omega arith) ∙ rw (ea, eb) refl;
        first_eq = ea;
        second_eq = eb;
        holds = (refl, la ∙ lx, lb ∙ lx');
      }

module _ {ℓ} {F D : Type ℓ} (A : Floats F D) (s1 s2 : ℕ) where
  pub add_inplace-Joined :
      (w : ℕ) (x x1 x2 y y1 y2 : Tensor F)
      → Joined s1 s2 w x x1 x2
      → Joined s1 s2 w y y1 y2
      → Three (Joined s1 s2 w) (add_inplace A x y) (add_inplace A x1 y1) (add_inplace A x2 y2)
  unfolding add_inplace
  add_inplace-Joined w x x1 x2 y y1 y2 hx hy =
      rw (hx.rows, hy.rows, hx.all.shape, hx.first.shape, hx.second.shape)
        (Three-bind (Cat (s1 * w) (s2 * w)) (Joined s1 s2 w) _ _ _ _ _ _
          (zip_with-Three A.add (s1 * w) (s2 * w) x1.data_ x2.data_ y1.data_ y2.data_ hx.first.size
            hx.second.size hy.first.size hy.second.size)
          λ a b c e. Three-ok (Joined s1 s2 w) _ _ _ (rows-Joined s1 s2 w a b c e))

  pub silu_mul-Joined :
      (w : ℕ) (x x1 x2 y y1 y2 : Tensor F)
      → Joined s1 s2 w x x1 x2
      → Joined s1 s2 w y y1 y2
      → Three (Joined s1 s2 w) (silu_mul A x y) (silu_mul A x1 y1) (silu_mul A x2 y2)
  unfolding silu_mul
  silu_mul-Joined w x x1 x2 y y1 y2 hx hy =
      rw
        (
          hx.rows,
          hy.rows,
          hx.all.shape,
          hx.first.shape,
          hx.second.shape,
          hy.all.shape,
          hy.first.shape,
          hy.second.shape,
          same_shape_refl ((s1 + s2) ∷ w ∷ []),
          same_shape_refl (s1 ∷ w ∷ []),
          same_shape_refl (s2 ∷ w ∷ []),
        )
        (Three-bind (Cat (s1 * w) (s2 * w)) (Joined s1 s2 w) _ _ _ _ _ _
          (zip_with-Three (λ g u. A.mul (A.div g (A.add A.one (A.exp (A.neg g)))) u) (s1 * w)
            (s2 * w) x1.data_ x2.data_ y1.data_ y2.data_ hx.first.size hx.second.size hy.first.size
            hy.second.size)
          λ a b c e. Three-ok (Joined s1 s2 w) _ _ _ (rows-Joined s1 s2 w a b c e))

  pub rms_norm-Joined :
      (h : ℕ) (x x1 x2 weight : Tensor F) (eps : D)
      → Joined s1 s2 h x x1 x2
      → IsVector h weight
      → Three
          (Joined s1 s2 h)
          (rms_norm A x weight eps)
          (rms_norm A x1 weight eps)
          (rms_norm A x2 weight eps)
  unfolding rms_norm
  rms_norm-Joined h x x1 x2 weight eps hx hw =
      let f : ℕ → List F → Result (List F) = λ i row. norm_row A eps h weight.data_ row in
      rw (hx.rows, hx.all.shape, hx.first.shape, hx.second.shape, hw.count, ==_refl h)
        (Three-bind (Cat (s1 * h) (s2 * h)) (Joined s1 s2 h) _ _ _ _ _ _
          (each_row-Three f f f h h s1 s2 x1.data_ x2.data_
            (λ j row _ e. norm_row-Long A eps h weight.data_ row hw.size e)
            (λ j row _ e. norm_row-Long A eps h weight.data_ row hw.size e) (λ j row _ _. refl)
            (λ j row _ _. refl) hx.first.size hx.second.size)
          λ a b c e. Three-ok (Joined s1 s2 h) _ _ _ (rows-Joined s1 s2 h a b c e))
