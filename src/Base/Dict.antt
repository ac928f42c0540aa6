-- ===== src/Base/Dict.antt =====
-- `std::unordered_map` with integer keys, as an association list in an order that nothing fixes.
use Prim.Native.Nat.{ℕ}
use mathlib.Core.Path.{◌≡◌, refl}
use mathlib.Core.Logic.{◌≢◌}
use mathlib.Core.List.{List, [], ◌∷◌}
use mathlib.Core.Option.{Option, none, some}
use native.Mathlib.Omega.{arith}
use from_scratch_inference_e.Base.Tests.{◌==◌, if◌then◌else◌}

module _ {ℓ} {V : Type ℓ} where
  abbrev pub find : ℕ → List (ℕ × V) → Option V
  find k [] = none
  find k ((j, v) ∷ m) = if j == k then some v else find k m

  abbrev pub put : ℕ → V → List (ℕ × V) → List (ℕ × V)
  put key new [] = (key, new) ∷ []
  put key new ((other, old) ∷ rest) =
      if other == key then (key, new) ∷ rest else (other, old) ∷ put key new rest

  abbrev pub remove : ℕ → List (ℕ × V) → List (ℕ × V)
  remove k [] = []
  remove k ((j, w) ∷ m) = if j == k then m else (j, w) ∷ remove k m

  -- Each key stands once.
  abbrev pub Distinct : List (ℕ × V) → Type ℓ
  Distinct [] = Unit
  Distinct ((k, v) ∷ m) = (find k m ≡ none) × Distinct m

module _ {ℓ} {V : Type ℓ} where
  pub find-put :
      (k j : ℕ) (v : V) (m : List (ℕ × V))
      → find j (put k v m) ≡ (if k == j then some v else find j m)
  find-put k j v [] = refl
  find-put k j v ((i, w) ∷ m) = ground (arith, find-put k j v m)

  pub find-remove_ne : (k j : ℕ) (m : List (ℕ × V)) → k ≢ j → find j (remove k m) ≡ find j m
  find-remove_ne k j [] h = refl
  find-remove_ne k j ((i, w) ∷ m) h = ground (arith, find-remove_ne k j m)

  pub find-remove-none : (k j : ℕ) (m : List (ℕ × V)) → find j m ≡ none → find j (remove k m) ≡ none
  find-remove-none k j [] h = refl
  find-remove-none k j ((i, w) ∷ m) h = ground (arith, find-remove-none k j m)

  pub find-remove : (k : ℕ) (m : List (ℕ × V)) → Distinct m → find k (remove k m) ≡ none
  find-remove k [] d = refl
  find-remove k ((i, w) ∷ m) d = ground (arith, find-remove k m d.1)

  pub put-Distinct : (k : ℕ) (v : V) (m : List (ℕ × V)) → Distinct m → Distinct (put k v m)
  put-Distinct k v [] d = (refl, tt)
  put-Distinct k v ((i, w) ∷ m) d = ground (arith, find-put k i v m, put-Distinct k v m d.1)

  pub remove-Distinct : (k : ℕ) (m : List (ℕ × V)) → Distinct m → Distinct (remove k m)
  remove-Distinct k [] d = tt
  remove-Distinct k ((i, w) ∷ m) d =
      ground (arith, find-remove-none k i m d.0, remove-Distinct k m d.1)
