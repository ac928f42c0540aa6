-- ===== src/Base/Names.antt =====
-- `std::unordered_map` with texts as keys, as an association list.
use Prim.Native.String.{String}
use text.Mathlib.Text.{◌==◌}
use text.Mathlib.TextEquality.{eq_iff}
use mathlib.Core.Path.{◌≡◌, refl, sym}
use mathlib.Core.Logic.{◌⊎◌, inl, inr}
use mathlib.Core.Bool.{Bool, true, false}
use mathlib.Core.List.{List, [], ◌∷◌}
use mathlib.Core.Option.{Option, none, some}
use native.Mathlib.Omega.{arith}
use from_scratch_inference_e.Base.Tests.{if◌then◌else◌, Bool-cases}

module _ {ℓ} {V : Type ℓ} where
  abbrev pub lookup : String → List (String × V) → Option V
  lookup k [] = none
  lookup k ((j, v) ∷ m) = if j == k then some v else lookup k m

  abbrev pub has_key : String → List (String × V) → Bool
  has_key k [] = false
  has_key k ((j, v) ∷ m) = if j == k then true else has_key k m

  -- emplace keeps what stands under the key.
  abbrev pub emplace : String → V → List (String × V) → List (String × V)
  emplace k v [] = (k, v) ∷ []
  emplace k v ((j, w) ∷ m) = if j == k then (j, w) ∷ m else (j, w) ∷ emplace k v m

module _ {ℓ} {V : Type ℓ} where
  pub has_key-emplace_self :
      (k : String) (v : V) (m : List (String × V)) → has_key k (emplace k v m) ≡ true
  has_key-emplace_self k v [] = ground (arith, eq_iff k k)
  has_key-emplace_self k v ((j, w) ∷ m) = ground (arith, eq_iff j k, has_key-emplace_self k v m)

  pub has_key-emplace :
      (k j : String) (v : V) (m : List (String × V))
      → has_key j m ≡ true
      → has_key j (emplace k v m) ≡ true
  has_key-emplace k j v [] h = ground arith
  has_key-emplace k j v ((i, w) ∷ m) h =
      ground (arith, eq_iff i k, eq_iff i j, has_key-emplace k j v m)

  pub lookup-has_key :
      (k : String) (m : List (String × V)) → has_key k m ≡ true → (v : V) × (lookup k m ≡ some v)
  lookup-has_key k [] h = absurd (cc h)
  lookup-has_key k ((j, w) ∷ m) h = elim (Bool-cases (j == k)) [
    | inl e ↦ (w, rw (e) refl)
    | inr e ↦ rw (e) (lookup-has_key k m (rw (e) at h))
  ]

  -- What is found was there, or is the new value under its key.
  pub lookup-emplace-cases :
      (k j : String) (v w : V) (m : List (String × V))
      → lookup j (emplace k v m) ≡ some w
      → (lookup j m ≡ some w) ⊎ ((j ≡ k) × (v ≡ w))
  lookup-emplace-cases k j v w [] h = elim (Bool-cases (k == j)) [
    | inl e ↦ let same : some v ≡ some w = rw (e) at h in inr (sym ((eq_iff k j).0 e), cc same)
    | inr e ↦ let never : Path (Option V) none (some w) = rw (e) at h in absurd (cc never)
  ]
  lookup-emplace-cases k j v w ((i, u) ∷ m) h = elim (Bool-cases (i == k)) [
    | inl e ↦ inl (rw (e) at h)
    | inr e ↦
        let h' : (if i == j then some u else lookup j (emplace k v m)) ≡ some w = rw (e) at h in
        elim (Bool-cases (i == j)) [
          | inl e' ↦ inl (rw (e') (rw (e') at h'))
          | inr e' ↦ rw (e') (lookup-emplace-cases k j v w m (rw (e') at h'))
        ]
  ]
