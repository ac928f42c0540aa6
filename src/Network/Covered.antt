-- ===== src/Network/Covered.antt =====
-- The loops of Model::quantize over the layers and their keys: every key gets its int8 matrix.
use Prim.Native.String.{String}
use native.Mathlib.Decide.{ℕ_discrete}
use from_scratch_inference_e.Base.{
  ℕ, zero, suc, ◌+◌, ◌≤◌, ◌<◌, ◌≡◌, refl, sym, subst, ap, ◌∙◌, inl, inr, List, [], ◌∷◌, true, some,
  arith, All, ok,
}
use from_scratch_inference_e.Base.Names.{
  lookup, lookup-has_key, has_key, emplace, has_key-emplace, has_key-emplace_self,
  lookup-emplace-cases,
}
use from_scratch_inference_e.Tensor.{Tensor}
use from_scratch_inference_e.Layers.Floats.{Floats}
use from_scratch_inference_e.Layers.Shapes.Rows.{Returns, returned}
use from_scratch_inference_e.Layers.Shapes.Simple.{IsMatrix}
use from_scratch_inference_e.Quant.{QuantizedMatrix, quantize_rowwise_int8}
use from_scratch_inference_e.Quant.Shapes.{IsQuantized, quantize_rowwise_int8-IsQuantized}
use from_scratch_inference_e.Network.State.{layer_key, get}
use from_scratch_inference_e.Network.Quantize.{projection_keys, quantize_keys, quantize_layers}

All-map {ℓ} :
    {A : Type ℓ} (P Q : A → Type 0) → ((a : A) → P a → Q a) → (xs : List A) → All P xs → All Q xs
All-map P Q f [] h = tt
All-map P Q f (x ∷ xs) h = (f x h.0, All-map P Q f xs h.1)

-- The projections of a layer, and the keys that their weights have in a checkpoint.
pub data Projection : Type 0 where
  q_proj k_proj v_proj o_proj gate_proj up_proj down_proj : Projection

unfoldable pub projection_key : ℕ → Projection → String
unfolding layer_key
projection_key l q_proj = layer_key l "self_attn.q_proj.weight"
projection_key l k_proj = layer_key l "self_attn.k_proj.weight"
projection_key l v_proj = layer_key l "self_attn.v_proj.weight"
projection_key l o_proj = layer_key l "self_attn.o_proj.weight"
projection_key l gate_proj = layer_key l "mlp.gate_proj.weight"
projection_key l up_proj = layer_key l "mlp.up_proj.weight"
projection_key l down_proj = layer_key l "mlp.down_proj.weight"

module _ {ℓ} {F D : Type ℓ} (A : Floats F D) (weights : List (String × Tensor F)) where
  -- The int8 matrix that quantisation makes of the weight under the key.
  abbrev pub Quantizes : String → QuantizedMatrix F → Type ℓ
  Quantizes key q = (w : Tensor F) × (get weights key ≡ ok w) × (quantize_rowwise_int8 A w ≡ ok q)

  abbrev pub Made : List (String × QuantizedMatrix F) → Type ℓ
  Made quant = (key : String) (q : QuantizedMatrix F) → lookup key quant ≡ some q → Quantizes key q

  -- Whatever shape the weight has, the int8 matrix has it too.
  pub Quantizes-IsQuantized :
      (key : String) (q : QuantizedMatrix F) (out inner : ℕ)
      → Quantizes key q
      → Returns (IsMatrix out inner) (get weights key)
      → IsQuantized out inner q
  Quantizes-IsQuantized key q out inner (w, ew, eq) h =
      let hw : IsMatrix out inner w = rw (ew) at h in
      let hq : Returns (IsQuantized out inner) (quantize_rowwise_int8 A w) =
        quantize_rowwise_int8-IsQuantized A out inner w hw in
      rw (eq) at hq

  abbrev pub Ready : String → Type 0
  Ready key = (out : ℕ) × (inner : ℕ) × Returns (IsMatrix out inner) (get weights key)

  emplace-Made :
      (key : String) (w : Tensor F) (q : QuantizedMatrix F)
      (quant : List (String × QuantizedMatrix F))
      → get weights key ≡ ok w
      → quantize_rowwise_int8 A w ≡ ok q
      → Made quant
      → Made (emplace key q quant)
  emplace-Made key w q quant ew eq made j r at = elim (lookup-emplace-cases key j q r quant at) [
    | inl old ↦ made j r old
    | inr new ↦ (w, subst (λ i. get weights i ≡ ok w) (sym new.0) ew, eq ∙ ap ok new.1)
  ]

  -- The keys are added, and those that were there stay.
  record Extends (keys : List String) (quant quant' : List (String × QuantizedMatrix F))
      : Type ℓ where
    made : Made quant'
    added : All (λ key. has_key key quant' ≡ true) keys
    kept : (key : String) → has_key key quant ≡ true → has_key key quant' ≡ true

  quantize_keys-Extends :
      (keys : List String) (quant : List (String × QuantizedMatrix F))
      → All Ready keys
      → Made quant
      → (quant' : List (String × QuantizedMatrix F)) × (quantize_keys A weights keys quant
          ≡ ok quant')
        × Extends keys quant quant'
  unfolding quantize_keys
  quantize_keys-Extends [] quant ready made =
      (quant, refl, record { made = made; added = tt; kept = λ key h. h })
  quantize_keys-Extends (key ∷ keys) quant ((out, inner, h), ready) made =
      let (w, ew, hw) = returned _ (get weights key) h in
      let (q, eq, hq) =
        returned _ (quantize_rowwise_int8 A w)
          (quantize_rowwise_int8-IsQuantized A out inner w hw) in
      let (quant', e, x) =
        quantize_keys-Extends keys (emplace key q quant) ready
          (emplace-Made key w q quant ew eq made) in
      (
        quant',
        rw (ew, eq) e,
        record {
          made = x.made;
          added = (x.kept key (has_key-emplace_self key q quant), x.added);
          kept = λ j old. x.kept j (has_key-emplace key j q quant old);
        },
      )

  abbrev pub HasKeys : ℕ → List (String × QuantizedMatrix F) → Type 0
  HasKeys l quant = All (λ key. has_key key quant ≡ true) (projection_keys l)

  pub quantize_layers-HasKeys :
      (n l : ℕ) (quant : List (String × QuantizedMatrix F))
      → ((j : ℕ) → l ≤ j → j < l + n → All Ready (projection_keys j))
      → Made quant
      → (quant' : List (String × QuantizedMatrix F)) × (quantize_layers A weights n l quant
          ≡ ok quant')
        × Made quant'
        × ((key : String) → has_key key quant ≡ true → has_key key quant' ≡ true)
        × ((j : ℕ) → l ≤ j → j < l + n → HasKeys j quant')
  unfolding quantize_layers
  quantize_layers-HasKeys zero l quant ready made =
      (quant, refl, made, λ key h. h, λ j le lt. absurd (omega arith))
  quantize_layers-HasKeys (suc n) l quant ready made =
      let (quant1, e1, x1) =
        quantize_keys-Extends (projection_keys l) quant (ready l (omega arith) (omega arith))
          made in
      let (quant2, e2, made2, kept, covers) =
        quantize_layers-HasKeys n (l + 1) quant1 (λ j le lt. ready j (omega arith) (omega arith))
          x1.made in
      (
        quant2,
        rw (e1) e2,
        made2,
        λ key h. kept key (x1.kept key h),
        λ j le lt. elim (ℕ_discrete l j) [
          | yes mine ↦
              subst (λ i. HasKeys i quant2) mine
                (All-map (λ key. has_key key quant1 ≡ true) (λ key. has_key key quant2 ≡ true) kept
                  (projection_keys l) x1.added)
          | no other ↦ covers j (omega (arith, other)) (omega arith)
        ],
      )

  -- Each projection of the layer has the int8 matrix of its weight.
  abbrev pub Covers : ℕ → List (String × QuantizedMatrix F) → Type ℓ
  Covers l quant =
      (p : Projection)
      → (q : QuantizedMatrix F) × (lookup (projection_key l p) quant ≡ some q)
        × Quantizes (projection_key l p) q

  found-Quantizes :
      (key : String) (quant : List (String × QuantizedMatrix F))
      → Made quant
      → has_key key quant ≡ true
      → (q : QuantizedMatrix F) × (lookup key quant ≡ some q) × Quantizes key q
  found-Quantizes key quant made h = let (q, e) = lookup-has_key key quant h in (q, e, made key q e)

  pub HasKeys-Covers :
      (l : ℕ) (quant : List (String × QuantizedMatrix F))
      → Made quant
      → HasKeys l quant
      → Covers l quant
  unfolding projection_keys projection_key
  HasKeys-Covers l quant made h q_proj = found-Quantizes (projection_key l q_proj) quant made h.0
  HasKeys-Covers l quant made h k_proj = found-Quantizes (projection_key l k_proj) quant made h.1.0
  HasKeys-Covers l quant made h v_proj =
      found-Quantizes (projection_key l v_proj) quant made h.1.1.0
  HasKeys-Covers l quant made h o_proj =
      found-Quantizes (projection_key l o_proj) quant made h.1.1.1.0
  HasKeys-Covers l quant made h gate_proj =
      found-Quantizes (projection_key l gate_proj) quant made h.1.1.1.1.0
  HasKeys-Covers l quant made h up_proj =
      found-Quantizes (projection_key l up_proj) quant made h.1.1.1.1.1.0
  HasKeys-Covers l quant made h down_proj =
      found-Quantizes (projection_key l down_proj) quant made h.1.1.1.1.1.1.0
