-- ===== src/Network/Quantized.antt =====
-- A model after Model::quantize.
use Prim.Native.String.{String}
use from_scratch_inference_e.Base.{
  ℕ, ◌<◌, ◌≡◌, refl, inl, inr, List, [], true, false, Option, some, none, Option-cases, arith, All,
  ok,
}
use from_scratch_inference_e.Base.Names.{lookup}
use from_scratch_inference_e.Layers.Floats.{Floats, Gemm}
use from_scratch_inference_e.Layers.Shapes.Rows.{Returns}
use from_scratch_inference_e.Layers.Shapes.Simple.{IsMatrix}
use from_scratch_inference_e.Quant.{QuantizedMatrix}
use from_scratch_inference_e.Network.State.{Model, get, find_quant}
use from_scratch_inference_e.Network.Quantize.{projection_keys, quantize}
use from_scratch_inference_e.Network.Fits.{Fits, LayerFits, Weighs}
use from_scratch_inference_e.Network.Covered.{
  Made, Ready, Covers, HasKeys-Covers, Quantizes-IsQuantized, quantize_layers-HasKeys,
}

module _ {ℓ} {F D : Type ℓ} (A : Floats F D) (gemm : Gemm F) (m : Model F D) where
  Weighs-get :
      (out inner : ℕ) (key : String)
      → m.quantized ≡ false
      → Weighs A gemm m out inner key
      → Returns (IsMatrix out inner) (get m.weights key)
  unfolding find_quant
  Weighs-get out inner key plain w =
      let none_yet : find_quant A gemm m key ≡ none = rw (plain) refl in rw (none_yet, Weighs) at w

  abbrev quantized_with : List (String × QuantizedMatrix F) → Model F D
  quantized_with quant = record m { quant = quant; quantized = true }

  get-Weighs :
      (quant : List (String × QuantizedMatrix F)) (out inner : ℕ) (key : String)
      → Made A m.weights quant
      → Returns (IsMatrix out inner) (get m.weights key)
      → Weighs A gemm (quantized_with quant) out inner key
  unfolding find_quant
  get-Weighs quant out inner key made h = elim (Option-cases (lookup key quant)) [
    | inl e ↦ rw (e, Weighs) h
    | inr found ↦
        rw (found.1, Weighs)
          (Quantizes-IsQuantized A m.weights key found.0 out inner (made key found.0 found.1) h)
  ]

  module _ (plain : m.quantized ≡ false) (inter l : ℕ) (f : LayerFits A gemm m inter l) where
    layer_Ready : All (Ready A m.weights) (projection_keys l)
    unfolding projection_keys
    layer_Ready = (
      (_, _, Weighs-get _ _ _ plain f.q),
      (
        (_, _, Weighs-get _ _ _ plain f.k),
        (
          (_, _, Weighs-get _ _ _ plain f.v),
          (
            (_, _, Weighs-get _ _ _ plain f.o),
            (
              (_, _, Weighs-get _ _ _ plain f.gate),
              ((_, _, Weighs-get _ _ _ plain f.up), ((_, _, Weighs-get _ _ _ plain f.down), tt)),
            ),
          ),
        ),
      ),
    )

    layer_quantized :
        (quant : List (String × QuantizedMatrix F))
        → Made A m.weights quant
        → LayerFits A gemm (quantized_with quant) inter l
    layer_quantized quant made =
        let over : (out inn : ℕ) (key : String)
            → Weighs A gemm m out inn key
            → Weighs A gemm (quantized_with quant) out inn key =
          λ out inn key w. get-Weighs quant out inn key made (Weighs-get out inn key plain w) in
        record {
          norm1 = f.norm1;
          q = over _ _ _ f.q;
          k = over _ _ _ f.k;
          v = over _ _ _ f.v;
          q_bias = f.q_bias;
          k_bias = f.k_bias;
          v_bias = f.v_bias;
          o = over _ _ _ f.o;
          norm2 = f.norm2;
          gate = over _ _ _ f.gate;
          up = over _ _ _ f.up;
          down = over _ _ _ f.down;
        }

  -- Where the weights of a model that is not quantized have the shapes of its sizes, quantize
  -- succeeds, and the model after it has the sizes and the weights of before, is marked quantized,
  -- has for each of the seven projections of every layer, by the key under which the layer reads it,
  -- the int8 matrix that its weight quantises to, and fits its sizes again.
  pub quantize-Fits :
      (vocab inter : ℕ)
      → Fits A gemm m vocab inter
      → m.quantized ≡ false
      → m.quant ≡ []
      → (quant : List (String × QuantizedMatrix F)) × (quantize A m
          ≡ ok (record m { quant = quant; quantized = true }))
        × ((l : ℕ) → l < m.config.num_hidden_layers → Covers A m.weights l quant)
        × Fits A gemm (record m { quant = quant; quantized = true }) vocab inter
  unfolding quantize
  quantize-Fits vocab inter fits plain empty =
      let none_made : Made A m.weights m.quant = λ key q at.
        let at' : Path (Option (QuantizedMatrix F)) none (some q) = rw (empty) at at in
        absurd (cc at') in
      let (quant, e, made, kept, covers) =
        quantize_layers-HasKeys A m.weights m.config.num_hidden_layers 0 m.quant
          (λ j _ lt. layer_Ready plain inter j (fits.layers j (omega arith))) none_made in
      (
        quant,
        rw (e) refl,
        λ l lt. HasKeys-Covers A m.weights l quant made (covers l (omega arith) (omega arith)),
        record {
          heads = fits.heads;
          grouped = fits.grouped;
          embed = fits.embed;
          layers = λ l lt. layer_quantized plain inter l (fits.layers l lt) quant made;
          norm = fits.norm;
          lm_head = fits.lm_head;
        },
      )
