-- ===== src/Network/Total.antt =====
-- forward over the whole prompt: a new cache, of which a paged one with enough blocks is the twin.
use from_scratch_inference_e.Base.{ℕ, ◌<◌, refl, subst, List, arith, All, length, ℤ}
use from_scratch_inference_e.Allocator.Invariant.{num_free-fresh}
use from_scratch_inference_e.Layers.Floats.{Floats, Gemm}
use from_scratch_inference_e.Layers.Shapes.Rows.{Returns}
use from_scratch_inference_e.Layers.Shapes.Simple.{IsMatrix, IsProduct}
use from_scratch_inference_e.Layers.Shapes.Positions.{IsToken}
use from_scratch_inference_e.Cache.Contiguous
use from_scratch_inference_e.Cache.Start.{built, built-Refines, get_elem?-replicate}
use from_scratch_inference_e.Network.State.{Model}
use from_scratch_inference_e.Network.Forward.{forward}
use from_scratch_inference_e.Network.Fits.{Fits, kv_width}
use from_scratch_inference_e.Network.Paged.{InStep, forward_paged-forward_with_cache}

module _ {ℓ} {F D : Type ℓ} (A : Floats F D) (gemm : Gemm F) (m : Model F D)
    (product : IsProduct gemm) (vocab inter : ℕ) (fits : Fits A gemm m vocab inter) where
  pub started :
      (n : ℕ)
      → 0 < kv_width A gemm m
      → InStep m.config.num_hidden_layers
          (kv_width A gemm m)
          0
          (built A.nil m.config.num_hidden_layers (kv_width A gemm m) 1 n)
          (Contiguous.init m.config.num_hidden_layers (kv_width A gemm m))
  started n wide = record {
    refines =
        built-Refines A.nil m.config.num_hidden_layers (kv_width A gemm m) 1 n wide (omega arith);
    layered = refl;
    wide = refl;
    past_paged = refl;
    past_contiguous = refl;
    filled = λ l lt. get_elem?-replicate m.config.num_hidden_layers l 0 lt;
  }

  -- A model that has its weights in the shapes of its sizes, quantized or not, with heads that are
  -- not empty, answers at least one token id of its vocabulary with a logits row of the
  -- vocabulary's size for each: no exception, no access outside a buffer.
  pub forward-IsMatrix :
      (ids : List ℤ)
      → 0 < kv_width A gemm m
      → 0 < length ids
      → All (IsToken vocab) ids
      → Returns (IsMatrix (length ids) vocab) (forward A gemm m ids)
  unfolding forward
  forward-IsMatrix ids wide some_id tokens =
      let n = length ids in
      let both =
        forward_paged-forward_with_cache A gemm m product vocab inter fits 0 ids
          (built A.nil m.config.num_hidden_layers (kv_width A gemm m) 1 n)
          (Contiguous.init m.config.num_hidden_layers (kv_width A gemm m)) some_id tokens
          (started n wide) (omega (arith, num_free-fresh n)) in
      rw (both.right_eq) (subst (IsMatrix n vocab) both.holds.0 both.holds.1)
