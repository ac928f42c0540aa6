-- ===== src/Network/Paged.antt =====
-- The forward pass over a paged cache against the one over a contiguous cache.
use native.Mathlib.Decide.{ℕ_discrete}
use from_scratch_inference_e.Base.{
  ℕ, suc, ◌+◌, ◌*◌, ◌≤◌, ◌<◌, ◌≡◌, refl, sym, subst, ap, ◌∙◌, some, List, [], ◌∷◌, arith, All,
  length, get_elem?, get_elem?-set_self, get_elem?-set_ne, get_elem?-lt, ℤ,
}
use from_scratch_inference_e.Allocator.{num_free}
use from_scratch_inference_e.Layers.Floats.{Floats, Gemm}
use from_scratch_inference_e.Layers.Shapes.Rows.{Long}
use from_scratch_inference_e.Layers.Shapes.Simple.{IsMatrix, IsProduct}
use from_scratch_inference_e.Layers.Shapes.Positions.{IsToken}
use from_scratch_inference_e.Cache.Contiguous.{KvCache}
use from_scratch_inference_e.Cache.Contiguous
use from_scratch_inference_e.Cache.Paged.{PagedKvCache, needed}
use from_scratch_inference_e.Cache.Paged
use from_scratch_inference_e.Cache.Refines.{
  Refines, layer_tensors, append-appended, appended, extended,
}
use from_scratch_inference_e.Network.State.{Model}
use from_scratch_inference_e.Network.Forward.{contiguous, paged, forward_with_cache, forward_paged}
use from_scratch_inference_e.Network.Fits.{Fits, kv_width}
use from_scratch_inference_e.Network.Both.{Both}
use from_scratch_inference_e.Network.Simulates.{Simulates, SameMatrix, forward_cached-Same}

module _ {ℓ} {F : Type ℓ} where
  -- Two caches of `num_layers` layers and rows of `kv` values that hold the same `past` rows.
  pub record InStep (num_layers kv past : ℕ) (p : PagedKvCache F) (c : KvCache F) : Type ℓ where
    pub refines : Refines p c
    pub layered : p.num_layers ≡ num_layers
    pub wide : p.kv_dim ≡ kv
    pub past_paged : p.length_ ≡ past
    pub past_contiguous : c.length_ ≡ past
    pub filled : (l : ℕ) → l < num_layers → get_elem? p.filled l ≡ some past

  -- The same with `n` new rows in the first `done` layers, and blocks for the other layers.
  record Between (num_layers kv past n done : ℕ) (p : PagedKvCache F) (c : KvCache F) : Type ℓ where
    refines : Refines p c
    layered : p.num_layers ≡ num_layers
    wide : p.kv_dim ≡ kv
    past_paged : p.length_ ≡ past
    past_contiguous : c.length_ ≡ past
    filled : (l : ℕ) → l < done → l < num_layers → get_elem? p.filled l ≡ some (past + n)
    waiting : (l : ℕ) → done ≤ l → l < num_layers → get_elem? p.filled l ≡ some past
    room : needed p (past + n) ≤ length p.block_table + num_free p.alloc

  advanced :
      (p : PagedKvCache F) (c : KvCache F) (n : ℕ)
      → Refines p c
      → Refines (Paged.advance p n) (Contiguous.advance c n)
  advanced p c n r = record {
    sized = r.sized;
    wide = r.wide;
    dim = r.dim;
    holds = r.holds;
    layers = λ l lt. r.layers l lt;
  }

  module _ (num_layers kv past n : ℕ) where
    same_keys :
        (l rows : ℕ) (p : PagedKvCache F) (c : KvCache F)
        → Refines p c
        → p.kv_dim ≡ kv
        → l < p.num_layers
        → get_elem? p.filled l ≡ some rows
        → Both (SameMatrix rows kv) (Paged.key_tensor p l) (Contiguous.key_tensor c l)
          × Both (SameMatrix rows kv) (Paged.value_tensor p l) (Contiguous.value_tensor c l)
    same_keys l rows p c r wide lt at =
        let (k, v, klong, vlong, ek, ev) = layer_tensors p c l rows r lt at in
        let is : (xs : List F)
            → length xs ≡ rows * p.kv_dim
            → IsMatrix rows kv (record { shape = rows ∷ p.kv_dim ∷ []; data_ = xs }) =
          λ xs long.
            subst (λ w. IsMatrix rows w (record { shape = rows ∷ p.kv_dim ∷ []; data_ = xs })) wide
              (record { shape = refl; size = long }) in
        (
          record {
            left = _;
            right = _;
            left_eq = ek.0;
            right_eq = ek.1;
            holds = (refl, is k klong);
          },
          record {
            left = _;
            right = _;
            left_eq = ev.0;
            right_eq = ev.1;
            holds = (refl, is v vlong);
          },
        )

    append-Between :
        (l : ℕ) (k v : List F) (p : PagedKvCache F) (c : KvCache F)
        → l < num_layers
        → Long (n * kv) k
        → Long (n * kv) v
        → Between num_layers kv past n l p c
        → Both
            (Between num_layers kv past n (suc l))
            (Paged.append p l k v n)
            (Contiguous.append c l k v n)
    append-Between l k v p c lt hk hv b =
        let at = b.waiting l (omega arith) lt in
        let flat : n * p.kv_dim ≡ n * kv = ap (λ w. n * w) b.wide in
        let (a, table, ks, vs, kc, vc, used, e, e', after) =
          append-appended p c l n past k v b.refines (omega (arith, b.layered)) at
            (omega (arith, b.room)) (omega arith) (omega arith) in
        record {
          left = appended p a table l ks vs (past + n);
          right = extended c l kc vc;
          left_eq = e;
          right_eq = e';
          holds = record {
            refines = after;
            layered = b.layered;
            wide = b.wide;
            past_paged = b.past_paged;
            past_contiguous = b.past_contiguous;
            filled = λ j below lt'. elim (ℕ_discrete l j) [
              | yes mine ↦
                  subst
                    (λ i.
                      get_elem? (appended p a table l ks vs (past + n)).filled i ≡ some (past + n))
                    mine (get_elem?-set_self p.filled l (past + n) (get_elem?-lt p.filled l at))
              | no other ↦
                  get_elem?-set_ne p.filled (past + n) other ∙ b.filled j (omega (arith, other)) lt'
            ];
            waiting = λ j above lt'.
                get_elem?-set_ne p.filled (past + n) (λ same. absurd (omega (arith, same)))
                ∙ b.waiting j (omega arith) lt';
            room = omega (arith, used, b.room);
          };
        }

    paged-Simulates :
        Simulates paged contiguous num_layers kv n (past + n) (Between num_layers kv past n)
    unfolding paged contiguous
    paged-Simulates = record {
      append = λ l k v p c lt hk hv b.
          let both = append-Between l k v p c lt hk hv b in
          let h = both.holds in
          let at = h.filled l (omega arith) lt in
          let tensors =
            same_keys l (past + n) both.left both.right h.refines h.wide (omega (arith, h.layered))
              at in
          record {
            left = both.left;
            right = both.right;
            left_eq = both.left_eq;
            right_eq = both.right_eq;
            holds = (h, tensors.0, tensors.1);
          };
    }

module _ {ℓ} {F D : Type ℓ} (A : Floats F D) (gemm : Gemm F) (m : Model F D)
    (product : IsProduct gemm) (vocab inter : ℕ) (fits : Fits A gemm m vocab inter) where
  -- Over caches that hold the same `past` rows, a paged pass returns the logits of the contiguous
  -- one, a row of the vocabulary's size for every token, and the caches then hold the same rows
  -- again, the new ones behind the old. The model has its weights in the shapes of its sizes, the
  -- token ids are at least one and all of the vocabulary, and the blocks that are lacking are free.
  pub forward_paged-forward_with_cache :
      (past : ℕ) (ids : List ℤ) (p : PagedKvCache F) (c : KvCache F)
      → 0 < length ids
      → All (IsToken vocab) ids
      → InStep m.config.num_hidden_layers (kv_width A gemm m) past p c
      → needed p (past + length ids) ≤ length p.block_table + num_free p.alloc
      → Both
          (λ r r'.
            (r.1 ≡ r'.1)
            × IsMatrix (length ids) vocab r.1
            × InStep m.config.num_hidden_layers (kv_width A gemm m) (past + length ids) r.0 r'.0)
          (forward_paged A gemm m ids p)
          (forward_with_cache A gemm m ids c)
  unfolding forward_paged forward_with_cache paged contiguous
  forward_paged-forward_with_cache past ids p c some_id tokens b room =
      let L = m.config.num_hidden_layers in
      let kv = kv_width A gemm m in
      let n = length ids in
      let start : Between L kv past n 0 p c = record {
        refines = b.refines;
        layered = b.layered;
        wide = b.wide;
        past_paged = b.past_paged;
        past_contiguous = b.past_contiguous;
        filled = λ l none_done lt. absurd (omega arith);
        waiting = λ l _ lt. b.filled l lt;
        room = room;
      } in
      let both =
        forward_cached-Same A gemm m product vocab inter fits paged contiguous past ids
          (Between L kv past n) (paged-Simulates L kv past n) p c some_id tokens b.past_paged
          b.past_contiguous start in
      let (same, is, (d, d', after, left, right)) = both.holds in
      record {
        left = both.left;
        right = both.right;
        left_eq = both.left_eq;
        right_eq = both.right_eq;
        holds = (
          same,
          is,
          subst (λ x. InStep L kv (past + n) x both.right.0) (sym left)
              (subst (λ x. InStep L kv (past + n) (Paged.advance d n) x) (sym right)
                (record {
                  refines = advanced d d' n after.refines;
                  layered = after.layered;
                  wide = after.wide;
                  past_paged = omega (arith, after.past_paged);
                  past_contiguous = omega (arith, after.past_contiguous);
                  filled = λ l lt. after.filled l lt lt;
                })),
        );
      }
