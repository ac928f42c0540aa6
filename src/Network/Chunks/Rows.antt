-- ===== src/Network/Chunks/Rows.antt =====
-- The rows of a contiguous cache through the layers of one pass.
use native.Mathlib.Nat.{add-mul}
use from_scratch_inference_e.Base.{
  ℕ, ◌+◌, ◌*◌, ◌<◌, ◌≡◌, ◌≢◌, refl, sym, subst, ap, ◌∙◌, some, List, [], ◌∷◌, ◌++◌, arith, length,
  length-append, get_elem?, get_elem?-set_self, get_elem?-set_ne, get_elem?-lt, take, ok, ◌>>=◌,
  append_assoc,
}
use from_scratch_inference_e.Tensor.{Tensor}
use from_scratch_inference_e.Manager.Store.Reads.{take_length}
use from_scratch_inference_e.Layers.Floats.{Floats, Gemm}
use from_scratch_inference_e.Layers.Attention.{attention}
use from_scratch_inference_e.Layers.Shapes.Rows.{Long}
use from_scratch_inference_e.Cache.Contiguous.{KvCache}
use from_scratch_inference_e.Cache.Contiguous
use from_scratch_inference_e.Cache.Refines.{extended, contiguous-eq, rows-eq, of_data-eq}
use from_scratch_inference_e.Network.State.{Model}
use from_scratch_inference_e.Network.Forward.{contiguous, attend_cached}
use from_scratch_inference_e.Network.Fits.{kv_width}
use from_scratch_inference_e.Layers.Shapes.Simple.{IsMatrix}

module _ {ℓ} {F : Type ℓ} where
  -- The keys and values of one layer.
  abbrev pub At : KvCache F → ℕ → List F → List F → Type ℓ
  At c l ks vs = (get_elem? c.keys l ≡ some ks) × (get_elem? c.values l ≡ some vs)

  -- Two caches with the same rows in a layer, `rows` of them.
  abbrev pub SameAt : ℕ → ℕ → KvCache F → KvCache F → ℕ → Type ℓ
  SameAt kv rows c c' l =
      (ks : List F) × (vs : List F) × At c l ks vs
      × At c' l ks vs
      × Long (rows * kv) ks
      × Long (rows * kv) vs

  abbrev pub rows_of : ℕ → ℕ → List F → Tensor F
  rows_of rows kv xs = record { shape = rows ∷ kv ∷ []; data_ = xs }

  pub append-Long :
      (a b kv : ℕ) (xs ys : List F)
      → Long (a * kv) xs
      → Long (b * kv) ys
      → Long ((a + b) * kv) (xs ++ ys)
  append-Long a b kv xs ys lx ly = omega (arith, length-append xs ys, add-mul a b kv)

  pub rows_of-IsMatrix :
      (a b kv : ℕ) (xs ys : List F)
      → Long (a * kv) xs
      → Long (b * kv) ys
      → IsMatrix (a + b) kv (rows_of (a + b) kv (xs ++ ys))
  rows_of-IsMatrix a b kv xs ys lx ly = record {
    shape = refl;
    size = append-Long a b kv xs ys lx ly;
  }

  pub append_parts : (xs x x1 x2 : List F) → x ≡ x1 ++ x2 → xs ++ x ≡ (xs ++ x1) ++ x2
  append_parts xs x x1 x2 e = ap (λ z. xs ++ z) e ∙ sym (append_assoc xs x1 x2)

  pub At-extended :
      (c : KvCache F) (l : ℕ) (ks vs ks' vs' : List F)
      → At c l ks vs
      → At (extended c l ks' vs') l ks' vs'
  At-extended c l ks vs ks' vs' (ak, av) = (
    get_elem?-set_self c.keys l ks' (get_elem?-lt c.keys l ak),
    get_elem?-set_self c.values l vs' (get_elem?-lt c.values l av),
  )

  pub At-other :
      (c : KvCache F) (l j : ℕ) (ks vs ks' vs' : List F)
      → l ≢ j
      → At c j ks vs
      → At (extended c l ks' vs') j ks vs
  At-other c l j ks vs ks' vs' ne (ak, av) =
      (get_elem?-set_ne c.keys ks' ne ∙ ak, get_elem?-set_ne c.values vs' ne ∙ av)

module _ {ℓ} {F D : Type ℓ} (A : Floats F D) (gemm : Gemm F) (m : Model F D) where
  -- The attention of a layer whose rows are known.
  pub attend_cached-eq :
      (past s l : ℕ) (q k v : Tensor F) (c : KvCache F) (ks vs : List F)
      → 0 < kv_width A gemm m
      → c.kv_dim ≡ kv_width A gemm m
      → At c l ks vs
      → Long (past * kv_width A gemm m) ks
      → Long (past * kv_width A gemm m) vs
      → Long (s * kv_width A gemm m) k.data_
      → Long (s * kv_width A gemm m) v.data_
      → attend_cached A gemm m contiguous past s l q k v c ≡ (
          attention A q
            (rows_of (past + s) (kv_width A gemm m) (ks ++ k.data_))
            (rows_of (past + s) (kv_width A gemm m) (vs ++ v.data_))
            m.config.num_attention_heads
            m.config.num_key_value_heads
            m.config.head_dim
            past
          >>= λ attn. ok (extended c l (ks ++ k.data_) (vs ++ v.data_), attn))
  unfolding attend_cached contiguous Contiguous.key_tensor Contiguous.value_tensor
  attend_cached-eq past s l q k v c ks vs wide dim at lk lv lk' lv' =
      let kv = kv_width A gemm m in
      let all_k : take (s * kv) k.data_ ≡ k.data_ =
        subst (λ n. take n k.data_ ≡ k.data_) lk' (take_length k.data_) in
      let all_v : take (s * kv) v.data_ ≡ v.data_ =
        subst (λ n. take n v.data_ ≡ v.data_) lv' (take_length v.data_) in
      let new = extended c l (ks ++ k.data_) (vs ++ v.data_) in
      let appended : Contiguous.append c l k.data_ v.data_ s ≡ ok new =
        contiguous-eq c l s kv k.data_ v.data_ ks vs dim at.0 at.1 (omega arith) (omega arith)
        ∙ ap (λ xs. ok (extended c l (ks ++ xs) (vs ++ take (s * kv) v.data_))) all_k
        ∙ ap (λ ys. ok (extended c l (ks ++ k.data_) (vs ++ ys))) all_v in
      let long_k : length (ks ++ k.data_) ≡ (past + s) * kv =
        append-Long past s kv ks k.data_ lk lk' in
      let long_v : length (vs ++ v.data_) ≡ (past + s) * kv =
        append-Long past s kv vs v.data_ lv lv' in
      let at' = At-extended c l ks vs (ks ++ k.data_) (vs ++ v.data_) at in
      let n : Contiguous.rows new l ≡ ok (past + s) =
        rows-eq new l (past + s) kv (ks ++ k.data_) wide dim at'.0 long_k in
      rw
        (
          appended,
          n,
          at'.0,
          at'.1,
          dim,
          of_data-eq (past + s) kv (ks ++ k.data_) long_k,
          of_data-eq (past + s) kv (vs ++ v.data_) long_v,
        )
        refl
