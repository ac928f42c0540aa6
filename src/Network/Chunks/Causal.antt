-- ===== src/Network/Chunks/Causal.antt =====
-- forward is causal: later tokens leave the rows of the earlier ones alone. So it can be the target
-- of speculative decoding.
use from_scratch_inference_e.Base.{
  ℕ, ◌+◌, ◌*◌, ◌≤◌, ◌<◌, ◌≡◌, refl, sym, subst, ap, ◌∙◌, List, [], ◌∷◌, ◌++◌, append-nil, map, Bool,
  Bool-cases, inl, inr, arith, All, ltb, ◌==◌, not, length, take, drop, length-drop, ℤ, pos, negsuc,
  Result, ok, err, ◌>>=◌, guard, invalid_argument,
}
use from_scratch_inference_e.Tensor.{Tensor}
use from_scratch_inference_e.Tensor.Rows.{slice}
use from_scratch_inference_e.Manager.Store.Splice.{take-append_left, drop-append_left}
use from_scratch_inference_e.Layers.Floats.{Floats, Gemm}
use from_scratch_inference_e.Layers.Embed.{token_row, embed_rows, embedding}
use from_scratch_inference_e.Layers.Shapes.Rows.{returned}
use from_scratch_inference_e.Layers.Shapes.Simple.{IsMatrix}
use from_scratch_inference_e.Layers.Shapes.Positions.{IsToken, length-map}
use from_scratch_inference_e.Layers.Joined.Simple.{Joined, IsRowwise}
use from_scratch_inference_e.Cache.Contiguous.{KvCache}
use from_scratch_inference_e.Cache.Contiguous
use from_scratch_inference_e.Cache.Start.{get_elem?-replicate}
use from_scratch_inference_e.Speculative.{speculative_greedy, bound}
use from_scratch_inference_e.Speculative.Causal.{InVocab, row_of, IsCausal, greedy}
use from_scratch_inference_e.Speculative.Greedy.{speculative_greedy-eq-greedy}
use from_scratch_inference_e.Network.State.{Model, get}
use from_scratch_inference_e.Network.Forward.{
  forward, forward_with_cache, forward_cached, contiguous,
}
use from_scratch_inference_e.Network.Fits.{Fits, kv_width}
use from_scratch_inference_e.Network.Total.{forward-IsMatrix}
use from_scratch_inference_e.Network.Chunks.Step.{ok-inj}
use from_scratch_inference_e.Network.Chunks.Forward.{Holds, forward_with_cache-append}

-- A call that returned had a first part that returned.
first_part {ℓ κ} :
    {A : Type ℓ} {B : Type κ} (m : Result A) (f : A → Result B) (b : B)
    → (m >>= f) ≡ ok b
    → (a : A) × (m ≡ ok a) × (f a ≡ ok b)
first_part (ok a) f b e = (a, refl, e)
first_part (err x) f b e = absurd (cc e)

module _ {ℓ} {F : Type ℓ} where
  -- Ids outside the vocabulary throw.
  embed_rows-IsToken :
      (vocab h : ℕ) (table : List F) (ids : List ℤ) (xs : List F)
      → embed_rows vocab h table ids ≡ ok xs
      → All (IsToken vocab) ids
  unfolding embed_rows token_row
  embed_rows-IsToken vocab h table [] xs e = tt
  embed_rows-IsToken vocab h table (negsuc n ∷ ids) xs e = absurd (cc e)
  embed_rows-IsToken vocab h table (pos id ∷ ids) xs e = elim (Bool-cases (ltb id vocab)) [
    | inl lt ↦
        let inside = rw (lt) at e in
        let (a, _, e1) = first_part (slice table (id * h) h) _ xs inside in
        let (b, e2, _) = first_part (embed_rows vocab h table ids) _ xs e1 in
        (ground (arith, lt), embed_rows-IsToken vocab h table ids b e2)
    | inr ge ↦ let outside = rw (ge) at e in absurd (cc outside)
  ]

  embedding-IsToken :
      (vocab h : ℕ) (weight x : Tensor F) (ids : List ℤ)
      → IsMatrix vocab h weight
      → embedding weight ids ≡ ok x
      → All (IsToken vocab) ids
  unfolding embedding
  embedding-IsToken vocab h weight x ids hw e =
      let shaped = rw (hw.shape) at e in
      let (xs, e1, _) = first_part (embed_rows vocab h weight.data_ ids) _ x shaped in
      embed_rows-IsToken vocab h weight.data_ ids xs e1

  row_of-Joined :
      (s1 s2 vocab i : ℕ) (x x1 x2 : Tensor F)
      → Joined s1 s2 vocab x x1 x2
      → i < s1
      → row_of vocab x i ≡ row_of vocab x1 i
  row_of-Joined s1 s2 vocab i x x1 x2 h lt =
      let fits : i * vocab + vocab ≤ length x1.data_ = grind (arith, h.first.size) in
      ap (λ xs. take vocab (drop (i * vocab) xs)) h.rows
      ∙ ap (λ xs. take vocab xs) (drop-append_left (i * vocab) x1.data_ x2.data_ (omega arith))
      ∙ take-append_left vocab (drop (i * vocab) x1.data_) x2.data_
          (omega (arith, length-drop (i * vocab) x1.data_))

later_of {ℓ κ} : {A : Type ℓ} (P : A → Type κ) (xs ys : List A) → All P (xs ++ ys) → All P ys
later_of P [] ys a = a
later_of P (x ∷ xs) ys a = later_of P xs ys a.1

map-append : (ids later : List ℕ) → map pos (ids ++ later) ≡ map pos ids ++ map pos later
map-append [] later = refl
map-append (id ∷ ids) later = ap (◌∷◌ (pos id)) (map-append ids later)

tokens_of : (vocab : ℕ) (ids : List ℕ) → InVocab vocab ids → All (IsToken vocab) (map pos ids)
tokens_of vocab [] a = tt
tokens_of vocab (id ∷ ids) a = (a.0, tokens_of vocab ids a.1)

module _ {ℓ} {F D : Type ℓ} (A : Floats F D) (gemm : Gemm F) (m : Model F D) where
  -- forward on token ids that are not negative.
  abbrev pub forward_ids : List ℕ → Result (Tensor F)
  forward_ids ids = forward A gemm m (map pos ids)

module _ {ℓ} {F D : Type ℓ} (A : Floats F D) (gemm : Gemm F) (m : Model F D)
    (rowwise : IsRowwise gemm) (vocab inter : ℕ) (fits : Fits A gemm m vocab inter)
    (wide : 0 < kv_width A gemm m) where
  new_cache : KvCache F
  new_cache = Contiguous.init m.config.num_hidden_layers (kv_width A gemm m)

  new_cache-Holds : Holds m.config.num_hidden_layers (kv_width A gemm m) 0 new_cache
  unfolding new_cache
  new_cache-Holds =
      let L = m.config.num_hidden_layers in
      record {
        dim = refl;
        counted = refl;
        filled = λ l lt.
            let at = get_elem?-replicate L l [] lt in
            ([], [], (at, at), (at, at), omega arith, omega arith);
      }

  -- What forward answers it answers for known tokens only.
  forward-IsToken :
      (ids : List ℤ) (t : Tensor F) → forward A gemm m ids ≡ ok t → All (IsToken vocab) ids
  unfolding forward forward_with_cache forward_cached contiguous new_cache
  forward-IsToken ids t e =
      let (r, e1, _) = first_part (forward_with_cache A gemm m ids new_cache) _ t e in
      let (_, _, e2) = first_part (guard (not (length ids == 0)) invalid_argument) _ r e1 in
      let (w, ew, e3) = first_part (get m.weights "model.embed_tokens.weight") _ r e2 in
      let (x, ex, _) = first_part (embedding w ids) _ r e3 in
      let (w', ew', hw) =
        returned (IsMatrix vocab m.config.hidden_size) (get m.weights "model.embed_tokens.weight")
          fits.embed in
      let hw' : IsMatrix vocab m.config.hidden_size w =
        subst (IsMatrix vocab m.config.hidden_size) (ok-inj _ ew' ew) hw in
      embedding-IsToken vocab m.config.hidden_size w x ids hw' ex

  -- Where both return, the logits of a longer prompt have the rows of a shorter one, with which it
  -- begins: no row depends on a later token. The matrix product works row by row, and the model
  -- has its weights in the shapes of its sizes, with heads that are not empty.
  pub row_of-forward :
      (ids later : List ℤ) (t u : Tensor F) (i : ℕ)
      → forward A gemm m ids ≡ ok t
      → forward A gemm m (ids ++ later) ≡ ok u
      → i < length ids
      → row_of vocab u i ≡ row_of vocab t i
  unfolding forward new_cache
  row_of-forward ids [] t u i et eu lt =
      let same : t ≡ u = ok-inj _ et (subst (λ x. forward A gemm m x ≡ ok u) (append-nil ids) eu) in
      ap (λ x. row_of vocab x i) (sym same)
  row_of-forward ids (id ∷ later) t u i et eu lt =
      let known =
        later_of (IsToken vocab) ids (id ∷ later) (forward-IsToken (ids ++ id ∷ later) u eu) in
      let three =
        forward_with_cache-append A gemm m rowwise vocab inter fits wide 0 ids (id ∷ later)
          new_cache (omega arith) (omega arith) (forward-IsToken ids t et) known new_cache-Holds in
      let eu' : forward A gemm m (ids ++ id ∷ later) ≡ ok three.all.1 = rw (three.all_eq) refl in
      let et' : forward A gemm m ids ≡ ok three.first.1 = rw (three.first_eq) refl in
      ap (λ x. row_of vocab x i) (ok-inj _ eu eu')
      ∙ row_of-Joined (length ids) (length (id ∷ later)) vocab i three.all.1 three.first.1
          three.second.1 three.holds.0 lt
      ∙ ap (λ x. row_of vocab x i) (ok-inj _ et' et)

  forward_ids-IsCausal : 0 < vocab → IsCausal (forward_ids A gemm m) vocab
  forward_ids-IsCausal some = record {
    some_token = some;
    total = λ ids some_id known.
        let (t, e, h) =
          returned (IsMatrix (length (map pos ids)) vocab) (forward A gemm m (map pos ids)) (
            forward-IsMatrix A gemm m rowwise.product vocab inter fits (map pos ids) wide
              (omega (arith, length-map pos ids)) (tokens_of vocab ids known)) in
        let h' : IsMatrix (length ids) vocab t =
          subst (λ n. IsMatrix n vocab t) (length-map pos ids) h in
        (t, e, record { shape = h'.shape; size = h'.size });
    causal = λ ids later t u et eu i lt.
        row_of-forward (map pos ids) (map pos later) t u i et
          (subst (λ x. forward A gemm m x ≡ ok u) (map-append ids later) eu)
          (omega (arith, length-map pos ids));
  }

  -- Speculative decoding with the model as its target: for any draft over the vocabulary and any
  -- lookahead, and for a prompt of known tokens that is not empty, it ends with exactly
  -- `max_tokens` tokens (none for a negative bound), and they are those of plain greedy decoding
  -- with one forward pass of the model for each token. The matrix product works row by row, and
  -- the model has its weights in the shapes of its sizes, with heads that are not empty.
  pub speculative_greedy-forward :
      (gt : F → F → Bool) (draft : List ℕ → ℕ) (prompt : List ℕ) (max_tokens lookahead : ℤ)
      → 0 < vocab
      → ((context : List ℕ) → draft context < vocab)
      → 0 < length prompt
      → InVocab vocab prompt
      → (out : List ℕ) × (speculative_greedy gt
            (forward_ids A gemm m)
            draft
            prompt
            max_tokens
            lookahead
          ≡ ok out)
        × (greedy gt (forward_ids A gemm m) (bound max_tokens) prompt ≡ ok out)
        × (length out ≡ bound max_tokens)
  speculative_greedy-forward gt draft prompt max_tokens lookahead some drafted some_id known =
      speculative_greedy-eq-greedy gt (forward_ids A gemm m) vocab (forward_ids-IsCausal some) draft
        prompt max_tokens lookahead drafted some_id known
