-- ===== src/Engine/Sound/Feed.antt =====
-- What a running sequence is fed: after the sharing of a prefix it has tokens, and no spare block.
use from_scratch_inference_e.Base.{
  ℕ, ◌+◌, ◌-◌, ◌*◌, ◌/◌, ◌≤◌, ◌<◌, ◌≡◌, refl, List, [], ◌∷◌, some, arith, Bool, true, not, ◌&&◌,
  ltb, leb, ◌==◌, length, length-append, length-take, length-drop, take, drop, Bool-cases, inl, inr,
  ok, Ensures, Ensures-bind,
}
use native.Mathlib.Nat.{div-mul-le_self, le-div_iff_mul-le}
use from_scratch_inference_e.Base.Dict.{find, put, remove}
use from_scratch_inference_e.Manager.State.{SequenceBlocks, BlockManager, blocks_for}
use from_scratch_inference_e.Manager.Prefix.{acquire_shared_prefix}
use from_scratch_inference_e.Manager.Owned.{Owned, OnlyOverflow}
use from_scratch_inference_e.Manager.Owned.Share.{Keeps, acquire_shared_prefix-Owned}
use from_scratch_inference_e.Batch.{Heap}
use from_scratch_inference_e.Batch.Heap.{held, focus, unfocus}
use from_scratch_inference_e.Engine.State.{EngineSequence, context}
use from_scratch_inference_e.Engine.Assemble.{last, step_tokens, share}
use from_scratch_inference_e.Engine.Sound.{SeqOk}
use from_scratch_inference_e.Engine.Sound.Share.{Ensures-both, Shared, acquire_shared_prefix-Shared}

last-total : (xs : List ℕ) → 0 < length xs → (t : ℕ) × (last xs ≡ ok t)
unfolding last
last-total [] h = elim h [ ]
last-total (x ∷ []) h = (x, refl)
last-total (x ∷ y ∷ ys) h = last-total (y ∷ ys) (omega arith)

-- A table that its rows fill has no spare block.
full_fit : (t k rows : ℕ) → 0 < k → rows ≡ t * k → t ≤ (rows + k - 1) / k
full_fit t k rows pos e = (le-div_iff_mul-le pos).1 (omega arith)

-- The rows that may be shared leave a token.
cap_below : (n k : ℕ) → 0 < n → (n - 1) / k * k < n
cap_below n k h = omega (arith, div-mul-le_self (n - 1) k)

module _ {F P : Type 0} where
  -- A queued sequence has tokens for the next step.
  pub step_tokens-some :
      (m : BlockManager F) (s : EngineSequence P) (b : SequenceBlocks)
      → SeqOk m s b
      → (tokens : List ℕ) × (step_tokens s b ≡ ok tokens) × (0 < length tokens)
  unfolding step_tokens
  step_tokens-some m s b k = elim (Bool-cases s.prefilled) [
    | inl decode ↦
        let (t, e) = last-total s.output (k.decoded decode) in
        (t ∷ [], rw (decode, e) refl, omega arith)
    | inr fresh ↦
        let inside : leb b.length (length (context s)) ≡ true = ground (arith, k.pending fresh) in
        (
          drop b.length (context s),
          rw (fresh, inside) refl,
          omega (arith, length-drop b.length (context s), k.pending fresh),
        )
  ]

  Shared-SeqOk :
      (m m' : BlockManager F) (s : EngineSequence P) (b b' : SequenceBlocks) (tokens : List ℕ)
      → 0 < m.block_size
      → m'.block_size ≡ m.block_size
      → length tokens < length (context s)
      → SeqOk m s b
      → Shared m b (length tokens) b'
      → SeqOk m' s b'
  unfolding blocks_for
  Shared-SeqOk m m' s b b' tokens pos size room k shared = elim shared [
    | inl same ↦ record {
      prompt = k.prompt;
      decoded = k.decoded;
      pending = rw same k.pending;
      fit = rw (same, size) k.fit;
    }
    | inr (le, full) ↦ record {
      prompt = k.prompt;
      decoded = k.decoded;
      pending = λ e. omega (arith, le, room);
      fit = rw size (full_fit (length b'.block_table) m.block_size b'.length pos full);
    }
  ]

  -- A sequence and its blocks after the sharing.
  pub record Fed (m : BlockManager F) (h : Heap) (id : ℕ) (s : EngineSequence P)
      (r : BlockManager F × SequenceBlocks) : Type 0 where
    pub owned : Owned r.0 (held (put id r.1 h))
    pub keeps : Keeps m r.0
    pub fine : SeqOk r.0 s r.1

  unshared :
      (m : BlockManager F) (h : Heap) (id : ℕ) (s : EngineSequence P) (b : SequenceBlocks)
      → find id h ≡ some b
      → Owned m (held h)
      → SeqOk m s b
      → Fed m h id s (m, b)
  unshared m h id s b at o k = record {
    owned = unfocus m id b h (focus m id b h at o);
    keeps = record { same_free = refl; same_size = refl };
    fine = k;
  }

  -- Sharing keeps the counts right; it fails only where a count would leave `int32_t`.
  pub share-Fed :
      (prefix_cache : Bool) (m : BlockManager F) (h : Heap) (id : ℕ) (s : EngineSequence P)
      (b : SequenceBlocks)
      → 0 < m.block_size
      → find id h ≡ some b
      → Owned m (held h)
      → SeqOk m s b
      → Ensures OnlyOverflow (Fed m h id s) (share prefix_cache s b m)
  unfolding share
  share-Fed prefix_cache m h id s b pos at o k =
      let ctx = context s in
      let cap = (length ctx - 1) / m.block_size * m.block_size in
      let test = (prefix_cache && not s.prefilled && (length b.block_table == 0)) && ltb 0 cap in
      elim (Bool-cases test) [
        | inr alone ↦ rw alone (unshared m h id s b at o k)
        | inl yes_share ↦
            let tokens = take cap ctx in
            let room : length tokens < length ctx = omega (
              arith,
              length-take cap ctx,
              length-append s.request.prompt s.output,
              k.prompt,
              cap_below (length ctx) m.block_size
                  (omega (arith, length-append s.request.prompt s.output, k.prompt)),
            ) in
            rw yes_share (
              Ensures-bind OnlyOverflow _ _ (acquire_shared_prefix m b tokens) _
                (Ensures-both OnlyOverflow _ _ (acquire_shared_prefix m b tokens)
                  (acquire_shared_prefix-Owned m b tokens (held (remove id h))
                    (focus m id b h at o))
                  (acquire_shared_prefix-Shared m b tokens))
                (λ r f. record {
                  owned = unfocus r.0 id r.1 h f.0.0;
                  keeps = f.0.1;
                  fine = Shared-SeqOk m r.0 s b r.1 tokens pos f.0.1.same_size room k f.1;
                }))
      ]
