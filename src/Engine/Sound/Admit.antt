-- ===== src/Engine/Sound/Admit.antt =====
-- Admission and new requests keep the scheduler's invariant.
use from_scratch_inference_e.Base.{
  refl, ℕ, ◌≡◌, List, [], ◌∷◌, ◌++◌, some, arith, count-append, length, Bool-cases, inl, inr, Error,
  Ensures, ==_refl,
}
use from_scratch_inference_e.Base.Dict.{find, put}
use from_scratch_inference_e.Manager.State.{SequenceBlocks, can_append}
use from_scratch_inference_e.Engine.State.{EngineSequence, EngineState, SeqStatus}
use from_scratch_inference_e.Engine.Admit.{below, set_status, need, admit_loop, admit}
use from_scratch_inference_e.Engine.Sound.{SeqOk, Seq-put_sequence, Sound}

-- With `rest` still to be looked at.
abbrev with_waiting : {F P R : Type 0} → List ℕ → EngineState F P R → EngineState F P R
with_waiting rest e = record e { waiting = rest }

module _ {F P R : Type 0} (E : Error → Type 0) where
  -- The state after the front of the queue was admitted.
  abbrev admitted : ℕ → EngineSequence P → EngineState F P R → EngineState F P R
  admitted id s e = record e {
    sequences = put id (set_status SeqStatus.running s) e.sequences;
    running = e.running ++ id ∷ [];
  }

  admitted-Sound :
      (id : ℕ) (rest : List ℕ) (s : EngineSequence P) (b : SequenceBlocks) (e : EngineState F P R)
      → find id e.heap ≡ some b
      → SeqOk e.manager s b
      → Sound (with_waiting (id ∷ rest) e)
      → Sound (with_waiting rest (admitted id s e))
  admitted-Sound id rest s b e at k v = record {
    owned = v.owned;
    sized = v.sized;
    once = λ j. omega (arith, v.once j, count-append j e.running (id ∷ []));
    known = λ j h.
        Seq-put_sequence e.manager e.sequences e.heap id j (set_status SeqStatus.running s) b at
          (record { prompt = k.prompt; decoded = k.decoded; pending = k.pending; fit = k.fit })
          (v.known j (omega (arith, count-append j e.running (id ∷ []))));
    low = λ j h. v.low j (omega (arith, count-append j e.running (id ∷ [])));
    empty = v.empty;
  }

  -- The same configuration, and sound.
  abbrev Kept : EngineState F P R → EngineState F P R → Type 0
  Kept e e' = Sound e' × (e'.vocab_size ≡ e.vocab_size)

  admit_loop-Sound :
      (rest : List ℕ) (e : EngineState F P R)
      → Sound (with_waiting rest e)
      → Ensures E (Kept e) (admit_loop rest e)
  unfolding admit_loop
  admit_loop-Sound [] e v = (v, refl)
  admit_loop-Sound (id ∷ rest) e v =
      let (s, b, at, at', k) = v.known id (ground (arith, ==_refl id)) in
      elim (Bool-cases (below (length e.running) e.max_batch)) [
        | inr full ↦ rw full (v, refl)
        | inl room ↦ elim (Bool-cases (can_append e.manager b (need s))) [
          | inr wait ↦ rw (room, at, at', wait) (v, refl)
          | inl fits ↦
              rw (room, at, at', fits)
                (admit_loop-Sound rest (admitted id s e) (admitted-Sound id rest s b e at' k v))
        ]
      ]

  -- On an engine whose state is sound, the admission of a step never fails, and keeps it sound and the
  -- vocabulary as it is.
  pub admit-Sound :
      (e : EngineState F P R)
      → Sound e
      → Ensures E (λ e'. Sound e' × (e'.vocab_size ≡ e.vocab_size)) (admit e)
  unfolding admit
  admit-Sound e v = admit_loop-Sound e.waiting e v
