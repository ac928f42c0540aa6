-- ===== src/Weights/Reader/Spans.antt =====
-- The spans of the tensors: what the sort and the check of parse accept lies apart.
use from_scratch_inference_e.Base.{
  ℕ, ◌≤◌, ◌≡◌, refl, List, [], ◌∷◌, false, ltb, Bool-cases, arith, All, ◌⊎◌, inl, inr, Ensures,
  Ensures-mono,
}
use from_scratch_inference_e.Weights.Reader.{Span, before, insert_span, sort_spans, check_spans}
use from_scratch_inference_e.Weights.Reader.Entries.{Refusal}

-- The data of two tensors do not overlap.
abbrev pub Apart : Span → Span → Type 0
Apart p q = (p.1 ≤ q.0) ⊎ (q.1 ≤ p.0)

abbrev pub Pairwise : List Span → Type 0
Pairwise [] = Unit
Pairwise (p ∷ ps) = All (Apart p) ps × Pairwise ps

abbrev pub Ordered : Span → Type 0
Ordered p = p.0 ≤ p.1

-- Spans that begin no earlier than the span before them ends.
abbrev pub Chain : List Span → Type 0
Chain [] = Unit
Chain (p ∷ []) = Unit
Chain (p ∷ q ∷ qs) = (p.1 ≤ q.0) × Chain (q ∷ qs)

not_below : (a b : ℕ) → ltb a b ≡ false → b ≤ a
not_below a b h = ground arith

pub check_spans-Chain : (ps : List Span) → Ensures Refusal (λ done. Chain ps) (check_spans ps)
unfolding check_spans
check_spans-Chain [] = tt
check_spans-Chain (p ∷ []) = tt
check_spans-Chain (p ∷ q ∷ qs) = elim (Bool-cases (ltb q.0 p.1)) [
  | inl e ↦ rw (e) (inl refl)
  | inr e ↦ rw (e) (
      Ensures-mono Refusal (λ done. Chain (q ∷ qs)) (λ done. Chain (p ∷ q ∷ qs))
        (check_spans (q ∷ qs)) (check_spans-Chain (q ∷ qs)) (λ done c. (not_below q.0 p.1 e, c)))
]

Chain-after :
    (p : Span) (q : Span) (qs : List Span)
    → p.1 ≤ q.0
    → Chain (q ∷ qs)
    → All Ordered (q ∷ qs)
    → All (Apart p) (q ∷ qs)
Chain-after p q [] le c o = (inl le, tt)
Chain-after p q (r ∷ rs) le c o = (inl le, Chain-after p r rs (omega (arith, c.0, o.0)) c.1 o.1)

pub Chain-Pairwise : (ps : List Span) → All Ordered ps → Chain ps → Pairwise ps
Chain-Pairwise [] o c = tt
Chain-Pairwise (p ∷ []) o c = (tt, tt)
Chain-Pairwise (p ∷ q ∷ qs) o c = (Chain-after p q qs c.0 c.1 o.1, Chain-Pairwise (q ∷ qs) o.1 c.1)

-- The sort reorders, and all of these properties are those of a set of spans.
module _ (P : Span → Type 0) where
  All-insert_span : (p : Span) (ps : List Span) → P p → All P ps → All P (insert_span p ps)
  unfolding insert_span
  All-insert_span p [] h all = (h, tt)
  All-insert_span p (q ∷ qs) h all = elim (Bool-cases (before q p)) [
    | inl e ↦ rw (e) ((all.0, All-insert_span p qs h all.1))
    | inr e ↦ rw (e) ((h, all))
  ]

  insert_span-All : (p : Span) (ps : List Span) → All P (insert_span p ps) → P p × All P ps
  unfolding insert_span
  insert_span-All p [] all = all
  insert_span-All p (q ∷ qs) all = elim (Bool-cases (before q p)) [
    | inl e ↦
        let all' : All P (q ∷ insert_span p qs) = rw (e) at all in
        let rest = insert_span-All p qs all'.1 in (rest.0, (all'.0, rest.1))
    | inr e ↦ let all' : All P (p ∷ q ∷ qs) = rw (e) at all in all'
  ]

  sort_spans-All : (ps : List Span) → All P (sort_spans ps) → All P ps
  unfolding sort_spans
  sort_spans-All [] all = tt
  sort_spans-All (p ∷ ps) all =
      let rest = insert_span-All p (sort_spans ps) all in (rest.0, sort_spans-All ps rest.1)

  pub All-sort_spans : (ps : List Span) → All P ps → All P (sort_spans ps)
  unfolding sort_spans
  All-sort_spans [] all = tt
  All-sort_spans (p ∷ ps) all = All-insert_span p (sort_spans ps) all.0 (All-sort_spans ps all.1)

Apart-sym : (p q : Span) → Apart p q → Apart q p
Apart-sym p q (inl le) = inr le
Apart-sym p q (inr le) = inl le

insert_span-Pairwise :
    (p : Span) (ps : List Span) → Pairwise (insert_span p ps) → All (Apart p) ps × Pairwise ps
unfolding insert_span
insert_span-Pairwise p [] h = h
insert_span-Pairwise p (q ∷ qs) h = elim (Bool-cases (before q p)) [
  | inl e ↦
      let h' : Pairwise (q ∷ insert_span p qs) = rw (e) at h in
      let rest = insert_span-Pairwise p qs h'.1 in
      let from_q = insert_span-All (Apart q) p qs h'.0 in
      ((Apart-sym q p from_q.0, rest.0), (from_q.1, rest.1))
  | inr e ↦ let h' : Pairwise (p ∷ q ∷ qs) = rw (e) at h in h'
]

pub sort_spans-Pairwise : (ps : List Span) → Pairwise (sort_spans ps) → Pairwise ps
unfolding sort_spans
sort_spans-Pairwise [] h = tt
sort_spans-Pairwise (p ∷ ps) h =
    let rest = insert_span-Pairwise p (sort_spans ps) h in
    (sort_spans-All (Apart p) ps rest.0, sort_spans-Pairwise ps rest.1)
