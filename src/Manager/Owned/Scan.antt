-- ===== src/Manager/Owned/Scan.antt =====
-- The scan of evict_lru finds the oldest cached block that only the cache holds.
use from_scratch_inference_e.Base.{
  ℕ, suc, ◌+◌, ◌≤◌, ◌<◌, ◌≡◌, refl, subst, List, [], ◌∷◌, Option, none, some, arith, true, false,
  ◌==◌, get_elem?, All, ok, Bool-cases, inl, inr,
}
use from_scratch_inference_e.Base.Dict.{find, Distinct}
use from_scratch_inference_e.Allocator.{BlockAllocator}
use from_scratch_inference_e.Allocator
use from_scratch_inference_e.Allocator.Counts.{get_elem?-of_pos}
use from_scratch_inference_e.Allocator.Invariant.{refs}
use from_scratch_inference_e.Manager.State.{PrefixEntry, PrefixMap}
use from_scratch_inference_e.Manager.Prefix.Lookup.{bucket}
use from_scratch_inference_e.Manager.Evict.{Victim, older, better, scan_entries, scan_buckets}

-- The candidate is at most `t` old.
abbrev pub AtMost : Option Victim → ℕ → Type 0
AtMost none t = ⊥
AtMost (some v) t = v.oldest ≤ t

-- The candidate names an entry of the map that only the cache holds.
abbrev pub Names : BlockAllocator → PrefixMap → Victim → Type 0
Names a p v =
    (e : PrefixEntry) × (get_elem? (bucket v.hash p) v.index ≡ some e)
    × (refs a e.block ≡ 1)
    × (v.oldest ≡ e.last_used)

abbrev pub Fine : BlockAllocator → PrefixMap → Option Victim → Type 0
Fine a p none = Unit
Fine a p (some v) = Names a p v

-- No entry that only the cache holds is older than the candidate.
abbrev pub Covers : BlockAllocator → Option Victim → List PrefixEntry → Type 0
Covers a best = All (λ e. refs a e.block ≡ 1 → AtMost best e.last_used)

abbrev pub CoversAll : BlockAllocator → Option Victim → PrefixMap → Type 0
CoversAll a best [] = Unit
CoversAll a best ((h, es) ∷ p) = Covers a best es × CoversAll a best p

abbrev pub Held : BlockAllocator → List PrefixEntry → Type 0
Held a = All (λ e. 0 < refs a e.block)

abbrev pub HeldAll : BlockAllocator → PrefixMap → Type 0
HeldAll a [] = Unit
HeldAll a ((h, es) ∷ p) = Held a es × HeldAll a p

-- `new` is a candidate at least as old as `old`.
abbrev Improves : Option Victim → Option Victim → Type 0
Improves old new = (t : ℕ) → AtMost old t → AtMost new t

Covers-mono :
    (a : BlockAllocator) (old new : Option Victim) (es : List PrefixEntry)
    → Improves old new
    → Covers a old es
    → Covers a new es
Covers-mono a old new [] i c = tt
Covers-mono a old new (e ∷ es) i c = (λ r. i e.last_used (c.0 r), Covers-mono a old new es i c.1)

module _ (a : BlockAllocator) (p : PrefixMap) where
  better-Fine :
      (h i : ℕ) (e : PrefixEntry) (best : Option Victim)
      → 0 < refs a e.block
      → get_elem? (bucket h p) i ≡ some e
      → Fine a p best
      → (new : Option Victim) × (better a h i e best ≡ ok new)
        × Fine a p new
        × Improves best new
        × (refs a e.block ≡ 1 → AtMost new e.last_used)
  unfolding better Allocator.ref_count
  better-Fine h i e best pos at fine = elim (Bool-cases (refs a e.block == 1)) [
    | inl one ↦ elim (Bool-cases (older e.last_used best)) [
      | inl old ↦ (
        some (record { hash = h; index = i; oldest = e.last_used }),
        rw (get_elem?-of_pos a.ref_count e.block pos, one, old) refl,
        (e, at, ground arith, refl),
        older_improves best old,
        λ r. omega arith,
      )
      | inr young ↦ (
        best,
        rw (get_elem?-of_pos a.ref_count e.block pos, one, young) refl,
        fine,
        λ t x. x,
        λ r. not_older best young,
      )
    ]
    | inr more ↦ (
      best,
      rw (get_elem?-of_pos a.ref_count e.block pos, more) refl,
      fine,
      λ t x. x,
      λ r. absurd (ground arith),
    )
  ]
    where
      older_improves :
          (best : Option Victim)
          → older e.last_used best ≡ true
          → Improves best (some (record { hash = h; index = i; oldest = e.last_used }))
      older_improves none o t x = absurd x
      older_improves (some v) o t x = ground arith

      not_older : (best : Option Victim) → older e.last_used best ≡ false → AtMost best e.last_used
      not_older none o = cc
      not_older (some v) o = ground arith

-- `es` stands in the bucket from position `i` on.
abbrev pub From : List PrefixEntry → ℕ → List PrefixEntry → Type 0
From b i es = (k : ℕ) (e : PrefixEntry) → get_elem? es k ≡ some e → get_elem? b (i + k) ≡ some e

From-tail :
    (b : List PrefixEntry) (i : ℕ) (e : PrefixEntry) (es : List PrefixEntry)
    → From b i (e ∷ es)
    → From b (i + 1) es
From-tail b i e es f k x at =
    let eq : i + suc k ≡ i + 1 + k = omega arith in
    subst (λ n. get_elem? b n ≡ some x) eq (f (suc k) x at)

From-head :
    (b : List PrefixEntry) (i : ℕ) (e : PrefixEntry) (es : List PrefixEntry)
    → From b i (e ∷ es)
    → get_elem? b i ≡ some e
From-head b i e es f =
    let eq : i + 0 ≡ i = omega arith in subst (λ n. get_elem? b n ≡ some e) eq (f 0 e refl)

-- The buckets of a part of the map are those of the map.
abbrev Part : PrefixMap → PrefixMap → Type 0
Part p q = (h : ℕ) (es : List PrefixEntry) → find h q ≡ some es → find h p ≡ some es

module _ (a : BlockAllocator) (p : PrefixMap) where
  scan_entries-Fine :
      (h i : ℕ) (es : List PrefixEntry) (best : Option Victim)
      → Held a es
      → From (bucket h p) i es
      → Fine a p best
      → (new : Option Victim) × (scan_entries a h i es best ≡ ok new)
        × Fine a p new
        × Improves best new
        × Covers a new es
  unfolding scan_entries
  scan_entries-Fine h i [] best held from fine = (best, refl, fine, λ t x. x, tt)
  scan_entries-Fine h i (e ∷ es) best held from fine =
      let (mid, e1, fine1, imp1, cov1) =
        better-Fine a p h i e best held.0 (From-head (bucket h p) i e es from) fine in
      let (new, e2, fine2, imp2, cov2) =
        scan_entries-Fine h (i + 1) es mid held.1 (From-tail (bucket h p) i e es from) fine1 in
      (new, rw e1 e2, fine2, λ t x. imp2 t (imp1 t x), (λ r. imp2 e.last_used (cov1 r), cov2))

  scan_buckets-Fine :
      (q : PrefixMap) (best : Option Victim)
      → HeldAll a q
      → Distinct q
      → Part p q
      → Fine a p best
      → (new : Option Victim) × (scan_buckets a q best ≡ ok new)
        × Fine a p new
        × Improves best new
        × CoversAll a new q
  unfolding scan_buckets
  scan_buckets-Fine [] best held d part fine = (best, refl, fine, λ t x. x, tt)
  scan_buckets-Fine ((h, es) ∷ q) best held d part fine =
      let at : find h p ≡ some es = part h es (ground arith) in
      let (mid, e1, fine1, imp1, cov1) =
        scan_entries-Fine h 0 es best held.0 (from_start at) fine in
      let (new, e2, fine2, imp2, cov2) =
        scan_buckets-Fine q mid held.1 d.1 (Part-tail h es q d part) fine1 in
      (new, rw e1 e2, fine2, λ t x. imp2 t (imp1 t x), (Covers-mono a mid new es imp2 cov1, cov2))
    where
      from_start : find h p ≡ some es → From (bucket h p) 0 es
      from_start at k e x =
          rw at (let eq : k ≡ 0 + k = omega arith in subst (λ n. get_elem? es n ≡ some e) eq x)

      Part-tail :
          (h : ℕ) (es : List PrefixEntry) (q : PrefixMap)
          → Distinct ((h, es) ∷ q)
          → Part p ((h, es) ∷ q)
          → Part p q
      Part-tail h es q d part k fs x = part k fs (ground arith)

  -- The scan never reads outside the counts. It finds an entry that only the cache holds, as old as
  -- any such entry, or none where there is no such entry.
  pub scan_lem :
      HeldAll a p
      → Distinct p
      → (found : Option Victim) × (scan_buckets a p none ≡ ok found)
        × Fine a p found
        × CoversAll a found p
  scan_lem held d =
      let (new, e, fine, imp, cov) = scan_buckets-Fine p none held d (λ h es x. x) tt in
      (new, e, fine, cov)
