-- ===== src/Cache/Sides.antt =====
-- One layer of the paged cache against the contiguous buffer, and what an append does to it.
use from_scratch_inference_e.Base.{
  ℕ, ◌+◌, ◌*◌, ◌/◌, ◌≤◌, ◌<◌, ◌≡◌, ◌≢◌, sym, subst, ap, ◌∙◌, List, ◌++◌, some, arith, length,
  length-append, length-take, get_elem?, get_elem?-set_self, get_elem?-set_ne, get_elem?-lt,
  get_elem?-append_left, set, take, drop, ok,
}
use from_scratch_inference_e.Allocator.{BlockAllocator, num_blocks}
use from_scratch_inference_e.Manager.Store
use from_scratch_inference_e.Manager.Store.Reads.{Reads, Mapped}
use from_scratch_inference_e.Manager.Store.RoundTrip.{Wrote, write_rows-Wrote}
use from_scratch_inference_e.Cache.Blocks.{Holds, Holds-Injective, Holds-Mapped, div_lt}

module _ {ℓ} {F : Type ℓ} (n k width : ℕ) (pos : 0 < k) where
  -- One layer's store against the contiguous buffer of its first `rows` rows.
  abbrev pub Side : List ℕ → ℕ → List (List F) → List (List F) → ℕ → Type ℓ
  Side table rows stores contents l =
      (store : List F) × (content : List F) × (get_elem? stores l ≡ some store)
      × (get_elem? contents l ≡ some content)
      × (length store ≡ n * k * width)
      × (length content ≡ rows * width)
      × Reads n k width pos table rows store content

  pub Side-grow :
      (table new : List ℕ) (rows : ℕ) (stores contents : List (List F)) (l : ℕ)
      → rows ≤ length table * k
      → Side table rows stores contents l
      → Side (table ++ new) rows stores contents l
  Side-grow table new rows stores contents l room (store, content, at, at', size, long, reads) = (
    store,
    content,
    at,
    at',
    size,
    long,
    λ r b lt e. reads r b lt (
        sym (get_elem?-append_left table new (r / k) (div_lt r k (length table) pos (omega arith)))
        ∙ e),
  )

  Side-other :
      (table : List ℕ) (rows : ℕ) (stores contents : List (List F)) (l j : ℕ) (x y : List F)
      → l ≢ j
      → Side table rows stores contents j
      → Side table rows (set stores l x) (set contents l y) j
  Side-other table rows stores contents l j x y ne (store, content, at, at', size, long, reads) = (
    store,
    content,
    get_elem?-set_ne stores x ne ∙ at,
    get_elem?-set_ne contents y ne ∙ at',
    size,
    long,
    reads,
  )

  Side-write :
      (table : List ℕ) (rows m : ℕ) (stores contents : List (List F)) (l : ℕ) (a : BlockAllocator)
      (src store content : List F)
      → n ≡ num_blocks a
      → Holds a table
      → rows + m ≤ length table * k
      → m * width ≤ length src
      → get_elem? stores l ≡ some store
      → get_elem? contents l ≡ some content
      → length store ≡ n * k * width
      → length content ≡ rows * width
      → Reads n k width pos table rows store content
      → (store' : List F) × (Store.write_rows k width table m 0 rows src store ≡ ok store')
        × Side table
            (rows + m)
            (set stores l store')
            (set contents l (content ++ take (m * width) src))
            l
  Side-write table rows m stores contents l a src store content same h room enough at at' size long
        reads =
      let z : rows + 0 ≡ rows = omega arith in
      let mapped : Mapped n k table (rows + 0 + m) =
        rw (z, same) (Holds-Mapped a table k (rows + m) pos h room) in
      let (store', e, w) =
        write_rows-Wrote n k width pos table (Holds-Injective a table h) m 0 rows src store content
          size (omega (arith, ap (λ x. x * width) z)) (omega arith) mapped (rw z reads) in
      let flat : 0 * width ≡ 0 = omega arith in
      let w' : Wrote n k width pos table (Holds-Injective a table h) rows m store content
          (take (m * width) src) store' =
        subst
          (λ x.
            Wrote n k width pos table (Holds-Injective a table h) rows m store content
              (take (m * width) (drop x src)) store')
          flat
          (subst
            (λ x.
              Wrote n k width pos table (Holds-Injective a table h) x m store content
                (take (m * width) (drop (0 * width) src)) store')
            z w) in
      (
        store',
        e,
        (
          store',
          content ++ take (m * width) src,
          get_elem?-set_self stores l store' (get_elem?-lt stores l at),
          get_elem?-set_self contents l _ (get_elem?-lt contents l at'),
          w'.size,
          omega (arith, length-append content (take (m * width) src), length-take (m * width) src),
          w'.reads,
        ),
      )

  -- One side of an append, on the grown table.
  pub Side-append :
      (table new : List ℕ) (rows m : ℕ) (stores contents : List (List F)) (l : ℕ)
      (a : BlockAllocator) (src : List F)
      → n ≡ num_blocks a
      → Holds a (table ++ new)
      → rows ≤ length table * k
      → rows + m ≤ length (table ++ new) * k
      → m * width ≤ length src
      → Side table rows stores contents l
      → (store : List F) × (content : List F) × (store' : List F) × (get_elem? stores l
          ≡ some store)
        × (get_elem? contents l ≡ some content)
        × (Store.write_rows k width (table ++ new) m 0 rows src store ≡ ok store')
        × Side
            (table ++ new)
            (rows + m)
            (set stores l store')
            (set contents l (content ++ take (m * width) src))
            l
  unfolding Side-grow
  Side-append table new rows m stores contents l a src same h room room' enough
        (store, content, at, at', size, long, reads) =
      let (_, _, _, _, _, _, reads') =
        Side-grow table new rows stores contents l room
          (store, content, at, at', size, long, reads) in
      let (store', e, side) =
        Side-write (table ++ new) rows m stores contents l a src store content same h room' enough
          at at' size long reads' in
      (store, content, store', at, at', e, side)

  -- The side of another layer.
  pub Side-kept :
      (table new : List ℕ) (rows : ℕ) (stores contents : List (List F)) (l j : ℕ) (x y : List F)
      → l ≢ j
      → rows ≤ length table * k
      → Side table rows stores contents j
      → Side (table ++ new) rows (set stores l x) (set contents l y) j
  Side-kept table new rows stores contents l j x y ne room s =
      Side-other (table ++ new) rows stores contents l j x y ne
        (Side-grow table new rows stores contents j room s)
