-- ===== src/Cache/Refines.antt =====
-- The paged cache implements the contiguous one: the same appends, then the same tensors.
use from_scratch_inference_e.Base.{
  ◌==◌, ==_of_ne, false, ℕ, ◌+◌, ◌-◌, ◌*◌, ◌≤◌, ◌<◌, ◌≡◌, ◌≢◌, refl, sym, subst, ap, ◌∙◌, List, [],
  ◌∷◌, ◌++◌, some, arith, length, length-append, get_elem?, get_elem?-set_self, get_elem?-set_ne,
  get_elem?-lt, set, take, drop, ok, ==_refl,
}
use native.Mathlib.Decide.{ℕ_discrete}
use native.Mathlib.Nat.{mul-div_left, mul-le-mul_right}
use from_scratch_inference_e.Allocator.{BlockAllocator, num_free, num_blocks}
use from_scratch_inference_e.Tensor.{Tensor, of_data, num_elements}
use from_scratch_inference_e.Tensor.Rows.{slice_in}
use from_scratch_inference_e.Manager.Store
use from_scratch_inference_e.Manager.Store.Reads.{Reads, gather_rows-Reads, take_length}
use from_scratch_inference_e.Cache.Contiguous.{KvCache}
use from_scratch_inference_e.Cache.Contiguous
use from_scratch_inference_e.Cache.Paged.{
  PagedKvCache, needed, ensure_blocks, gather, append, key_tensor, value_tensor, take_blocks,
}
use from_scratch_inference_e.Cache.Blocks.{Holds, Holds-Mapped, take_blocks-Holds, needed_room}
use from_scratch_inference_e.Cache.Sides.{Side, Side-append, Side-kept}

module _ {ℓ} {F : Type ℓ} where
  -- A layer of both caches.
  abbrev pub Layer : (p : PagedKvCache F) → KvCache F → 0 < p.block_size → ℕ → Type ℓ
  Layer p c pos l =
      (rows : ℕ) × (get_elem? p.filled l ≡ some rows)
      × (rows ≤ length p.block_table * p.block_size)
      × Side (num_blocks p.alloc) p.block_size p.kv_dim pos p.block_table rows p.keys c.keys l
      × Side (num_blocks p.alloc) p.block_size p.kv_dim pos p.block_table rows p.values c.values l

  -- The paged cache holds, in every layer, the rows of the contiguous one, in blocks of its own.
  pub record Refines (p : PagedKvCache F) (c : KvCache F) : Type ℓ where
    pub sized : 0 < p.block_size
    pub wide : 0 < p.kv_dim
    pub dim : c.kv_dim ≡ p.kv_dim
    pub holds : Holds p.alloc p.block_table
    pub layers : (l : ℕ) → l < p.num_layers → Layer p c sized l

  gather-eq :
      (p : PagedKvCache F) (rows : ℕ) (store content : List F) (pos : 0 < p.block_size)
      → Holds p.alloc p.block_table
      → rows ≤ length p.block_table * p.block_size
      → length store ≡ num_blocks p.alloc * p.block_size * p.kv_dim
      → length content ≡ rows * p.kv_dim
      → Reads (num_blocks p.alloc) p.block_size p.kv_dim pos p.block_table rows store content
      → gather p store rows ≡ ok (record { shape = rows ∷ p.kv_dim ∷ []; data_ = content })
  unfolding gather
  gather-eq p rows store content pos h room size long reads =
      let all : take (rows * p.kv_dim) content ≡ content =
        subst (λ x. take x content ≡ content) long (take_length content) in
      let flat : 0 * p.kv_dim ≡ 0 = omega arith in
      let got =
        gather_rows-Reads (num_blocks p.alloc) p.block_size p.kv_dim pos p.block_table rows rows 0
          store content (Holds-Mapped p.alloc p.block_table p.block_size rows pos h room) size reads
          (omega arith) in
      let got' : Store.gather_rows p.block_size p.kv_dim p.block_table rows 0 store ≡ ok content =
        got ∙ (ap (λ x. ok (take (rows * p.kv_dim) (drop x content))) flat ∙ ap ok all) in
      rw got' refl

  pub of_data-eq :
      (rows width : ℕ) (content : List F)
      → length content ≡ rows * width
      → of_data (rows ∷ width ∷ []) content
        ≡ ok (record { shape = rows ∷ width ∷ []; data_ = content })
  unfolding of_data num_elements
  of_data-eq rows width content long =
      let size : 1 * rows * width ≡ length content = omega arith in
      rw size (ground (arith, ==_refl (length content)))

  pub rows-eq :
      (c : KvCache F) (l rows width : ℕ) (content : List F)
      → 0 < width
      → c.kv_dim ≡ width
      → get_elem? c.keys l ≡ some content
      → length content ≡ rows * width
      → Contiguous.rows c l ≡ ok rows
  unfolding Contiguous.rows
  rows-eq c l rows width content pos dim at long =
      let wide : (width == 0) ≡ false =
        ==_of_ne width 0 (λ none_wide. absurd (omega (arith, none_wide))) in
      rw (at, dim, wide, long, mul-div_left rows {n = width} pos) refl

  -- The tensors of a layer that holds `rows` rows.
  pub layer_tensors :
      (p : PagedKvCache F) (c : KvCache F) (l rows : ℕ)
      → Refines p c
      → l < p.num_layers
      → get_elem? p.filled l ≡ some rows
      → (k : List F) × (v : List F) × (length k ≡ rows * p.kv_dim)
        × (length v ≡ rows * p.kv_dim)
        × ((key_tensor p l ≡ ok (record { shape = rows ∷ p.kv_dim ∷ []; data_ = k }))
            × (Contiguous.key_tensor c l ≡ ok (record { shape = rows ∷ p.kv_dim ∷ []; data_ = k })))
        × ((value_tensor p l ≡ ok (record { shape = rows ∷ p.kv_dim ∷ []; data_ = v }))
            × (Contiguous.value_tensor c l
                ≡ ok (record { shape = rows ∷ p.kv_dim ∷ []; data_ = v })))
  unfolding key_tensor value_tensor Contiguous.key_tensor Contiguous.value_tensor
  layer_tensors p c l start r lt held =
      let (
        rows,
        at,
        room,
        (ks, kc, ka, ka', ksize, klong, kreads),
        (vs, vc, va, va', vsize, vlong, vreads),
      ) =
        r.layers l lt in
      let n = rows-eq c l rows p.kv_dim kc r.wide r.dim ka' klong in
      let same : rows ≡ start = cc (at, held) in
      rw (← same) (
        kc,
        vc,
        klong,
        vlong,
        (
          rw (ka, at) (gather-eq p rows ks kc r.sized r.holds room ksize klong kreads),
          rw (n, ka', r.dim) (of_data-eq rows p.kv_dim kc klong),
        ),
        (
          rw (va, at) (gather-eq p rows vs vc r.sized r.holds room vsize vlong vreads),
          rw (n, va', r.dim) (of_data-eq rows p.kv_dim vc vlong),
        ),
      )

  -- Where the paged cache holds what the contiguous one does, the keys and the values of each layer are
  -- the same tensors, whichever cache they are read from.
  pub tensors-Refines :
      (p : PagedKvCache F) (c : KvCache F) (l : ℕ)
      → Refines p c
      → l < p.num_layers
      → (k : Tensor F) × (v : Tensor F) × ((key_tensor p l ≡ ok k)
          × (Contiguous.key_tensor c l ≡ ok k))
        × ((value_tensor p l ≡ ok v) × (Contiguous.value_tensor c l ≡ ok v))
  tensors-Refines p c l r lt =
      let filled = r.layers l lt in
      let both = layer_tensors p c l filled.0 r lt filled.1 in (_, _, both.4, both.5)

  -- Both caches after an append of one layer.
  abbrev pub appended :
      PagedKvCache F → BlockAllocator → List ℕ → ℕ → List F → List F → ℕ → PagedKvCache F
  appended p a table l ks vs rows = record p {
    alloc = a;
    block_table = table;
    keys = set p.keys l ks;
    values = set p.values l vs;
    filled = set p.filled l rows;
  }

  abbrev pub extended : KvCache F → ℕ → List F → List F → KvCache F
  extended c l kc vc = record c { keys = set c.keys l kc; values = set c.values l vc }

  append-eq :
      (p : PagedKvCache F) (l n rows : ℕ) (k v ks vs : List F) {ks' vs' : List F}
      {a : BlockAllocator} {table : List ℕ}
      → get_elem? p.filled l ≡ some rows
      → take_blocks (needed p (rows + n) - length p.block_table) p.alloc p.block_table
        ≡ ok (a, table)
      → get_elem? p.keys l ≡ some ks
      → get_elem? p.values l ≡ some vs
      → Store.write_rows p.block_size p.kv_dim table n 0 rows k ks ≡ ok ks'
      → Store.write_rows p.block_size p.kv_dim table n 0 rows v vs ≡ ok vs'
      → append p l k v n ≡ ok (appended p a table l ks' vs' (rows + n))
  unfolding append ensure_blocks
  append-eq p l n rows k v ks vs at e ka va wk wv = rw (at, e, ka, va, wk, wv) refl

  pub contiguous-eq :
      (c : KvCache F) (l n width : ℕ) (k v kc vc : List F)
      → c.kv_dim ≡ width
      → get_elem? c.keys l ≡ some kc
      → get_elem? c.values l ≡ some vc
      → n * width ≤ length k
      → n * width ≤ length v
      → Contiguous.append c l k v n
        ≡ ok (extended c l (kc ++ take (n * width) k) (vc ++ take (n * width) v))
  unfolding Contiguous.append
  contiguous-eq c l n width k v kc vc dim ka va in_k in_v =
      rw
        (
          ka,
          va,
          dim,
          slice_in k 0 (n * width) (omega arith),
          slice_in v 0 (n * width) (omega arith),
        )
        refl

  kept-Layer :
      (p : PagedKvCache F) (c : KvCache F) (l n rows : ℕ) (ks vs kc vc : List F)
      (a : BlockAllocator) (new : List ℕ) (pos : 0 < p.block_size) {j : ℕ}
      → num_blocks a ≡ num_blocks p.alloc
      → l ≢ j
      → Layer p c pos j
      → Layer (appended p a (p.block_table ++ new) l ks vs (rows + n)) (extended c l kc vc) pos j
  kept-Layer p c l n rows ks vs kc vc a new pos {j = j} size other
        (rows_j, at, room, kside, vside) =
      let blocks = num_blocks p.alloc in
      (
        rows_j,
        get_elem?-set_ne p.filled (rows + n) other ∙ at,
        omega (
          arith,
          room,
          length-append p.block_table new,
          mul-le-mul_right {m = length p.block_table} {n = length (p.block_table ++ new)}
              p.block_size (omega (arith, length-append p.block_table new)),
        ),
        rw size (
            Side-kept blocks p.block_size p.kv_dim pos p.block_table new rows_j p.keys c.keys l j ks
              kc other room kside),
        rw size (
            Side-kept blocks p.block_size p.kv_dim pos p.block_table new rows_j p.values c.values l
              j vs vc other room vside),
      )

  -- Both caches after an append, with the blocks that it took.
  pub append-appended :
      (p : PagedKvCache F) (c : KvCache F) (l n rows : ℕ) (k v : List F)
      → Refines p c
      → l < p.num_layers
      → get_elem? p.filled l ≡ some rows
      → needed p (rows + n) - length p.block_table ≤ num_free p.alloc
      → n * p.kv_dim ≤ length k
      → n * p.kv_dim ≤ length v
      → (a : BlockAllocator) × (table : List ℕ) × (ks : List F) × (vs : List F) × (kc : List F)
        × (vc : List F) × (length table + num_free a ≡ length p.block_table + num_free p.alloc)
        × (append p l k v n ≡ ok (appended p a table l ks vs (rows + n)))
        × (Contiguous.append c l k v n ≡ ok (extended c l kc vc))
        × Refines (appended p a table l ks vs (rows + n)) (extended c l kc vc)
  append-appended p c l n rows k v r lt at0 fits' in_k in_v =
      let (rows0, at, room0, kside0, vside0) = r.layers l lt in
      let same : rows0 ≡ rows = cc (at, at0) in
      let (room, kside, vside) : (rows ≤ length p.block_table * p.block_size)
          × Side (num_blocks p.alloc) p.block_size p.kv_dim r.sized p.block_table rows p.keys c.keys
              l
          × Side (num_blocks p.alloc) p.block_size p.kv_dim r.sized p.block_table rows p.values
              c.values l =
        rw (← same) (room0, kside0, vside0) in
      let (a, new, e, long, h, size, used) =
        take_blocks-Holds (needed p (rows + n) - length p.block_table) p.alloc p.block_table r.holds
          fits' in
      let table = p.block_table ++ new in
      let more = length-append p.block_table new in
      let room' = needed_room (rows + n) p.block_size (length table) r.sized (omega arith) in
      let blocks = num_blocks p.alloc in
      let (ks, kc, ks', ka, ka', wk, kside') =
        Side-append blocks p.block_size p.kv_dim r.sized p.block_table new rows n p.keys c.keys l a
          k (sym size) h room room' in_k kside in
      let (vs, vc, vs', va, va', wv, vside') =
        Side-append blocks p.block_size p.kv_dim r.sized p.block_table new rows n p.values c.values
          l a v (sym size) h room room' in_v vside in
      let p' = appended p a table l ks' vs' (rows + n) in
      let c' = extended c l (kc ++ take (n * p.kv_dim) k) (vc ++ take (n * p.kv_dim) v) in
      let filled = get_elem?-set_self p.filled l (rows + n) (get_elem?-lt p.filled l at0) in
      (
        a,
        table,
        ks',
        vs',
        kc ++ take (n * p.kv_dim) k,
        vc ++ take (n * p.kv_dim) v,
        omega (arith, more, used),
        append-eq p l n rows k v ks vs at0 e ka va wk wv,
        contiguous-eq c l n p.kv_dim k v kc vc r.dim ka' va' in_k in_v,
        record {
          sized = r.sized;
          wide = r.wide;
          dim = r.dim;
          holds = h;
          layers = λ j below. elim (ℕ_discrete l j) [
            | yes mine ↦
                subst (Layer p' c' r.sized) mine
                  (rows + n, filled, room', rw size kside', rw size vside')
            | no other ↦ kept-Layer p c l n rows _ _ _ _ a new r.sized size other (r.layers j below)
          ];
        },
      )

  -- Where the paged cache holds what the contiguous one does, the layer is one of theirs, both buffers
  -- have the rows and the blocks that are lacking are free, an append succeeds on both caches, and the
  -- paged one still holds, in every layer, what the contiguous one does.
  pub append-Refines :
      (p : PagedKvCache F) (c : KvCache F) (l n start : ℕ) (k v : List F)
      → Refines p c
      → l < p.num_layers
      → get_elem? p.filled l ≡ some start
      → needed p (start + n) - length p.block_table ≤ num_free p.alloc
      → n * p.kv_dim ≤ length k
      → n * p.kv_dim ≤ length v
      → (p' : PagedKvCache F) × (c' : KvCache F) × (append p l k v n ≡ ok p')
        × (Contiguous.append c l k v n ≡ ok c')
        × Refines p' c'
  append-Refines p c l n start k v r lt at fits in_k in_v =
      let (a, table, ks, vs, kc, vc, used, e, e', after) =
        append-appended p c l n start k v r lt at fits in_k in_v in
      (appended p a table l ks vs (start + n), extended c l kc vc, e, e', after)
