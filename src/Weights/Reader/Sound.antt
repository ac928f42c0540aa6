-- ===== src/Weights/Reader/Sound.antt =====
-- parse as a whole: what it accepts, and that it fails by its own exceptions alone.
use Prim.Native.String.{String}
use text.Mathlib.Text.{◌==◌ as same_text}
use from_scratch_inference_e.Base.{
  ℕ, ◌+◌, ◌-◌, ◌≤◌, ◌≡◌, refl, sym, ap, ◌∙◌, List, [], ◌∷◌, ◌++◌, append_assoc, append-nil, Bool,
  true, false, not, ltb, Bool-cases, if◌then◌else◌, Option, none, some, Option-cases, arith, length,
  take, drop, All, ◌⊎◌, inl, inr, ok, err, ◌>>=◌, ◌>>◌, guard, runtime_error, Ensures, Ensures-bind,
  Ensures-mono,
}
use from_scratch_inference_e.Base.Names.{emplace, has_key}
use from_scratch_inference_e.Tensor.{Tensor}
use from_scratch_inference_e.Weights.Reader.{
  Entry, Span, little_endian, sort_spans, check_spans, read_entries, parse,
}
use from_scratch_inference_e.Weights.Reader.Entries.{
  Refusal, Ensures-guard, IsEntry, read_entry-IsEntry,
}
use from_scratch_inference_e.Weights.Reader.Spans.{
  Pairwise, Ordered, Chain, check_spans-Chain, Chain-Pairwise, sort_spans-Pairwise, All-sort_spans,
}

negated : (b : Bool) → not b ≡ true → b ≡ false
negated true h = sym h
negated false h = refl

header_fits :
    (size len : ℕ) → not (ltb size 8) ≡ true → not (ltb (size - 8) len) ≡ true → 8 + len ≤ size
header_fits size len h h' = ground arith

abbrev pub Items : Type 0
Items = List (String × Option Entry)

abbrev pub In : String × Option Entry → Items → Type 0
In x [] = ⊥
In x (y ∷ ys) = (x ≡ y) ⊎ In x ys

-- The names of a header that stand for tensors.
abbrev pub names_of : Items → List String
names_of [] = []
names_of (item ∷ items) =
    if same_text item.0 "__metadata__" then names_of items else item.0 ∷ names_of items

module _ {ℓ} {V : Type ℓ} where
  emplace_fresh :
      (k : String) (v : V) (m : List (String × V))
      → has_key k m ≡ false
      → emplace k v m ≡ m ++ (k, v) ∷ []
  emplace_fresh k v [] h = refl
  emplace_fresh k v ((j, w) ∷ m) h = elim (Bool-cases (same_text j k)) [
    | inl e ↦ let h' : true ≡ false = rw (e) at h in absurd (cc h')
    | inr e ↦ rw (e) (ap (λ t. (j, w) ∷ t) (emplace_fresh k v m (rw (e) at h)))
  ]

  abbrev pub keys : List (String × V) → List String
  keys [] = []
  keys (x ∷ xs) = x.0 ∷ keys xs

  keys-append : (xs ys : List (String × V)) → keys (xs ++ ys) ≡ keys xs ++ keys ys
  keys-append [] ys = refl
  keys-append (x ∷ xs) ys = ap (λ t. x.0 ∷ t) (keys-append xs ys)

module _ {ℓ} {F : Type ℓ} (of_bits : ℕ → F) (region : List ℕ) (all : Items) where
  -- A tensor, its name and its span are those of an entry of the header.
  abbrev pub HeldOne : String × Tensor F → Span → Type 0
  HeldOne x s =
      (e : Entry) × In (x.0, some e) all
      × IsEntry of_bits region e x.1
      × (s.0 ≡ e.begin_)
      × (s.1 ≡ e.end_)

  abbrev pub Held : List (String × Tensor F) → List Span → Type 0
  Held [] [] = Unit
  Held [] (s ∷ ss) = ⊥
  Held (x ∷ xs) [] = ⊥
  Held (x ∷ xs) (s ∷ ss) = HeldOne x s × Held xs ss

  Held-append :
      (xs : List (String × Tensor F)) (ss : List Span) (x : String × Tensor F) (s : Span)
      → Held xs ss
      → HeldOne x s
      → Held (xs ++ x ∷ []) (ss ++ s ∷ [])
  Held-append [] [] x s h one = (one, tt)
  Held-append [] (t ∷ ss) x s h one = elim h [ ]
  Held-append (y ∷ xs) [] x s h one = elim h [ ]
  Held-append (y ∷ xs) (t ∷ ss) x s h one = (h.0, Held-append xs ss x s h.1 one)

  Held-Ordered : (xs : List (String × Tensor F)) (ss : List Span) → Held xs ss → All Ordered ss
  Held-Ordered [] [] h = tt
  Held-Ordered [] (t ∷ ss) h = elim h [ ]
  Held-Ordered (y ∷ xs) [] h = elim h [ ]
  Held-Ordered (y ∷ xs) (t ∷ ss) ((e, at, is, b, f), rest) =
      (omega (arith, b, f, is.ordered), Held-Ordered xs ss rest)

  read_entries-Held :
      (items : Items) (tensors : List (String × Tensor F)) (spans : List Span)
      → ((x : String × Option Entry) → In x items → In x all)
      → Held tensors spans
      → Ensures Refusal
          (λ r. Held r.0 r.1 × (keys r.0 ≡ keys tensors ++ names_of items))
          (read_entries of_bits region items tensors spans)
  unfolding read_entries
  read_entries-Held [] tensors spans within held = (held, sym (append-nil (keys tensors)))
  read_entries-Held ((name, none) ∷ items) tensors spans within held =
      elim (Bool-cases (same_text name "__metadata__")) [
        | inl e ↦
            rw (e, read_entries)
              (read_entries-Held items tensors spans (λ x at. within x (inr at)) held)
        | inr e ↦ rw (e, read_entries) (inl refl)
      ]
  read_entries-Held ((name, some entry) ∷ items) tensors spans within held =
      elim (Bool-cases (same_text name "__metadata__")) [
        | inl e ↦
            rw (e, read_entries)
              (read_entries-Held items tensors spans (λ x at. within x (inr at)) held)
        | inr e ↦
            let R : List (String × Tensor F) × List Span → Type 0 =
              λ r. Held r.0 r.1 × (keys r.0 ≡ keys tensors ++ name ∷ names_of items) in
            rw (e, read_entries)
              (Ensures-bind Refusal (IsEntry of_bits region entry) R _ _
                (read_entry-IsEntry of_bits region entry)
                λ t is.
                  Ensures-guard (not (has_key name tensors)) runtime_error R
                    (read_entries of_bits region items (emplace name t tensors)
                      (spans ++ (entry.begin_, entry.end_) ∷ []))
                    (inl refl)
                    λ fresh.
                      let new : String × Tensor F = (name, t) in
                      let span : Span = (entry.begin_, entry.end_) in
                      rw (emplace_fresh name t tensors (negated (has_key name tensors) fresh)) (
                        Ensures-mono Refusal
                          (λ r.
                            Held r.0 r.1
                            × (keys r.0 ≡ keys (tensors ++ new ∷ []) ++ names_of items))
                          R _
                          (read_entries-Held items (tensors ++ new ∷ []) (spans ++ span ∷ [])
                            (λ x at. within x (inr at))
                            (Held-append tensors spans new span held
                              (entry, within (name, some entry) (inl refl), is, refl, refl)))
                          λ r h. (
                            h.0,
                            h.1
                                ∙ (ap (λ ks. ks ++ names_of items) (keys-append tensors (new ∷ []))
                                    ∙ append_assoc (keys tensors) (name ∷ []) (names_of items)),
                          )))
      ]

module _ {ℓ} {F : Type ℓ} (of_bits : ℕ → F) (read_header : List ℕ → Option Items) where
  -- The bytes of the header and of the data, as the first eight bytes divide the file.
  abbrev pub header_of : List ℕ → List ℕ
  header_of bytes = take (little_endian (take 8 bytes)) (drop 8 bytes)

  abbrev pub region_of : List ℕ → List ℕ
  region_of bytes = drop (8 + little_endian (take 8 bytes)) bytes

  -- A file whose parts are those of its header.
  abbrev pub IsFile : List ℕ → List (String × Tensor F) → Type 0
  IsFile bytes tensors =
      (items : Items) × (spans : List Span) × (read_header (header_of bytes) ≡ some items)
      × (8 + little_endian (take 8 bytes) ≤ length bytes)
      × Held of_bits (region_of bytes) items tensors spans
      × (keys tensors ≡ names_of items)
      × Pairwise spans

  rest_IsFile :
      (bytes : List ℕ) (items : Items)
      → read_header (header_of bytes) ≡ some items
      → 8 + little_endian (take 8 bytes) ≤ length bytes
      → Ensures Refusal (IsFile bytes) (
          read_entries of_bits (region_of bytes) items [] [] >>= λ r.
          check_spans (sort_spans r.1) >> ok r.0)
  rest_IsFile bytes items e fits =
      Ensures-bind Refusal
        (λ r. Held of_bits (region_of bytes) items r.0 r.1 × (keys r.0 ≡ names_of items))
        (IsFile bytes) _ _
        (read_entries-Held of_bits (region_of bytes) items items [] [] (λ x at. at) tt)
        λ r h.
          Ensures-bind Refusal (λ done. Chain (sort_spans r.1)) (IsFile bytes) _ _
            (check_spans-Chain (sort_spans r.1))
            λ done chain.
              let ordered = Held-Ordered of_bits (region_of bytes) items r.0 r.1 h.0 in
              (
                items,
                r.1,
                e,
                fits,
                h.0,
                h.1,
                sort_spans-Pairwise r.1
                    (Chain-Pairwise (sort_spans r.1) (All-sort_spans Ordered r.1 ordered) chain),
              )

  -- On any bytes, and whatever the JSON library reads in the header, parse fails with one of its own
  -- exceptions or by the overflow of a shape, never by an access outside the file. What it accepts
  -- has a tensor for every name of the header but the metadata, in order; each tensor holds as many
  -- values as its shape says and takes up exactly the bytes between its offsets; and these spans lie
  -- in the file and do not overlap.
  pub parse-IsFile :
      (bytes : List ℕ) → Ensures Refusal (IsFile bytes) (parse of_bits read_header bytes)
  unfolding parse
  parse-IsFile bytes =
      let len = little_endian (take 8 bytes) in
      elim (Option-cases (read_header (header_of bytes))) [
        | inl e ↦
            rw (e, parse)
              (Ensures-guard (not (ltb (length bytes) 8)) runtime_error (IsFile bytes)
                (guard (not (ltb (length bytes - 8) len)) runtime_error >> err runtime_error)
                (inl refl)
                λ long.
                  Ensures-guard (not (ltb (length bytes - 8) len)) runtime_error (IsFile bytes)
                    (err runtime_error) (inl refl) λ inside. inl refl)
        | inr (items, e) ↦
            rw (e, parse)
              (Ensures-guard _ runtime_error (IsFile bytes) _ (inl refl) λ long.
                Ensures-guard _ runtime_error (IsFile bytes) _ (inl refl)
                  λ inside. rest_IsFile bytes items e (header_fits (length bytes) len long inside))
      ]
