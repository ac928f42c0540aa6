-- ===== src/Manager/Prefix/Lookup.antt =====
-- src/kvcache/block_manager.cpp: the probe of one bucket, for acquire_shared_prefix and
-- register_prefix.
use from_scratch_inference_e.Base.{
  ℕ, List, [], ◌∷◌, Option, none, some, Bool, true, false, ◌&&◌, ◌==◌, if◌then◌else◌, length,
}
use from_scratch_inference_e.Base.Dict.{find}
use from_scratch_inference_e.Manager.State.{PrefixEntry, PrefixMap}

abbrev pub tokens_eq : List ℕ → List ℕ → Bool
tokens_eq [] [] = true
tokens_eq [] (y ∷ ys) = false
tokens_eq (x ∷ xs) [] = false
tokens_eq (x ∷ xs) (y ∷ ys) = (x == y) && tokens_eq xs ys

abbrev pub or_empty : Option (List PrefixEntry) → List PrefixEntry
or_empty none = []
or_empty (some es) = es

-- The entries under a hash; none where the map has no such key.
abbrev pub bucket : ℕ → PrefixMap → List PrefixEntry
bucket h p = or_empty (find h p)

unfoldable pub matches : ℕ → ℕ → List ℕ → PrefixEntry → Bool
matches parent block_size span e =
    (e.parent == parent) && (length e.tokens == block_size) && tokens_eq e.tokens span

-- The first matching entry's block, and the entries with its tick renewed.
unfoldable pub touch : ℕ → ℕ → List ℕ → ℕ → List PrefixEntry → Option (ℕ × List PrefixEntry)
touch parent block_size span now [] = none
touch parent block_size span now (e ∷ es) =
    let rest = touch parent block_size span now es in
    if matches parent block_size span e
    then some (e.block, record e { last_used = now } ∷ es)
    else elim rest [ none ↦ none | some (block, es') ↦ some (block, e ∷ es') ]

unfoldable pub known : ℕ → ℕ → List ℕ → List PrefixEntry → Bool
known parent block_size span [] = false
known parent block_size span (e ∷ es) =
    if matches parent block_size span e then true else known parent block_size span es
