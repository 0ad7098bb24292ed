-- ===== src/Blocks/Merge.antt =====
-- mergeSnapshotMap of deltablock.go: the blocks of an incremental backup.
use backupstore.Base.{
  ℕ, ◌+◌, ◌≡◌, refl, true, false, Option, none, some, List, [], ◌∷◌, arith, ltb, ◌==◌,
}
use backupstore.Blocks.Mapping.{BlockMapping, lookup, Ascending, lookup_below, Ascending-mono}

-- The loop over both lists, and the rest of the longer one.
unfoldable pub merge_blocks : List BlockMapping → List BlockMapping → List BlockMapping
merge_blocks [] ls = ls
merge_blocks (d ∷ ds) [] = d ∷ ds
merge_blocks (d ∷ ds) (l ∷ ls) = elim (d.offset == l.offset) [
  | true ↦ d ∷ merge_blocks ds ls
  | false ↦ elim (ltb d.offset l.offset) [
    | true ↦ d ∷ merge_blocks ds (l ∷ ls)
    | false ↦ l ∷ merge_blocks (d ∷ ds) ls
  ]
]

-- What a map gives where it has a value, and else what the other gives.
abbrev pub or_else {ℓ} : {A : Type ℓ} → Option A → Option A → Option A
or_else (some a) o = some a
or_else none o = o

pub merge-Ascending :
    (n : ℕ) (ds ls : List BlockMapping)
    → Ascending n ds
    → Ascending n ls
    → Ascending n (merge_blocks ds ls)
unfolding merge_blocks
merge-Ascending n [] ls hd hl = hl
merge-Ascending n (d ∷ ds) [] hd hl = hd
merge-Ascending n (d ∷ ds) (l ∷ ls) hd hl = ground (
  arith,
  merge-Ascending (d.offset + 1) ds ls,
  merge-Ascending (d.offset + 1) ds (l ∷ ls),
  merge-Ascending (l.offset + 1) (d ∷ ds) ls,
  Ascending-mono (d.offset + 1) (l.offset + 1) ls,
)

pub lookup-merge :
    (n o : ℕ) (ds ls : List BlockMapping)
    → Ascending n ds
    → Ascending n ls
    → lookup o (merge_blocks ds ls) ≡ or_else (lookup o ds) (lookup o ls)
unfolding merge_blocks lookup
lookup-merge n o [] ls hd hl = refl
lookup-merge n o (d ∷ ds) [] hd hl = ground arith
lookup-merge n o (d ∷ ds) (l ∷ ls) hd hl = ground (
  arith,
  lookup-merge (d.offset + 1) o ds ls,
  lookup-merge (d.offset + 1) o ds (l ∷ ls),
  lookup-merge (l.offset + 1) o (d ∷ ds) ls,
  lookup_below (d.offset + 1) o ds,
  lookup_below (l.offset + 1) o ls,
  Ascending-mono (d.offset + 1) (l.offset + 1) ls,
)
