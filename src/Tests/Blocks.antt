-- ===== src/Tests/Blocks.antt =====
-- Runs of the block lists' operations.
use mathlib.Core.List.{Permᴰ}
use backupstore.Base.{
  ℕ, ◌≡◌, refl, List, [], ◌∷◌, Bytes, arith, All, if◌then◌else◌, ◌==◌, some, none,
}
use backupstore.Base.Outcome.{Result, ok}
use backupstore.Blocks.Mapping.{BlockMapping, lookup, Ascending}
use backupstore.Blocks.Merge.{merge_blocks, merge-Ascending, lookup-merge, or_else}
use backupstore.Blocks.Sort.{sort_backup_blocks, fill_slots, collect_slots}
use backupstore.Blocks.Sort.Slots.{last_lookup, IsAligned}
use backupstore.Blocks.Sort.Laws.{sort-Ascending, lookup-sort, sort_total}
use backupstore.Blocks.Restore.{
  Block, populate_full, populate_incremental, VolumeFile, restore_blocks, data_block, zero_block,
}
use backupstore.Blocks.Restore.Laws.{
  read_over, image, holes, restore_incremental, restore_full, overwritten,
}

abbrev at : ℕ → ℕ → BlockMapping
at o c = record { offset = o; block_checksum = c ∷ [] }

-- Blocks of two units.
abbrev delta : List BlockMapping
delta = at 2 20 ∷ at 6 60 ∷ []

abbrev last : List BlockMapping
last = at 0 1 ∷ at 2 2 ∷ at 4 4 ∷ []

abbrev ascending_delta : Ascending 0 delta
ascending_delta = (omega arith, (omega arith, tt))

abbrev ascending_last : Ascending 0 last
ascending_last = (omega arith, (omega arith, (omega arith, tt)))

merge_test : merge_blocks delta last ≡ at 0 1 ∷ at 2 20 ∷ at 4 4 ∷ at 6 60 ∷ []
unfolding merge_blocks
merge_test = refl

merge-Ascending_example : Ascending 0 (merge_blocks delta last)
merge-Ascending_example = merge-Ascending 0 delta last ascending_delta ascending_last

lookup-merge_example : lookup 2 (merge_blocks delta last) ≡ or_else (lookup 2 delta) (lookup 2 last)
lookup-merge_example = lookup-merge 0 2 delta last ascending_delta ascending_last

-- As the workers uploaded them.
abbrev uploaded : List BlockMapping
uploaded = at 6 60 ∷ at 0 1 ∷ at 2 20 ∷ []

abbrev sorted : List BlockMapping
sorted = at 0 1 ∷ at 2 20 ∷ at 6 60 ∷ []

sort_test : sort_backup_blocks uploaded 8 2 ≡ ok sorted
unfolding sort_backup_blocks fill_slots collect_slots
sort_test = refl

sort-Ascending_example : Ascending 0 sorted
sort-Ascending_example = sort-Ascending uploaded 8 2 sort_test

IsAligned-uploaded : All (IsAligned 2) uploaded
IsAligned-uploaded = (
  (omega arith, λ e. ground arith),
  ((omega arith, λ e. ground arith), ((omega arith, λ e. ground arith), tt)),
)

lookup-sort_example : lookup 6 sorted ≡ last_lookup 6 uploaded
lookup-sort_example = lookup-sort uploaded 8 2 6 IsAligned-uploaded sort_test

sort_total_example : (out : List BlockMapping) × (sort_backup_blocks uploaded 8 2 ≡ ok out)
sort_total_example =
    sort_total uploaded 8 2 (omega arith) (omega arith)
      (omega arith, (omega arith, (omega arith, tt)))

-- A store whose blocks hold the first byte of their names.
abbrev contents_of : Bytes → ℕ
contents_of [] = 0
contents_of (x ∷ c) = x

abbrev fetch_of : Bytes → Bytes → Result ℕ
fetch_of method c = ok (contents_of c)

abbrev plan : List Block
plan =
    data_block [] (at 2 20)
    ∷ zero_block (at 0 1)
    ∷ data_block [] (at 6 60)
    ∷ zero_block (at 4 4)
    ∷ []

plan_perm : Permᴰ (populate_incremental [] delta last) plan
unfolding populate_incremental
plan_perm =
    Permᴰ.trans
      {l₂ = data_block [] (at 2 20)
        ∷ zero_block (at 0 1)
        ∷ zero_block (at 4 4)
        ∷ data_block [] (at 6 60)
        ∷ []}
      (Permᴰ.swap refl refl) (Permᴰ.cons refl (Permᴰ.cons refl (Permᴰ.swap refl refl)))

full_perm : Permᴰ (populate_full [] delta) (data_block [] (at 6 60) ∷ data_block [] (at 2 20) ∷ [])
unfolding populate_full
full_perm = Permᴰ.swap refl refl

restore_incremental_example :
    (g : VolumeFile ℕ) × (restore_blocks 0 fetch_of plan (holes 0 fetch_of contents_of) ≡ ok g)
    × ((o : ℕ)
        → read_over 0 fetch_of contents_of (image 0 fetch_of contents_of last) g o
          ≡ image 0 fetch_of contents_of delta o)
restore_incremental_example =
    restore_incremental 0 fetch_of contents_of [] delta (refl, (refl, tt)) last plan ascending_delta
      ascending_last plan_perm

-- A device that is not empty.
abbrev device : VolumeFile ℕ
device o = if o == 4 then some 9 else none

restore_full_example :
    (g : VolumeFile ℕ) × (restore_blocks 0 fetch_of
        (data_block [] (at 6 60) ∷ data_block [] (at 2 20) ∷ [])
        device
      ≡ ok g)
    × ((o : ℕ) → g o ≡ overwritten 0 fetch_of contents_of [] delta (refl, (refl, tt)) device o)
restore_full_example =
    restore_full 0 fetch_of contents_of [] delta (refl, (refl, tt)) _ device ascending_delta
      full_perm
