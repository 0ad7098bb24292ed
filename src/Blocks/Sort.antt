-- ===== src/Blocks/Sort.antt =====
-- sortBackupBlocks of deltablock.go: the uploaded blocks, in the order of their offsets.
pub mod Slots
pub mod Laws
use backupstore.Base.{
  ℕ, zero, suc, ◌+◌, ◌*◌, ◌/◌, ◌%◌, ◌<◌, ◌≡◌, ◌≢◌, refl, Option, none, some, List, [], ◌∷◌, arith,
  ltb, ◌==◌, if◌then◌else◌, Bytes, set, length, replicate, get_elem?, All, inl, inr, Bool-cases,
  ==_cases, length-set, length-replicate, ap, ◌∙◌,
}
use backupstore.Base.Outcome.{Result, ok, err, panic}
use backupstore.Blocks.Merge.{or_else}
use backupstore.Blocks.Mapping.{BlockMapping, lookup, Ascending, lookup_below, Ascending-mono}

-- `sortedBlocks[i] = checksum` for each block; an index out of range is a panic.
unfoldable pub fill_slots : ℕ → List BlockMapping → List Bytes → Result (List Bytes)
fill_slots block_size [] slots = ok slots
fill_slots block_size (b ∷ bs) slots =
    let i = b.offset / block_size in
    let rest = fill_slots block_size bs (set slots i b.block_checksum) in
    if ltb i (length slots) then rest else err panic

-- The blocks of the slots that are in use, from slot `i` on.
unfoldable pub collect_slots : ℕ → ℕ → List Bytes → List BlockMapping
collect_slots block_size i [] = []
collect_slots block_size i ([] ∷ slots) = collect_slots block_size (i + 1) slots
collect_slots block_size i ((x ∷ checksum) ∷ slots) =
    record { offset = i * block_size; block_checksum = x ∷ checksum }
    ∷ collect_slots block_size (i + 1) slots

-- Division by zero is a panic too.
unfoldable pub sort_backup_blocks : List BlockMapping → ℕ → ℕ → Result (List BlockMapping)
unfolding fill_slots collect_slots
sort_backup_blocks blocks volume_size block_size =
    if block_size == 0
    then err panic
    else elim (fill_slots block_size blocks (replicate (volume_size / block_size) [])) [
      | ok slots ↦ ok (collect_slots block_size 0 slots)
      | err e ↦ err e
    ]
