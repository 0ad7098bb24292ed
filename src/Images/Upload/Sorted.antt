-- ===== src/Images/Upload/Sorted.antt =====
-- SortBackupBlocks of common/backup.go: the blocks of an image, whose size need not be a multiple of
-- the block size.
use backupstore.Base.{
  ℕ, ◌+◌, ◌*◌, ◌/◌, ◌%◌, ◌<◌, ◌≤◌, ◌≡◌, ◌∙◌, refl, List, [], ◌∷◌, arith, All, ltb, ltb_cases, inl,
  inr, if◌then◌else◌,
}
use backupstore.Base.Outcome.{ok}
use backupstore.Blocks.Mapping.{BlockMapping, lookup, Ascending}
use backupstore.Blocks.Sort.{sort_backup_blocks}
use backupstore.Blocks.Sort.Slots.{IsAligned, last_lookup}
use backupstore.Blocks.Sort.Laws.{sort-Ascending, lookup-sort, sort_total}
use backupstore.Images.Upload.{sort_image_blocks}

-- The size of the slots' blocks together.
abbrev rounded_up : ℕ → ℕ → ℕ
rounded_up size b = (size / b + (if ltb 0 (size % b) then 1 else 0)) * b

rounded_up-enough : (size b : ℕ) → 0 < b → size ≤ rounded_up size b
rounded_up-enough size b pos = elim (ltb_cases 0 (size % b)) [
  | inl h ↦ rw h.0 (grind arith)
  | inr h ↦ rw h.0 (grind arith)
]

mul_mod : (n b : ℕ) → 0 < b → (n * b) % b ≡ 0
mul_mod n b pos = grind arith

div_mul : (n b : ℕ) → 0 < b → (n * b) / b ≡ n
div_mul n b pos = grind arith

rounded_up-whole : (size b : ℕ) → 0 < b → rounded_up size b % b ≡ 0
rounded_up-whole size b pos = mul_mod (size / b + (if ltb 0 (size % b) then 1 else 0)) b pos

-- It sorts as for a volume of the rounded size.
sort_image-sort :
    (blocks : List BlockMapping) (size b : ℕ)
    → 0 < b
    → sort_image_blocks blocks size b ≡ sort_backup_blocks blocks (rounded_up size b) b
unfolding sort_image_blocks sort_backup_blocks
sort_image-sort blocks size b pos =
    rw (div_mul (size / b + (if ltb 0 (size % b) then 1 else 0)) b pos) refl

-- For aligned blocks whose offsets are below the size, which need not be a multiple of the block size,
-- sorting succeeds: the list it gives has strictly ascending offsets, and has at every offset the
-- checksum of the last block there.
pub sort_image_blocks-lookup :
    (blocks : List BlockMapping) (size b : ℕ)
    → 0 < b
    → All (IsAligned b) blocks
    → All (λ d. d.offset < size) blocks
    → (out : List BlockMapping) × (sort_image_blocks blocks size b ≡ ok out)
      × Ascending 0 out
      × ((o : ℕ) → lookup o out ≡ last_lookup o blocks)
sort_image_blocks-lookup blocks size b pos a h =
    let (out, e) =
      sort_total blocks (rounded_up size b) b pos (rounded_up-whole size b pos) (below blocks h) in
    (
      out,
      sort_image-sort blocks size b pos ∙ e,
      sort-Ascending blocks (rounded_up size b) b e,
      λ o. lookup-sort blocks (rounded_up size b) b o a e,
    )
  where
    below :
        (bs : List BlockMapping)
        → All (λ d. d.offset < size) bs
        → All (λ d. d.offset < rounded_up size b) bs
    below [] h = tt
    below (d ∷ ds) h = (omega (arith, rounded_up-enough size b pos), below ds h.1)
