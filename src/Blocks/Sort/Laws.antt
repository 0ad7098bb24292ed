-- ===== src/Blocks/Sort/Laws.antt =====
-- What sortBackupBlocks of deltablock.go returns.
use backupstore.Base.{
  ℕ, ◌*◌, ◌/◌, ◌%◌, ◌<◌, ◌≡◌, refl, List, [], ◌∷◌, arith, Bytes, set, length, replicate, All, inl,
  inr, ==_cases, length-set, length-replicate, ap, ◌∙◌,
}
use backupstore.Base.Outcome.{Result, ok, err}
use backupstore.Blocks.Mapping.{BlockMapping, lookup, Ascending, Ascending-mono}
use backupstore.Blocks.Sort.{fill_slots, collect_slots, sort_backup_blocks}
use backupstore.Blocks.Sort.Slots.{
  in_use, collect-Ascending, lookup-collect, get_elem?-fill, lookup-collect_none,
  last_lookup-aligned, in_use-last_lookup, get_elem?-replicate, in_use-or_else, IsAligned,
  last_lookup,
}

sort_inversion :
    (blocks : List BlockMapping) (volume_size b : ℕ) (out : List BlockMapping)
    → sort_backup_blocks blocks volume_size b ≡ ok out
    → (0 < b)
      × (slots : List Bytes) × (fill_slots b blocks (replicate (volume_size / b) []) ≡ ok slots)
      × (out ≡ collect_slots b 0 slots)
unfolding sort_backup_blocks
sort_inversion blocks volume_size b out e = inverse _ refl
  where
    inverse :
        (r : Result (List Bytes))
        → fill_slots b blocks (replicate (volume_size / b) []) ≡ r
        → (0 < b)
          × (slots : List Bytes) × (fill_slots b blocks (replicate (volume_size / b) []) ≡ ok slots)
          × (out ≡ collect_slots b 0 slots)
    inverse (ok slots) f = (ground arith, slots, f, ground arith)
    inverse (err c) f = absurd (ground arith)

module _ (blocks : List BlockMapping) (volume_size b : ℕ) {out : List BlockMapping} where
  -- The sorted list has strictly ascending offsets.
  pub sort-Ascending : sort_backup_blocks blocks volume_size b ≡ ok out → Ascending 0 out
  sort-Ascending e =
      let (pos, slots, _, c) = sort_inversion blocks volume_size b out e in
      rw c (Ascending-mono 0 (0 * b) _ (omega arith) (collect-Ascending b 0 slots pos))

  -- For aligned blocks, sorting keeps at every offset the checksum of the last block there, and
  -- adds no other.
  pub lookup-sort :
      (o : ℕ)
      → All (IsAligned b) blocks
      → sort_backup_blocks blocks volume_size b ≡ ok out
      → lookup o out ≡ last_lookup o blocks
  lookup-sort o a e =
      let (pos, slots, f, c) = sort_inversion blocks volume_size b out e in
      elim (==_cases (o % b) 0) [
        | inl (_, z) ↦ rw c (at_slot pos slots f z)
        | inr (_, z) ↦
            rw (c, lookup-collect_none b 0 o slots pos z, last_lookup-aligned b o blocks a z)
      ]
    where
      at_slot :
          0 < b
          → (slots : List Bytes) → fill_slots b blocks (replicate (volume_size / b) []) ≡ ok slots
          → o % b ≡ 0
          → lookup o (collect_slots b 0 slots) ≡ last_lookup o blocks
      at_slot pos slots f z =
          let k = o / b in
          let multiple_of : o ≡ k * b = omega arith in
          rw multiple_of (
            lookup-collect b 0 k k slots pos (omega arith)
            ∙ ap in_use (get_elem?-fill b k blocks _ slots pos a f)
            ∙ in_use-or_else (last_lookup (k * b) blocks) _ (in_use-last_lookup b (k * b) blocks a)
                (get_elem?-replicate (volume_size / b) k))

fill_total :
    (b n : ℕ) (blocks : List BlockMapping) (slots : List Bytes)
    → length slots ≡ n
    → All (λ d. d.offset / b < n) blocks
    → (out : List Bytes) × (fill_slots b blocks slots ≡ ok out)
unfolding fill_slots
fill_total b n [] slots e h = (slots, refl)
fill_total b n (d ∷ ds) slots e h =
    let (out, f) =
      fill_total b n ds (set slots (d.offset / b) d.block_checksum)
        (length-set slots (d.offset / b) d.block_checksum ∙ e) h.1 in
    (out, ground arith)

-- Sorting succeeds on blocks within the volume.
pub sort_total :
    (blocks : List BlockMapping) (volume_size b : ℕ)
    → 0 < b
    → volume_size % b ≡ 0
    → All (λ d. d.offset < volume_size) blocks
    → (out : List BlockMapping) × (sort_backup_blocks blocks volume_size b ≡ ok out)
unfolding sort_backup_blocks
sort_total blocks volume_size b pos whole h =
    let (slots, f) =
      fill_total b (volume_size / b) blocks (replicate (volume_size / b) [])
        (length-replicate (volume_size / b) []) (in_slots blocks h) in
    (collect_slots b 0 slots, ground arith)
  where
    in_slots :
        (bs : List BlockMapping)
        → All (λ d. d.offset < volume_size) bs
        → All (λ d. d.offset / b < volume_size / b) bs
    in_slots [] a = tt
    in_slots (d ∷ ds) a = (grind arith, in_slots ds a.1)
