-- ===== src/Blocks/Restore/Laws.antt =====
-- What a restore (deltablock.go) leaves in the volume, with the workers' writes in any order.
use mathlib.Core.List.{Permᴰ}
use backupstore.Base.{
  ℕ, ◌≤◌, ◌≡◌, refl, Option, none, some, List, [], ◌∷◌, arith, Bytes, if◌then◌else◌, =b_iff, ap,
  All, ==_cases, inl, inr, map, sym, ◌∙◌,
}
use backupstore.Base.Outcome.{Result, ok}
use backupstore.Blocks.Mapping.{BlockMapping, lookup, Ascending}
use backupstore.Blocks.Merge.{or_else}
use backupstore.Blocks.Restore.{
  Block, populate_full, populate_incremental, VolumeFile, update, restore_block, restore_blocks,
  data_block,
}
use backupstore.Blocks.Restore.Plan.{
  plan_at, count_at, change, plan_at-count_zero, count_at-perm, count_at-full, count_at-incremental,
  plan_at-perm, plan_at-full, plan_at-incremental,
}

module _ {D : Type 0} (zeros : D) (fetch : Bytes → Bytes → Result D) (contents : Bytes → D) where
  -- The block can be read, and the store holds `contents` for its checksum.
  abbrev pub IsFetched : Block → Type 0
  IsFetched b =
      if b.is_zero_block
      then Unit
      else (fetch b.compression_method b.block_checksum ≡ ok (contents b.block_checksum))

  abbrev written : Option D → Option Block → Option D
  written d none = d
  written d (some b) =
      if b.is_zero_block then or_else d (some zeros) else some (contents b.block_checksum)

  restore_block-ok :
      (b : Block) (f : VolumeFile D)
      → IsFetched b
      → restore_block zeros fetch b f ≡ ok (update f b.offset (written (f b.offset) (some b)))
  unfolding restore_block
  restore_block-ok b f h = ground arith

  -- Where at most one block has the offset, the file changes there as that block says.
  first_then_rest :
      (o : ℕ) (b : Block) (bs : List Block) (f g : VolumeFile D)
      → (count_at o bs ≤ 1
          → g o ≡ written (update f b.offset (written (f b.offset) (some b)) o) (plan_at o bs))
      → count_at o (b ∷ bs) ≤ 1
      → g o ≡ written (f o) (plan_at o (b ∷ bs))
  unfolding plan_at count_at
  first_then_rest o b bs f g w c = elim (==_cases b.offset o) [
    | inl (t, e) ↦ ground (arith, plan_at-count_zero o bs, ap f e)
    | inr (t, e) ↦ ground arith
  ]

  restore_blocks-ok :
      (plan : List Block) (f : VolumeFile D)
      → All IsFetched plan
      → (g : VolumeFile D) × (restore_blocks zeros fetch plan f ≡ ok g)
        × ((o : ℕ) → count_at o plan ≤ 1 → g o ≡ written (f o) (plan_at o plan))
  unfolding restore_blocks plan_at
  restore_blocks-ok [] f h = (f, refl, λ o c. refl)
  restore_blocks-ok (b ∷ bs) f h =
      let f' = update f b.offset (written (f b.offset) (some b)) in
      let (g, e, w) = restore_blocks-ok bs f' h.1 in
      (
        g,
        rw (restore_block-ok b f h.0, restore_blocks) e,
        λ o c. first_then_rest o b bs f g (w o) c,
      )

  -- A backup's content at an offset; a block that the backup does not list is zeros.
  abbrev pub image : List BlockMapping → ℕ → D
  image blocks o = elim (lookup o blocks) [ none ↦ zeros | some c ↦ contents c ]

  -- The file read over the image below it.
  abbrev pub read_over : (ℕ → D) → VolumeFile D → ℕ → D
  read_over base f o = elim (f o) [ none ↦ base o | some d ↦ d ]

  abbrev pub holes : VolumeFile D
  holes o = none

  All-perm : {p q : List Block} → Permᴰ p q → All IsFetched p → All IsFetched q
  All-perm Permᴰ.nil h = tt
  All-perm (Permᴰ.cons {l₁ = p} {l₂ = q} e r) h = (rw (← e) h.0, All-perm r h.1)
  All-perm (Permᴰ.swap e f) h = (rw (← f) h.1.0, (rw (← e) h.0, h.1.1))
  All-perm (Permᴰ.trans r s) h = All-perm s (All-perm r h)

  IsFetched-incremental :
      (m : Bytes) (bs ls : List BlockMapping)
      → All (λ b. fetch m b.block_checksum ≡ ok (contents b.block_checksum)) bs
      → All IsFetched (populate_incremental m bs ls)
  unfolding populate_incremental
  IsFetched-incremental m [] [] h = tt
  IsFetched-incremental m [] (l ∷ ls) h = (tt, IsFetched-incremental m [] ls h)
  IsFetched-incremental m (b ∷ bs) [] h = (h.0, IsFetched-incremental m bs [] h.1)
  IsFetched-incremental m (b ∷ bs) (l ∷ ls) h = ground (
    arith,
    IsFetched-incremental m bs ls h.1,
    IsFetched-incremental m bs (l ∷ ls) h.1,
    IsFetched-incremental m (b ∷ bs) ls h,
    h.0,
  )

  -- The change at an offset, over the last backup's content, gives the new backup's.
  changed :
      (m : Bytes) (o : ℕ) (bs ls : List BlockMapping) (f : VolumeFile D)
      → f o ≡ written none (change m o (lookup o bs) (lookup o ls))
      → read_over (image ls) f o ≡ image bs o
  changed m o bs ls f e = read (lookup o bs) (lookup o ls) e
    where
      read :
          (x y : Option Bytes)
          → f o ≡ written none (change m o x y)
          → read_over (λ _. elim y [ none ↦ zeros | some c ↦ contents c ]) f o
            ≡ elim x [ none ↦ zeros | some c ↦ contents c ]
      read none none h = ground arith
      read none (some d) h = ground arith
      read (some c) none h = ground arith
      read (some c) (some d) h = ground (arith, =b_iff c d)

  module _ (m : Bytes) (bs : List BlockMapping)
      (fetched : All (λ b. fetch m b.block_checksum ≡ ok (contents b.block_checksum)) bs) where
    -- An incremental restore of `bs` on a volume that holds the last backup's blocks `ls`: when
    -- both lists ascend, every block of `bs` can be fetched, and the workers write the plan in
    -- any order, the restore succeeds, and the new file over the last image reads as the image
    -- of `bs` at every offset.
    pub restore_incremental :
        (ls : List BlockMapping) (plan : List Block)
        → Ascending 0 bs
        → Ascending 0 ls
        → Permᴰ (populate_incremental m bs ls) plan
        → (g : VolumeFile D) × (restore_blocks zeros fetch plan holes ≡ ok g)
          × ((o : ℕ) → read_over (image ls) g o ≡ image bs o)
    restore_incremental ls plan hb hl r =
        let (g, e, w) =
          restore_blocks-ok plan holes (All-perm r (IsFetched-incremental m bs ls fetched)) in
        (g, e, λ o. changed m o bs ls g (w o (few o) ∙ ap (written none) (same o)))
      where
        few : (o : ℕ) → count_at o plan ≤ 1
        few o = omega (arith, count_at-perm o r, count_at-incremental m 0 o bs ls hb hl)

        same : (o : ℕ) → plan_at o plan ≡ change m o (lookup o bs) (lookup o ls)
        same o =
            sym (plan_at-perm o r (count_at-incremental m 0 o bs ls hb hl))
            ∙ plan_at-incremental m 0 o bs ls hb hl

    IsFetched-full : All IsFetched (populate_full m bs)
    unfolding populate_full
    IsFetched-full = go bs fetched
      where
        go :
            (cs : List BlockMapping)
            → All (λ b. fetch m b.block_checksum ≡ ok (contents b.block_checksum)) cs
            → All IsFetched (map (data_block m) cs)
        go [] h = tt
        go (c ∷ cs) h = (h.0, go cs h.1)

    -- What a full restore leaves of a file: the data of the blocks that the backup lists, and the rest
    -- as it was.
    abbrev pub overwritten : VolumeFile D → VolumeFile D
    overwritten f o = elim (lookup o bs) [ none ↦ f o | some c ↦ some (contents c) ]

    written-change :
        (o : ℕ) (d : Option D) (x : Option Bytes)
        → written d (change m o x none) ≡ elim x [ none ↦ d | some c ↦ some (contents c) ]
    written-change o d none = refl
    written-change o d (some c) = refl

    -- A full restore into any file: when the list ascends, every block can be fetched, and the workers
    -- write the plan in any order, the restore succeeds, and the file has the block's data at every
    -- offset that the backup lists, and what it had at every other one. The file is seen as blocks that
    -- do not overlap.
    pub restore_full :
        (plan : List Block) (f : VolumeFile D)
        → Ascending 0 bs
        → Permᴰ (populate_full m bs) plan
        → (g : VolumeFile D) × (restore_blocks zeros fetch plan f ≡ ok g)
          × ((o : ℕ) → g o ≡ overwritten f o)
    restore_full plan f hb r =
        let (g, e, w) = restore_blocks-ok plan f (All-perm r IsFetched-full) in
        (
          g,
          e,
          λ o. w o (few o) ∙ ap (written (f o)) (same o) ∙ written-change o (f o) (lookup o bs),
        )
      where
        few : (o : ℕ) → count_at o plan ≤ 1
        few o = omega (arith, count_at-perm o r, count_at-full m 0 o bs hb)

        same : (o : ℕ) → plan_at o plan ≡ change m o (lookup o bs) none
        same o = sym (plan_at-perm o r (count_at-full m 0 o bs hb)) ∙ plan_at-full m o bs
