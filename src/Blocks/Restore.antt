-- ===== src/Blocks/Restore.antt =====
-- The restore of deltablock.go: the blocks to write, and their effect on a volume.
--
-- The incremental restore removes an existing file first, so its file starts as holes; the full one
-- keeps an existing device, with the data that it has. `fillZeros` is fallocate(2) with mode 0: it
-- turns a hole into zeros and leaves data as it is. The file is read over the image that lies below
-- it. It is seen at the offsets of blocks, of which no two overlap: those of a backup are multiples of
-- the block size.
pub mod Plan
pub mod Laws
use backupstore.Base.{
  ℕ, Bool, true, false, Option, some, List, [], ◌∷◌, ltb, ◌==◌, Bytes, if◌then◌else◌, ◌=b◌, map,
}
use backupstore.Base.Outcome.{Result, ok, err}
use backupstore.Blocks.Merge.{or_else}
use backupstore.Blocks.Mapping.{BlockMapping}

pub record Block : Type 0 where
  pub offset : ℕ
  pub block_checksum : Bytes
  pub compression_method : Bytes
  pub is_zero_block : Bool

abbrev pub zero_block : BlockMapping → Block
zero_block m = record {
  offset = m.offset;
  block_checksum = [];
  compression_method = [];
  is_zero_block = true;
}

abbrev pub data_block : Bytes → BlockMapping → Block
data_block method m = record {
  offset = m.offset;
  block_checksum = m.block_checksum;
  compression_method = method;
  is_zero_block = false;
}

-- The blocks of a full restore, in the order in which the channel carries them.
unfoldable pub populate_full : Bytes → List BlockMapping → List Block
populate_full method blocks = map (data_block method) blocks

-- The blocks of an incremental restore: the first argument is the new backup's, the second the
-- last one's.
unfoldable pub populate_incremental : Bytes → List BlockMapping → List BlockMapping → List Block
populate_incremental method [] [] = []
populate_incremental method [] (l ∷ ls) = zero_block l ∷ populate_incremental method [] ls
populate_incremental method (b ∷ bs) [] = data_block method b ∷ populate_incremental method bs []
populate_incremental method (b ∷ bs) (l ∷ ls) = elim (b.offset == l.offset) [
  | true ↦
      let rest = populate_incremental method bs ls in
      if b.block_checksum =b l.block_checksum then rest else data_block method b ∷ rest
  | false ↦ elim (ltb b.offset l.offset) [
    | true ↦ data_block method b ∷ populate_incremental method bs (l ∷ ls)
    | false ↦ zero_block l ∷ populate_incremental method (b ∷ bs) ls
  ]
]

-- The content of each block, by its offset; a hole is `none`.
abbrev pub VolumeFile {ℓ} : Type ℓ → Type ℓ
VolumeFile D = ℕ → Option D

abbrev pub update {ℓ} : {D : Type ℓ} → VolumeFile D → ℕ → Option D → VolumeFile D
update f o d p = if o == p then d else f p

module _ {ℓ} {D : Type ℓ} (zeros : D) (fetch : Bytes → Bytes → Result D) where
  -- `fetch` reads, decompresses and verifies a block.
  unfoldable pub restore_block : Block → VolumeFile D → Result (VolumeFile D)
  restore_block b f =
      if b.is_zero_block
      then ok (update f b.offset (or_else (f b.offset) (some zeros)))
      else elim (fetch b.compression_method b.block_checksum) [
        | ok d ↦ ok (update f b.offset (some d))
        | err e ↦ err e
      ]

  -- The blocks in the order in which the workers write them; the first error ends the restore.
  unfoldable pub restore_blocks : List Block → VolumeFile D → Result (VolumeFile D)
  restore_blocks [] f = ok f
  restore_blocks (b ∷ bs) f = elim (restore_block b f) [
    | ok g ↦ restore_blocks bs g
    | err e ↦ err e
  ]
