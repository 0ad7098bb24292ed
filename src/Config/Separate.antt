-- ===== src/Config/Separate.antt =====
-- The files of a volume (config.go, util.go, lock.go) are not above one another.
use mathlib.Core.List.{append_assoc, append_cancel_right}
use backupstore.Base.{
  ◌≡◌, ◌≢◌, refl, false, [], ◌∷◌, ◌++◌, arith, leb, Bytes, ◌=b◌, =b_iff, codes, length, take, drop,
  inl, inr, Bool-cases,
}
use backupstore.Base.Outcome.{ok}
use backupstore.Driver.{FilePath, is_above}
use backupstore.Config.Paths.{
  Site, get_volume_path, get_volume_file_path, get_backup_config_name, get_backup_config_path,
  get_block_file_path, get_lock_file_path, is_above-append, lock_suffix, blk_suffix, cfg_suffix,
}

-- The tails below the volume's directory.
abbrev pub block_tail : Bytes → Bytes → Bytes → FilePath
block_tail a b c = codes "blocks" ∷ a ∷ b ∷ (c ++ blk_suffix) ∷ []

abbrev pub backup_tail : Bytes → FilePath
backup_tail n = codes "backups" ∷ get_backup_config_name n ∷ []

abbrev pub lock_tail : Bytes → FilePath
lock_tail n = codes "locks" ∷ (n ++ lock_suffix) ∷ []

module _ (site : Site) (v : Bytes) where
  backup_path :
      (n : Bytes) → get_backup_config_path site n v ≡ get_volume_path site v ++ backup_tail n
  unfolding get_backup_config_path
  backup_path n = append_assoc (get_volume_path site v) _ _

  lock_path : (n : Bytes) → get_lock_file_path site v n ≡ get_volume_path site v ++ lock_tail n
  unfolding get_lock_file_path
  lock_path n = append_assoc (get_volume_path site v) _ _

  -- A block's path ends in its checksum.
  pub block_path :
      (c : Bytes) (p : FilePath)
      → get_block_file_path site v c ≡ ok p
      → (a : Bytes) × (b : Bytes) × (p ≡ get_volume_path site v ++ block_tail a b c)
  unfolding get_block_file_path
  block_path c p h = elim (Bool-cases (leb 4 (length c))) [
    | inl long ↦ (
      drop 0 (take 2 c),
      drop 2 (take 4 c),
      ground (
        arith,
        append_assoc (get_volume_path site v) (codes "blocks" ∷ [])
            (drop 0 (take 2 c) ∷ drop 2 (take 4 c) ∷ (c ++ blk_suffix) ∷ []),
      ),
    )
    | inr short ↦ absurd (ground arith)
  ]

suffix_ne : (a b s : Bytes) → a ≢ b → ((a ++ s) =b (b ++ s)) ≡ false
suffix_ne a b s ne =
    ground (arith, =b_iff (a ++ s) (b ++ s), λ (e : a ++ s ≡ b ++ s). append_cancel_right a b s e)

config_name_ne :
    (m n : Bytes) → m ≢ n → (get_backup_config_name m =b get_backup_config_name n) ≡ false
unfolding get_backup_config_name
config_name_ne m n ne = suffix_ne m n cfg_suffix ne

module _ (site : Site) (v : Bytes) where
  -- The paths of blocks with different checksums, neither above the other.
  pub block-block :
      (c d : Bytes) (p q : FilePath)
      → c ≢ d
      → get_block_file_path site v c ≡ ok p
      → get_block_file_path site v d ≡ ok q
      → is_above p q ≡ false
  unfolding is_above
  block-block c d p q ne hp hq =
      let (a, b, e) = block_path site v c p hp in
      let (a', b', e') = block_path site v d q hq in rw (e, e', is_above-append) (tails a b a' b')
    where
      tails : (a b a' b' : Bytes) → is_above (block_tail a b c) (block_tail a' b' d) ≡ false
      tails a b a' b' = ground (arith, suffix_ne c d blk_suffix ne)

  pub backup-backup :
      (m n : Bytes)
      → m ≢ n
      → is_above (get_backup_config_path site m v) (get_backup_config_path site n v) ≡ false
  unfolding is_above
  backup-backup m n ne =
      rw (backup_path site v m, backup_path site v n, is_above-append)
        (ground (arith, config_name_ne m n ne))

  -- The other files of the volume, and a block's file or a backup's configuration.
  pub volume-block :
      (c : Bytes) (p : FilePath)
      → get_block_file_path site v c ≡ ok p
      → is_above (get_volume_file_path site v) p ≡ false
  unfolding get_volume_file_path is_above
  volume-block c p h = let (a, b, e) = block_path site v c p h in rw (e, is_above-append) refl

  pub volume-backup :
      (n : Bytes) → is_above (get_volume_file_path site v) (get_backup_config_path site n v) ≡ false
  unfolding get_volume_file_path is_above
  volume-backup n = rw (backup_path site v n, is_above-append) refl

  pub backup-block :
      (n c : Bytes) (p : FilePath)
      → get_block_file_path site v c ≡ ok p
      → is_above (get_backup_config_path site n v) p ≡ false
  unfolding is_above
  backup-block n c p h =
      let (a, b, e) = block_path site v c p h in rw (backup_path site v n, e, is_above-append) refl

  pub block-backup :
      (n c : Bytes) (p : FilePath)
      → get_block_file_path site v c ≡ ok p
      → is_above p (get_backup_config_path site n v) ≡ false
  unfolding is_above
  block-backup n c p h =
      let (a, b, e) = block_path site v c p h in rw (backup_path site v n, e, is_above-append) refl

  pub lock-block :
      (n c : Bytes) (p : FilePath)
      → get_block_file_path site v c ≡ ok p
      → is_above (get_lock_file_path site v n) p ≡ false
  unfolding is_above
  lock-block n c p h =
      let (a, b, e) = block_path site v c p h in rw (lock_path site v n, e, is_above-append) refl

  pub lock-backup :
      (m n : Bytes)
      → is_above (get_lock_file_path site v m) (get_backup_config_path site n v) ≡ false
  unfolding is_above
  lock-backup m n = rw (lock_path site v m, backup_path site v n, is_above-append) refl

-- The configuration file of any volume is not above a block or a backup of this one.
module _ (site : Site) (u v : Bytes) where
  volume_apart :
      (tail : FilePath) (dir : Bytes)
      → (codes "volume.cfg" =b dir) ≡ false
      → is_above (get_volume_file_path site u) (get_volume_path site v ++ (dir ∷ tail)) ≡ false
  unfolding get_volume_file_path get_volume_path is_above
  volume_apart tail dir h = rw (append_assoc, append_assoc, is_above-append) (ground arith)

  pub any_volume-block :
      (c : Bytes) (p : FilePath)
      → get_block_file_path site v c ≡ ok p
      → is_above (get_volume_file_path site u) p ≡ false
  any_volume-block c p h =
      let (a, b, e) = block_path site v c p h in
      rw e (volume_apart (a ∷ b ∷ (c ++ blk_suffix) ∷ []) (codes "blocks") refl)

  pub any_volume-backup :
      (n : Bytes) → is_above (get_volume_file_path site u) (get_backup_config_path site n v) ≡ false
  any_volume-backup n =
      rw (backup_path site v n)
        (volume_apart (get_backup_config_name n ∷ []) (codes "backups") refl)
