-- ===== src/Config/Paths.antt =====
-- The paths that config.go, util.go, lock.go and types.go make.
use backupstore.Base.{
  ℕ, ◌≡◌, refl, [], ◌∷◌, ◌++◌, arith, leb, Bytes, if◌then◌else◌, =b_refl, codes, length, take, drop,
}
use backupstore.Base.Outcome.{Result, ok, err, panic}
use backupstore.Driver.{FilePath, is_above}

-- `sha` is the hex form of SHA-512, of 128 characters; `base` is `backupstoreBase`.
pub record Site : Type 0 where
  pub sha : Bytes → Bytes
  pub base : FilePath

-- util.GetChecksum
abbrev pub preserved_checksum_length : ℕ
preserved_checksum_length = 64

unfoldable pub get_checksum : Site → Bytes → Bytes
get_checksum site d = take preserved_checksum_length (site.sha d)

-- A slice `s[i:j]` with `i ≤ j`; one out of range is a panic.
unfoldable pub slice : Bytes → ℕ → ℕ → Result Bytes
slice s i j = if leb j (length s) then ok (drop i (take j s)) else err panic

abbrev pub lock_suffix : Bytes
lock_suffix = codes ".lck"

abbrev pub blk_suffix : Bytes
blk_suffix = codes ".blk"

abbrev pub cfg_suffix : Bytes
cfg_suffix = codes ".cfg"

abbrev pub backup_config_prefix : Bytes
backup_config_prefix = codes "backup_"

-- The checksum of the name has 64 characters, so its slices are in range.
unfoldable pub get_volume_path : Site → Bytes → FilePath
unfolding get_checksum
get_volume_path site volume_name =
    let checksum = get_checksum site volume_name in
    site.base ++ (codes "volumes" ∷ take 2 checksum ∷ drop 2 (take 4 checksum) ∷ volume_name ∷ [])

unfoldable pub get_volume_file_path : Site → Bytes → FilePath
get_volume_file_path site volume_name = get_volume_path site volume_name ++ codes "volume.cfg" ∷ []

unfoldable pub get_backup_path : Site → Bytes → FilePath
get_backup_path site volume_name = get_volume_path site volume_name ++ codes "backups" ∷ []

unfoldable pub get_backup_config_name : Bytes → Bytes
get_backup_config_name id = backup_config_prefix ++ (id ++ cfg_suffix)

unfoldable pub get_backup_config_path : Site → Bytes → Bytes → FilePath
unfolding get_backup_path get_backup_config_name
get_backup_config_path site backup_name volume_name =
    get_backup_path site volume_name ++ get_backup_config_name backup_name ∷ []

unfoldable pub get_block_path : Site → Bytes → FilePath
get_block_path site volume_name = get_volume_path site volume_name ++ codes "blocks" ∷ []

unfoldable pub get_block_file_path : Site → Bytes → Bytes → Result FilePath
unfolding get_block_path slice
get_block_file_path site volume_name checksum = elim (slice checksum 0 2) [
  | err e ↦ err e
  | ok layer1 ↦ elim (slice checksum 2 4) [
    | err e ↦ err e
    | ok layer2 ↦
        ok (get_block_path site volume_name ++ (layer1 ∷ layer2 ∷ (checksum ++ blk_suffix) ∷ []))
  ]
]

unfoldable pub get_lock_path : Site → Bytes → FilePath
get_lock_path site volume_name = get_volume_path site volume_name ++ codes "locks" ∷ []

unfoldable pub get_lock_file_path : Site → Bytes → Bytes → FilePath
unfolding get_lock_path
get_lock_file_path site volume_name name =
    get_lock_path site volume_name ++ (name ++ lock_suffix) ∷ []

pub is_above-append : (v p q : FilePath) → is_above (v ++ p) (v ++ q) ≡ is_above p q
unfolding is_above
is_above-append [] p q = refl
is_above-append (a ∷ v) p q = ground (arith, =b_refl a, is_above-append v p q)
