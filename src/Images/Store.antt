-- ===== src/Images/Store.antt =====
-- backupbackingimage/config.go: the configuration of an image's backup, its paths and the names in
-- the store.
use backupstore.Base.{ℕ, Bool, true, false, List, [], ◌∷◌, ◌++◌, Bytes, if◌then◌else◌, ◌=b◌, codes}
use backupstore.Base.Outcome.{
  on_result, Result, ok, err, failure, Exec, pure, raise, attempt, total, ◌>>=◌,
}
use backupstore.Driver.{FilePath}
use backupstore.Util.Names.{validate_name, extract_names}
use backupstore.Blocks.Mapping.{BlockMapping}
use backupstore.Config.Paths.{Site, slice, blk_suffix}
use backupstore.Config.Store.{Env, Codec, load_config, save_config}
use backupstore.Gc.Delete.{list_dirs}
use backupstore.Integrity.{wrap}
use backupstore.Upload.Table.{Table}

-- BackupBackingImage; a map or list that is nil is empty.
pub record BackupBackingImage : Type 0 where
  pub name : Bytes
  pub size : ℕ
  pub block_count : ℕ
  pub checksum : Bytes
  pub labels : List (Bytes × Bytes)
  pub compression_method : Bytes
  pub created_time : Bytes
  pub complete_time : Bytes
  pub secret : Bytes
  pub secret_namespace : Bytes
  pub processing_blocks : Table
  pub blocks : List BlockMapping

abbrev pub backing_image_directory : Bytes
backing_image_directory = codes "backing-images"

unfoldable pub get_backing_image_path : Site → Bytes → FilePath
get_backing_image_path site name =
    site.base ++ (backing_image_directory ∷ backing_image_directory ∷ name ∷ [])

unfoldable pub get_backing_image_file_path : Site → Bytes → FilePath
get_backing_image_file_path site name =
    get_backing_image_path site name ++ codes "backing-image.cfg" ∷ []

unfoldable pub get_backing_image_block_path : Site → FilePath
get_backing_image_block_path site = site.base ++ (backing_image_directory ∷ codes "blocks" ∷ [])

unfoldable pub get_backing_image_block_file_path : Site → Bytes → Result FilePath
unfolding get_backing_image_block_path slice
get_backing_image_block_file_path site checksum = elim (slice checksum 0 2) [
  | err e ↦ err e
  | ok layer1 ↦ elim (slice checksum 2 4) [
    | err e ↦ err e
    | ok layer2 ↦
        ok (get_backing_image_block_path site ++ (layer1 ∷ layer2 ∷ (checksum ++ blk_suffix) ∷ []))
  ]
]

-- isBackupInProgress, of an image that is not nil.
unfoldable pub is_image_in_progress : BackupBackingImage → Bool
is_image_in_progress image = image.complete_time =b []

abbrev pub with_legacy_image_method : BackupBackingImage → BackupBackingImage
with_legacy_image_method i = record i {
  compression_method = if i.compression_method =b [] then codes "gzip" else i.compression_method;
}

module _ {W : Type 0} (env : Env W) (codec : Codec BackupBackingImage) where
  open env use {driver, site}

  unfoldable pub backing_image_exists : Bytes → Exec W Bool
  backing_image_exists name = total (driver.file_exists (get_backing_image_file_path site name))

  unfoldable pub save_backing_image_config : BackupBackingImage → Exec W (Unit {0})
  save_backing_image_config image =
      save_config env codec (get_backing_image_file_path site image.name) image

  unfoldable pub load_backing_image_config : Bytes → Exec W BackupBackingImage
  load_backing_image_config name = do
    image ← load_config env codec (get_backing_image_file_path site name)
    pure (with_legacy_image_method image)

  -- Whether the image was there before.
  unfoldable pub add_backing_image_config : BackupBackingImage → Exec W Bool
  add_backing_image_config image = do
    found ← backing_image_exists image.name
    if found
        then pure true
        else if validate_name image.name
        then (do
          saved ← attempt (save_backing_image_config image)
          on_result saved (λ _. pure false)
              (λ e. raise (wrap (codes "failed to add backing image config to backupstore") e)))
        else raise (failure (codes "invalid backing image name"))

  unfoldable pub remove_backup_backing_image : BackupBackingImage → Exec W (Unit {0})
  remove_backup_backing_image image = driver.remove (get_backing_image_file_path site image.name)

  -- A directory that cannot be listed counts as one without images.
  unfoldable pub get_all_backup_backing_image_names : Exec W (List Bytes)
  get_all_backup_backing_image_names = do
    names ←
        attempt
          (driver.list (site.base ++ (backing_image_directory ∷ backing_image_directory ∷ [])))
    on_result names (λ names. pure names) (λ e. pure [])

  -- getAllBlockNames: its loops are those of getBlockNamesForVolume.
  unfoldable pub get_all_block_names : Exec W (List Bytes)
  get_all_block_names = do
    let base = get_backing_image_block_path site
    lv1_dirs ← attempt (driver.list base)
    on_result lv1_dirs
        (λ dirs. (do names ← list_dirs env base dirs; pure (extract_names names [] blk_suffix)))
        (λ e. pure [])
