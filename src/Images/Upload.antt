-- ===== src/Images/Upload.antt =====
-- The upload of a backing image (backupbackingimage.go) by one worker. Compression and the reads of
-- the file are parameters; the progress report, which returns nothing, is left out.
pub mod Sorted
pub mod Stored
pub mod Held
use backupstore.Base.{
  ℕ, ◌+◌, ◌/◌, ◌%◌, true, false, Option, none, some, List, [], ◌∷◌, Bytes, if◌then◌else◌, length,
  ◌==◌, codes, replicate, ltb,
}
use backupstore.Base.Outcome.{
  on_result, total, Result, ok, err, panic, Exec, pure, raise, attempt, lift, ◌>>=◌, ◌>>◌,
}
use backupstore.Blocks.Mapping.{BlockMapping}
use backupstore.Blocks.Sort.{fill_slots, collect_slots}
use backupstore.Config.Paths.{get_checksum}
use backupstore.Config.Store.{Env, Codec}
use backupstore.Integrity.{wrap}
use backupstore.Lock.Ops.{FileLock, lock_file}
use backupstore.Lock.Hold.{unlock_after}
use backupstore.Upload.Table.{Upload, is_block_being_processed, update_blocks_and_progress}
use backupstore.Upload.Store.{Mapping}
use backupstore.Upload.Perform.{Mappings}
use backupstore.Images.Store.{
  BackupBackingImage, get_backing_image_block_file_path, add_backing_image_config,
  load_backing_image_config, save_backing_image_config,
}
use backupstore.Images.Urls.{encode_image_url}
use backupstore.Url.{UrlLib, get}

-- common.SortBackupBlocks: a last block that is not full has a slot.
unfoldable pub sort_image_blocks : List BlockMapping → ℕ → ℕ → Result (List BlockMapping)
unfolding fill_slots collect_slots
sort_image_blocks blocks size block_size =
    if block_size == 0
    then err panic
    else let blocks_num = size / block_size + (if ltb 0 (size % block_size) then 1 else 0) in
      elim (fill_slots block_size blocks (replicate blocks_num [])) [
        | ok slots ↦ ok (collect_slots block_size 0 slots)
        | err e ↦ err e
      ]

-- BackupConfig and the reads of BackupOperation (an offset and a size), with util.CompressData,
-- common.GetProgress and the format of util.Now.
pub record ImageBackup (W : Type 0) : Type 0 where
  pub name : Bytes
  pub dest_url : Bytes
  pub parameters : List (Bytes × Bytes)
  pub read_file : ℕ → ℕ → Exec W Bytes
  pub compress_data : Bytes → Bytes → Result Bytes
  pub get_progress : ℕ → ℕ → ℕ
  pub format_time : ℕ → Bytes

-- The table, the blocks and the progress that the workers share; the sizes are not counted.
abbrev pub start_image : BackupBackingImage → ℕ → Upload
start_image image total_block_counts = record {
  processing_blocks = image.processing_blocks;
  blocks = image.blocks;
  newly_uploaded_data_size = 0;
  re_uploaded_data_size = 0;
  progress = record {
    total_block_counts = total_block_counts;
    processed_block_counts = 0;
    new_block_counts = 0;
    progress = 0;
  };
}

module _ {W : Type 0} (env : Env W) (codec : Codec BackupBackingImage) (lib : UrlLib)
    (config : ImageBackup W) (image : BackupBackingImage) where
  open env use {driver, site}
  open config use {get_progress}

  -- backupMapping after the claim. The deferred update sees no error of Write, which is returned as it
  -- is: it runs after a failed write too.
  unfoldable pub store_image_block : Bytes → Bytes → Upload → Exec W (Result (Unit {0}) × Upload)
  store_image_block checksum block u = do
    blk_file ← lift (get_backing_image_block_file_path site checksum)
    found ← total (driver.file_exists blk_file)
    if found
        then pure (ok tt, update_blocks_and_progress get_progress checksum false u)
        else on_result (config.compress_data image.compression_method block)
            (λ content. (do
              written ← attempt (driver.write blk_file content)
              pure (written, update_blocks_and_progress get_progress checksum true u)))
            (λ e. pure (err e, u))

  unfoldable pub backup_image_mapping : Mapping → Upload → Exec W (Result (Unit {0}) × Upload)
  backup_image_mapping mapping u = do
    read ← attempt (config.read_file mapping.offset mapping.size)
    on_result read
        (λ block.
          let checksum = get_checksum site block in
          let claimed = is_block_being_processed mapping.offset checksum u.processing_blocks in
          let u = record u { processing_blocks = claimed.1 } in
          if claimed.0 then pure (ok tt, u) else store_image_block checksum block u)
        (λ e. pure (err e, u))

  unfoldable pub backup_image_mappings : List Mapping → Upload → Exec W (Result (Unit {0}) × Upload)
  backup_image_mappings [] u = pure (ok tt, u)
  backup_image_mappings (m ∷ mappings) u = do
    (result, u) ← backup_image_mapping m u
    on_result result (λ _. backup_image_mappings mappings u) (λ e. pure (err e, u))

  -- The configuration that is saved at the end.
  abbrev pub completed_image : Bytes → List BlockMapping → ℕ → Upload → BackupBackingImage
  completed_image complete_time blocks total_block_counts u = record image {
    blocks = blocks;
    complete_time = complete_time;
    block_count = total_block_counts;
    secret = get config.parameters (codes "secret");
    secret_namespace = get config.parameters (codes "secret-namespace");
    processing_blocks = u.processing_blocks;
  }

  -- performBackup returns the URL; the percentage is left out.
  unfoldable pub perform_image_backup : Mappings → Exec W Bytes
  perform_image_backup mappings = do
    let total_block_counts = length mappings.mappings
    (result, u) ← backup_image_mappings mappings.mappings (start_image image total_block_counts)
    on_result result
        (λ _. (do
          blocks ← lift (sort_image_blocks u.blocks image.size mappings.block_size)
          now ← total env.now
          save_backing_image_config env codec
              (completed_image (config.format_time now) blocks total_block_counts u)
          pure (encode_image_url lib config.name config.dest_url)))
        (λ e. raise (wrap (codes "failed to backup backing image") e))

-- CreateBackingImageBackup from the driver on: the image for the background job, which is
-- perform_image_backup under the lock that is returned, or none when the image was there before.
module _ {W : Type 0} (env : Env W) (codec : Codec BackupBackingImage) where
  unfoldable pub prepare_image : BackupBackingImage → Exec W (Option BackupBackingImage)
  prepare_image image = do
    found ← add_backing_image_config env codec image
    if found
        then pure none
        else (do loaded ← load_backing_image_config env codec image.name; pure (some loaded))

  unfoldable pub keep_for_image :
      Option BackupBackingImage → FileLock → Exec W (Result (Option BackupBackingImage) × FileLock)
  keep_for_image none lock = pure (ok none, lock)
  keep_for_image (some image) lock = do
    (kept, lock) ← lock_file env lock
    on_result kept (λ _. pure (ok (some image), lock)) (λ e. pure (err e, lock))

  unfoldable pub create_image_backup :
      BackupBackingImage → FileLock → Exec W (Result (Option BackupBackingImage) × FileLock)
  create_image_backup image lock = do
    (locked, lock) ← lock_file env lock
    on_result locked
        (λ _. (do
          prepared ← attempt (prepare_image image)
          (result, lock) ←
              on_result prepared (λ image. keep_for_image image lock) (λ e. pure (err e, lock))
          unlock_after env result lock))
        (λ e. pure (err e, lock))
