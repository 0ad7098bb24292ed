-- ===== src/Images/Restore.antt =====
-- RestoreBackingImageBackup of backupbackingimage.go, with one worker.
use backupstore.Base.{ℕ, ◌*◌, false, none, some, [], Bytes, if◌then◌else◌, codes, ◌==◌, ◌=b◌}
use backupstore.Base.Outcome.{
  on_result, total, Result, ok, err, failure, Exec, pure, raise, attempt, lift, ◌>>=◌, ◌>>◌,
}
use backupstore.Blocks.Restore.{Block, populate_full}
use backupstore.Config.Store.{Env, Codec}
use backupstore.Host.{Host}
use backupstore.Integrity.{Readers, wrap, decompress_and_verify_with_fallback}
use backupstore.Lock.Hold.{with_lock}
use backupstore.Lock.Ops.{FileLock, new_lock}
use backupstore.Lock.Priority.{restore_lock}
use backupstore.Upload.Perform.{default_block_size}
use backupstore.Recovery.Loop.{restore_loop}
use backupstore.Access.{Access, env_at}
use backupstore.Images.Store.{
  BackupBackingImage, get_backing_image_block_file_path, load_backing_image_config,
}
use backupstore.Images.Urls.{decode_image_url}
use backupstore.Images.Delete.{image_lock_name}

-- RestoreConfig, with the readers of compressed data; nothing stops the restore.
pub record ImageRestore (W : Type 0) : Type 0 where
  pub host : Host W
  pub readers : Readers
  pub filename : Bytes

module _ {W : Type 0} (env : Env W) (codec : Codec BackupBackingImage)
    (config : ImageRestore W) where
  open env use {driver, site}
  open config use {host, readers, filename}

  -- A file that exists is removed, and the new one, when it is regular, gets the size of the image.
  -- It is closed again where its status or its truncation fails.
  unfoldable pub check_backing_image_file : BackupBackingImage → Exec W (Unit {0})
  check_backing_image_file image = do
    found ← total (host.exists filename)
    cleaned ← attempt (if found then host.remove_all filename else pure tt)
    on_result cleaned
        (λ _. (do
          host.create filename
          checked ← attempt (do
            regular ← host.is_regular filename
            if regular then host.truncate filename image.size else pure tt)
          on_result checked (λ _. pure tt) (λ e. (do attempt (host.close filename); raise e))))
        (λ e. raise (wrap (codes "failed to clean up the existing file") e))

  -- io.Copy writes the whole block.
  unfoldable pub restore_image_block : Block → Exec W (Unit {0})
  restore_image_block b = do
    blk_file ← lift (get_backing_image_block_file_path site b.block_checksum)
    block ←
        decompress_and_verify_with_fallback readers site driver blk_file b.compression_method
          b.block_checksum
    host.write_at filename b.offset block

  unfoldable pub run_image_worker : BackupBackingImage → Exec W (Result (Unit {0}) × ℕ)
  run_image_worker image = do
    opened ← attempt (host.open_write filename)
    on_result opened
        (λ _. (do
          result ←
              restore_loop (λ w. (false, w)) restore_image_block
                (λ n.
                  total (λ w. (tt, host.update_status filename (n * default_block_size) none w)))
                (populate_full image.compression_method image.blocks) 0
          attempt (host.close filename)
          pure result))
        (λ e. pure (err e, 0))

  abbrev final_status : BackupBackingImage → Result (Unit {0}) × ℕ → W → W
  final_status image (ok _, n) = host.update_status filename image.size none
  final_status image (err e, n) = host.update_status filename (n * default_block_size) (some e)

  -- The background job; the lock is given back before the file is closed.
  unfoldable pub restore_image_job : BackupBackingImage → Exec W (Unit {0})
  restore_image_job image = do
    result ← run_image_worker image
    total (λ w. (tt, final_status image result w))
    lift result.0

  unfoldable pub prepare_image_restore : Bytes → Exec W BackupBackingImage
  prepare_image_restore image_name = do
    loaded ← attempt (load_backing_image_config env codec image_name)
    on_result loaded
        (λ image.
          if image.size == 0
          then raise (failure (codes "read invalid backing image size"))
          else if image.complete_time =b []
          then raise (failure (codes "BackupBackingImage is not completed"))
          else (do
            checked ← attempt (check_backing_image_file image)
            on_result checked (λ _. pure image)
                (λ e. raise (wrap (codes "check backing image file failed") e))))
        (λ e. raise (wrap (codes "backing image doesn't exist in backup store") e))

module _ {W : Type 0} (access : Access W) (codec : Codec BackupBackingImage)
    (config : ImageRestore W) where
  -- The file is not closed where the lock cannot be kept.
  unfoldable pub restore_image_backup :
      Bytes → Bytes → Exec W (Env W × (Result BackupBackingImage × FileLock))
  restore_image_backup backup_url suffix = do
    env ← env_at access backup_url
    target ← lift (decode_image_url access.lib backup_url)
    result ←
        with_lock env false (new_lock image_lock_name restore_lock suffix)
          (prepare_image_restore env codec config target.image_name) (λ _. pure tt)
    pure (env, result)
