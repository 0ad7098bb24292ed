-- ===== src/Recovery.antt =====
-- The restore of deltablock.go: the handlers, and the job of each, with one worker. The job's deferred
-- calls close the device, report the status and unlock, in this order.
pub mod Loop
pub mod Device
pub mod Data
pub mod Handler
use backupstore.Base.{
  ℕ, ◌+◌, ◌%◌, Bool, true, false, not, ◌&&◌, ◌||◌, Option, none, some, List, [], ◌∷◌, ◌++◌, Bytes,
  if◌then◌else◌, codes, length, ◌==◌, ltb, take,
}
use backupstore.Base.Outcome.{
  on_result, total, Result, ok, err, Error, failure, external, Exec, pure, raise, attempt, lift,
  ◌>>=◌, ◌>>◌,
}
use backupstore.Blocks.Restore.{Block, populate_full, populate_incremental}
use backupstore.Config.Paths.{get_block_file_path}
use backupstore.Config.Store.{Env, Volume, load_volume, load_backup}
use backupstore.Host.{Host}
use backupstore.Integrity.{Readers, wrap, decompress_and_verify_with_fallback}
use backupstore.Lock.Hold.{with_lock, run_job}
use backupstore.Lock.Ops.{FileLock, new_lock}
use backupstore.Lock.Priority.{restore_lock}
use backupstore.Upload.Perform.{default_block_size}
use backupstore.Util.Names.{validate_name}
use backupstore.Access.{Access, env_at, names_at}
use backupstore.Recovery.Loop.{restore_loop}

-- What a handler hands to its job. `partial_progress` is whether the job reports how far it came when
-- it fails.
pub record Prepared : Type 0 where
  pub device : Bytes
  pub is_regular : Bool
  pub size : ℕ
  pub volume_name : Bytes
  pub blocks : List Block
  pub total_block_counts : ℕ
  pub partial_progress : Bool

-- DeltaRestoreConfig, with the readers of compressed data and getProgress.
pub record RestoreConfig (W : Type 0) : Type 0 where
  pub host : Host W
  pub readers : Readers
  pub get_progress : ℕ → ℕ → ℕ
  pub filename : Bytes
  pub last_backup_name : Bytes

unfoldable pub first_block : Bytes → Bytes
first_block block = take default_block_size block

module _ {W : Type 0} (env : Env W) (config : RestoreConfig W) where
  open env use {driver, site}
  open config use {host, readers, get_progress, filename}

  -- io.CopyN of a block: what is longer is cut, and what is shorter is written and is an error.
  unfoldable pub copy_block : Bytes → ℕ → Bytes → Exec W (Unit {0})
  copy_block device offset block = do
    host.write_at device offset (first_block block)
    if ltb (length block) default_block_size then raise (external (codes "EOF")) else pure tt

  unfoldable pub restore_block_to_file : Bytes → Bytes → Block → Exec W (Unit {0})
  restore_block_to_file volume_name device b = do
    blk_file ← lift (get_block_file_path site volume_name b.block_checksum)
    read ← attempt (
        decompress_and_verify_with_fallback readers site driver blk_file b.compression_method
          b.block_checksum)
    on_result read
        (λ block. (do
          copied ← attempt (copy_block device b.offset block)
          on_result copied (λ _. pure tt)
              (λ e. raise (wrap (codes "failed to write decompressed block") e))))
        (λ e. raise (wrap (codes "failed to decompress and verify block") e))

  unfoldable pub restore_block_on_device : Bytes → Bytes → Block → Exec W (Unit {0})
  restore_block_on_device volume_name device b =
      if b.is_zero_block
      then host.fill_zeros device b.offset default_block_size
      else restore_block_to_file volume_name device b

  -- The deferred report of restoreBlock, with the number of the blocks so far.
  abbrev pub report : Bytes → ℕ → ℕ → Exec W (Unit {0})
  report volume_name total_block_counts n =
      total (λ w. (tt, host.update_status volume_name (get_progress total_block_counts n) none w))

  -- restoreBlocks: the worker opens the device for itself.
  unfoldable pub run_worker : Prepared → Exec W (Result (Unit {0}) × ℕ)
  run_worker p = do
    opened ← attempt (host.open_write p.device)
    on_result opened
        (λ _. (do
          result ←
              restore_loop host.stop (restore_block_on_device p.volume_name p.device)
                (report p.volume_name p.total_block_counts) p.blocks 0
          attempt (host.close p.device)
          pure result))
        (λ e. pure (err e, 0))

  -- mergeErrorChannels, and the read of its channel. Where the context is done, the channel may be
  -- closed with no error, though the worker has one.
  unfoldable pub merge_errors : Result (Unit {0}) × ℕ → Exec W (Result (Unit {0}) × ℕ)
  merge_errors result = do
    done ← total host.context_done
    pure (if done then (ok tt, result.1) else result)

  -- The truncation of a regular file, and the worker.
  unfoldable pub write_volume : Prepared → Exec W (Result (Unit {0}) × ℕ)
  write_volume p = do
    truncated ← attempt (if p.is_regular then host.truncate p.device p.size else pure tt)
    on_result truncated (λ _. (do result ← run_worker p; merge_errors result))
        (λ e. pure (err e, 0))

  abbrev progress_of : Prepared → Result (Unit {0}) × ℕ → ℕ
  progress_of p (ok _, n) = 100
  progress_of p (err e, n) =
      if p.partial_progress && not (n == 0) then get_progress p.total_block_counts n else 0

  abbrev error_of : Result (Unit {0}) → Option Error
  error_of (ok _) = none
  error_of (err e) = some e

  unfoldable pub restore_job : Prepared → Exec W (Unit {0})
  restore_job p = do
    result ← write_volume p
    attempt (host.close_device p.device)
    total (λ w. (tt, host.update_status filename (progress_of p result) (error_of result.0) w))
    lift result.0

  -- The part of the handlers that ends before the device is opened.
  abbrev pub load_sized : Bytes → Exec W Volume
  load_sized volume_name = do
    loaded ← attempt (load_volume env volume_name)
    on_result loaded
        (λ vol.
          if vol.size == 0 || not (vol.size % default_block_size == 0)
          then raise (failure (codes "invalid volume size"))
          else pure vol)
        (λ e. raise (failure (codes "Volume doesn't exist in backupstore")))

  -- The device is closed again where the rest fails.
  abbrev pub with_device : {A : Type 0} → (Bytes → Exec W A) → Exec W A
  with_device rest = do
    opened ← attempt (host.open_device filename)
    on_result opened
        (λ device. (do
          result ← attempt (rest device)
          on_result result (λ a. pure a) (λ e. (do attempt (host.close_device device); raise e))))
        (λ e. raise (wrap (codes "failed to open volume device") e))

  unfoldable pub prepare_full_restore : Bytes → Bytes → Exec W Prepared
  prepare_full_restore backup_name volume_name = do
    vol ← load_sized volume_name
    with_device (λ device. (do
      regular ← host.is_regular device
      backup ← load_backup env backup_name volume_name
      pure (record {
        device = device;
        is_regular = regular;
        size = vol.size;
        volume_name = volume_name;
        blocks = populate_full backup.compression_method backup.blocks;
        total_block_counts = length backup.blocks;
        partial_progress = true;
      })))

  unfoldable pub clean_file : Exec W (Unit {0})
  clean_file = do
    found ← total (host.exists filename)
    if found
        then (do
          removed ← attempt (host.remove filename)
          on_result removed (λ _. pure tt)
              (λ e. raise (wrap (codes "failed to clean up the existing file") e)))
        else pure tt

  unfoldable pub prepare_incremental_restore : Bytes → Bytes → Exec W Prepared
  prepare_incremental_restore backup_name volume_name = do
    vol ← load_sized volume_name
    if validate_name config.last_backup_name
        then (do
          clean_file
          with_device (λ device. (do
            regular ← host.is_regular device
            last_backup ← load_backup env config.last_backup_name volume_name
            backup ← load_backup env backup_name volume_name
            pure (record {
              device = device;
              is_regular = regular;
              size = vol.size;
              volume_name = volume_name;
              blocks =
                  populate_incremental backup.compression_method backup.blocks last_backup.blocks;
              total_block_counts = length backup.blocks + length last_backup.blocks;
              partial_progress = false;
            }))))
        else raise (failure (codes "invalid parameter lastBackupName"))

-- The handlers, from the URL on: the job and its lock. The full restore defers the unlock before it
-- locks, and neither closes the device where the lock cannot be kept.
module _ {W : Type 0} (access : Access W) (config : RestoreConfig W) where
  unfoldable pub restore_delta_block_backup :
      Bytes → Bytes → Exec W (Env W × (Result Prepared × FileLock))
  restore_delta_block_backup backup_url suffix = do
    env ← env_at access backup_url
    names ← names_at access backup_url
    result ←
        with_lock env true (new_lock names.volume_name restore_lock suffix)
          (prepare_full_restore env config names.backup_name names.volume_name) (λ _. pure tt)
    pure (env, result)

  unfoldable pub restore_delta_block_backup_incrementally :
      Bytes → Bytes → Exec W (Env W × (Result Prepared × FileLock))
  restore_delta_block_backup_incrementally backup_url suffix = do
    env ← env_at access backup_url
    names ← names_at access backup_url
    result ←
        with_lock env false (new_lock names.volume_name restore_lock suffix)
          (prepare_incremental_restore env config names.backup_name names.volume_name)
          (λ _. pure tt)
    pure (env, result)
