-- ===== src/Upload/Store.antt =====
-- The upload of a block (backupBlock of deltablock.go) and of a mapping, by one worker. Compression
-- and the snapshot's reads are parameters; the status report, whose errors are only logged, is left out.
use backupstore.Base.{
  ℕ, zero, suc, ◌+◌, ◌/◌, ◌%◌, Bool, false, not, ◌&&◌, List, [], ◌∷◌, Bytes, if◌then◌else◌, length,
  ◌==◌, codes,
}
use backupstore.Base.Outcome.{
  on_result, total, Result, ok, err, failure, panic, Exec, pure, attempt, lift, ◌>>=◌,
}
use backupstore.Config.Paths.{get_checksum, get_block_file_path}
use backupstore.Config.Store.{Env}
use backupstore.Upload.Table.{
  Upload, is_block_being_processed, update_blocks_and_progress, update_upload_data_size,
}

-- types.Mapping
pub record Mapping : Type 0 where
  pub offset : ℕ
  pub size : ℕ

-- The number of the blocks; a block size of zero is a panic.
unfoldable pub get_total_backup_block_counts : ℕ → List Mapping → Result ℕ
get_total_backup_block_counts block_size [] = ok 0
get_total_backup_block_counts block_size (d ∷ mappings) =
    let rest = get_total_backup_block_counts block_size mappings in
    if block_size == 0
    then err panic
    else if d.size % block_size == 0
    then elim rest [ ok n ↦ ok (d.size / block_size + n) | err e ↦ err e ]
    else err (failure (codes "mapping's size is not multiples of backup block size"))

-- DeltaBackupConfig: `full` is isFullBackup; the reads of the snapshot and util.CompressData.
pub record BackupConfig (W : Type 0) : Type 0 where
  pub volume_name : Bytes
  pub full : Bool
  pub compression_method : Bytes
  pub compress_data : Bytes → Bytes → Result Bytes
  pub read_snapshot : ℕ → Exec W Bytes
  pub get_progress : ℕ → ℕ → ℕ

module _ {W : Type 0} (env : Env W) (config : BackupConfig W) where
  open env use {driver, site}
  open config use {volume_name, get_progress}

  -- The part of backupBlock after the claim. The deferred update sees no error of Write, which is
  -- bound in an inner scope: it runs after a failed write too.
  unfoldable pub store_block : Bytes → Bytes → Upload → Exec W (Result (Unit {0}) × Upload)
  store_block checksum block u = do
    blk_file ← lift (get_block_file_path site volume_name checksum)
    found ← total (driver.file_exists blk_file)
    if found && not config.full
        then pure (ok tt, update_blocks_and_progress get_progress checksum false u)
        else on_result (config.compress_data config.compression_method block)
            (λ data_block. (do
              written ← attempt (driver.write blk_file data_block)
              on_result written
                  (λ _. pure (
                    ok tt,
                    update_blocks_and_progress get_progress checksum (not found)
                        (update_upload_data_size found (length data_block) u),
                  ))
                  (λ e.
                    pure (err e, update_blocks_and_progress get_progress checksum (not found) u))))
            (λ e. pure (err e, u))

  unfoldable pub backup_block : ℕ → Bytes → Upload → Exec W (Result (Unit {0}) × Upload)
  backup_block offset block u =
      let checksum = get_checksum site block in
      let claimed = is_block_being_processed offset checksum u.processing_blocks in
      let u = record u { processing_blocks = claimed.1 } in
      if claimed.0 then pure (ok tt, u) else store_block checksum block u

  -- The blocks from an offset on.
  unfoldable pub backup_blocks : ℕ → ℕ → ℕ → Upload → Exec W (Result (Unit {0}) × Upload)
  backup_blocks block_size offset zero u = pure (ok tt, u)
  backup_blocks block_size offset (suc n) u = do
    read ← attempt (config.read_snapshot offset)
    on_result read
        (λ block. (do
          (stored, u) ← backup_block offset block u
          on_result stored (λ _. backup_blocks block_size (offset + block_size) n u)
              (λ e. pure (err e, u))))
        (λ e. pure (err e, u))

  unfoldable pub backup_mapping : ℕ → Mapping → Upload → Exec W (Result (Unit {0}) × Upload)
  backup_mapping block_size mapping u =
      backup_blocks block_size mapping.offset (mapping.size / block_size) u
