-- ===== src/Gc/Delete.antt =====
-- The steps of DeleteDeltaBlockBackup (deltablock.go).
use backupstore.Base.{
  ℕ, ◌+◌, Bool, true, false, ◌&&◌, List, [], ◌∷◌, ◌++◌, Bytes, if◌then◌else◌, ◌=b◌, codes, ltb,
}
use backupstore.Base.Outcome.{
  on_result, Result, ok, err, failure, Exec, pure, raise, attempt, ◌>>=◌, ◌>>◌, lift,
}
use backupstore.Driver.{FilePath}
use backupstore.Util.Names.{extract_names}
use backupstore.Config.Paths.{get_block_file_path, get_block_path, blk_suffix}
use backupstore.Config.Store.{
  Env, Backup, load_volume, save_volume, load_backup, is_backup_in_progress, empty_backup, Volume,
  remove_backup, get_backup_names_for_volume,
}
use backupstore.Gc.Infos.{
  BlockInfo, is_block_present, is_block_referenced, is_block_safe_to_delete,
  check_block_reference_count, init_infos,
}
use backupstore.Lock.Ops.{lock_file, new_lock, unlock_file}
use backupstore.Lock.Priority.{deletion_lock}
use backupstore.Util.Unordered.{unordered_equal}

-- What the loop over the backups leaves; `delete_blocks` is false after a `break`.
pub record Scan : Type 0 where
  pub infos : List BlockInfo
  pub last : Backup
  pub delete_blocks : Bool

-- getLatestBackup: the later of the two, or the error of time.Parse.
unfoldable pub get_latest_backup : (Bytes → Result ℕ) → Backup → Backup → Result Backup
get_latest_backup parse_time backup last =
    if last.snapshot_created_at =b []
    then ok backup
    else elim (parse_time backup.snapshot_created_at) [
      | err e ↦ err e
      | ok backup_time ↦ elim (parse_time last.snapshot_created_at) [
        | err e ↦ err e
        | ok last_time ↦ ok (if ltb last_time backup_time then backup else last)
      ]
    ]

-- What cleanupBlocks counts.
pub record Cleanup : Type 0 where
  pub failures : List Bytes
  pub active : ℕ

module _ {W : Type 0} (env : Env W) where
  open env use {driver, site}

  unfoldable pub list_blocks : FilePath → List Bytes → Exec W (List Bytes)
  list_blocks lv1_path [] = pure []
  list_blocks lv1_path (lv2 ∷ lv2_dirs) = do
    block_names ← driver.list (lv1_path ++ lv2 ∷ [])
    rest ← list_blocks lv1_path lv2_dirs
    pure (block_names ++ rest)

  unfoldable pub list_dirs : FilePath → List Bytes → Exec W (List Bytes)
  list_dirs base [] = pure []
  list_dirs base (lv1 ∷ lv1_dirs) = do
    lv2_dirs ← driver.list (base ++ lv1 ∷ [])
    names ← list_blocks (base ++ lv1 ∷ []) lv2_dirs
    rest ← list_dirs base lv1_dirs
    pure (names ++ rest)

  unfoldable pub get_block_names_for_volume : Bytes → Exec W (List Bytes)
  get_block_names_for_volume volume_name = do
    let base = get_block_path site volume_name
    lv1_dirs ← attempt (driver.list base)
    on_result lv1_dirs
        (λ dirs. (do names ← list_dirs base dirs; pure (extract_names names [] blk_suffix)))
        (λ e. pure [])

  -- After a `break` no block is deleted.
  abbrev stopped : List BlockInfo → Backup → Exec W Scan
  stopped infos last = pure (record { infos = infos; last = last; delete_blocks = false })

  -- The loop over the backups' names. `update_last` asks for the latest backup.
  unfoldable pub scan_backups : Bool → Bytes → List Bytes → List BlockInfo → Backup → Exec W Scan
  scan_backups update_last volume_name [] infos last =
      pure (record { infos = infos; last = last; delete_blocks = true })
  scan_backups update_last volume_name (name ∷ names) infos last = do
    loaded ← attempt (load_backup env name volume_name)
    on_result loaded
        (λ backup.
          let counted = check_block_reference_count infos backup.blocks in
          let rest =
            λ (latest : Backup). scan_backups update_last volume_name names counted latest in
          if is_backup_in_progress backup
          then stopped infos last
          else if update_last
          then on_result (get_latest_backup env.parse_time backup last) rest
              (λ e. stopped counted last)
          else rest last)
        (λ e. stopped infos last)

  -- The loop of cleanupBlocks: a failure to remove a block is recorded.
  unfoldable pub cleanup_loop : List BlockInfo → Cleanup → Exec W Cleanup
  cleanup_loop [] c = pure c
  cleanup_loop (blk ∷ infos) c =
      if is_block_safe_to_delete blk
      then (do
        removed ← attempt (driver.remove blk.path)
        cleanup_loop infos (elim removed [
          | ok _ ↦ c
          | err e ↦ record c { failures = c.failures ++ blk.checksum ∷ [] }
        ]))
      else cleanup_loop infos (
          if is_block_referenced blk && is_block_present blk
          then record c { active = c.active + 1 }
          else c)

  -- The block count of the volume is that of the blocks in use.
  unfoldable pub finish_cleanup : List Bytes → ℕ → Bytes → Exec W (Unit {0})
  finish_cleanup (f ∷ fs) active volume = raise (failure (codes "failed to delete backup blocks"))
  finish_cleanup [] active volume = do
    v ← load_volume env volume
    save_volume env (record v { block_count = active })

  unfoldable pub cleanup_blocks : List BlockInfo → Bytes → Exec W (Unit {0})
  cleanup_blocks infos volume = do
    c ← cleanup_loop infos (record { failures = []; active = 0 })
    finish_cleanup c.failures c.active volume

  -- The volume's last backup, when the deleted one was the last: the latest that is left, or none
  -- when the loop stopped early.
  unfoldable pub save_last : Bool → Scan → Volume → Exec W (Unit {0})
  save_last update_last scan v =
      if update_last
      then save_volume env (record v {
        last_backup_name = if scan.delete_blocks then scan.last.name else [];
        last_backup_at = if scan.delete_blocks then scan.last.snapshot_created_at else [];
      })
      else pure tt

  -- The garbage collection, after the backup was removed.
  unfoldable pub collect_garbage : Bytes → Bytes → Exec W (Unit {0})
  collect_garbage deleted_name volume_name = do
    v ← load_volume env volume_name
    let update_last = deleted_name =b v.last_backup_name
    backup_names ← get_backup_names_for_volume env volume_name
    block_names ← get_block_names_for_volume volume_name
    infos ← lift (init_infos (get_block_file_path site volume_name) block_names [])
    scan ← scan_backups update_last volume_name backup_names infos empty_backup
    save_last update_last scan v
    names_after ← get_backup_names_for_volume env volume_name
    if scan.delete_blocks && unordered_equal backup_names names_after
        then cleanup_blocks scan.infos volume_name
        else pure tt

  -- The part of DeleteDeltaBlockBackup that runs under the lock. A backup that cannot be loaded is
  -- removed by its name.
  unfoldable pub delete_locked : Bytes → Bytes → Exec W (Unit {0})
  delete_locked backup_name volume_name = do
    loaded ← attempt (load_backup env backup_name volume_name)
    let to_be_deleted = elim loaded as (λ _. Backup) [
      | ok backup ↦ backup
      | err e ↦ record empty_backup { name = backup_name; volume_name = volume_name }
    ]
    remove_backup env to_be_deleted
    collect_garbage to_be_deleted.name volume_name

  -- The lock is released whatever the deletion returns; `suffix` is the generated part of its name.
  unfoldable pub delete_delta_block_backup : Bytes → Bytes → Bytes → Exec W (Unit {0})
  delete_delta_block_backup backup_name volume_name suffix = do
    (locked, lock) ← lock_file env (new_lock volume_name deletion_lock suffix)
    on_result locked
        (λ _. (do
          deleted ← attempt (delete_locked backup_name volume_name)
          attempt (unlock_file env lock)
          lift deleted))
        (λ e. raise e)
