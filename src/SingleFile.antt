-- ===== src/SingleFile.antt =====
-- singlefile.go: a backup that is one file.
pub mod Stored
use backupstore.Base.{ℕ, [], ◌∷◌, ◌++◌, Bytes, codes}
use backupstore.Base.Outcome.{on_result, failure, Exec, pure, raise, attempt, total, ◌>>=◌, ◌>>◌}
use backupstore.Driver.{FilePath}
use backupstore.Url.{encode_backup_url}
use backupstore.Config.Paths.{Site, get_volume_path}
use backupstore.Config.Store.{
  Volume, Backup, empty_backup, add_volume, load_volume, load_backup, save_backup, remove_backup,
  Env,
}
use backupstore.Integrity.{wrap}
use backupstore.Upload.Perform.{Snapshot}
use backupstore.Access.{Access, env_at, names_at}

-- filepath.Base; the empty path gives ".".
unfoldable pub base_name : FilePath → Bytes
base_name [] = codes "."
base_name (a ∷ []) = a
base_name (a ∷ b ∷ p) = base_name (b ∷ p)

unfoldable pub get_single_file_backup_file_path : Site → Backup → FilePath
get_single_file_backup_file_path site backup =
    get_volume_path site backup.volume_name
    ++ (codes "BackupFiles" ∷ (backup.name ++ codes ".bak") ∷ [])

module _ {W : Type 0} (env : Env W) where
  open env use {driver, site}

  abbrev pub new_backup : Bytes → Volume → Snapshot → Backup
  new_backup name volume snapshot = record empty_backup {
    name = name;
    volume_name = volume.name;
    snapshot_name = snapshot.name;
    snapshot_created_at = snapshot.created_time;
    compression_method = volume.compression_method;
  }

  -- CreateSingleFileBackup at a driver; it returns the names of the backup and of the volume. The
  -- name is the generated one, and `format_time` is that of util.Now.
  unfoldable pub create_at :
      (ℕ → Bytes) → Bytes → Volume → Snapshot → Bytes → Exec W (Bytes × Bytes)
  create_at format_time name volume snapshot file_path = do
    add_volume env volume
    volume ← load_volume env volume.name
    let backup = new_backup name volume snapshot
    let file = get_single_file_backup_file_path site backup
    driver.upload file_path file
    now ← total env.now
    save_backup env (record backup { single_file = file; created_time = format_time now })
    pure (backup.name, volume.name)

  -- RestoreSingleFileBackup at a driver; `join` is filepath.Join for paths of the host.
  unfoldable pub restore_at : (Bytes → Bytes → Bytes) → Bytes → Bytes → Bytes → Exec W Bytes
  restore_at join backup_name volume_name path = do
    volume ← attempt (load_volume env volume_name)
    on_result volume
        (λ _. (do
          backup ← load_backup env backup_name volume_name
          let dst_file = join path (base_name backup.single_file)
          driver.download backup.single_file dst_file
          pure dst_file))
        (λ e. raise (failure (codes "Volume doesn't exist in backupstore")))

module _ {W : Type 0} (access : Access W) (format_time : ℕ → Bytes)
    (join : Bytes → Bytes → Bytes) where
  unfoldable pub create_single_file_backup :
      Bytes → Volume → Snapshot → Bytes → Bytes → Exec W Bytes
  create_single_file_backup name volume snapshot file_path dest_url = do
    env ← env_at access dest_url
    names ← create_at env format_time name volume snapshot file_path
    pure (encode_backup_url access.lib names.0 names.1 dest_url)

  unfoldable pub restore_single_file_backup : Bytes → Bytes → Exec W Bytes
  restore_single_file_backup backup_url path = do
    env ← env_at access backup_url
    names ← names_at access backup_url
    restore_at env join names.backup_name names.volume_name path

  unfoldable pub delete_single_file_backup : Bytes → Exec W (Unit {0})
  delete_single_file_backup backup_url = do
    env ← env_at access backup_url
    names ← names_at access backup_url
    volume ← attempt (load_volume env names.volume_name)
    on_result volume
        (λ _. (do
          backup ← load_backup env names.backup_name names.volume_name
          env.driver.remove backup.single_file
          remove_backup env backup))
        (λ e. raise (wrap (codes "cannot find volume in backupstore") e))
