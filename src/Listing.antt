-- ===== src/Listing.antt =====
-- list.go, inspect.go and head.go: what a caller is told of the volumes and backups in a store.
pub mod Names
pub mod Entries
use backupstore.Base.{
  ℕ, Bool, true, false, Option, none, some, List, [], ◌∷◌, ◌++◌, ◌*◌, Bytes, if◌then◌else◌, ◌=b◌,
  codes, map, not,
}
use backupstore.Base.Outcome.{
  on_result, Result, ok, err, failure, Exec, pure, raise, attempt, lift, total, ◌>>=◌,
}
use backupstore.Url.{encode_backup_url}
use backupstore.Util.Names.{validate_name}
use backupstore.Config.Paths.{get_backup_config_path, get_volume_file_path}
use backupstore.Config.Store.{
  Env, Volume, Backup, volume_exists, get_backup_names_for_volume, load_volume, load_backup,
  is_backup_in_progress,
}
use backupstore.Integrity.{error_text}
use backupstore.Upload.Perform.{default_block_size}
use backupstore.Access.{Access, env_at, names_at}
use backupstore.Listing.Names.{Schedule, get_volume_names, join_lines}

-- BackupInfo, without its messages, which nothing sets.
pub record BackupInfo : Type 0 where
  pub name : Bytes
  pub url : Bytes
  pub snapshot_name : Bytes
  pub snapshot_created : Bytes
  pub created : Bytes
  pub size : ℕ
  pub labels : List (Bytes × Bytes)
  pub parameters : List (Bytes × Bytes)
  pub is_incremental : Bool
  pub compression_method : Bytes
  pub newly_uploaded_data_size : ℕ
  pub re_uploaded_data_size : ℕ
  pub volume_name : Bytes
  pub volume_size : ℕ
  pub volume_created : Bytes
  pub volume_backing_image_name : Bytes

-- VolumeInfo of an inspected volume, whose messages and backups are empty.
pub record VolumeInfo : Type 0 where
  pub name : Bytes
  pub size : ℕ
  pub labels : List (Bytes × Bytes)
  pub created : Bytes
  pub last_backup_name : Bytes
  pub last_backup_at : Bytes
  pub data_stored : ℕ
  pub backing_image_name : Bytes
  pub backing_image_checksum : Bytes
  pub storage_class_name : Bytes
  pub data_engine : Bytes

-- VolumeInfo of a listed volume: the error message, and the names of the backups, whose infos are
-- empty. A list that was not made is `none`.
pub record ListedVolume : Type 0 where
  pub message : Option Bytes
  pub backups : Option (List Bytes)

unfoldable pub fill_volume_info : Volume → VolumeInfo
fill_volume_info volume = record {
  name = volume.name;
  size = volume.size;
  labels = volume.labels;
  created = volume.created_time;
  last_backup_name = volume.last_backup_name;
  last_backup_at = volume.last_backup_at;
  data_stored = volume.block_count * default_block_size;
  backing_image_name = volume.backing_image_name;
  backing_image_checksum = volume.backing_image_checksum;
  storage_class_name = volume.storage_class_name;
  data_engine = volume.data_engine;
}

module _ {W : Type 0} (env : Env W) where
  -- A volume whose folder has no volume.cfg is listed with a message.
  unfoldable pub add_list_volume : Bytes → Bool → Exec W ListedVolume
  add_list_volume volume_name volume_only =
      if volume_name =b []
      then raise (failure (codes "invalid empty volume Name"))
      else if not (validate_name volume_name)
      then raise (failure (codes "invalid volume name"))
      else (do
        found ← volume_exists env volume_name
        if not found
            then pure
                (record { message = some (codes "cannot find in backupstore"); backups = none })
            else if volume_only
            then pure (record { message = none; backups = none })
            else (do
              names ← attempt (get_backup_names_for_volume env volume_name)
              on_result names (λ names. pure (record { message = none; backups = some names }))
                  (λ e. pure (record { message = some (error_text e); backups = none }))))

  -- The loop of List: the volumes that were added, and the texts of the errors.
  unfoldable pub add_list_volumes :
      List Bytes → Bool → Exec W (List (Bytes × ListedVolume) × List Bytes)
  add_list_volumes [] volume_only = pure ([], [])
  add_list_volumes (name ∷ names) volume_only = do
    info ← attempt (add_list_volume name volume_only)
    rest ← add_list_volumes names volume_only
    on_result info (λ info. pure ((name, info) ∷ rest.0, rest.1))
        (λ e. pure (rest.0, error_text e ∷ rest.1))

  -- List, at a driver: a name that occurs twice has two entries.
  unfoldable pub list_at : Schedule → Bytes → Bool → Exec W (List (Bytes × ListedVolume))
  list_at seen volume_name volume_only = do
    names ← if volume_name =b [] then get_volume_names env seen else pure (volume_name ∷ [])
    resp ← add_list_volumes names volume_only
    elim resp.1 [ [] ↦ pure resp.0 | e ∷ errors ↦ raise (failure (join_lines (e ∷ errors))) ]

module _ {W : Type 0} (access : Access W) where
  -- fillBackupInfo, and the fields that fillFullBackupInfo sets.
  unfoldable pub fill_full_backup_info : Backup → Volume → Bytes → BackupInfo
  fill_full_backup_info backup volume dest_url = record {
    name = backup.name;
    url = encode_backup_url access.lib backup.name backup.volume_name dest_url;
    snapshot_name = backup.snapshot_name;
    snapshot_created = backup.snapshot_created_at;
    created = backup.created_time;
    size = backup.size;
    labels = backup.labels;
    parameters = backup.parameters;
    is_incremental = backup.is_incremental;
    compression_method = backup.compression_method;
    newly_uploaded_data_size = backup.newly_uploaded_data_size;
    re_uploaded_data_size = backup.re_uploaded_data_size;
    volume_name = volume.name;
    volume_size = volume.size;
    volume_created = volume.created_time;
    volume_backing_image_name = volume.backing_image_name;
  }

  unfoldable pub inspect_volume : Bytes → Exec W VolumeInfo
  inspect_volume volume_url = do
    env ← env_at access volume_url
    names ← names_at access volume_url
    volume ← load_volume env names.volume_name
    pure (fill_volume_info volume)

  unfoldable pub inspect_backup : Bytes → Exec W BackupInfo
  inspect_backup backup_url = do
    env ← env_at access backup_url
    names ← names_at access backup_url
    volume ← load_volume env names.volume_name
    backup ← load_backup env names.backup_name names.volume_name
    if is_backup_in_progress backup
        then raise (failure (codes "backup is still in progress"))
        else pure (fill_full_backup_info backup volume env.driver.get_url)

  -- GetConfigMetadata: the modification time.
  unfoldable pub get_config_metadata : Bytes → Exec W ℕ
  get_config_metadata url = do
    env ← env_at access url
    names ← names_at access url
    let file_path =
        if names.backup_name =b []
        then get_volume_file_path env.site names.volume_name
        else get_backup_config_path env.site names.backup_name names.volume_name
    found ← total (env.driver.file_exists file_path)
    if found
        then total (env.driver.file_time file_path)
        else raise (failure (codes "cannot find in backupstore"))

  unfoldable pub list_volumes :
      Schedule → Bytes → Bytes → Bool → Exec W (List (Bytes × ListedVolume))
  list_volumes seen volume_name dest_url volume_only = do
    env ← env_at access dest_url
    list_at env seen volume_name volume_only
