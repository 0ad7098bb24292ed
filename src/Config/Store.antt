-- ===== src/Config/Store.antt =====
-- Loading and saving configuration files (config.go), and the records that they hold
-- (backupstore.go, lock.go). Sizes and counts are non-negative; labels and parameters are
-- association lists. The JSON encoding is a parameter.
use backupstore.Base.{ℕ, Bool, false, List, [], Bytes, if◌then◌else◌, ◌=b◌, codes}
use backupstore.Base.Outcome.{
  on_result, total, Result, failure, Exec, pure, raise, lift, attempt, ◌>>=◌, ◌>>◌,
}
use backupstore.Driver.{FilePath, Driver}
use backupstore.Config.Paths.{
  Site, get_volume_file_path, get_backup_config_path, get_backup_path, get_block_path,
  get_lock_path, get_volume_path, backup_config_prefix, cfg_suffix,
}
use backupstore.Blocks.Mapping.{BlockMapping}
use backupstore.Util.Names.{validate_name, extract_names}

pub record Volume : Type 0 where
  pub name : Bytes
  pub size : ℕ
  pub labels : List (Bytes × Bytes)
  pub created_time : Bytes
  pub last_backup_name : Bytes
  pub last_backup_at : Bytes
  pub block_count : ℕ
  pub backing_image_name : Bytes
  pub backing_image_checksum : Bytes
  pub compression_method : Bytes
  pub storage_class_name : Bytes
  pub data_engine : Bytes

-- The fields of Backup that are encoded; `single_file` is SingleFile.FilePath.
pub record Backup : Type 0 where
  pub name : Bytes
  pub volume_name : Bytes
  pub snapshot_name : Bytes
  pub snapshot_created_at : Bytes
  pub created_time : Bytes
  pub size : ℕ
  pub labels : List (Bytes × Bytes)
  pub parameters : List (Bytes × Bytes)
  pub is_incremental : Bool
  pub compression_method : Bytes
  pub newly_uploaded_data_size : ℕ
  pub re_uploaded_data_size : ℕ
  pub blocks : List BlockMapping
  pub single_file : FilePath

abbrev pub empty_backup : Backup
empty_backup = record {
  name = [];
  volume_name = [];
  snapshot_name = [];
  snapshot_created_at = [];
  created_time = [];
  size = 0;
  labels = [];
  parameters = [];
  is_incremental = false;
  compression_method = [];
  newly_uploaded_data_size = 0;
  re_uploaded_data_size = 0;
  blocks = [];
  single_file = [];
}

-- The exported fields of FileLock.
pub record LockConfig : Type 0 where
  pub name : Bytes
  pub kind : ℕ
  pub acquired : Bool

-- encoding/json for one type.
pub record Codec (A : Type 0) : Type 0 where
  pub marshal : A → Bytes
  pub unmarshal : Bytes → Result A

-- What the operations use: the driver, the encodings, the paths, the clock of the host in
-- nanoseconds, a pause, and time.Parse for RFC 3339.
pub record Env (W : Type 0) : Type 0 where
  pub driver : Driver W
  pub volumes : Codec Volume
  pub backups : Codec Backup
  pub locks : Codec LockConfig
  pub site : Site
  pub now : W → ℕ × W
  pub sleep : ℕ → W → W
  pub parse_time : Bytes → Result ℕ

-- Backward compatibility: an empty compression method is gzip, an empty data engine v1.
abbrev pub with_defaults : Volume → Volume
with_defaults v = record v {
  compression_method = if v.compression_method =b [] then codes "gzip" else v.compression_method;
  data_engine = if v.data_engine =b [] then codes "v1" else v.data_engine;
}

unfoldable pub is_backup_in_progress : Backup → Bool
is_backup_in_progress backup = backup.created_time =b []

abbrev pub with_legacy_method : Backup → Backup
with_legacy_method b = record b {
  compression_method = if b.compression_method =b [] then codes "gzip" else b.compression_method;
}

module _ {W : Type 0} (env : Env W) where
  open env use {driver, site}

  unfoldable pub load_config : {A : Type 0} → Codec A → FilePath → Exec W A
  load_config codec path = do
    found ← total (driver.file_exists path)
    if found
        then (do content ← driver.read path; lift (codec.unmarshal content))
        else raise (failure (codes "cannot find in backupstore"))

  unfoldable pub save_config : {A : Type 0} → Codec A → FilePath → A → Exec W (Unit {0})
  save_config codec path v = driver.write path (codec.marshal v)

  unfoldable pub volume_exists : Bytes → Exec W Bool
  volume_exists volume_name = total (driver.file_exists (get_volume_file_path site volume_name))

  unfoldable pub load_volume : Bytes → Exec W Volume
  load_volume volume_name = do
    v ← load_config env.volumes (get_volume_file_path site volume_name)
    pure (with_defaults v)

  unfoldable pub save_volume : Volume → Exec W (Unit {0})
  save_volume v = save_config env.volumes (get_volume_file_path site v.name) v

  -- A directory that cannot be listed counts as one without backups.
  unfoldable pub get_backup_names_for_volume : Bytes → Exec W (List Bytes)
  get_backup_names_for_volume volume_name = do
    files ← attempt (driver.list (get_backup_path site volume_name))
    on_result files (λ files. pure (extract_names files backup_config_prefix cfg_suffix))
        (λ e. pure [])

  unfoldable pub load_backup : Bytes → Bytes → Exec W Backup
  load_backup backup_name volume_name = do
    b ← load_config env.backups (get_backup_config_path site backup_name volume_name)
    pure (with_legacy_method b)

  unfoldable pub save_backup : Backup → Exec W (Unit {0})
  save_backup backup =
      if backup.volume_name =b []
      then raise (failure (codes "missing volume specifier for backup"))
      else save_config env.backups (get_backup_config_path site backup.name backup.volume_name)
          backup

  unfoldable pub remove_backup : Backup → Exec W (Unit {0})
  remove_backup backup = driver.remove (get_backup_config_path site backup.name backup.volume_name)

  unfoldable pub add_volume : Volume → Exec W (Unit {0})
  add_volume volume = do
    found ← volume_exists volume.name
    if found
        then pure tt
        else if validate_name volume.name
        then save_volume volume
        else raise (failure (codes "invalid volume name"))

  unfoldable pub remove_volume : Bytes → Exec W (Unit {0})
  remove_volume volume_name =
      if validate_name volume_name
      then (do
        driver.remove (get_backup_path site volume_name)
        driver.remove (get_block_path site volume_name)
        driver.remove (get_lock_path site volume_name)
        driver.remove (get_volume_path site volume_name))
      else raise (failure (codes "invalid volume name"))
