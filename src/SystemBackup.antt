-- ===== src/SystemBackup.antt =====
-- systembackup/system_backup.go: backups of the system's own resources, a zip file and its config.
pub mod Urls
pub mod Laws
pub mod Checked
use backupstore.Base.{ℕ, Bool, true, false, List, [], ◌∷◌, ◌++◌, Bytes, if◌then◌else◌, ◌=b◌, codes}
use backupstore.Base.Outcome.{
  on_result, Result, ok, err, failure, Exec, pure, raise, attempt, total, lift, ◌>>=◌, ◌>>◌,
}
use backupstore.Driver.{FilePath, Driver}
use backupstore.Config.Paths.{Site}
use backupstore.Config.Store.{Env, Codec, load_config, save_config}
use backupstore.Integrity.{wrap}
use backupstore.Access.{Access, env_at}
use backupstore.SystemBackup.Urls.{get_system_backup_uri, system_backup_directory}

-- Config, with its time as the number that stands for it.
pub record SystemConfig : Type 0 where
  pub name : Bytes
  pub longhorn_version : Bytes
  pub longhorn_git_commit : Bytes
  pub backup_target_url : Bytes
  pub manager_image : Bytes
  pub engine_image : Bytes
  pub created_at : ℕ
  pub checksum : Bytes

-- SystemBackups: a map from names to paths.
abbrev pub SystemBackups : Type 0
SystemBackups = List (Bytes × FilePath)

-- `systemBackups[name] = uri`
unfoldable pub put_backup : Bytes → FilePath → SystemBackups → SystemBackups
put_backup name uri [] = (name, uri) ∷ []
put_backup name uri (e ∷ backups) =
    let rest = put_backup name uri backups in
    if e.0 =b name then (name, uri) ∷ backups else e ∷ rest

-- The entries of one version's directory.
unfoldable pub put_backups : FilePath → List Bytes → SystemBackups → SystemBackups
unfolding put_backup
put_backups path [] backups = backups
put_backups path (name ∷ names) backups =
    put_backups path names (put_backup name (path ++ name ∷ []) backups)

unfoldable pub get_system_backup_config_uri : Site → SystemConfig → FilePath
get_system_backup_config_uri site cfg =
    get_system_backup_uri site cfg.name cfg.longhorn_version ++ codes "system-backup.cfg" ∷ []

unfoldable pub get_system_backup_zip_uri : Site → SystemConfig → FilePath
get_system_backup_zip_uri site cfg =
    get_system_backup_uri site cfg.name cfg.longhorn_version ++ codes "system-backup.zip" ∷ []

-- config.go: a file of the host to the store, and back.
module _ {W : Type 0} (driver : Driver W) where
  unfoldable pub save_local_file_to_backup_store : Bytes → FilePath → Exec W (Unit {0})
  save_local_file_to_backup_store local_file_path file_path = do
    found ← total (driver.file_exists file_path)
    if found
        then raise (failure (codes "already exists"))
        else driver.upload local_file_path file_path

  unfoldable pub save_backup_store_to_local_file : FilePath → Bytes → Exec W (Unit {0})
  save_backup_store_to_local_file file_url local_file_path =
      driver.download file_url local_file_path

  -- The loop over the directories of the versions.
  unfoldable pub list_versions : FilePath → List Bytes → SystemBackups → Exec W SystemBackups
  list_versions base [] backups = pure backups
  list_versions base (version ∷ versions) backups = do
    names ← driver.list (base ++ version ∷ [])
    list_versions base versions (put_backups (base ++ version ∷ []) names backups)

  unfoldable pub get_system_backups : Site → Exec W SystemBackups
  get_system_backups site = do
    let base = site.base ++ system_backup_directory ∷ []
    versions ← driver.list base
    list_versions base versions []

-- `codec` is the encoding of Config; `get_file_checksum` is util.GetFileChecksum of a file of the
-- host, and `remove_local` is os.Remove.
module _ {W : Type 0} (access : Access W) (codec : Codec SystemConfig)
    (get_file_checksum : Bytes → Exec W Bytes) (remove_local : Bytes → Exec W (Unit {0})) where
  unfoldable pub upload : Bytes → SystemConfig → Exec W (Unit {0})
  upload local_file_path cfg = do
    env ← env_at access cfg.backup_target_url
    save_local_file_to_backup_store env.driver local_file_path
        (get_system_backup_zip_uri env.site cfg)
    save_config env codec (get_system_backup_config_uri env.site cfg) cfg

  -- The download at a driver: a file whose checksum differs is removed.
  unfoldable pub download_from : Env W → Bytes → SystemConfig → Exec W (Unit {0})
  download_from env local_file_path cfg = do
    let uri = get_system_backup_zip_uri env.site cfg
    found ← total (env.driver.file_exists uri)
    if found
        then (do
          save_backup_store_to_local_file env.driver uri local_file_path
          read ← attempt (get_file_checksum local_file_path)
          on_result read
              (λ sum. if sum =b cfg.checksum then pure tt else (do
                attempt (remove_local local_file_path)
                raise (failure (codes "checksum mismatched"))))
              (λ e. raise (wrap (codes "failed to get checksum") e)))
        else raise (failure (codes "system backup doesn't exist"))

  unfoldable pub download : Bytes → SystemConfig → Exec W (Unit {0})
  download local_file_path cfg = do
    env ← env_at access cfg.backup_target_url
    download_from env local_file_path cfg

  unfoldable pub list_system_backups : Bytes → Exec W SystemBackups
  list_system_backups dest_url = do
    env ← env_at access dest_url
    get_system_backups env.driver env.site

  unfoldable pub delete_system_backup : SystemConfig → Exec W (Unit {0})
  delete_system_backup cfg = do
    env ← env_at access cfg.backup_target_url
    env.driver.remove (get_system_backup_uri env.site cfg.name cfg.longhorn_version)

  -- The other fields of the config do not enter its path.
  unfoldable pub load_system_config : Bytes → Bytes → Bytes → Exec W SystemConfig
  load_system_config name longhorn_version backup_target_url = do
    env ← env_at access backup_target_url
    let uri = get_system_backup_uri env.site name longhorn_version
    load_config env codec (uri ++ codes "system-backup.cfg" ∷ [])
