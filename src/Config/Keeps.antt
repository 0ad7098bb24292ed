-- ===== src/Config/Keeps.antt =====
-- What the operations of config.go do to an invariant of the store that reading calls keep.
use backupstore.Base.{ℕ, Bytes}
use backupstore.Base.Outcome.{total}
use backupstore.Driver.{FilePath}
use backupstore.Driver.Runs.{Keeps, keeps_rules}
use backupstore.Config.Paths.{get_volume_file_path}
use backupstore.Config.Store.{
  Env, Codec, Volume, load_config, save_config, load_volume, save_volume, load_backup,
  get_backup_names_for_volume,
}

module _ {W : Type 0} (env : Env W) where
  open env use {driver, site}

  -- The invariant holds whatever the calls that change no file do.
  pub record Guarded (P : W → Type 0) : Type 0 where
    pub read : (p : FilePath) → Keeps P (driver.read p)
    pub list : (p : FilePath) → Keeps P (driver.list p)
    pub file_exists : (p : FilePath) → Keeps P (total (driver.file_exists p))
    pub file_time : (p : FilePath) → Keeps P (total (driver.file_time p))
    pub now : Keeps P (total env.now)
    pub sleep : (n : ℕ) → Keeps P (total (λ w. (tt, env.sleep n w)))

  -- Paths that may be written.
  abbrev pub Writable : (W → Type 0) → FilePath → Type 0
  Writable P p = (b : Bytes) → Keeps P (driver.write p b)

  module _ {P : W → Type 0} (g : Guarded P) where
    pub Keeps-load_config :
        {A : Type 0} (codec : Codec A) (p : FilePath) → Keeps P (load_config env codec p)
    unfolding load_config
    Keeps-load_config codec p = search (keeps_rules, g.file_exists, g.read)

    pub Keeps-save_config :
        {A : Type 0} (codec : Codec A) (p : FilePath) (a : A)
        → Writable P p
        → Keeps P (save_config env codec p a)
    unfolding save_config
    Keeps-save_config codec p a k = k (codec.marshal a)

    pub Keeps-load_volume : (v : Bytes) → Keeps P (load_volume env v)
    unfolding load_volume
    Keeps-load_volume v = search (keeps_rules, Keeps-load_config)

    pub Keeps-save_volume :
        (v : Volume) → Writable P (get_volume_file_path site v.name) → Keeps P (save_volume env v)
    unfolding save_volume
    Keeps-save_volume v k = Keeps-save_config env.volumes (get_volume_file_path site v.name) v k

    pub Keeps-load_backup : (n v : Bytes) → Keeps P (load_backup env n v)
    unfolding load_backup
    Keeps-load_backup n v = search (keeps_rules, Keeps-load_config)

    pub Keeps-get_backup_names : (v : Bytes) → Keeps P (get_backup_names_for_volume env v)
    unfolding get_backup_names_for_volume
    Keeps-get_backup_names v = search (keeps_rules, g.list)
