-- ===== src/Access.antt =====
-- How a handler reaches a store: `bsDriver, err := GetBackupStoreDriver(url)` (driver.go) and the
-- names in the URL (backupstore.go).
use backupstore.Base.{Bytes}
use backupstore.Base.Outcome.{Exec, pure, lift, ◌>>=◌}
use backupstore.Url.{UrlLib, Decoded, decode_backup_url}
use backupstore.Driver.Registry.{Registry, get_backup_store_driver}
use backupstore.Config.Store.{Env}

-- The URL library, the registered drivers, and what the operations use besides the driver: the
-- driver of `env` is replaced.
pub record Access (W : Type 0) : Type 0 where
  pub lib : UrlLib
  pub registry : Registry W
  pub env : Env W

module _ {W : Type 0} (access : Access W) where
  unfoldable pub env_at : Bytes → Exec W (Env W)
  env_at url = do
    driver ← get_backup_store_driver access.lib access.registry url
    pure (record access.env { driver = driver })

  unfoldable pub names_at : Bytes → Exec W Decoded
  names_at url = lift (decode_backup_url access.lib url)
