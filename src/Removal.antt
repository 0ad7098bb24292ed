-- ===== src/Removal.antt =====
-- DeleteBackupVolume and DeleteDeltaBlockBackup of deltablock.go, from the URL on. `suffix` is the
-- generated part of the lock's name.
pub mod Nothing
use backupstore.Base.{Bytes, if◌then◌else◌}
use backupstore.Base.Outcome.{Exec, pure, lift, ◌>>=◌}
use backupstore.Config.Store.{remove_volume}
use backupstore.Lock.Ops.{new_lock}
use backupstore.Lock.Priority.{deletion_lock}
use backupstore.Lock.Hold.{under_lock}
use backupstore.Gc.Delete.{delete_delta_block_backup}
use backupstore.Listing.Names.{Schedule, volume_folder_exists}
use backupstore.Access.{Access, env_at, names_at}

module _ {W : Type 0} (access : Access W) where
  unfoldable pub delete_backup_volume : Schedule → Bytes → Bytes → Bytes → Exec W (Unit {0})
  delete_backup_volume seen volume_name dest_url suffix = do
    env ← env_at access dest_url
    found ← volume_folder_exists env seen volume_name
    if found
        then (do
          (removed, lock) ←
              under_lock env (new_lock volume_name deletion_lock suffix)
                (remove_volume env volume_name)
          lift removed)
        else pure tt

  unfoldable pub delete_backup_at : Bytes → Bytes → Exec W (Unit {0})
  delete_backup_at backup_url suffix = do
    env ← env_at access backup_url
    names ← names_at access backup_url
    delete_delta_block_backup env names.backup_name names.volume_name suffix
