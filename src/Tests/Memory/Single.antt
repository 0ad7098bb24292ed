-- ===== src/Tests/Memory/Single.antt =====
-- A backup of one file in a store in memory, and the list of its volumes.
use backupstore.Base.{arith, Bytes, some, refl, [], ◌∷◌, ◌++◌, ◌≡◌, codes, true}
use backupstore.Base.Outcome.{ok}
use backupstore.Driver.Leaves.{Leaves}
use backupstore.Driver.Runs.{Runs}
use backupstore.Config.Holding.{Holding, HostLaws}
use backupstore.Base.Outcome.{pure, raise, lift, attempt, total, ◌>>=◌, on_result}
use backupstore.Driver.{is_above}
use backupstore.Util.Names.{validate_name}
use backupstore.Config.Paths.{
  get_checksum, slice, get_backup_config_name, get_volume_file_path, get_volume_path,
  get_backup_config_path,
}
use backupstore.Config.Store.{
  Backup, Env, empty_backup, load_config, save_config, volume_exists, load_volume, save_volume,
  load_backup, save_backup, add_volume,
}
use backupstore.Listing.{list_at}
use backupstore.Listing.Names.{own_error}
use backupstore.Listing.Entries.{IsListed, list_at-IsListed}
use backupstore.SingleFile.{create_at, restore_at, base_name, get_single_file_backup_file_path}
use backupstore.SingleFile.Stored.{
  Any, IsStored, IsDownloaded, create_at-IsStored, restore_at-IsDownloaded,
}
use backupstore.Tests.Memory.{stored, result_of, memory_laws, Store}
use backupstore.Tests.Memory.Deletion.{env, host, volume, the_volume}

list_at-IsListed_example :
    Runs
      (Holding env memory_laws host ((get_volume_file_path env.site volume, some (7 ∷ [])) ∷ []))
      (list_at env own_error [] true)
      (IsListed env memory_laws host volume (7 ∷ []))
list_at-IsListed_example =
    list_at-IsListed env memory_laws host volume (7 ∷ []) own_error (λ p e c. ground arith) true

abbrev single_backup : Backup
single_backup = record empty_backup {
  name = codes "b3";
  volume_name = volume;
  single_file =
      get_volume_path env.site volume ++ codes "BackupFiles" ∷ (codes "b3" ++ codes ".bak") ∷ [];
}

-- The store holds only that backup.
abbrev single_env : Env Store
single_env = record env {
  backups = record { marshal = λ b. 3 ∷ []; unmarshal = λ j. ok single_backup };
}

abbrev single_host : HostLaws single_env memory_laws
single_host = record { now_same = λ q w. refl; sleep_same = λ n q w. refl }

abbrev join : Bytes → Bytes → Bytes
join dir name = dir ++ codes "/" ++ name

create_at-IsStored_example :
    Leaves
      (Any env memory_laws)
      (create_at env
        (λ n. n ∷ [])
        (codes "b3")
        the_volume
        (record { name = codes "s"; created_time = codes "t" })
        (codes "/tmp/file"))
      (IsStored env memory_laws)
create_at-IsStored_example =
    create_at-IsStored env memory_laws (λ n. n ∷ []) (codes "b3") the_volume
      (record { name = codes "s"; created_time = codes "t" }) (codes "/tmp/file")

restore_at-IsDownloaded_example :
    Leaves
      (Holding single_env memory_laws single_host
        ((get_backup_config_path env.site (codes "b3") volume, some (3 ∷ [])) ∷ []))
      (restore_at single_env join (codes "b3") volume (codes "/tmp"))
      (IsDownloaded single_env memory_laws join (codes "/tmp") single_backup)
unfolding get_single_file_backup_file_path get_volume_path
restore_at-IsDownloaded_example =
    restore_at-IsDownloaded single_env memory_laws join (codes "/tmp") single_host (codes "b3")
      volume single_backup refl refl

-- The creation and the restore in a store that holds nothing else.
created :
    (create_at single_env
      (λ n. n ∷ [])
      (codes "b3")
      the_volume
      (record { name = codes "s"; created_time = codes "t" })
      (codes "/tmp/file")
      []).0
    ≡ ok (codes "b3", volume)
unfolding create_at pure raise lift attempt total ◌>>=◌ on_result is_above stored result_of
    get_checksum slice get_volume_path get_volume_file_path get_backup_config_name
    get_backup_config_path validate_name load_config save_config volume_exists load_volume
    save_volume load_backup save_backup add_volume base_name get_single_file_backup_file_path
created = refl

restored :
    (restore_at single_env join
      (codes "b3")
      volume
      (codes "/tmp")
      (create_at single_env
        (λ n. n ∷ [])
        (codes "b3")
        the_volume
        (record { name = codes "s"; created_time = codes "t" })
        (codes "/tmp/file")
        []).1).0
    ≡ ok (codes "/tmp/b3.bak")
unfolding create_at restore_at pure raise lift attempt total ◌>>=◌ on_result is_above stored
    result_of get_checksum slice get_volume_path get_volume_file_path get_backup_config_name
    get_backup_config_path validate_name load_config save_config volume_exists load_volume
    save_volume load_backup save_backup add_volume base_name get_single_file_backup_file_path
restored = refl
