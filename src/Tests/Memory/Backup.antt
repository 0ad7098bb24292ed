-- ===== src/Tests/Memory/Backup.antt =====
-- A first backup of a volume to a store in memory.
use backupstore.Base.{◌≡◌, refl, none, [], ◌∷◌, ◌++◌, codes}
use backupstore.Base.Outcome.{ok}
use backupstore.Base.Outcome.{pure, raise, lift, attempt, total, ◌>>=◌, on_result}
use backupstore.Driver.{is_above}
use backupstore.Config.Paths.{
  get_checksum, slice, get_volume_path, get_volume_file_path, get_backup_path,
  get_backup_config_name, get_backup_config_path, get_block_path, get_block_file_path,
}
use backupstore.Config.Store.{load_config, save_config, load_volume, save_volume, save_backup}
use backupstore.Blocks.Merge.{merge_blocks}
use backupstore.Blocks.Sort.{fill_slots, collect_slots, sort_backup_blocks}
use backupstore.Upload.Table.{
  is_block_being_processed, blocks_at, delete, update_upload_data_size, update_blocks_and_progress,
}
use backupstore.Upload.Store.{
  get_total_backup_block_counts, store_block, backup_block, backup_blocks, backup_mapping,
}
use backupstore.Upload.Perform.{
  merge_snapshot_map, backup_mappings, complete_backup, perform_backup,
}
use backupstore.Config.Store.{empty_backup, Backup}
use backupstore.Upload.Perform.{Mappings, Request}
use backupstore.Upload.Saved.{IsSaved}
use backupstore.Upload.Saved.Whole.{perform_backup-IsSaved}
use backupstore.Tests.Memory.{Store, memory_laws, stored, result_of}
use backupstore.Tests.Memory.Deletion.{env, volume, the_volume, volume_path, host}
use backupstore.Tests.Memory.Uploading.{config, reads_only, two_blocks}

abbrev request : Request
request = record {
  volume = record the_volume { size = 8 };
  snapshot = record { name = codes "s1"; created_time = codes "t1" };
  labels = [];
  parameters = [];
  format_time = λ n. codes "t2";
}

abbrev delta : Mappings
delta = record { mappings = two_blocks ∷ []; block_size = 2 }

abbrev first_backup : Backup
first_backup = record empty_backup {
  name = codes "b1";
  volume_name = volume;
  snapshot_name = codes "s1";
  compression_method = codes "lz4";
}

abbrev store : Store
store = (volume_path ++ codes "volume.cfg" ∷ [], []) ∷ []

performs :
    (perform_backup env config request delta first_backup none store).0 ≡ ok (codes "b1", volume)
unfolding pure raise lift attempt total ◌>>=◌ on_result is_above get_checksum slice get_volume_path
    get_volume_file_path get_backup_path get_backup_config_name get_backup_config_path
    get_block_path get_block_file_path load_config save_config load_volume save_volume save_backup
    merge_blocks fill_slots collect_slots sort_backup_blocks is_block_being_processed blocks_at
    delete update_upload_data_size update_blocks_and_progress get_total_backup_block_counts
    store_block backup_block backup_blocks backup_mapping merge_snapshot_map backup_mappings
    complete_backup perform_backup stored result_of
performs = refl

perform_backup-IsSaved_example :
    IsSaved env memory_laws host config request reads_only
      (codes "b1")
      (perform_backup env config request delta first_backup none store).1
perform_backup-IsSaved_example =
    perform_backup-IsSaved env memory_laws host config request reads_only first_backup refl delta
      none store (codes "b1", volume) (λ c r. absurd r) performs
