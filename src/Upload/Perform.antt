-- ===== src/Upload/Perform.antt =====
-- performBackup of deltablock.go with one worker, which uploads the mappings one after the other.
-- It returns what EncodeBackupURL makes the URL of; the percentage that comes with an error is left
-- out.
use backupstore.Base.{ℕ, ◌*◌, ◌+◌, true, false, Option, none, some, List, [], ◌∷◌, Bytes, length}
use backupstore.Base.Outcome.{
  on_result, total, Result, ok, err, Exec, pure, raise, lift, ◌>>=◌, ◌>>◌,
}
use backupstore.Blocks.Merge.{merge_blocks}
use backupstore.Blocks.Sort.{sort_backup_blocks}
use backupstore.Config.Store.{
  Env, Volume, Backup, empty_backup, save_backup, load_volume, save_volume,
}
use backupstore.Upload.Table.{Upload}
use backupstore.Upload.Store.{BackupConfig, Mapping, get_total_backup_block_counts, backup_mapping}

abbrev pub default_block_size : ℕ
default_block_size = 2_097_152

-- types.Mappings
pub record Mappings : Type 0 where
  pub mappings : List Mapping
  pub block_size : ℕ

pub record Snapshot : Type 0 where
  pub name : Bytes
  pub created_time : Bytes

-- The other fields of DeltaBackupConfig, and the format of util.Now.
pub record Request : Type 0 where
  pub volume : Volume
  pub snapshot : Snapshot
  pub labels : List (Bytes × Bytes)
  pub parameters : List (Bytes × Bytes)
  pub format_time : ℕ → Bytes

unfoldable pub merge_snapshot_map : Backup → Option Backup → Backup
merge_snapshot_map delta_backup none = delta_backup
merge_snapshot_map delta_backup (some last_backup) = record empty_backup {
  name = delta_backup.name;
  volume_name = delta_backup.volume_name;
  snapshot_name = delta_backup.snapshot_name;
  compression_method = delta_backup.compression_method;
  blocks = merge_blocks delta_backup.blocks last_backup.blocks;
}

-- The backup that is saved at the end.
abbrev pub completed : Request → Bytes → Upload → Option Backup → Backup → Backup
completed request created_time u last_backup backup = record backup {
  snapshot_name = request.snapshot.name;
  snapshot_created_at = request.snapshot.created_time;
  created_time = created_time;
  size = length backup.blocks * default_block_size;
  labels = request.labels;
  parameters = request.parameters;
  is_incremental = elim last_backup [ none ↦ false | some b ↦ true ];
  newly_uploaded_data_size = u.newly_uploaded_data_size;
  re_uploaded_data_size = u.re_uploaded_data_size;
}

-- The volume that is saved after it.
abbrev pub updated : Request → Backup → ℕ → Volume → Volume
updated request backup new_block_counts v = record v {
  last_backup_name = backup.name;
  last_backup_at = backup.snapshot_created_at;
  block_count = v.block_count + new_block_counts;
  size = request.volume.size;
  labels = request.labels;
  backing_image_name = request.volume.backing_image_name;
  backing_image_checksum = request.volume.backing_image_checksum;
  compression_method = request.volume.compression_method;
  storage_class_name = request.volume.storage_class_name;
  data_engine = request.volume.data_engine;
}

abbrev pub start_upload : ℕ → Upload
start_upload total_block_counts = record {
  processing_blocks = [];
  blocks = [];
  newly_uploaded_data_size = 0;
  re_uploaded_data_size = 0;
  progress = record {
    total_block_counts = total_block_counts;
    processed_block_counts = 0;
    new_block_counts = 0;
    progress = 0;
  };
}

module _ {W : Type 0} (env : Env W) (config : BackupConfig W) (request : Request) where
  unfoldable pub backup_mappings : ℕ → List Mapping → Upload → Exec W (Result (Unit {0}) × Upload)
  backup_mappings block_size [] u = pure (ok tt, u)
  backup_mappings block_size (m ∷ mappings) u = do
    (result, u) ← backup_mapping env config block_size m u
    on_result result (λ _. backup_mappings block_size mappings u) (λ e. pure (err e, u))

  -- After the last worker is done.
  unfoldable pub complete_backup : ℕ → Backup → Option Backup → Upload → Exec W (Bytes × Bytes)
  complete_backup block_size delta_backup last_backup u = do
    blocks ← lift (sort_backup_blocks u.blocks request.volume.size block_size)
    now ← total env.now
    let merged = merge_snapshot_map (record delta_backup { blocks = blocks }) last_backup
    let backup = completed request (request.format_time now) u last_backup merged
    save_backup env backup
    volume ← load_volume env request.volume.name
    save_volume env (updated request backup u.progress.new_block_counts volume)
    pure (backup.name, volume.name)

  unfoldable pub perform_backup : Mappings → Backup → Option Backup → Exec W (Bytes × Bytes)
  perform_backup delta delta_backup last_backup = do
    save_backup env (record empty_backup {
      name = delta_backup.name;
      volume_name = delta_backup.volume_name;
      compression_method = request.volume.compression_method;
    })
    total_block_counts ← lift (get_total_backup_block_counts delta.block_size delta.mappings)
    (result, u) ← backup_mappings delta.block_size delta.mappings (start_upload total_block_counts)
    on_result result (λ _. complete_backup delta.block_size delta_backup last_backup u)
        (λ e. raise e)
