-- ===== src/Tests/Memory/Uploading.antt =====
-- An upload of two blocks to a store in memory.
use backupstore.Base.{ℕ, ◌≡◌, refl, false, [], ◌∷◌, ◌++◌, Bytes, codes}
use backupstore.Base.Outcome.{ok, pure, attempt, total, lift, on_result, ◌>>=◌}
use backupstore.Driver.{is_above}
use backupstore.Config.Paths.{
  get_checksum, get_block_file_path, get_block_path, get_volume_path, slice,
}
use backupstore.Upload.Table.{
  Upload, is_block_being_processed, update_blocks_and_progress, update_upload_data_size, blocks_at,
  delete,
}
use backupstore.Upload.Store.{
  BackupConfig, Mapping, store_block, backup_block, backup_blocks, backup_mapping,
}
use backupstore.Upload.Stored.{Settled, ReadsOnly, backup_mapping-Settled}
use backupstore.Tests.Memory.{Store, memory_laws, stored}
use backupstore.Tests.Memory.Deletion.{env, volume}

abbrev pub config : BackupConfig Store
config = record {
  volume_name = volume;
  full = false;
  compression_method = codes "lz4";
  compress_data = λ m d. ok d;
  read_snapshot = λ o w. (ok (o ∷ []), w);
  get_progress = λ t p. p;
}

abbrev start : Upload
start = record {
  processing_blocks = [];
  blocks = [];
  newly_uploaded_data_size = 0;
  re_uploaded_data_size = 0;
  progress = record {
    total_block_counts = 2;
    processed_block_counts = 0;
    new_block_counts = 0;
    progress = 0;
  };
}

abbrev checksum : ℕ → Bytes
checksum o = codes "0123456789" ++ o ∷ []

abbrev finished : Upload
finished = record {
  processing_blocks = [];
  blocks =
      record { offset = 4; block_checksum = checksum 4 }
      ∷ record { offset = 6; block_checksum = checksum 6 }
      ∷ [];
  newly_uploaded_data_size = 2;
  re_uploaded_data_size = 0;
  progress = record {
    total_block_counts = 2;
    processed_block_counts = 2;
    new_block_counts = 2;
    progress = 2;
  };
}

abbrev pub two_blocks : Mapping
two_blocks = record { offset = 4; size = 4 }

uploads : (backup_mapping env config 2 two_blocks start []).0 ≡ ok (ok tt, finished)
unfolding backup_mapping backup_blocks backup_block store_block is_block_being_processed
    update_blocks_and_progress update_upload_data_size blocks_at delete get_checksum
    get_block_file_path get_block_path get_volume_path slice pure attempt total lift on_result ◌>>=◌
    is_above stored
uploads = refl

pub reads_only : ReadsOnly env memory_laws config
reads_only o q w = refl

start-Settled : Settled env memory_laws config [] start []
start-Settled = (refl, λ c r. absurd r)

backup_mapping-Settled_example :
    Settled env memory_laws config [] finished (backup_mapping env config 2 two_blocks start []).1
backup_mapping-Settled_example =
    backup_mapping-Settled env memory_laws config [] 2 two_blocks start finished [] reads_only
      start-Settled uploads
