-- ===== src/Upload/Table.antt =====
-- What the upload's workers share (deltablock.go, backupstore.go): the blocks that are being
-- processed, the backup's blocks and the progress. Each operation runs under the locks, so the
-- workers' calls follow each other in some order. The percentage, a float, is a parameter.
use backupstore.Base.{
  ℕ, ◌+◌, Bool, true, false, List, [], ◌∷◌, ◌++◌, Bytes, if◌then◌else◌, ◌=b◌, length,
}
use backupstore.Blocks.Mapping.{BlockMapping}

pub record Progress : Type 0 where
  pub total_block_counts : ℕ
  pub processed_block_counts : ℕ
  pub new_block_counts : ℕ
  pub progress : ℕ

-- ProcessingBlocks: from a checksum to the blocks that wait for it.
abbrev pub Table : Type 0
Table = List (Bytes × List BlockMapping)

-- The part of Backup that the workers change, and the progress.
pub record Upload : Type 0 where
  pub processing_blocks : Table
  pub blocks : List BlockMapping
  pub newly_uploaded_data_size : ℕ
  pub re_uploaded_data_size : ℕ
  pub progress : Progress

-- Whether another worker processes the checksum, and the table with the block.
unfoldable pub is_block_being_processed : ℕ → Bytes → Table → Bool × Table
is_block_being_processed offset checksum [] =
    (false, (checksum, record { offset = offset; block_checksum = checksum } ∷ []) ∷ [])
is_block_being_processed offset checksum (e ∷ table) =
    let rest = is_block_being_processed offset checksum table in
    if e.0 =b checksum
    then (true, (e.0, e.1 ++ record { offset = offset; block_checksum = checksum } ∷ []) ∷ table)
    else (rest.0, e ∷ rest.1)

-- `blocks[checksum]`, and `delete(blocks, checksum)`.
unfoldable pub blocks_at : Bytes → Table → List BlockMapping
blocks_at checksum [] = []
blocks_at checksum (e ∷ table) =
    let rest = blocks_at checksum table in if e.0 =b checksum then e.1 else rest

unfoldable pub delete : Bytes → Table → Table
delete checksum [] = []
delete checksum (e ∷ table) =
    let rest = delete checksum table in if e.0 =b checksum then table else e ∷ rest

unfoldable pub update_upload_data_size : Bool → ℕ → Upload → Upload
update_upload_data_size re_upload data_size u =
    if re_upload
    then record u { re_uploaded_data_size = u.re_uploaded_data_size + data_size }
    else record u { newly_uploaded_data_size = u.newly_uploaded_data_size + data_size }

-- What the workers do to the shared state, in the order in which the locks let them.
pub data Event : Type 0 where
  claim : ℕ → Bytes → Event
  finish : Bytes → Bool → Event

module _ (get_progress : ℕ → ℕ → ℕ) where
  unfoldable pub update_blocks_and_progress : Bytes → Bool → Upload → Upload
  unfolding blocks_at delete
  update_blocks_and_progress checksum new_block u =
      let blocks = blocks_at checksum u.processing_blocks in
      let processed = u.progress.processed_block_counts + length blocks in
      record u {
        processing_blocks = delete checksum u.processing_blocks;
        blocks = u.blocks ++ blocks;
        progress = record {
          total_block_counts = u.progress.total_block_counts;
          processed_block_counts = processed;
          new_block_counts = u.progress.new_block_counts + (if new_block then 1 else 0);
          progress = get_progress u.progress.total_block_counts processed;
        };
      }

  unfoldable pub run_event : Event → Upload → Upload
  unfolding is_block_being_processed update_blocks_and_progress
  run_event (claim offset checksum) u = record u {
    processing_blocks = (is_block_being_processed offset checksum u.processing_blocks).1;
  }
  run_event (finish checksum new_block) u = update_blocks_and_progress checksum new_block u

  unfoldable pub run_events : List Event → Upload → Upload
  unfolding run_event
  run_events [] u = u
  run_events (e ∷ es) u = run_events es (run_event e u)
