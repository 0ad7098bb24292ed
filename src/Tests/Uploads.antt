-- ===== src/Tests/Uploads.antt =====
-- Runs of the upload's shared table, and of the reading of a block.
use backupstore.Base.{ℕ, ◌+◌, ◌≡◌, refl, true, List, [], ◌∷◌, Bytes, codes, length}
use backupstore.Base.Outcome.{ok, err, external}
use backupstore.Config.Paths.{Site, get_checksum}
use backupstore.Upload.Table.{
  Upload, Event, run_event, run_events, is_block_being_processed, update_blocks_and_progress,
  blocks_at, delete,
}
use backupstore.Upload.Laws.{
  occurrences, pending, claims, occurrences-run_events, processed-run_events,
}
use backupstore.Integrity.{Readers, decompress_and_verify_with_fallback}
use backupstore.Driver.{is_above}
use backupstore.Tests.Memory.{stored, result_of, Store, memory}
use backupstore.Integrity.Laws.{fallback-checksum, fallback-second, lz4_file}

abbrev percent : ℕ → ℕ → ℕ
percent total processed = processed

abbrev start : Upload
start = record {
  processing_blocks = [];
  blocks = [];
  newly_uploaded_data_size = 0;
  re_uploaded_data_size = 0;
  progress = record {
    total_block_counts = 3;
    processed_block_counts = 0;
    new_block_counts = 0;
    progress = 0;
  };
}

-- Two workers have the same block; a third one another.
abbrev events : List Event
events =
    Event.claim 0 (1 ∷ [])
    ∷ Event.claim 2 (2 ∷ [])
    ∷ Event.claim 4 (1 ∷ [])
    ∷ Event.finish (1 ∷ []) true
    ∷ []

occurrences-run_events_example :
    occurrences 4 (1 ∷ []) (run_events percent events start).blocks
      + occurrences 4 (1 ∷ []) (pending (run_events percent events start).processing_blocks)
    ≡ occurrences 4 (1 ∷ []) start.blocks
      + occurrences 4 (1 ∷ []) (pending start.processing_blocks)
      + occurrences 4 (1 ∷ []) (claims events)
occurrences-run_events_example = occurrences-run_events percent 4 (1 ∷ []) events start

processed-run_events_example :
    (run_events percent events start).progress.processed_block_counts
    ≡ length (run_events percent events start).blocks
processed-run_events_example = processed-run_events percent events start refl

blocks_test : length (run_events percent events start).blocks ≡ 2
unfolding run_events run_event is_block_being_processed update_blocks_and_progress blocks_at delete
blocks_test = refl

-- A gzip reader that knows its first byte, and an lz4 reader that drops its own.
abbrev readers : Readers
readers = record {
  gzip = λ r. err (external (codes "gzip: invalid header"));
  lz4 = λ r. elim r [ [] ↦ err (external []) | x ∷ d ↦ ok d ];
}

abbrev site : Site
site = record { sha = λ d. d; base = [] }

abbrev block_file : List Bytes
block_file = codes "b" ∷ []

abbrev the_store : Store
the_store = (block_file, 4 ∷ 7 ∷ 8 ∷ []) ∷ []

first_read : (memory.read block_file the_store).0 ≡ ok (4 ∷ 7 ∷ 8 ∷ [])
unfolding stored result_of is_above
first_read = refl

fallback-second_example :
    (decompress_and_verify_with_fallback readers site memory block_file
      (codes "gzip")
      (get_checksum site (7 ∷ 8 ∷ []))
      the_store).0
    ≡ ok (7 ∷ 8 ∷ [])
fallback-second_example =
    fallback-second readers site memory block_file (codes "gzip") (4 ∷ 7 ∷ 8 ∷ []) (7 ∷ 8 ∷ [])
      the_store (lz4_file refl refl) first_read first_read

fallback-checksum_example : get_checksum site (7 ∷ 8 ∷ []) ≡ get_checksum site (7 ∷ 8 ∷ [])
fallback-checksum_example =
    fallback-checksum readers site memory block_file (codes "gzip") (get_checksum site (7 ∷ 8 ∷ []))
      (7 ∷ 8 ∷ []) the_store fallback-second_example
