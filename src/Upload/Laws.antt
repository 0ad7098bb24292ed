-- ===== src/Upload/Laws.antt =====
-- The workers lose no block and record none twice (deltablock.go), however their calls interleave.
use backupstore.Base.{
  ℕ, ◌+◌, ◌≡◌, refl, ◌&&◌, List, [], ◌∷◌, ◌++◌, arith, ◌==◌, Bytes, if◌then◌else◌, ◌=b◌, length,
  length-append,
}
use backupstore.Blocks.Mapping.{BlockMapping}
use backupstore.Upload.Table.{
  Table, Upload, Event, is_block_being_processed, blocks_at, delete, update_blocks_and_progress,
  run_event, run_events,
}

abbrev hits : ℕ → Bytes → BlockMapping → ℕ
hits o c b = if b.offset == o && b.block_checksum =b c then 1 else 0

-- How often a list has a block.
unfoldable pub occurrences : ℕ → Bytes → List BlockMapping → ℕ
occurrences o c [] = 0
occurrences o c (b ∷ bs) = hits o c b + occurrences o c bs

-- All blocks in the table.
unfoldable pub pending : Table → List BlockMapping
pending [] = []
pending (e ∷ table) = e.1 ++ pending table

occurrences-append :
    (o : ℕ) (c : Bytes) (xs ys : List BlockMapping)
    → occurrences o c (xs ++ ys) ≡ occurrences o c xs + occurrences o c ys
unfolding occurrences
occurrences-append o c [] ys = omega arith
occurrences-append o c (x ∷ xs) ys = omega (arith, occurrences-append o c xs ys)

occurrences-claim :
    (o : ℕ) (c : Bytes) (p : ℕ) (d : Bytes) (t : Table)
    → occurrences o c (pending (is_block_being_processed p d t).1)
      ≡ occurrences o c (pending t) + hits o c (record { offset = p; block_checksum = d })
unfolding occurrences pending is_block_being_processed
occurrences-claim o c p d [] = ground arith
occurrences-claim o c p d (e ∷ t) = ground (
  arith,
  occurrences-claim o c p d t,
  occurrences-append o c e.1 (record { offset = p; block_checksum = d } ∷ []),
  occurrences-append o c e.1 (pending t),
  occurrences-append o c (e.1 ++ record { offset = p; block_checksum = d } ∷ []) (pending t),
  occurrences-append o c e.1 (pending (is_block_being_processed p d t).1),
)

occurrences-delete :
    (o : ℕ) (c d : Bytes) (t : Table)
    → occurrences o c (blocks_at d t) + occurrences o c (pending (delete d t))
      ≡ occurrences o c (pending t)
unfolding occurrences pending blocks_at delete
occurrences-delete o c d [] = refl
occurrences-delete o c d (e ∷ t) = ground (
  arith,
  occurrences-delete o c d t,
  occurrences-append o c e.1 (pending t),
  occurrences-append o c e.1 (pending (delete d t)),
)

-- The blocks that were claimed.
unfoldable pub claims : List Event → List BlockMapping
claims [] = []
claims (Event.claim offset checksum ∷ es) =
    record { offset = offset; block_checksum = checksum } ∷ claims es
claims (Event.finish checksum new_block ∷ es) = claims es

module _ (get_progress : ℕ → ℕ → ℕ) where
  -- After any sequence of claims and finishes, each block is as often among the backup's blocks
  -- and in the table together as it was before, and was claimed since.
  pub occurrences-run_events :
      (o : ℕ) (c : Bytes) (es : List Event) (u : Upload)
      → let after = run_events get_progress es u in
        occurrences o c after.blocks + occurrences o c (pending after.processing_blocks)
        ≡ occurrences o c u.blocks
          + occurrences o c (pending u.processing_blocks)
          + occurrences o c (claims es)
  unfolding run_events run_event claims occurrences update_blocks_and_progress
  occurrences-run_events o c [] u = omega arith
  occurrences-run_events o c (Event.claim p d ∷ es) u = ground (
    arith,
    occurrences-run_events o c es (run_event get_progress (Event.claim p d) u),
    occurrences-claim o c p d u.processing_blocks,
  )
  occurrences-run_events o c (Event.finish d b ∷ es) u = ground (
    arith,
    occurrences-run_events o c es (run_event get_progress (Event.finish d b) u),
    occurrences-append o c u.blocks (blocks_at d u.processing_blocks),
    occurrences-delete o c d u.processing_blocks,
  )

  -- The count of the processed blocks grows with the backup's blocks, after any sequence of claims
  -- and finishes.
  pub processed-run_events :
      (es : List Event) (u : Upload)
      → u.progress.processed_block_counts ≡ length u.blocks
      → (run_events get_progress es u).progress.processed_block_counts
        ≡ length (run_events get_progress es u).blocks
  unfolding run_events run_event update_blocks_and_progress
  processed-run_events [] u h = h
  processed-run_events (Event.claim p d ∷ es) u h =
      processed-run_events es (run_event get_progress (Event.claim p d) u) h
  processed-run_events (Event.finish d b ∷ es) u h =
      processed-run_events es (run_event get_progress (Event.finish d b) u)
        (omega (arith, h, length-append u.blocks (blocks_at d u.processing_blocks)))
