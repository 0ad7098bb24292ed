-- ===== src/Tests/Handlers.antt =====
-- The handlers on the store in memory, which holds the devices of the host too.
use backupstore.Base.{
  ℕ, ◌*◌, ◌+◌, ◌≤◌, ◌≡◌, refl, true, false, List, [], ◌∷◌, arith, Bytes, codes, ◌⊎◌, =b_refl,
}
use backupstore.Base.Outcome.{ok, pure}
use backupstore.Driver.{FilePath, is_above}
use backupstore.Driver.Runs.{Runs}
use backupstore.Driver.Yields.{Yields}
use backupstore.Driver.Leaves.{Leaves}
use backupstore.Blocks.Restore.{Block}
use backupstore.Lock.Ops.{FileLock, upto, absent, opened}
use backupstore.Lock.Priority.{backup_lock}
use backupstore.Lock.Hold.{with_lock, run_job}
use backupstore.Lock.Hold.Balance.{Handed, Done, with_lock_balance, run_job_release}
use backupstore.Host.{Host}
use backupstore.Upload.Perform.{default_block_size}
use backupstore.Upload.Create.{CreateConfig, SnapshotOps, create_delta_block_backup}
use backupstore.Upload.Create.Handler.{IsHandedOver, create-IsHandedOver}
use backupstore.Recovery.{
  Prepared, RestoreConfig, restore_delta_block_backup, restore_delta_block_backup_incrementally,
  restore_job,
}
use backupstore.Recovery.Handler.{
  Starts, IsFull, IsIncremental, restore_delta_block_backup-Starts,
  restore_delta_block_backup_incrementally-Starts,
}
use backupstore.Recovery.Device.{DeviceLaws}
use backupstore.Recovery.Data.{AllRestored, restore_job-data}
use backupstore.Tests.Access.{access}
use backupstore.Tests.Memory.{Store, memory_laws}
use backupstore.Tests.Memory.Deletion.{env, volume, the_volume}

abbrev Any : Store → Type 0
Any w = Unit {0}

abbrev lock : FileLock
lock = record {
  name = codes "lock-1";
  kind = backup_lock;
  acquired = false;
  volume = volume;
  count = upto 0;
  server_time = 0;
  keep_alive = absent;
}

abbrev held : FileLock
held = record lock { acquired = true; count = upto 1; keep_alive = opened }

with_lock_balance_example :
    Yields (with_lock env true lock (pure (codes "x")) (λ _. pure tt)) (Handed env)
with_lock_balance_example =
    with_lock_balance env true (pure (codes "x")) (λ _. pure tt) lock
      (record { not_acquired = refl; uncounted = refl; not_refreshed = refl })

run_job_release_example : Yields (run_job env (pure (codes "x")) held) (Done env)
run_job_release_example =
    run_job_release env (pure (codes "x")) held
      (record { acquired = refl; counted = refl; refreshed = refl })

-- A snapshot with one changed block.
abbrev snapshots : SnapshotOps Store
snapshots = record {
  has_snapshot = λ s v w. (true, w);
  compare_snapshot = λ s l v. pure (record {
    mappings = record { offset = 0; size = default_block_size } ∷ [];
    block_size = default_block_size;
  });
  open_snapshot = λ s v. pure tt;
  close_snapshot = λ s v. pure tt;
  read_snapshot = λ s v o. pure (o ∷ []);
  update_backup_status = λ s v state progress url text. pure tt;
}

abbrev create_config : CreateConfig Store
create_config = record {
  backup_name = codes "b3";
  request = record {
    volume = the_volume;
    snapshot = record { name = codes "s2"; created_time = codes "t" };
    labels = [];
    parameters = [];
    format_time = λ n. codes "t";
  };
  dest_url = codes "m";
  delta_ops = snapshots;
  compress_data = λ m d. ok d;
  get_progress = λ t p. p;
}

create-IsHandedOver_example :
    Runs Any
      (create_delta_block_backup access create_config (codes "1"))
      (IsHandedOver access create_config)
create-IsHandedOver_example = create-IsHandedOver access create_config (codes "1")

-- The block of a device at an offset.
abbrev at_offset : Bytes → ℕ → FilePath
at_offset device o = codes "dev" ∷ device ∷ (o ∷ []) ∷ []

abbrev the_host : Host Store
the_host = record {
  exists = λ f w. (false, w);
  remove = λ f. pure tt;
  remove_all = λ f. pure tt;
  create = λ f. pure tt;
  open_device = λ f. pure f;
  close_device = λ f. pure tt;
  is_regular = λ f. pure true;
  truncate = λ f n. pure tt;
  open_write = λ f. pure tt;
  write_at = λ f o c w. (ok tt, (at_offset f o, c) ∷ w);
  fill_zeros = λ f o n w. (ok tt, (at_offset f o, []) ∷ w);
  close = λ f. pure tt;
  stop = λ w. (false, w);
  context_done = λ w. (false, w);
  update_status = λ f n e w. w;
}

abbrev restore_config : RestoreConfig Store
restore_config = record {
  host = the_host;
  readers = record { gzip = λ s. ok (ok s); lz4 = λ s. ok s };
  get_progress = λ t p. p;
  filename = codes "v1";
  last_backup_name = codes "b1";
}

restore_delta_block_backup-Starts_example :
    Runs Any
      (restore_delta_block_backup access restore_config (codes "m") (codes "1"))
      (Starts restore_config access (codes "m") (codes "1") (IsFull restore_config))
restore_delta_block_backup-Starts_example =
    restore_delta_block_backup-Starts restore_config access (codes "m") (codes "1")

restore_delta_block_backup_incrementally-Starts_example :
    Runs Any
      (restore_delta_block_backup_incrementally access restore_config (codes "m") (codes "1"))
      (Starts restore_config access (codes "m") (codes "1") (IsIncremental restore_config))
restore_delta_block_backup_incrementally-Starts_example =
    restore_delta_block_backup_incrementally-Starts restore_config access (codes "m") (codes "1")

apart :
    (device : Bytes) (o q : ℕ)
    → (o + default_block_size ≤ q) ⊎ (q + default_block_size ≤ o)
    → is_above (at_offset device o) (at_offset device q) ≡ false
unfolding is_above
apart device o q h = ground (arith, =b_refl device)

device_laws : DeviceLaws env the_host
unfolding pure
device_laws = record {
  view = λ w device o. memory_laws.content w (at_offset device o);
  write_ok = λ device o c w e. memory_laws.write_ok (at_offset device o) c w refl;
  write_other = λ device o q c w l h.
      memory_laws.write_other (at_offset device o) (at_offset device q) c w (apart device o q h);
  fill_other = λ device o q w h.
      memory_laws.write_other (at_offset device o) (at_offset device q) [] w (apart device o q h);
  read_same = λ p device q w. refl;
  stop_same = λ device q w. refl;
  context_same = λ device q w. refl;
  status_same = λ name n e device q w. refl;
  close_same = λ device q w. refl;
  close_device_same = λ device q w. refl;
}

abbrev two_blocks : List Block
two_blocks =
    record {
      offset = 0;
      block_checksum = codes "aabbcc";
      compression_method = codes "none";
      is_zero_block = false;
    }
    ∷ record {
      offset = default_block_size;
      block_checksum = [];
      compression_method = [];
      is_zero_block = true;
    }
    ∷ []

abbrev prepared : Prepared
prepared = record {
  device = codes "v1";
  is_regular = true;
  size = 2 * default_block_size;
  volume_name = volume;
  blocks = two_blocks;
  total_block_counts = 2;
  partial_progress = true;
}

restore_job-data_example :
    Leaves Any
      (restore_job env restore_config prepared)
      (λ _. AllRestored env restore_config device_laws prepared)
restore_job-data_example =
    restore_job-data env restore_config device_laws prepared (λ w. refl)
      (omega arith, (omega arith, tt))
