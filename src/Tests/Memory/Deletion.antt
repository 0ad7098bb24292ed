-- ===== src/Tests/Memory/Deletion.antt =====
-- A deletion in a store in memory: two backups of a volume, one of which goes with its own block.
use backupstore.Base.{
  none, ℕ, refl, [], ◌∷◌, ◌++◌, Bytes, inl, codes, if◌then◌else◌, ◌=b◌, ◌==◌, ◌≡◌, ◌≢◌, some, arith,
}
use backupstore.Base.Outcome.{Result, ok, err, panic}
use backupstore.Driver.{FilePath, is_above}
use backupstore.Blocks.Mapping.{BlockMapping}
use backupstore.Util.Names.{validate_name}
use backupstore.Config.Paths.{get_block_file_path, get_volume_path, get_backup_config_path}
use backupstore.Config.Store.{Volume, Backup, LockConfig, Env, empty_backup}
use backupstore.Config.Holding.{HostLaws}
use backupstore.Base.Outcome.{pure, raise, lift, attempt, total, ◌>>=◌, on_result}
use backupstore.Util.Names.{
  validate_name, has_prefix, has_suffix, trim_prefix, trim_suffix, trim_left_slash, extract_name,
  extract_names,
}
use backupstore.Util.Unordered.{unordered_equal}
use backupstore.Driver.{is_above}
use backupstore.Config.Paths.{
  get_checksum, slice, get_volume_path, get_volume_file_path, get_backup_path,
  get_backup_config_name, get_backup_config_path, get_block_path, get_block_file_path,
  get_lock_path, get_lock_file_path,
}
use backupstore.Config.Store.{
  is_backup_in_progress, load_config, save_config, volume_exists, load_volume, save_volume,
  get_backup_names_for_volume, load_backup, save_backup, remove_backup, add_volume, remove_volume,
}
use backupstore.Lock.Priority.{compare_names, compare_locks, is_expired, blocks, can_acquire}
use backupstore.Lock.Ops.{
  new_lock, load_lock, remove_lock, save_lock, get_lock_names_for_volume, load_locks,
  get_locks_for_volume, can_acquire_lock, store_acquired, check_lock, lock_file, release_lock,
  close_lock, unlock_file, refresh_lock,
}
use backupstore.Gc.Infos.{
  is_block_present, is_block_referenced, is_block_safe_to_delete, put_info, init_infos,
  count_reference, check_block_reference_count,
}
use backupstore.Gc.Delete.{
  get_latest_backup, list_blocks, list_dirs, get_block_names_for_volume, scan_backups, cleanup_loop,
  finish_cleanup, cleanup_blocks, save_last, collect_garbage, delete_locked,
  delete_delta_block_backup,
}
use backupstore.Gc.Safety.{Staying}
use backupstore.Tests.Memory.{erase, entry, entries, result_of, Store, memory, memory_laws, stored}
use backupstore.Gc.Delete.{delete_delta_block_backup}
use backupstore.Gc.Safety.Whole.{delete_keeps_blocks, Doomed}

abbrev pub volume : Bytes
volume = codes "vol"

abbrev staying_name : Bytes
staying_name = codes "b1"

abbrev doomed_name : Bytes
doomed_name = codes "b2"

abbrev shared_block : Bytes
shared_block = codes "aabbcc"

abbrev own_block : Bytes
own_block = codes "aaddee"

abbrev at : ℕ → Bytes → BlockMapping
at o c = record { offset = o; block_checksum = c }

-- A backup of one block at 0, and one that shares it and has one of its own.
abbrev staying_backup : Backup
staying_backup = record empty_backup {
  name = staying_name;
  volume_name = volume;
  created_time = codes "t";
  blocks = at 0 shared_block ∷ [];
}

abbrev doomed_backup : Backup
doomed_backup = record empty_backup {
  name = doomed_name;
  volume_name = volume;
  created_time = codes "t";
  blocks = at 0 shared_block ∷ at 1 own_block ∷ [];
}

-- The encodings of what the store holds: a backup is its number, and the volume is empty.
abbrev decode_backup : Bytes → Result Backup
decode_backup j =
    if j =b 1 ∷ [] then ok staying_backup else if j =b 2 ∷ [] then ok doomed_backup else err panic

abbrev pub the_volume : Volume
the_volume = record {
  name = volume;
  size = 2;
  labels = [];
  created_time = codes "t";
  last_backup_name = [];
  last_backup_at = [];
  block_count = 2;
  backing_image_name = [];
  backing_image_checksum = [];
  compression_method = codes "lz4";
  storage_class_name = [];
  data_engine = codes "v1";
}

abbrev decode_lock : Bytes → Result LockConfig
decode_lock [] = err panic
decode_lock (_ ∷ []) = err panic
decode_lock (k ∷ a ∷ n) = ok (record { name = n; kind = k; acquired = a == 1 })

abbrev pub env : Env Store
env = record {
  driver = memory;
  volumes = record { marshal = λ v. []; unmarshal = λ j. ok the_volume };
  backups = record { marshal = λ b. []; unmarshal = decode_backup };
  locks = record {
    marshal = λ l. l.kind ∷ (if l.acquired then 1 else 0) ∷ l.name;
    unmarshal = decode_lock;
  };
  site = record { sha = λ d. codes "0123456789" ++ d; base = codes "backupstore" ∷ [] };
  now = λ w. (0, w);
  sleep = λ n w. w;
  parse_time = λ t. ok 0;
}

pub host : HostLaws env memory_laws
host = record { now_same = λ q w. refl; sleep_same = λ n q w. refl }

abbrev pub volume_path : FilePath
volume_path = codes "backupstore" ∷ codes "volumes" ∷ codes "01" ∷ codes "23" ∷ volume ∷ []

abbrev block_path : Bytes → Bytes → FilePath
block_path lv2 c = volume_path ++ codes "blocks" ∷ codes "aa" ∷ lv2 ∷ (c ++ codes ".blk") ∷ []

abbrev config_path : Bytes → FilePath
config_path b = volume_path ++ codes "backups" ∷ (codes "backup_" ++ b ++ codes ".cfg") ∷ []

abbrev store : Store
store =
    (volume_path ++ codes "volume.cfg" ∷ [], [])
    ∷ (config_path staying_name, 1 ∷ [])
    ∷ (config_path doomed_name, 2 ∷ [])
    ∷ (block_path (codes "bb") shared_block, 10 ∷ [])
    ∷ (block_path (codes "dd") own_block, 20 ∷ [])
    ∷ []

staying : Staying env memory_laws
unfolding get_block_file_path validate_name get_volume_path
staying = record {
  v = volume;
  n = staying_name;
  c = shared_block;
  p = block_path (codes "bb") shared_block;
  j = 1 ∷ [];
  b = staying_backup;
  at_path = refl;
  valid = refl;
  decodes = refl;
  refers = inl refl;
  listable = λ w h. (_, refl);
}

-- The backup to delete, which names itself.
doomed : Doomed env volume (some (2 ∷ []))
doomed = record { m = doomed_name; named = λ x b e k. ground arith }

-- What the store holds at first.
doomed_stored :
    memory_laws.content store (get_backup_config_path env.site doomed_name volume) ≡ some (2 ∷ [])
unfolding memory_laws stored get_backup_config_path get_volume_path is_above
doomed_stored = refl

staying_stored :
    memory_laws.content store (get_backup_config_path env.site staying_name volume) ≡ some (1 ∷ [])
unfolding memory_laws stored get_backup_config_path get_volume_path is_above
staying_stored = refl

shared_stored : memory_laws.content store (block_path (codes "bb") shared_block) ≡ some (10 ∷ [])
unfolding memory_laws stored is_above
shared_stored = refl

abbrev after_deletion : Store
after_deletion = (delete_delta_block_backup env doomed_name volume (codes "1") store).1

names_differ : doomed_name ≢ staying_name
names_differ e = ground arith

delete_keeps_blocks_example :
    (memory_laws.content after_deletion (block_path (codes "bb") shared_block) ≡ some (10 ∷ []))
    × (memory_laws.content after_deletion (get_backup_config_path env.site staying_name volume)
        ≡ some (1 ∷ []))
unfolding staying doomed
delete_keeps_blocks_example =
    delete_keeps_blocks env memory_laws host staying (10 ∷ []) (some (2 ∷ [])) doomed names_differ
      (codes "1") store doomed_stored shared_stored staying_stored

-- The block of the deleted backup alone is gone.
own_removed : stored after_deletion (block_path (codes "dd") own_block) ≡ none
unfolding pure raise lift attempt total ◌>>=◌ on_result validate_name has_prefix has_suffix
    trim_prefix trim_suffix trim_left_slash extract_name extract_names unordered_equal is_above
    get_checksum slice get_volume_path get_volume_file_path get_backup_path get_backup_config_name
    get_backup_config_path get_block_path get_block_file_path get_lock_path get_lock_file_path
    is_backup_in_progress load_config save_config volume_exists load_volume save_volume
    get_backup_names_for_volume load_backup save_backup remove_backup add_volume remove_volume
    compare_names compare_locks is_expired blocks can_acquire new_lock load_lock remove_lock
    save_lock get_lock_names_for_volume load_locks get_locks_for_volume can_acquire_lock
    store_acquired check_lock lock_file release_lock close_lock unlock_file refresh_lock
    is_block_present is_block_referenced is_block_safe_to_delete put_info init_infos count_reference
    check_block_reference_count get_latest_backup list_blocks list_dirs get_block_names_for_volume
    scan_backups cleanup_loop finish_cleanup cleanup_blocks save_last collect_garbage delete_locked
    delete_delta_block_backup stored erase entry entries result_of
own_removed = refl
