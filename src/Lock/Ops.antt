-- ===== src/Lock/Ops.antt =====
-- FileLock of lock.go: its operations on the store.
use backupstore.Base.{
  ℕ, zero, suc, Bool, true, false, List, [], ◌∷◌, ◌++◌, Bytes, if◌then◌else◌, codes,
}
use backupstore.Base.Outcome.{
  on_result, total, Result, ok, err, failure, panic, Exec, pure, raise, attempt, ◌>>=◌, ◌>>◌,
}
use backupstore.Driver.{}
use backupstore.Config.Paths.{get_lock_path, get_lock_file_path, lock_suffix}
use backupstore.Config.Store.{Env, LockConfig, load_config, save_config}
use backupstore.Util.Names.{extract_names}
use backupstore.Lock.Priority.{ServerLock, can_acquire, lock_check_wait_time}

-- An int32 counter that may fall below zero: `below n` is -(n + 1). It does not wrap.
pub data Count : Type 0 where
  upto : ℕ → Count
  below : ℕ → Count

abbrev pub increment : Count → Count
increment (upto n) = upto (suc n)
increment (below zero) = upto 0
increment (below (suc n)) = below n

abbrev pub decrement : Count → Count
decrement (upto zero) = below 0
decrement (upto (suc n)) = upto n
decrement (below n) = below (suc n)

abbrev pub is_positive : Count → Bool
is_positive (upto zero) = false
is_positive (upto (suc n)) = true
is_positive (below n) = false

-- The channel that stops the refresh.
pub data KeepAlive : Type 0 where
  absent opened closed : KeepAlive

pub record FileLock : Type 0 where
  pub name : Bytes
  pub kind : ℕ
  pub acquired : Bool
  pub volume : Bytes
  pub count : Count
  pub server_time : ℕ
  pub keep_alive : KeepAlive

-- `New`; the suffix is the generated part of the name.
unfoldable pub new_lock : Bytes → ℕ → Bytes → FileLock
new_lock volume_name lock_type suffix = record {
  name = codes "lock-" ++ suffix;
  kind = lock_type;
  acquired = false;
  volume = volume_name;
  count = upto 0;
  server_time = 0;
  keep_alive = absent;
}

abbrev pub config_of : FileLock → LockConfig
config_of l = record { name = l.name; kind = l.kind; acquired = l.acquired }

abbrev pub server_lock_of : FileLock → ServerLock
server_lock_of l = record {
  name = l.name;
  kind = l.kind;
  acquired = l.acquired;
  server_time = l.server_time;
}

module _ {W : Type 0} (env : Env W) where
  open env use {driver, site}

  unfoldable pub load_lock : Bytes → Bytes → Exec W ServerLock
  load_lock volume_name name = do
    let file = get_lock_file_path site volume_name name
    config ← load_config env env.locks file
    time ← total (driver.file_time file)
    pure (record {
      name = config.name;
      kind = config.kind;
      acquired = config.acquired;
      server_time = time;
    })

  unfoldable pub remove_lock : FileLock → Exec W (Unit {0})
  remove_lock lock = driver.remove (get_lock_file_path site lock.volume lock.name)

  -- The lock with the server's time of its file.
  unfoldable pub save_lock : FileLock → Exec W FileLock
  save_lock lock = do
    let file = get_lock_file_path site lock.volume lock.name
    save_config env env.locks file (config_of lock)
    time ← total (driver.file_time file)
    pure (record lock { server_time = time })

  unfoldable pub get_lock_names_for_volume : Bytes → Exec W (List Bytes)
  get_lock_names_for_volume volume_name = do
    files ← attempt (driver.list (get_lock_path site volume_name))
    on_result files (λ files. pure (extract_names files [] lock_suffix)) (λ e. pure [])

  -- A lock file that cannot be loaded is passed over.
  unfoldable pub load_locks : Bytes → List Bytes → Exec W (List ServerLock)
  load_locks volume_name [] = pure []
  load_locks volume_name (name ∷ names) = do
    lock ← attempt (load_lock volume_name name)
    locks ← load_locks volume_name names
    on_result lock (λ lock. pure (lock ∷ locks)) (λ e. pure locks)

  unfoldable pub get_locks_for_volume : Bytes → Exec W (List ServerLock)
  get_locks_for_volume volume_name = do
    names ← get_lock_names_for_volume volume_name
    load_locks volume_name names

  -- canAcquire. The loop reads the clock at each lock; here it is read once.
  unfoldable pub can_acquire_lock : FileLock → Exec W Bool
  can_acquire_lock lock = do
    locks ← get_locks_for_volume lock.volume
    now ← total env.now
    pure (can_acquire now (server_lock_of lock) locks)

  -- The second save of Lock, and the start of the refresh.
  unfoldable pub store_acquired : FileLock → Exec W (Result (Unit {0}) × FileLock)
  store_acquired lock = do
    let acquired = record lock { acquired = true; count = increment lock.count }
    saved ← attempt (save_lock acquired)
    on_result saved (λ stored. pure (ok tt, record stored { keep_alive = opened }))
        (λ e. (do attempt (remove_lock acquired); pure (err e, acquired)))

  -- The rest of Lock, after the first save.
  unfoldable pub check_lock : FileLock → Exec W (Result (Unit {0}) × FileLock)
  check_lock waiting = do
    total (λ w. (tt, env.sleep lock_check_wait_time w))
    free ← can_acquire_lock waiting
    if free then store_acquired waiting else (do
      attempt (remove_lock waiting)
      pure (err (failure (codes "failed to acquire lock")), waiting))

  -- Lock returns its error beside the lock that it changed.
  unfoldable pub lock_file : FileLock → Exec W (Result (Unit {0}) × FileLock)
  lock_file lock =
      if lock.acquired
      then (do
        let counted = record lock { count = increment lock.count }
        saved ← attempt (save_lock counted)
        on_result saved (λ stored. pure (ok tt, stored)) (λ e. pure (ok tt, counted)))
      else (do
        saved ← attempt (save_lock lock)
        on_result saved (λ waiting. check_lock waiting) (λ e. pure (err e, lock)))

  unfoldable pub release_lock : FileLock → Exec W (Result (Unit {0}) × FileLock)
  release_lock l = do removed ← attempt (remove_lock l); pure (removed, l)

  -- The end of Unlock: to close a closed channel is a panic.
  unfoldable pub close_lock : KeepAlive → FileLock → Exec W (Result (Unit {0}) × FileLock)
  close_lock absent l = release_lock l
  close_lock opened l = release_lock (record l { keep_alive = closed })
  close_lock closed l = raise panic

  unfoldable pub unlock_file : FileLock → Exec W (Result (Unit {0}) × FileLock)
  unlock_file lock =
      let counted = record lock { count = decrement lock.count } in
      if is_positive counted.count
      then pure (ok tt, counted)
      else close_lock lock.keep_alive (record counted { acquired = false })

  -- One round of the refresh.
  unfoldable pub refresh_lock : FileLock → Exec W FileLock
  refresh_lock lock =
      if lock.acquired
      then (do
        saved ← attempt (save_lock lock)
        on_result saved (λ stored. pure stored) (λ e. pure lock))
      else pure lock
