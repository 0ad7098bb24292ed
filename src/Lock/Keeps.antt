-- ===== src/Lock/Keeps.antt =====
-- The operations of FileLock (lock.go) keep every invariant of the store that does not depend on
-- the lock's own file.
use backupstore.Base.{◌≡◌, List, [], ◌∷◌, Bytes}
use backupstore.Base.Outcome.{Result}
use backupstore.Driver.Runs.{
  Keeps, keeps_rules, Keeps-bind, Keeps-attempt, Keeps-pure, Runs, OkIs, Runs-bind, Runs-pure,
  Runs-on_result, Runs-if, Runs-after, Runs-attempt,
}
use backupstore.Config.Paths.{get_lock_file_path}
use backupstore.Config.Store.{Env}
use backupstore.Config.Keeps.{Guarded, Writable, Keeps-load_config, Keeps-save_config}
use backupstore.Lock.Ops.{
  KeepAlive, absent, opened, closed, FileLock, load_lock, remove_lock, save_lock,
  get_lock_names_for_volume, load_locks, get_locks_for_volume, can_acquire_lock, store_acquired,
  check_lock, lock_file, release_lock, close_lock, unlock_file,
}

module _ {W : Type 0} (env : Env W) {P : W → Type 0} (g : Guarded env P) where
  open env use {driver, site}

  Keeps-load_lock : (v n : Bytes) → Keeps P (load_lock env v n)
  unfolding load_lock
  Keeps-load_lock v n = search (keeps_rules, Keeps-load_config, g.file_time, g)

  Keeps-lock_names : (v : Bytes) → Keeps P (get_lock_names_for_volume env v)
  unfolding get_lock_names_for_volume
  Keeps-lock_names v = search (keeps_rules, g.list)

  Keeps-load_locks : (v : Bytes) (names : List Bytes) → Keeps P (load_locks env v names)
  unfolding load_locks
  Keeps-load_locks v [] = search keeps_rules
  Keeps-load_locks v (n ∷ names) =
      Keeps-bind _ _ (Keeps-attempt _ (Keeps-load_lock v n))
        λ r. Keeps-bind _ _ (Keeps-load_locks v names) λ ls. search keeps_rules

  Keeps-can_acquire : (l : FileLock) → Keeps P (can_acquire_lock env l)
  unfolding can_acquire_lock get_locks_for_volume
  Keeps-can_acquire l =
      Keeps-bind _ _ (Keeps-bind _ _ (Keeps-lock_names l.volume) (Keeps-load_locks l.volume))
        λ ls. Keeps-bind _ _ g.now λ t. Keeps-pure _

  -- The lock's own file may be written and removed.
  pub record OwnFile (v n : Bytes) : Type 0 where
    pub writable : Writable env P (get_lock_file_path site v n)
    pub removable : Keeps P (driver.remove (get_lock_file_path site v n))

  module _ {v n : Bytes} (own : OwnFile v n) where
    abbrev IsOwn : FileLock → Type 0
    IsOwn l = (l.volume ≡ v) × (l.name ≡ n)

    Keeps-remove_lock : (l : FileLock) → IsOwn l → Keeps P (remove_lock env l)
    unfolding remove_lock
    Keeps-remove_lock l h = rw (h.0, h.1) own.removable

    -- The saved lock has the same file.
    Runs-save_lock : (l : FileLock) → IsOwn l → Runs P (save_lock env l) IsOwn
    unfolding save_lock
    Runs-save_lock l h =
        Runs-after IsOwn _ _ (Keeps-save_config env g env.locks _ _ (rw (h.0, h.1) own.writable))
          λ _. Runs-after IsOwn _ _ (g.file_time _) (λ t. Runs-pure IsOwn _ h)

    abbrev GivesOwn : Result (Unit {0}) × FileLock → Type 0
    GivesOwn r = IsOwn r.1

    Runs-store_acquired : (l : FileLock) → IsOwn l → Runs P (store_acquired env l) GivesOwn
    unfolding store_acquired
    Runs-store_acquired l h =
        Runs-bind (OkIs IsOwn) GivesOwn _ _ (Runs-attempt IsOwn _ (Runs-save_lock _ h)) λ r q.
          Runs-on_result IsOwn GivesOwn r _ _ q (λ s hs. Runs-pure GivesOwn _ hs)
            (λ e.
              Runs-after GivesOwn _ _ (search (keeps_rules, Keeps-remove_lock, h))
                (λ _. Runs-pure GivesOwn _ h))

    Runs-check_lock : (l : FileLock) → IsOwn l → Runs P (check_lock env l) GivesOwn
    unfolding check_lock
    Runs-check_lock l h = Runs-after GivesOwn _ _ (g.sleep _) λ _.
        Runs-after GivesOwn _ _ (Keeps-can_acquire l) λ free.
          Runs-if GivesOwn free _ _ (λ _. Runs-store_acquired l h)
            (λ _.
              Runs-after GivesOwn _ _ (search (keeps_rules, Keeps-remove_lock, h))
                (λ _. Runs-pure GivesOwn _ h))

    -- Lock returns a lock with the same file.
    pub Runs-lock_file : (l : FileLock) → IsOwn l → Runs P (lock_file env l) GivesOwn
    unfolding lock_file
    Runs-lock_file l h =
        Runs-if GivesOwn l.acquired _ _
          (λ _.
            Runs-bind (OkIs IsOwn) GivesOwn _ _ (Runs-attempt IsOwn _ (Runs-save_lock _ h)) λ r q.
              Runs-on_result IsOwn GivesOwn r _ _ q (λ s hs. Runs-pure GivesOwn _ hs)
                (λ e. Runs-pure GivesOwn _ h))
          (λ _.
            Runs-bind (OkIs IsOwn) GivesOwn _ _ (Runs-attempt IsOwn _ (Runs-save_lock _ h)) λ r q.
              Runs-on_result IsOwn GivesOwn r _ _ q (λ s hs. Runs-check_lock s hs)
                (λ e. Runs-pure GivesOwn _ h))

    Keeps-close_lock : (k : KeepAlive) (l : FileLock) → IsOwn l → Keeps P (close_lock env k l)
    unfolding close_lock release_lock
    Keeps-close_lock absent l h = search (keeps_rules, Keeps-remove_lock, h)
    Keeps-close_lock opened l h = search (keeps_rules, Keeps-remove_lock, h)
    Keeps-close_lock closed l h = search keeps_rules

    pub Keeps-unlock_file : (l : FileLock) → IsOwn l → Keeps P (unlock_file env l)
    unfolding unlock_file
    Keeps-unlock_file l h = search (keeps_rules, Keeps-close_lock, h)
