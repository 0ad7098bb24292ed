-- ===== src/Recovery/Handler.antt =====
-- What the restore handlers of deltablock.go leave to their jobs.
use backupstore.Base.{◌≡◌, ◌≢◌, refl, ℕ, true, false, not, ◌||◌, arith, Bytes, ◌%◌, ◌==◌}
use backupstore.Base.Outcome.{Result, ok, err, Exec}
use backupstore.Blocks.Restore.{populate_full, populate_incremental}
use backupstore.Driver.Runs.{
  Runs, OkIs, OkIs_of_eq, Runs-bind, Runs-pure, Runs-attempt, Runs-after, Runs-on_result, Runs-if,
  Runs-raise, Keeps, Runs-lift,
}
use backupstore.Config.Store.{Env, Backup, Volume, load_backup}
use backupstore.Access.{Access, names_at}
use backupstore.Url.{Decoded, decode_backup_url}
use backupstore.Lock.Ops.{FileLock, new_lock}
use backupstore.Lock.Priority.{restore_lock}
use backupstore.Lock.Hold.Turns.{IsHeld}
use backupstore.Lock.Hold.Identity.{IsLockOf, IsLockOf-new_lock}
use backupstore.Lock.Hold.Returns.{Runs-locked, OwnsAnd}
use backupstore.Upload.Create.Handler.{IsNew-new_lock}
use backupstore.Upload.Perform.{default_block_size}
use backupstore.Util.Names.{validate_name}
use backupstore.Recovery.{
  Prepared, RestoreConfig, prepare_full_restore, prepare_incremental_restore, load_sized,
  with_device, restore_delta_block_backup, restore_delta_block_backup_incrementally,
}

module _ {W : Type 0} (config : RestoreConfig W) where
  abbrev Any : W → Type 0
  Any w = Unit {0}

  -- A backup that was loaded.
  abbrev pub Loaded : Env W → Bytes → Bytes → Backup → Type 0
  Loaded env n v b = (w : W) × ((load_backup env n v w).0 ≡ ok b)

  abbrev pub IsSize : ℕ → Type 0
  IsSize size = (size ≢ 0) × (size % default_block_size ≡ 0)

  module _ (env : Env W) where
    Keeps-Any : {A : Type 0} (m : Exec W A) → Keeps Any m
    Keeps-Any m = record { at = λ w h. tt }

    Runs-load_backup : (n v : Bytes) → Runs Any (load_backup env n v) (Loaded env n v)
    Runs-load_backup n v = record {
      at = λ w h. (tt, OkIs_of_eq (Loaded env n v) _ (λ b e. (w, e)));
    }

    Runs-load_sized : (v : Bytes) → Runs Any (load_sized env config v) (λ vol. IsSize vol.size)
    Runs-load_sized v = Runs-after Sized _ _ (Keeps-Any _) λ r.
        Runs-on_result (λ _. Unit {0}) Sized r _ _ (OkIs_of_eq _ r (λ _ _. tt))
          (λ vol _.
            Runs-if Sized (vol.size == 0 || not (vol.size % default_block_size == 0)) _ _
              (λ _. Runs-raise Sized _)
              (λ e. Runs-pure Sized vol (λ z. ground arith, ground arith)))
          (λ e. Runs-raise Sized _)
      where
        Sized : Volume → Type 0
        Sized vol = IsSize vol.size

    Runs-with_device :
        {A : Type 0} (Q : A → Type 0) (rest : Bytes → Exec W A)
        → ((device : Bytes) → Runs Any (rest device) Q)
        → Runs Any (with_device env config rest) Q
    Runs-with_device Q rest h = Runs-after Q _ _ (Keeps-Any _) λ r.
        Runs-on_result (λ _. Unit {0}) Q r _ _ (OkIs_of_eq _ r (λ _ _. tt))
          (λ device _. Runs-bind (OkIs Q) Q _ _ (Runs-attempt Q _ (h device)) λ x q.
            Runs-on_result Q Q x _ _ q (λ a k. Runs-pure Q a k)
              (λ e. Runs-after Q _ _ (Keeps-Any _) λ _. Runs-raise Q _))
          (λ e. Runs-raise Q _)

  -- The job of a full restore writes the blocks of the backup; that of an incremental restore writes
  -- what differs between two.
  pub record IsFull (n v : Bytes) (env : Env W) (p : Prepared) : Type 0 where
    pub sized : IsSize p.size
    pub backup : Backup
    pub loaded : Loaded env n v backup
    pub blocks : p.blocks ≡ populate_full backup.compression_method backup.blocks

  pub record IsIncremental (n v : Bytes) (env : Env W) (p : Prepared) : Type 0 where
    pub sized : IsSize p.size
    pub valid : validate_name config.last_backup_name ≡ true
    pub backup : Backup
    pub last : Backup
    pub loaded : Loaded env n v backup
    pub last_loaded : Loaded env config.last_backup_name v last
    pub blocks : p.blocks ≡ populate_incremental backup.compression_method backup.blocks last.blocks

  Runs-prepare_full_restore :
      (env : Env W) (n v : Bytes) → Runs Any (prepare_full_restore env config n v) (IsFull n v env)
  unfolding prepare_full_restore
  Runs-prepare_full_restore env n v =
      Runs-bind (λ vol. IsSize vol.size) Q _ _ (Runs-load_sized env v)
        λ vol sized. Runs-with_device env Q _ λ device.
          Runs-after Q _ _ (Keeps-Any env _) λ regular.
            Runs-bind (Loaded env n v) Q _ _ (Runs-load_backup env n v)
              λ b l. Runs-pure Q _ (record { sized = sized; backup = b; loaded = l; blocks = refl })
    where
      Q : Prepared → Type 0
      Q = IsFull n v env

  Runs-prepare_incremental_restore :
      (env : Env W) (n v : Bytes)
      → Runs Any (prepare_incremental_restore env config n v) (IsIncremental n v env)
  unfolding prepare_incremental_restore
  Runs-prepare_incremental_restore env n v =
      Runs-bind (λ vol. IsSize vol.size) Q _ _ (Runs-load_sized env v)
        λ vol sized.
          Runs-if Q (validate_name config.last_backup_name) _ _
            (λ valid. Runs-after Q _ _ (Keeps-Any env _) λ _. Runs-with_device env Q _ λ device.
              Runs-after Q _ _ (Keeps-Any env _) λ regular.
                Runs-bind (Loaded env config.last_backup_name v) Q _ _ (Runs-load_backup env _ v)
                  λ last k. Runs-bind (Loaded env n v) Q _ _ (Runs-load_backup env n v) λ b l.
                    Runs-pure Q _ (record {
                      sized = sized;
                      valid = valid;
                      backup = b;
                      last = last;
                      loaded = l;
                      last_loaded = k;
                      blocks = refl;
                    }))
            (λ _. Runs-raise Q _)
    where
      Q : Prepared → Type 0
      Q = IsIncremental n v env

  module _ (access : Access W) (backup_url suffix : Bytes) where
    -- The job that a handler starts works on what the URL names, and holds the lock once.
    abbrev pub Starts :
        (Bytes → Bytes → Env W → Prepared → Type 0) → Env W × (Result Prepared × FileLock) → Type 0
    Starts Q (env, (ok p, lock)) =
        (names : Decoded) × (decode_backup_url access.lib backup_url ≡ ok names)
        × Q names.backup_name names.volume_name env p
        × IsHeld 0 lock
        × IsLockOf names.volume_name restore_lock lock
    Starts Q (env, (err e, lock)) = Unit {0}

    abbrev Names : Decoded → Type 0
    Names names = decode_backup_url access.lib backup_url ≡ ok names

    Runs-Names : Runs Any (names_at access backup_url) Names
    unfolding names_at
    Runs-Names = Runs-lift Names _ (OkIs_of_eq Names _ (λ names e. e))

    starts :
        (Q : Bytes → Bytes → Env W → Prepared → Type 0) (env : Env W) (names : Decoded)
        → Names names
        → (x : Result Prepared × FileLock)
        → OwnsAnd env
            (Q names.backup_name names.volume_name env)
            (new_lock names.volume_name restore_lock suffix)
            x
        → Starts Q (env, x)
    starts Q env names e (ok p, lock) h =
        (names, e, h.0, h.1, IsLockOf-new_lock names.volume_name restore_lock suffix lock h.2)
    starts Q env names e (err x, lock) h = tt

    -- Where the full restore's handler starts a job, the volume's size is a positive multiple of the
    -- block size, the job writes the blocks of the backup that the URL names, which was loaded, and it
    -- owns the volume's restore lock, which is refreshed.
    pub restore_delta_block_backup-Starts :
        Runs Any (restore_delta_block_backup access config backup_url suffix) (Starts IsFull)
    unfolding restore_delta_block_backup
    restore_delta_block_backup-Starts =
        Runs-after (Starts IsFull) _ _ (record { at = λ w h. tt })
          λ env. Runs-bind Names (Starts IsFull) _ _ Runs-Names λ names e.
            Runs-bind
              (OwnsAnd env (IsFull names.backup_name names.volume_name env)
                (new_lock names.volume_name restore_lock suffix))
              (Starts IsFull) _ _
              (Runs-locked env (IsFull names.backup_name names.volume_name env) true _ _ _
                (IsNew-new_lock names.volume_name restore_lock suffix)
                (Runs-prepare_full_restore env names.backup_name names.volume_name))
              λ x h. Runs-pure (Starts IsFull) _ (starts IsFull env names e x h)

    -- Where the incremental restore's handler starts a job, the name of the last backup is valid too,
    -- and the job writes what differs between that backup and the one that the URL names, both of
    -- which were loaded.
    pub restore_delta_block_backup_incrementally-Starts :
        Runs Any
          (restore_delta_block_backup_incrementally access config backup_url suffix)
          (Starts IsIncremental)
    unfolding restore_delta_block_backup_incrementally
    restore_delta_block_backup_incrementally-Starts =
        Runs-after (Starts IsIncremental) _ _ (record { at = λ w h. tt })
          λ env. Runs-bind Names (Starts IsIncremental) _ _ Runs-Names λ names e.
            Runs-bind
              (OwnsAnd env (IsIncremental names.backup_name names.volume_name env)
                (new_lock names.volume_name restore_lock suffix))
              (Starts IsIncremental) _ _
              (Runs-locked env (IsIncremental names.backup_name names.volume_name env) false _ _ _
                (IsNew-new_lock names.volume_name restore_lock suffix)
                (Runs-prepare_incremental_restore env names.backup_name names.volume_name))
              λ x h. Runs-pure (Starts IsIncremental) _ (starts IsIncremental env names e x h)
