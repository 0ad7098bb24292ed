-- ===== src/Upload/Create.antt =====
-- CreateDeltaBlockBackup of deltablock.go: what the backup is compared with, the preparation under the
-- lock, and the background job.
pub mod Choice
pub mod Handler
use backupstore.Base.{
  ℕ, Bool, true, false, not, ◌&&◌, Option, none, some, List, [], ◌∷◌, Bytes, if◌then◌else◌, ◌=b◌,
  codes, ◌==◌,
}
use backupstore.Base.Outcome.{
  on_result, total, Result, ok, err, failure, external, panic, Error, Exec, pure, raise, attempt,
  lift, ◌>>=◌, ◌>>◌,
}
use backupstore.Config.Store.{
  Env, Volume, Backup, empty_backup, add_volume, load_volume, load_backup,
}
use backupstore.Integrity.{error_text, wrap}
use backupstore.Lock.Hold.{with_lock}
use backupstore.Lock.Ops.{FileLock, new_lock}
use backupstore.Lock.Priority.{backup_lock}
use backupstore.Upload.Store.{BackupConfig}
use backupstore.Upload.Perform.{Mappings, Snapshot, Request, default_block_size, perform_backup}
use backupstore.Url.{encode_backup_url}
use backupstore.Access.{Access, env_at}

-- A map of parameters without a mode, and no map at all, ask for no full backup.
unfoldable pub is_full_backup : List (Bytes × Bytes) → Bool
is_full_backup [] = false
is_full_backup (e ∷ parameters) =
    let rest = is_full_backup parameters in
    if e.0 =b codes "backup-mode" then e.1 =b codes "full" else rest

-- DeltaBlockBackupOperations, but for the reads of the snapshot: each takes the snapshot's name and
-- the volume's. `update_backup_status` takes the state, the progress, the URL and the error's text.
pub record SnapshotOps (W : Type 0) : Type 0 where
  pub has_snapshot : Bytes → Bytes → W → Bool × W
  pub compare_snapshot : Bytes → Bytes → Bytes → Exec W Mappings
  pub open_snapshot : Bytes → Bytes → Exec W (Unit {0})
  pub close_snapshot : Bytes → Bytes → Exec W (Unit {0})
  pub read_snapshot : Bytes → Bytes → ℕ → Exec W Bytes
  pub update_backup_status : Bytes → Bytes → Bytes → ℕ → Bytes → Bytes → Exec W (Unit {0})

-- DeltaBackupConfig with its backup's name, util.CompressData and getProgress.
pub record CreateConfig (W : Type 0) : Type 0 where
  pub backup_name : Bytes
  pub request : Request
  pub dest_url : Bytes
  pub delta_ops : SnapshotOps W
  pub compress_data : Bytes → Bytes → Result Bytes
  pub get_progress : ℕ → ℕ → ℕ

-- What the handler hands to its job: the volume in the store, the backup to compare with, the changed
-- blocks and the new backup.
pub record PreparedBackup : Type 0 where
  pub volume : Volume
  pub last_backup : Option Backup
  pub delta : Mappings
  pub delta_backup : Backup

-- backupRequest
unfoldable pub is_incremental_backup : Option Backup → Bool
is_incremental_backup none = false
is_incremental_backup (some b) = true

unfoldable pub get_last_snapshot_name : Option Backup → Bytes
get_last_snapshot_name none = []
get_last_snapshot_name (some b) = b.snapshot_name

module _ {W : Type 0} (env : Env W) (config : CreateConfig W) where
  open config use {backup_name, request, delta_ops}

  -- The backup to compare with: none where there is no last backup, a full one is asked for, the last
  -- one cannot be loaded, or its snapshot is the same or is gone.
  unfoldable pub choose_last_backup : Volume → Exec W (Option Backup)
  choose_last_backup volume =
      if not (volume.last_backup_name =b []) && not (is_full_backup request.parameters)
      then (do
        loaded ← attempt (load_backup env volume.last_backup_name volume.name)
        on_result loaded
            (λ backup.
              if backup.snapshot_name =b request.snapshot.name
              then pure none
              else if backup.snapshot_name =b []
              then pure (some backup)
              else (do
                found ← total (delta_ops.has_snapshot backup.snapshot_name volume.name)
                pure (if found then some backup else none)))
            (λ e. pure none))
      else pure none

  unfoldable pub close : Bytes → Exec W (Unit {0})
  close volume_name = delta_ops.close_snapshot request.snapshot.name volume_name

  -- An error after the snapshot was opened closes it; an error of that is added to the message.
  unfoldable pub close_and_raise : {A : Type 0} → Bytes → Error → Exec W A
  close_and_raise volume_name e = do
    closed ← attempt (close volume_name)
    on_result closed (λ _. raise e)
        (λ _. raise (wrap (codes "during handling err, close snapshot returns err") e))

  -- The changed blocks, in blocks of the one size that is supported.
  unfoldable pub compare : Bytes → Option Backup → Exec W Mappings
  compare volume_name last_backup = do
    compared ← attempt (
        delta_ops.compare_snapshot request.snapshot.name (get_last_snapshot_name last_backup)
          volume_name)
    on_result compared
        (λ delta.
          if delta.block_size == default_block_size
          then pure delta
          else close_and_raise volume_name
              (failure (codes "driver doesn't support block sizes other than default")))
        (λ e. close_and_raise volume_name e)

  -- The deferred report of an error reads the name of the volume, which is nil where it could not be
  -- loaded.
  unfoldable pub load_or_panic : Bytes → Exec W Volume
  load_or_panic volume_name = do
    loaded ← attempt (load_volume env volume_name)
    on_result loaded (λ volume. pure volume) (λ e. raise panic)

  unfoldable pub prepare_backup : Exec W PreparedBackup
  prepare_backup = do
    add_volume env request.volume
    volume ← load_or_panic request.volume.name
    delta_ops.open_snapshot request.snapshot.name volume.name
    last_backup ← choose_last_backup volume
    delta ← compare volume.name last_backup
    pure (record {
      volume = volume;
      last_backup = last_backup;
      delta = delta;
      delta_backup = record empty_backup {
        name = backup_name;
        volume_name = volume.name;
        snapshot_name = request.snapshot.name;
        compression_method = volume.compression_method;
      };
    })

  -- The configuration's volume takes the compression method and the data engine of the one in the
  -- store.
  abbrev pub job_request : Volume → Request
  job_request volume = record request {
    volume = record request.volume {
      compression_method = volume.compression_method;
      data_engine = volume.data_engine;
    };
  }

  abbrev pub upload_config : Volume → BackupConfig W
  upload_config volume = record {
    volume_name = request.volume.name;
    full = is_full_backup request.parameters;
    compression_method = volume.compression_method;
    compress_data = config.compress_data;
    read_snapshot = delta_ops.read_snapshot request.snapshot.name request.volume.name;
    get_progress = config.get_progress;
  }

  abbrev update_status : Bytes → Bytes → ℕ → Bytes → Bytes → Exec W (Unit {0})
  update_status volume_name state progress url text =
      delta_ops.update_backup_status request.snapshot.name volume_name state progress url text

  -- The background job but for the unlock and the close of the snapshot, which follow it in this
  -- order. The progress that is reported with an error stands as 0.
  unfoldable pub backup_job : (Bytes → Bytes → Bytes) → PreparedBackup → Exec W (Unit {0})
  backup_job make_url p = do
    attempt (update_status p.volume.name (codes "in_progress") 0 [] [])
    performed ← attempt (
        perform_backup env (upload_config p.volume) (job_request p.volume) p.delta p.delta_backup
          p.last_backup)
    on_result performed
        (λ names. (do
          attempt
              (update_status p.volume.name (codes "in_progress") 100 (make_url names.0 names.1) [])
          pure tt))
        (λ e. (do
          attempt (update_status p.volume.name (codes "in_progress") 0 [] (error_text e))
          raise e))

-- The handler, from the URL on. Its deferred report of an error comes after the unlock, and takes the
-- name of the volume from the request; the snapshot is closed where the lock cannot be kept.
module _ {W : Type 0} (access : Access W) (config : CreateConfig W) where
  open config use {request, delta_ops}

  abbrev locked_backup : Env W → Bytes → Exec W (Result PreparedBackup × FileLock)
  locked_backup env suffix =
      with_lock env true (new_lock request.volume.name backup_lock suffix)
        (prepare_backup env config) (λ p. close env config p.volume.name)

  abbrev report_text : {A : Type 0} → Bytes → Error → Exec W A
  report_text text e = do
    attempt (
        delta_ops.update_backup_status request.snapshot.name request.volume.name (codes "error") 0
          [] text)
    raise e

  -- A panic goes on without a report.
  unfoldable pub report_error : {A : Type 0} → Error → Exec W A
  report_error panic = raise panic
  report_error (failure t) = report_text t (failure t)
  report_error (external t) = report_text t (external t)

  unfoldable pub create_delta_block_backup : Bytes → Exec W (Env W × (PreparedBackup × FileLock))
  create_delta_block_backup suffix = do
    created ← attempt (do
      env ← env_at access config.dest_url
      result ← locked_backup env suffix
      p ← lift result.0
      pure (env, (p, result.1)))
    on_result created (λ x. pure x) (λ e. report_error e)
