-- ===== src/Upload/Create/Handler.antt =====
-- What the handler CreateDeltaBlockBackup of deltablock.go leaves to its background job.
use backupstore.Base.{ℕ, refl, true, Bytes}
use backupstore.Base.Outcome.{◌>>=◌, Error, failure, external, panic, Result, ok, err, pure, lift}
use backupstore.Driver.Runs.{
  Runs, OkIs, Runs-bind, Runs-pure, Runs-attempt, Runs-after, Runs-on_result, Runs-lift, Runs-raise,
}
use backupstore.Config.Store.{Env}
use backupstore.Access.{Access}
use backupstore.Lock.Ops.{FileLock, new_lock}
use backupstore.Lock.Priority.{backup_lock}
use backupstore.Lock.Hold.Turns.{IsHeld, IsNew}
use backupstore.Lock.Hold.Identity.{IsLockOf, IsLockOf-new_lock}
use backupstore.Lock.Hold.Returns.{Runs-locked, OwnsAnd}
use backupstore.Upload.Create.{
  CreateConfig, PreparedBackup, create_delta_block_backup, report_error,
}
use backupstore.Upload.Create.Choice.{IsReady, prepare_backup-IsReady}

pub IsNew-new_lock : (v : Bytes) (kind : ℕ) (suffix : Bytes) → IsNew (new_lock v kind suffix)
unfolding new_lock
IsNew-new_lock v kind suffix = record {
  not_acquired = refl;
  uncounted = refl;
  not_refreshed = refl;
}

module _ {W : Type 0} (access : Access W) (config : CreateConfig W) where
  abbrev Any : W → Type 0
  Any w = Unit {0}

  -- The job's work is ready, and its lock is the backup lock of the volume, held once and refreshed.
  pub record IsHandedOver (x : Env W × (PreparedBackup × FileLock)) : Type 0 where
    pub ready : IsReady x.0 config x.1.0
    pub held : IsHeld 0 x.1.1
    pub owned : IsLockOf config.request.volume.name backup_lock x.1.1

  Runs-report :
      (e : Error)
      → Runs Any
          (report_error access config {A = Env W × (PreparedBackup × FileLock)} e)
          IsHandedOver
  unfolding report_error
  Runs-report panic = Runs-raise IsHandedOver _
  Runs-report (failure t) =
      Runs-after IsHandedOver _ _ (record { at = λ w h. tt }) (λ _. Runs-raise IsHandedOver _)
  Runs-report (external t) =
      Runs-after IsHandedOver _ _ (record { at = λ w h. tt }) (λ _. Runs-raise IsHandedOver _)

  Runs-hand :
      (env : Env W) (suffix : Bytes) (x : Result PreparedBackup × FileLock)
      → OwnsAnd env (IsReady env config) (new_lock config.request.volume.name backup_lock suffix) x
      → Runs Any (lift x.0 >>= λ p. pure (env, (p, x.1))) IsHandedOver
  Runs-hand env suffix (ok p, lock) h =
      Runs-bind (IsReady env config) IsHandedOver _ _ (Runs-lift (IsReady env config) _ h.0) λ q r.
        Runs-pure IsHandedOver _ (record {
          ready = r;
          held = h.1;
          owned = IsLockOf-new_lock _ backup_lock suffix lock h.2;
        })
  Runs-hand env suffix (err e, lock) h =
      Runs-bind (λ _. ⊥) IsHandedOver _ _ (Runs-lift (λ _. ⊥) _ tt) λ p q. absurd q

  -- Where the handler returns, the job it starts has changed blocks of the supported size, is compared
  -- with an admissible base only, and owns the backup lock of the request's volume, taken once and
  -- refreshed.
  pub create-IsHandedOver :
      (suffix : Bytes) → Runs Any (create_delta_block_backup access config suffix) IsHandedOver
  unfolding create_delta_block_backup
  create-IsHandedOver suffix =
      Runs-bind (OkIs IsHandedOver) IsHandedOver _ _
        (Runs-attempt IsHandedOver _ (
          Runs-after IsHandedOver _ _ (record { at = λ w h. tt })
            λ env.
              Runs-bind
                (OwnsAnd env (IsReady env config)
                  (new_lock config.request.volume.name backup_lock suffix))
                IsHandedOver _ _
                (Runs-locked env (IsReady env config) true _ _ _
                  (IsNew-new_lock _ backup_lock suffix) (prepare_backup-IsReady env config))
                λ x h. Runs-hand env suffix x h))
        λ r q.
          Runs-on_result IsHandedOver IsHandedOver r _ _ q (λ x h. Runs-pure IsHandedOver x h)
            (λ e. Runs-report e)
