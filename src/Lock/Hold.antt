-- ===== src/Lock/Hold.antt =====
-- The use of a lock by the handlers of deltablock.go and backupbackingimage.go: the handler locks,
-- prepares its work, locks again for its background job and unlocks when it returns, and the job
-- unlocks at its end. The handler's unlock is run before the job.
pub mod Turns
pub mod Balance
pub mod Identity
pub mod Returns
use backupstore.Base.{Bool, true, false, Bytes, if◌then◌else◌}
use backupstore.Base.Outcome.{
  on_result, Result, ok, err, Exec, pure, raise, lift, attempt, ◌>>=◌, ◌>>◌,
}
use backupstore.Config.Store.{Env}
use backupstore.Lock.Ops.{FileLock, lock_file, unlock_file}

module _ {W A : Type 0} (env : Env W) where
  -- The work under the lock; `abandon` is run when the lock cannot be kept for the job.
  unfoldable pub prepare_and_keep :
      Exec W A → (A → Exec W (Unit {0})) → FileLock → Exec W (Result A × FileLock)
  prepare_and_keep prepare abandon lock = do
    prepared ← attempt prepare
    on_result prepared
        (λ a. (do
          (kept, lock) ← lock_file env lock
          on_result kept (λ _. pure (ok a, lock))
              (λ e. (do attempt (abandon a); pure (err e, lock)))))
        (λ e. pure (err e, lock))

  -- The deferred unlock, whose error is logged.
  unfoldable pub unlock_after : Result A → FileLock → Exec W (Result A × FileLock)
  unlock_after result lock = do (unlocked, lock) ← unlock_file env lock; pure (result, lock)

  -- `early` is whether the unlock is deferred before the lock is taken, so that it is run when the
  -- lock is not acquired too.
  unfoldable pub with_lock :
      Bool → FileLock → Exec W A → (A → Exec W (Unit {0})) → Exec W (Result A × FileLock)
  with_lock early lock prepare abandon = do
    (locked, lock) ← lock_file env lock
    on_result locked
        (λ _. (do (result, lock) ← prepare_and_keep prepare abandon lock; unlock_after result lock))
        (λ e. if early then unlock_after (err e) lock else pure (err e, lock))

  -- A handler without a job: the work is all done under the lock.
  unfoldable pub under_lock : FileLock → Exec W A → Exec W (Result A × FileLock)
  under_lock lock work = do
    (locked, lock) ← lock_file env lock
    on_result locked (λ _. (do result ← attempt work; unlock_after result lock))
        (λ e. pure (err e, lock))

  -- The background job.
  unfoldable pub run_job : Exec W A → FileLock → Exec W (Result A × FileLock)
  run_job job lock = do result ← attempt job; unlock_after result lock
