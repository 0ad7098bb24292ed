-- ===== src/Removal/Nothing.antt =====
-- removeVolume of backupstore.go, under the lock of DeleteBackupVolume (deltablock.go), leaves nothing
-- of the volume, and touches nothing else.
use backupstore.Base.{arith, ◌≡◌, true, none, Bytes}
use backupstore.Base.Outcome.{◌>>=◌, Result, ok, err, Exec, pure}
use backupstore.Driver.{FilePath, is_above}
use backupstore.Driver.Laws.{DriverLaws}
use backupstore.Driver.Runs.{Keeps, Keeps-bind, Keeps-if, Keeps-attempt, Keeps-raise, Keeps-pure}
use backupstore.Driver.Leaves.{
  Leaves, OkLeaves, OkLeaves_of_eq, Leaves-pure, Leaves-if, Leaves-bind, Leaves-attempt,
  Leaves-raise, Leaves-on_result, Leaves-of_Keeps,
}
use backupstore.Config.Paths.{get_volume_path}
use backupstore.Config.Store.{Env, remove_volume}
use backupstore.Util.Names.{validate_name}
use backupstore.Lock.Ops.{
  FileLock, KeepAlive, absent, opened, closed, unlock_file, close_lock, release_lock, remove_lock,
}
use backupstore.Lock.Hold.{under_lock, unlock_after}

module _ {W : Type 0} (env : Env W) (laws : DriverLaws env.driver) (volume_name : Bytes) where
  open env use {driver, site}
  open laws use {content}

  -- There is no file below the volume's directory.
  abbrev pub IsGone : W → Type 0
  IsGone w =
      (q : FilePath) → is_above (get_volume_path site volume_name) q ≡ true → content w q ≡ none

  Keeps-remove : (p : FilePath) → Keeps IsGone (driver.remove p)
  Keeps-remove p = record { at = λ w h q a. laws.remove_none p q w (h q a) }

  Leaves-Any : {A : Type 0} (m : Exec W A) → Leaves (λ w. Unit {0}) m (λ _ w. Unit {0})
  Leaves-Any m = record { at = λ w h. OkLeaves_of_eq (λ _ w. Unit {0}) _ _ (λ _ _. tt) }

  Leaves-remove_volume : Leaves (λ w. Unit {0}) (remove_volume env volume_name) (λ _. IsGone)
  unfolding remove_volume
  Leaves-remove_volume =
      Leaves-if (λ _. IsGone) (validate_name volume_name) _ _
        (λ _.
          Leaves-bind (λ _ w. Unit {0}) (λ _. IsGone) _ _ (Leaves-Any _)
            λ _.
              Leaves-bind (λ _ w. Unit {0}) (λ _. IsGone) _ _ (Leaves-Any _)
                λ _.
                  Leaves-bind (λ _ w. Unit {0}) (λ _. IsGone) _ _ (Leaves-Any _)
                    λ _. record {
                      at = λ w h.
                          OkLeaves_of_eq (λ _. IsGone) _ _
                            (λ u e q a. laws.remove_ok (get_volume_path site volume_name) q w a e);
                    })
        (λ _. Leaves-raise (λ _. IsGone) _)

  Keeps-close : (k : KeepAlive) (lock : FileLock) → Keeps IsGone (close_lock env k lock)
  unfolding close_lock release_lock remove_lock
  Keeps-close absent l = Keeps-bind _ _ (Keeps-attempt _ (Keeps-remove _)) λ r. Keeps-pure _
  Keeps-close opened l = Keeps-bind _ _ (Keeps-attempt _ (Keeps-remove _)) λ r. Keeps-pure _
  Keeps-close closed l = Keeps-raise _

  Keeps-unlock : (lock : FileLock) → Keeps IsGone (unlock_file env lock)
  unfolding unlock_file
  Keeps-unlock lock = Keeps-if _ _ _ (Keeps-pure _) (Keeps-close _ _)

  abbrev pub Removed : Result (Unit {0}) × FileLock → W → Type 0
  Removed x w = x.0 ≡ ok tt → IsGone w

  -- When the removal of a volume under its lock returns no error, no file is left below the volume's
  -- directory, after the lock was given back: when the driver keeps its contract.
  pub removal-IsGone :
      (lock : FileLock)
      → Leaves (λ w. Unit {0}) (under_lock env lock (remove_volume env volume_name)) Removed
  unfolding under_lock unlock_after
  removal-IsGone lock =
      Leaves-bind (λ _ w. Unit {0}) Removed _ _ (Leaves-Any _)
        λ x.
          Leaves-on_result Removed x.0 _ _
            (λ _ _.
              Leaves-bind (OkLeaves (λ _. IsGone)) Removed _ _
                (Leaves-attempt (OkLeaves (λ _. IsGone)) _ (λ w h. Leaves-remove_volume.at w h))
                λ r. finish r x.1)
            (λ e _. Leaves-pure Removed _ (λ w h f. ground arith))
    where
      finish :
          (r : Result (Unit {0})) (l : FileLock)
          → Leaves (OkLeaves (λ _. IsGone) r) (unlock_file env l >>= λ u. pure (r, u.1)) Removed
      finish (ok tt) l =
          Leaves-bind (λ _. IsGone) Removed _ _ (Leaves-of_Keeps _ (Keeps-unlock l))
            λ u. Leaves-pure Removed _ (λ w h e. h)
      finish (err e) l =
          Leaves-bind (λ _ w. Unit {0}) Removed _ _ (Leaves-Any _)
            λ u. Leaves-pure Removed _ (λ w h f. ground arith)
