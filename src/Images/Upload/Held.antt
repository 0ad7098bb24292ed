-- ===== src/Images/Upload/Held.antt =====
-- The lock of CreateBackingImageBackup (backupbackingimage.go).
use backupstore.Base.{Option, none, some}
use backupstore.Base.Outcome.{Result, ok, err, pure, attempt, on_result, ◌>>=◌}
use backupstore.Driver.Yields.{Yields, Yields-pure, Yields-bind, Yields-tried, Yields-after}
use backupstore.Config.Store.{Env, Codec}
use backupstore.Lock.Ops.{FileLock}
use backupstore.Lock.Hold.{unlock_after}
use backupstore.Lock.Hold.Turns.{
  IsNew, IsHeld, IsIdle, Taken, Yields-lock_new, Retaken, Yields-lock_held, Yields-unlock_held,
  Yields-unlock_one, IsIdle_of_absent,
}
use backupstore.Images.Store.{BackupBackingImage}
use backupstore.Images.Upload.{create_image_backup, prepare_image, keep_for_image}

module _ {W : Type 0} (env : Env W) (codec : Codec BackupBackingImage) where
  abbrev Created : Type 0
  Created = Result (Option BackupBackingImage) × FileLock

  -- A job is started only with the lock; otherwise it is not refreshed.
  abbrev pub HeldForJob : Created → Type 0
  HeldForJob (ok (some image), lock) = IsHeld 0 lock
  HeldForJob (ok none, lock) = IsIdle lock
  HeldForJob (err e, lock) = IsIdle lock

  abbrev Kept : Created → Type 0
  Kept (ok (some image), lock) = IsHeld 1 lock
  Kept (ok none, lock) = IsHeld 0 lock
  Kept (err e, lock) = IsHeld 0 lock

  Yields-keep :
      (image : Option BackupBackingImage) (lock : FileLock)
      → IsHeld 0 lock
      → Yields (keep_for_image env codec image lock) Kept
  unfolding keep_for_image on_result
  Yields-keep none lock h = Yields-pure Kept _ h
  Yields-keep (some image) lock h =
      Yields-bind (Retaken env 0) Kept _ _ (Yields-lock_held env 0 lock h) λ x k. go x k
    where
      go :
          (x : Result (Unit {0}) × FileLock)
          → Retaken env 0 x
          → Yields {W = W}
              (on_result x.0 (λ _. pure (ok (some image), x.1)) (λ e. pure (err e, x.1)))
              Kept
      go (ok u, l) k = Yields-pure Kept _ k
      go (err e, l) k = absurd k

  Yields-unlock :
      (r : Result (Option BackupBackingImage)) (lock : FileLock)
      → Kept (r, lock)
      → Yields (unlock_after env r lock) HeldForJob
  unfolding unlock_after
  Yields-unlock (ok (some image)) lock h =
      Yields-bind (λ x. IsHeld 0 x.1) HeldForJob _ _ (Yields-unlock_held env 0 lock h)
        λ x k. Yields-pure HeldForJob _ k
  Yields-unlock (ok none) lock h =
      Yields-bind (λ x. IsIdle x.1) HeldForJob _ _ (Yields-unlock_one env lock h)
        λ x k. Yields-pure HeldForJob _ k
  Yields-unlock (err e) lock h =
      Yields-bind (λ x. IsIdle x.1) HeldForJob _ _ (Yields-unlock_one env lock h)
        λ x k. Yields-pure HeldForJob _ k

  -- Creating the backup of an image with a new lock always returns; where there is an image for the
  -- job the lock is held once and refreshed, and where the image was there before, or an error is
  -- returned, it is not refreshed.
  pub create_image_backup-balance :
      (image : BackupBackingImage) (lock : FileLock)
      → IsNew lock
      → Yields (create_image_backup env codec image lock) HeldForJob
  unfolding create_image_backup on_result
  create_image_backup-balance image lock h =
      Yields-bind (Taken env) HeldForJob _ _ (Yields-lock_new env lock h) λ x k. go x k
    where
      prepared :
          (r : Result (Option BackupBackingImage)) (lock : FileLock)
          → IsHeld 0 lock
          → Yields {W = W}
              (on_result r (λ image. keep_for_image env codec image lock) (λ e. pure (err e, lock)))
              Kept
      prepared (ok image) lock h = Yields-keep image lock h
      prepared (err e) lock h = Yields-pure Kept _ h

      go :
          (x : Result (Unit {0}) × FileLock)
          → Taken env x
          → Yields {W = W}
              (on_result x.0
                (λ _. attempt (prepare_image env codec image) >>= λ r.
                  on_result r (λ image. keep_for_image env codec image x.1) (λ e. pure (err e, x.1))
                  >>= λ y. unlock_after env y.0 y.1)
                (λ e. pure (err e, x.1)))
              HeldForJob
      go (ok u, l) k =
          Yields-after HeldForJob _ _ (Yields-tried _)
            λ r. Yields-bind Kept HeldForJob _ _ (prepared r l k) λ y q. Yields-unlock y.0 y.1 q
      go (err e, l) k = Yields-pure HeldForJob _ (IsIdle_of_absent k.not_refreshed)
