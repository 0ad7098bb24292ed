-- ===== src/Lock/Hold/Balance.antt =====
-- Locks and unlocks of the handlers (deltablock.go, backupbackingimage.go) balance.
use backupstore.Base.{ap, ◌≡◌, Bool, false, arith, if◌then◌else◌}
use backupstore.Base.Outcome.{on_result, Result, ok, err, Exec, pure, attempt, ◌>>=◌, ◌>>◌, Error}
use backupstore.Driver.Yields.{
  Yields, Yields-pure, Yields-if, Yields-tried, Yields-bind, Yields-after, Yields-either,
}
use backupstore.Config.Store.{Env}
use backupstore.Lock.Ops.{decrement, is_positive, FileLock}
use backupstore.Lock.Hold.{prepare_and_keep, unlock_after, with_lock, run_job}
use backupstore.Lock.Hold.Turns.{
  IsNew, IsHeld, IsIdle, IsFailed, few-not_positive, IsIdle_of_absent, Taken, Retaken, Released,
  Yields-lock_new, Yields-lock_held, Yields-unlock_held, Yields-unlock_last,
}

module _ {W : Type 0} (env : Env W) where
  module _ {A : Type 0} where
    -- What a handler returns: its lock is held once, for the job, or no longer refreshed.
    abbrev pub Handed : Result A × FileLock → Type 0
    Handed (ok a, lock) = IsHeld 0 lock
    Handed (err e, lock) = IsIdle lock

    -- The handler before its unlock.
    abbrev BeforeUnlock : Result A × FileLock → Type 0
    BeforeUnlock (ok a, lock) = IsHeld 1 lock
    BeforeUnlock (err e, lock) = IsHeld 0 lock

    Yields-prepare_and_keep :
        (prepare : Exec W A) (abandon : A → Exec W (Unit {0})) (lock : FileLock)
        → IsHeld 0 lock
        → Yields (prepare_and_keep env prepare abandon lock) BeforeUnlock
    unfolding prepare_and_keep on_result
    Yields-prepare_and_keep prepare abandon lock h =
        Yields-after BeforeUnlock _ _ (Yields-tried _) λ r.
          Yields-either BeforeUnlock r _ _
            (λ a.
              Yields-bind ((Retaken env) 0) BeforeUnlock _ _ ((Yields-lock_held env) 0 lock h)
                λ x k. kept a x k)
            (λ e. Yields-pure BeforeUnlock _ h)
      where
        kept :
            (a : A) (x : Result (Unit {0}) × FileLock)
            → (Retaken env) 0 x
            → Yields
                (on_result x.0
                  (λ _. pure (ok a, x.1))
                  (λ e. (do attempt (abandon a); pure (err e, x.1))))
                BeforeUnlock
        kept a (ok u, l) k = Yields-pure BeforeUnlock _ k
        kept a (err e, l) k = absurd k

    Yields-unlock_after :
        (r : Result A) (lock : FileLock)
        → BeforeUnlock (r, lock)
        → Yields (unlock_after env r lock) Handed
    unfolding unlock_after
    Yields-unlock_after (ok a) lock h =
        Yields-bind (λ x. IsHeld 0 x.1) Handed _ _ ((Yields-unlock_held env) 0 lock h)
          λ x k. Yields-pure Handed _ k
    Yields-unlock_after (err e) lock h =
        Yields-bind (Released env) Handed _ _
          ((Yields-unlock_last env) lock (ap is_positive (ap decrement h.counted))
            (λ c. ground arith))
          λ x k. Yields-pure Handed _ k.1

    Yields-unlock_failed :
        (e : Error) (lock : FileLock)
        → IsFailed lock
        → Yields (unlock_after {A = A} env (err e) lock) Handed
    unfolding unlock_after
    Yields-unlock_failed e lock h =
        Yields-bind (Released env) Handed _ _
          ((Yields-unlock_last env) lock (few-not_positive lock.count h.few)
            (λ c. ground (arith, h.not_refreshed)))
          (λ x k. Yields-pure Handed _ k.1)

    -- A handler that starts with a new lock always returns, and the job it starts owns the lock:
    -- where it returns a value its lock is held once and refreshed, and where it returns an error
    -- its lock is not refreshed, whether it unlocks a lock that it did not get or not.
    pub with_lock_balance :
        (early : Bool) (prepare : Exec W A) (abandon : A → Exec W (Unit {0})) (lock : FileLock)
        → IsNew lock
        → Yields (with_lock env early lock prepare abandon) Handed
    unfolding with_lock on_result
    with_lock_balance early prepare abandon lock h =
        Yields-bind (Taken env) Handed _ _ ((Yields-lock_new env) lock h) λ x k. go x k
      where
        go :
            (x : Result (Unit {0}) × FileLock)
            → (Taken env) x
            → Yields
                (on_result x.0
                  (λ _. (do
                    (r, l) ← prepare_and_keep env prepare abandon x.1
                    unlock_after env r l))
                  (λ e. if early then unlock_after env (err e) x.1 else pure (err e, x.1)))
                Handed
        go (ok u, l) k =
            Yields-bind BeforeUnlock Handed _ _ (Yields-prepare_and_keep prepare abandon l k)
              λ x q. Yields-unlock_after x.0 x.1 q
        go (err e, l) k =
            Yields-if Handed early _ _ (λ _. Yields-unlock_failed e l k)
              (λ _. Yields-pure Handed _ (IsIdle_of_absent k.not_refreshed))

    abbrev pub Done : Result A × FileLock → Type 0
    Done (r, lock) = (lock.acquired ≡ false) × IsIdle lock

    -- The job of a handler that holds its lock once always returns, and gives the lock back.
    pub run_job_release :
        (job : Exec W A) (lock : FileLock) → IsHeld 0 lock → Yields (run_job env job lock) Done
    unfolding run_job unlock_after
    run_job_release job lock h = Yields-after Done _ _ (Yields-tried _) λ r.
        Yields-bind (Released env) Done _ _
          ((Yields-unlock_last env) lock (ap is_positive (ap decrement h.counted))
            (λ c. ground (arith, h.refreshed)))
          (λ x k. Yields-pure Done _ k)
