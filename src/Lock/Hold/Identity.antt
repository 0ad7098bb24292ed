-- ===== src/Lock/Hold/Identity.antt =====
-- A lock stays the lock of its volume through the calls of a handler (lock.go).
use backupstore.Base.{◌≡◌, refl, Bool, Bytes, ℕ}
use backupstore.Base.Outcome.{Result, err, Exec, attempt}
use backupstore.Driver.Runs.{
  Runs, OkIs, OkIs_of_eq, Runs-bind, Runs-pure, Runs-if, Runs-attempt, Runs-after, Runs-on_result,
  Runs-raise, Keeps,
}
use backupstore.Config.Store.{Env}
use backupstore.Lock.Hold.{prepare_and_keep, unlock_after, with_lock}
use backupstore.Lock.Ops.{
  new_lock, is_positive, decrement, FileLock, KeepAlive, absent, opened, closed, save_lock,
  lock_file, check_lock, store_acquired, unlock_file, close_lock, release_lock,
}

-- The two locks have one file, of one kind.
pub record IsSame (old new : FileLock) : Type 0 where
  pub volume : new.volume ≡ old.volume
  pub kind : new.kind ≡ old.kind
  pub name : new.name ≡ old.name

-- The lock of a volume, of a kind.
pub record IsLockOf (volume_name : Bytes) (kind : ℕ) (lock : FileLock) : Type 0 where
  pub of_volume : lock.volume ≡ volume_name
  pub of_kind : lock.kind ≡ kind

pub IsLockOf-new_lock :
    (v : Bytes) (kind : ℕ) (suffix : Bytes) (lock : FileLock)
    → IsSame (new_lock v kind suffix) lock
    → IsLockOf v kind lock
unfolding new_lock
IsLockOf-new_lock v kind suffix lock h = record { of_volume = h.volume; of_kind = h.kind }

module _ {W : Type 0} (env : Env W) (old : FileLock) where
  abbrev Any : W → Type 0
  Any w = Unit {0}

  Keeps-Any : {A : Type 0} (m : Exec W A) → Keeps Any m
  Keeps-Any m = record { at = λ w h. tt }

  abbrev Same : {A : Type 0} → A × FileLock → Type 0
  Same x = IsSame old x.1

  Runs-saved :
      (lock : FileLock)
      → IsSame old lock
      → Runs Any (attempt (save_lock env lock)) (OkIs (IsSame old))
  unfolding save_lock
  Runs-saved lock h = Runs-attempt (IsSame old) _ (
      Runs-after (IsSame old) _ _ (Keeps-Any _) λ _.
        Runs-after (IsSame old) _ _ (Keeps-Any _) λ t.
          Runs-pure (IsSame old) _ (record { volume = h.volume; kind = h.kind; name = h.name }))

  Runs-store_acquired :
      (lock : FileLock) → IsSame old lock → Runs Any (store_acquired env lock) Same
  unfolding store_acquired
  Runs-store_acquired lock h =
      Runs-bind (OkIs (IsSame old)) Same _ _
        (Runs-saved _ (record { volume = h.volume; kind = h.kind; name = h.name }))
        λ r q.
          Runs-on_result (IsSame old) Same r _ _ q
            (λ l k. Runs-pure Same _ (record { volume = k.volume; kind = k.kind; name = k.name }))
            (λ e.
              Runs-after Same _ _ (Keeps-Any _)
                λ _. Runs-pure Same _ (record { volume = h.volume; kind = h.kind; name = h.name }))

  Runs-check_lock : (lock : FileLock) → IsSame old lock → Runs Any (check_lock env lock) Same
  unfolding check_lock
  Runs-check_lock lock h = Runs-after Same _ _ (Keeps-Any _) λ _.
      Runs-after Same _ _ (Keeps-Any _) λ free.
        Runs-if Same free _ _ (λ _. Runs-store_acquired lock h)
          (λ _. Runs-after Same _ _ (Keeps-Any _) λ _. Runs-pure Same _ h)

  Runs-lock_file : (lock : FileLock) → IsSame old lock → Runs Any (lock_file env lock) Same
  unfolding lock_file
  Runs-lock_file lock h =
      Runs-if Same lock.acquired _ _
        (λ _.
          Runs-bind (OkIs (IsSame old)) Same _ _
            (Runs-saved _ (record { volume = h.volume; kind = h.kind; name = h.name }))
            λ r q.
              Runs-on_result (IsSame old) Same r _ _ q (λ l k. Runs-pure Same _ k)
                (λ e.
                  Runs-pure Same _ (record { volume = h.volume; kind = h.kind; name = h.name })))
        (λ _. Runs-bind (OkIs (IsSame old)) Same _ _ (Runs-saved lock h) λ r q.
          Runs-on_result (IsSame old) Same r _ _ q (λ l k. Runs-check_lock l k)
            (λ e. Runs-pure Same _ h))

  Runs-close_lock :
      (k : KeepAlive) (lock : FileLock) → IsSame old lock → Runs Any (close_lock env k lock) Same
  unfolding close_lock release_lock
  Runs-close_lock absent lock h = Runs-after Same _ _ (Keeps-Any _) λ _. Runs-pure Same _ h
  Runs-close_lock opened lock h =
      Runs-after Same _ _ (Keeps-Any _)
        λ _. Runs-pure Same _ (record { volume = h.volume; kind = h.kind; name = h.name })
  Runs-close_lock closed lock h = Runs-raise Same _

  Runs-unlock_file : (lock : FileLock) → IsSame old lock → Runs Any (unlock_file env lock) Same
  unfolding unlock_file
  Runs-unlock_file lock h =
      Runs-if Same (is_positive (decrement lock.count)) _ _
        (λ _. Runs-pure Same _ (record { volume = h.volume; kind = h.kind; name = h.name }))
        (λ _. Runs-close_lock _ _ (record { volume = h.volume; kind = h.kind; name = h.name }))

  module _ {A : Type 0} where
    Runs-unlock_after :
        (r : Result A) (lock : FileLock) → IsSame old lock → Runs Any (unlock_after env r lock) Same
    unfolding unlock_after
    Runs-unlock_after r lock h =
        Runs-bind Same Same _ _ (Runs-unlock_file lock h) λ x k. Runs-pure Same _ k

    Runs-prepare_and_keep :
        (prepare : Exec W A) (abandon : A → Exec W (Unit {0})) (lock : FileLock)
        → IsSame old lock
        → Runs Any (prepare_and_keep env prepare abandon lock) Same
    unfolding prepare_and_keep
    Runs-prepare_and_keep prepare abandon lock h = Runs-after Same _ _ (Keeps-Any _) λ r.
        Runs-on_result (λ _. Unit {0}) Same r _ _ (OkIs_of_eq _ r (λ _ _. tt))
          (λ a _. Runs-bind Same Same _ _ (Runs-lock_file lock h) λ x k.
            Runs-on_result (λ _. Unit {0}) Same x.0 _ _ (OkIs_of_eq _ x.0 (λ _ _. tt))
              (λ _ _. Runs-pure Same _ k)
              (λ e. Runs-after Same _ _ (Keeps-Any _) λ _. Runs-pure Same _ k))
          (λ e. Runs-pure Same _ h)

    -- The lock that a handler ends with is the file of the lock that it began with.
    pub Runs-Same :
        (early : Bool) (prepare : Exec W A) (abandon : A → Exec W (Unit {0}))
        → Runs Any (with_lock env early old prepare abandon) Same
    unfolding with_lock
    Runs-Same early prepare abandon =
        Runs-bind Same Same _ _
          (Runs-lock_file old (record { volume = refl; kind = refl; name = refl }))
          λ x k.
            Runs-on_result (λ _. Unit {0}) Same x.0 _ _ (OkIs_of_eq _ x.0 (λ _ _. tt))
              (λ _ _.
                Runs-bind Same Same _ _ (Runs-prepare_and_keep prepare abandon x.1 k)
                  λ y l. Runs-unlock_after y.0 y.1 l)
              (λ e.
                Runs-if Same early _ _ (λ _. Runs-unlock_after (err e) x.1 k)
                  (λ _. Runs-pure Same _ k))
