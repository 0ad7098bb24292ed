-- ===== src/Lock/Hold/Turns.antt =====
-- What a call of Lock or Unlock (lock.go) leaves of a handler's lock.
use backupstore.Base.{
  ap, List, [], ◌∷◌, Bytes, ◌≡◌, ◌≢◌, refl, true, false, arith, ℕ, ◌⊎◌, suc, inl, inr,
}
use backupstore.Base.Outcome.{Result, ok, err, Exec, attempt}
use backupstore.Driver.Runs.{Runs, OkIs, Runs-pure, Runs-after, Keeps}
use backupstore.Driver.Yields.{
  Yields, Yields-pure, Yields-total, Yields-if, Yields-attempt, Yields-tried, Yields-bind,
  Yields-on_result, Yields-after, Yields-either, IsOk,
}
use backupstore.Config.Store.{Env}
use backupstore.Lock.Ops.{
  increment, decrement, is_positive, Count, upto, KeepAlive, absent, opened, closed, FileLock,
  lock_file, unlock_file, save_lock, check_lock, store_acquired, close_lock, release_lock,
  can_acquire_lock, get_locks_for_volume, get_lock_names_for_volume, load_locks,
}

-- A lock that was not taken yet.
pub record IsNew (lock : FileLock) : Type 0 where
  pub not_acquired : lock.acquired ≡ false
  pub uncounted : lock.count ≡ upto 0
  pub not_refreshed : lock.keep_alive ≡ absent

-- A lock that is taken `n + 1` times and is refreshed.
pub record IsHeld (n : ℕ) (lock : FileLock) : Type 0 where
  pub acquired : lock.acquired ≡ true
  pub counted : lock.count ≡ upto (suc n)
  pub refreshed : lock.keep_alive ≡ opened

-- A lock that is not refreshed.
abbrev pub IsIdle : FileLock → Type 0
IsIdle lock = lock.keep_alive ≢ opened

-- A lock that Lock has failed to take: it may have counted itself.
pub record IsFailed (lock : FileLock) : Type 0 where
  pub few : (lock.count ≡ upto 0) ⊎ (lock.count ≡ upto 1)
  pub not_refreshed : lock.keep_alive ≡ absent

pub few-not_positive : (n : Count) → (n ≡ upto 0) ⊎ (n ≡ upto 1) → is_positive (decrement n) ≡ false
few-not_positive n (inl e) = ap is_positive (ap decrement e)
few-not_positive n (inr e) = ap is_positive (ap decrement e)

pub IsIdle_of_absent : {k : KeepAlive} → k ≡ absent → k ≢ opened
IsIdle_of_absent e c = ground arith

module _ {W : Type 0} (env : Env W) where
  abbrev pub Taken : Result (Unit {0}) × FileLock → Type 0
  Taken (ok _, lock) = IsHeld 0 lock
  Taken (err e, lock) = IsFailed lock

  abbrev Anything : W → Type 0
  Anything w = Unit {0}

  Keeps-Anything : {A : Type 0} (m : Exec W A) → Keeps Anything m
  Keeps-Anything m = record { at = λ w h. tt }

  Runs-save_lock :
      (Q : FileLock → Type 0) (lock : FileLock)
      → ((t : ℕ) → Q (record lock { server_time = t }))
      → Runs Anything (save_lock env lock) Q
  unfolding save_lock
  Runs-save_lock Q lock k =
      Runs-after Q _ _ (Keeps-Anything _)
        λ _. Runs-after Q _ _ (Keeps-Anything _) λ t. Runs-pure Q _ (k t)

  Yields-saved :
      (Q : FileLock → Type 0) (lock : FileLock)
      → ((t : ℕ) → Q (record lock { server_time = t }))
      → Yields (attempt (save_lock env lock)) (OkIs Q)
  Yields-saved Q lock k = Yields-attempt Q _ (Runs-save_lock Q lock k)

  -- A lock that is stored as held.
  abbrev Counted : ℕ → FileLock → Type 0
  Counted n lock = (lock.acquired ≡ true) × (lock.count ≡ upto n)

  Yields-load_locks :
      (v : Bytes) (names : List Bytes) → Yields (load_locks env v names) (λ l. Unit {0})
  unfolding load_locks
  Yields-load_locks v [] = Yields-pure _ [] tt
  Yields-load_locks v (n ∷ names) = Yields-after _ _ _ (Yields-tried _) λ r.
      Yields-after _ _ _ (Yields-load_locks v names)
        λ ls. Yields-either _ r _ _ (λ l. Yields-pure _ _ tt) (λ e. Yields-pure _ _ tt)

  Yields-can_acquire : (lock : FileLock) → Yields (can_acquire_lock env lock) (λ b. Unit {0})
  unfolding can_acquire_lock get_locks_for_volume get_lock_names_for_volume
  Yields-can_acquire lock =
      Yields-after _ _ _
        (Yields-after _ _ _
          (Yields-after _ _ _ (Yields-tried _)
            λ r. Yields-either _ r _ _ (λ l. Yields-pure _ _ tt) (λ e. Yields-pure _ _ tt))
          (λ names. Yields-load_locks lock.volume names))
        (λ ls. Yields-after _ _ _ (Yields-total _ _ (λ w. tt)) λ now. Yields-pure _ _ tt)

  Yields-store_acquired : (lock : FileLock) → IsNew lock → Yields (store_acquired env lock) Taken
  unfolding store_acquired
  Yields-store_acquired lock h =
      Yields-bind (OkIs (Counted 1)) Taken _ _
        (Yields-saved (Counted 1) _ (λ t. (refl, ap increment h.uncounted)))
        (λ r q.
          Yields-on_result (Counted 1) Taken r _ _ q
            (λ l c.
              Yields-pure Taken _ (record { acquired = c.0; counted = c.1; refreshed = refl }))
            (λ e. Yields-after Taken _ _ (Yields-tried _) λ _.
              Yields-pure Taken _
                (record { few = inr (ap increment h.uncounted); not_refreshed = h.not_refreshed })))

  pub IsFailed-of_IsNew : (lock : FileLock) → IsNew lock → IsFailed lock
  IsFailed-of_IsNew lock h = record { few = inl h.uncounted; not_refreshed = h.not_refreshed }

  Yields-check_lock : (lock : FileLock) → IsNew lock → Yields (check_lock env lock) Taken
  unfolding check_lock
  Yields-check_lock lock h = Yields-after Taken _ _ (Yields-total _ _ (λ w. tt)) λ _.
      Yields-after Taken _ _ (Yields-can_acquire lock) λ free.
        Yields-if Taken free _ _ (λ _. Yields-store_acquired lock h)
          (λ _.
            Yields-after Taken _ _ (Yields-tried _)
              λ _. Yields-pure Taken _ (IsFailed-of_IsNew lock h))

  pub Yields-lock_new : (lock : FileLock) → IsNew lock → Yields (lock_file env lock) Taken
  unfolding lock_file
  Yields-lock_new lock h =
      Yields-if Taken lock.acquired _ _ (λ e. ground arith)
        (λ _.
          Yields-bind (OkIs IsNew) Taken _ _
            (Yields-saved IsNew lock (λ t. record {
              not_acquired = h.not_acquired;
              uncounted = h.uncounted;
              not_refreshed = h.not_refreshed;
            }))
            (λ r q.
              Yields-on_result IsNew Taken r _ _ q (λ l n. Yields-check_lock l n)
                (λ e. Yields-pure Taken _ (IsFailed-of_IsNew lock h))))

  -- To lock a held lock again does not fail.
  abbrev pub Retaken : ℕ → Result (Unit {0}) × FileLock → Type 0
  Retaken n (ok _, lock) = IsHeld (suc n) lock
  Retaken n (err e, lock) = ⊥

  pub Yields-lock_held :
      (n : ℕ) (lock : FileLock) → IsHeld n lock → Yields (lock_file env lock) (Retaken n)
  unfolding lock_file
  Yields-lock_held n lock h =
      Yields-if (Retaken n) lock.acquired _ _
        (λ _.
          Yields-bind (OkIs (IsHeld (suc n))) (Retaken n) _ _
            (Yields-saved (IsHeld (suc n)) _ (λ t. counted_once_more))
            (λ r q.
              Yields-on_result (IsHeld (suc n)) (Retaken n) r _ _ q
                (λ l k. Yields-pure (Retaken n) _ k)
                (λ e. Yields-pure (Retaken n) _ counted_once_more)))
        (λ e. ground arith)
    where
      counted_once_more :
          {t : ℕ} → IsHeld (suc n) (record lock { count = increment lock.count; server_time = t })
      counted_once_more = record {
        acquired = h.acquired;
        counted = ap increment h.counted;
        refreshed = h.refreshed;
      }

  abbrev pub Released : Result (Unit {0}) × FileLock → Type 0
  Released (r, lock) = (lock.acquired ≡ false) × IsIdle lock

  Yields-close_lock :
      (k : KeepAlive) (lock : FileLock)
      → k ≢ closed
      → lock.keep_alive ≡ k
      → lock.acquired ≡ false
      → Yields (close_lock env k lock) Released
  unfolding close_lock release_lock
  Yields-close_lock absent lock n e a =
      Yields-after Released _ _ (Yields-tried _) λ r. Yields-pure Released _ (a, ground arith)
  Yields-close_lock opened lock n e a =
      Yields-after Released _ _ (Yields-tried _) λ r. Yields-pure Released _ (a, ground arith)
  Yields-close_lock closed lock n e a = absurd (n refl)

  pub Yields-unlock_last :
      (lock : FileLock)
      → is_positive (decrement lock.count) ≡ false
      → lock.keep_alive ≢ closed
      → Yields (unlock_file env lock) Released
  unfolding unlock_file
  Yields-unlock_last lock z n =
      Yields-if Released (is_positive (decrement lock.count)) _ _ (λ e. ground arith)
        (λ e. Yields-close_lock lock.keep_alive _ n refl refl)

  pub Yields-unlock_held :
      (n : ℕ) (lock : FileLock)
      → IsHeld (suc n) lock
      → Yields (unlock_file env lock) (λ x. IsHeld n x.1)
  unfolding unlock_file
  Yields-unlock_held n lock h =
      Yields-if (λ x. IsHeld n x.1) (is_positive (decrement lock.count)) _ _
        (λ e.
          Yields-pure (λ x. IsHeld n x.1) _
            (record {
              acquired = h.acquired;
              counted = ap decrement h.counted;
              refreshed = h.refreshed;
            }))
        (λ e. ground arith)

  pub Yields-unlock_one :
      (lock : FileLock) → IsHeld 0 lock → Yields (unlock_file env lock) (λ x. IsIdle x.1)
  Yields-unlock_one lock h = record {
    at = λ w. idle (unlock_file env lock w).0 (
        (Yields-unlock_last lock (ap is_positive (ap decrement h.counted))
            (λ c. ground (arith, h.refreshed))).at
          w);
  }
    where
      idle :
          (r : Result (Result (Unit {0}) × FileLock)) → IsOk Released r → IsOk (λ x. IsIdle x.1) r
      idle (ok x) h = h.1
      idle (err e) h = h
