-- ===== src/Lock/Hold/Returns.antt =====
-- What a handler returns under its lock (deltablock.go, backupbackingimage.go).
use backupstore.Base.{Bool}
use backupstore.Base.Outcome.{Result, ok, err, Exec}
use backupstore.Driver.Runs.{
  Runs, OkIs, OkIs_of_eq, Runs-bind, Runs-pure, Runs-if, Runs-attempt, Runs-after, Runs-on_result,
  Keeps,
}
use backupstore.Driver.Yields.{IsOk}
use backupstore.Config.Store.{Env}
use backupstore.Lock.Ops.{FileLock}
use backupstore.Lock.Hold.{prepare_and_keep, unlock_after, with_lock}
use backupstore.Lock.Hold.Turns.{IsHeld, IsNew}
use backupstore.Lock.Hold.Identity.{IsSame, Runs-Same}
use backupstore.Lock.Hold.Balance.{with_lock_balance, Handed}

module _ {W A : Type 0} (env : Env W) (Q : A → Type 0) where
  abbrev Any : W → Type 0
  Any w = Unit {0}

  abbrev ResultIs : Result A × FileLock → Type 0
  ResultIs x = OkIs Q x.0

  Keeps-Any : {B : Type 0} (m : Exec W B) → Keeps Any m
  Keeps-Any m = record { at = λ w h. tt }

  Runs-unlock_after :
      (r : Result A) (lock : FileLock) → OkIs Q r → Runs Any (unlock_after env r lock) ResultIs
  unfolding unlock_after
  Runs-unlock_after r lock q = Runs-after ResultIs _ _ (Keeps-Any _) λ x. Runs-pure ResultIs _ q

  Runs-prepare_and_keep :
      (prepare : Exec W A) (abandon : A → Exec W (Unit {0})) (lock : FileLock)
      → Runs Any prepare Q
      → Runs Any (prepare_and_keep env prepare abandon lock) ResultIs
  unfolding prepare_and_keep
  Runs-prepare_and_keep prepare abandon lock h =
      Runs-bind (OkIs Q) ResultIs _ _ (Runs-attempt Q _ h) λ r q.
        Runs-on_result Q ResultIs r _ _ q
          (λ a qa. Runs-after ResultIs _ _ (Keeps-Any _) λ x.
            Runs-on_result (λ _. Unit {0}) ResultIs x.0 _ _ (OkIs_of_eq _ x.0 (λ _ _. tt))
              (λ _ _. Runs-pure ResultIs _ qa)
              (λ e. Runs-after ResultIs _ _ (Keeps-Any _) λ _. Runs-pure ResultIs _ tt))
          (λ e. Runs-pure ResultIs _ tt)

  -- What holds of every value that the preparation returns holds of what the handler returns.
  pub Runs-with_lock :
      (early : Bool) (lock : FileLock) (prepare : Exec W A) (abandon : A → Exec W (Unit {0}))
      → Runs Any prepare Q
      → Runs Any (with_lock env early lock prepare abandon) ResultIs
  unfolding with_lock
  Runs-with_lock early lock prepare abandon h = Runs-after ResultIs _ _ (Keeps-Any _) λ x.
      Runs-on_result (λ _. Unit {0}) ResultIs x.0 _ _ (OkIs_of_eq _ x.0 (λ _ _. tt))
        (λ _ _.
          Runs-bind ResultIs ResultIs _ _ (Runs-prepare_and_keep prepare abandon x.1 h)
            λ y q. Runs-unlock_after y.0 y.1 q)
        (λ e.
          Runs-if ResultIs early _ _ (λ _. Runs-unlock_after (err e) x.1 tt)
            (λ _. Runs-pure ResultIs _ tt))

  -- The lock that comes with a value is held once, and is the one that the handler began with.
  abbrev pub OwnsAnd : FileLock → Result A × FileLock → Type 0
  OwnsAnd old (ok a, lock) = Q a × IsHeld 0 lock × IsSame old lock
  OwnsAnd old (err e, lock) = Unit {0}

  pub Runs-locked :
      (early : Bool) (lock : FileLock) (prepare : Exec W A) (abandon : A → Exec W (Unit {0}))
      → IsNew lock
      → Runs Any prepare Q
      → Runs Any (with_lock env early lock prepare abandon) (OwnsAnd lock)
  Runs-locked early lock prepare abandon n h = record {
    at = λ w u. (
      tt,
      go (with_lock env early lock prepare abandon w).0
          ((Runs-with_lock early lock prepare abandon h).at w u).1
          ((with_lock_balance env early prepare abandon lock n).at w)
          ((Runs-Same env lock early prepare abandon).at w u).1,
    );
  }
    where
      go :
          (r : Result (Result A × FileLock))
          → OkIs ResultIs r
          → IsOk (Handed env) r
          → OkIs (λ x. IsSame lock x.1) r
          → OkIs (OwnsAnd lock) r
      go (ok (ok a, l)) q k s = (q, k, s)
      go (ok (err e, l)) q k s = tt
      go (err e) q k s = tt
