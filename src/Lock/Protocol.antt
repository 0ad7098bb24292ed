-- ===== src/Lock/Protocol.antt =====
-- The locking protocol of lock.go, with any number of clients: a client writes its lock file, waits,
-- reads all lock files, and stores the file again as acquired when `can_acquire` lets it.
pub mod Exclusion
use Prim.Native.Nat.{Ordering}
use backupstore.Base.{
  ℕ, ◌+◌, ◌≤◌, ◌<◌, ◌≡◌, ◌≢◌, refl, Bool, true, false, Option, none, some, List, arith, ◌==◌, Bytes,
  if◌then◌else◌, Has, inl, inr, Bool-cases, ==_cases, sym, ap, ◌∙◌,
}
use backupstore.Lock.Priority.{
  ServerLock, second, lock_check_wait_time, is_expired, can_acquire, compare_locks,
  compare_locks-total, can_acquire-Has, blocks-lt,
}

-- A client's lock: no file; a file that is not acquired, before and after the check; and an
-- acquired file. The number is the file's server time.
pub data Status : Type 0 where
  idle : Status
  waiting granted held : ℕ → Status

-- The clients' lock names and types. Names are generated from UUIDs, so they differ.
pub record Clients : Type 0 where
  pub name : ℕ → Bytes
  pub kind : ℕ → ℕ
  pub distinct : (p q : ℕ) → kind p ≢ kind q → name p ≢ name q

pub record Server : Type 0 where
  pub now : ℕ
  pub status : ℕ → Status

abbrev pub update : (ℕ → Status) → ℕ → Status → ℕ → Status
update f p s q = if q == p then s else f q

abbrev pub empty : ℕ → Server
empty now = record { now = now; status = λ p. idle }

module _ (c : Clients) where
  open c use {name, kind, distinct}

  abbrev pub file_of : ℕ → Bool → ℕ → ServerLock
  file_of p acquired t = record {
    name = name p;
    kind = kind p;
    acquired = acquired;
    server_time = t;
  }

  -- The lock file of a client.
  abbrev pub file : ℕ → Status → Option ServerLock
  file p idle = none
  file p (waiting t) = some (file_of p false t)
  file p (granted t) = some (file_of p false t)
  file p (held t) = some (file_of p true t)

  -- What a client reads: every file on the server, in any order, and none that has expired.
  pub record Reads (s : Server) (files : List ServerLock) : Type 0 where
    pub complete : (q : ℕ) (l : ServerLock) → file q (s.status q) ≡ some l → Has l files
    pub fresh : (q : ℕ) (l : ServerLock) → file q (s.status q) ≡ some l → is_expired s.now l ≡ false

  pub data Step (s : Server) : Server → Type 0 where
    tick : (n : ℕ) → Step s (record s { now = s.now + n })
    -- the first saveLock; the server's time has the precision of a second
    create :
        (p t : ℕ)
        → s.status p ≡ idle
        → t ≤ s.now
        → s.now < t + second
        → Step s (record s { status = update s.status p (waiting t) })
    -- canAcquire, after the sleep
    check :
        (p t : ℕ) (files : List ServerLock)
        → s.status p ≡ waiting t
        → t + lock_check_wait_time ≤ s.now
        → Reads s files
        → can_acquire s.now (file_of p false t) files ≡ true
        → Step s (record s { status = update s.status p (granted t) })
    -- the second saveLock
    store :
        (p t u : ℕ)
        → s.status p ≡ granted t
        → Step s (record s { status = update s.status p (held u) })
    -- the refresh of an acquired lock
    refresh :
        (p t u : ℕ)
        → s.status p ≡ held t
        → Step s (record s { status = update s.status p (held u) })
    -- removeLock: refused, failed or unlocked
    remove : (p : ℕ) → Step s (record s { status = update s.status p idle })

  pub data Reach (s : Server) : Server → Type 0 where
    start : Reach s s
    next : {t u : Server} → Reach s t → Step t u → Reach s u
