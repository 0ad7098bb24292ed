-- ===== src/Lock/Priority.antt =====
-- The order of the locks and the decision of canAcquire (lock.go), from the locks on the server.
-- Times are in nanoseconds; `Ordering` stands for the negative, zero and positive results.
use Prim.Native.Nat.{compare, Ordering}
use backupstore.Base.{
  ℕ, ◌-◌, ◌*◌, ◌≡◌, ◌≢◌, refl, Bool, true, false, not, ◌&&◌, List, [], ◌∷◌, arith, ltb, ◌==◌, Bytes,
  if◌then◌else◌, Has, inl, inr, ◌⊎◌, sym,
}

abbrev pub second : ℕ
second = 1_000_000_000

abbrev pub lock_duration : ℕ
lock_duration = 150 * second

abbrev pub lock_check_wait_time : ℕ
lock_check_wait_time = 2 * second

abbrev pub untyped_lock : ℕ
untyped_lock = 0

abbrev pub backup_lock : ℕ
backup_lock = 1

-- RESTORE_LOCK has the value of BACKUP_LOCK.
abbrev pub restore_lock : ℕ
restore_lock = 1

abbrev pub deletion_lock : ℕ
deletion_lock = 2

-- The fields of FileLock that the decision reads.
pub record ServerLock : Type 0 where
  pub name : Bytes
  pub kind : ℕ
  pub acquired : Bool
  pub server_time : ℕ

-- strings.Compare
unfoldable pub compare_names : Bytes → Bytes → Ordering
compare_names [] [] = Ordering.eq
compare_names [] (y ∷ ys) = Ordering.lt
compare_names (x ∷ xs) [] = Ordering.gt
compare_names (x ∷ xs) (y ∷ ys) = elim (compare x y) [
  | Ordering.lt ↦ Ordering.lt
  | Ordering.eq ↦ compare_names xs ys
  | Ordering.gt ↦ Ordering.gt
]

unfoldable pub compare_locks : ServerLock → ServerLock → Ordering
unfolding compare_names
compare_locks a b = by_acquired a.acquired b.acquired
  where
    by_time : Ordering
    by_time =
        if a.server_time == b.server_time
        then compare_names a.name b.name
        else if ltb a.server_time b.server_time
        then Ordering.lt
        else Ordering.gt

    by_acquired : Bool → Bool → Ordering
    by_acquired true true = by_time
    by_acquired false false = by_time
    by_acquired true false = Ordering.lt
    by_acquired false true = Ordering.gt

-- A server time after `now` gives a negative duration, which is not past the lock's.
unfoldable pub is_expired : ℕ → ServerLock → Bool
is_expired now lock = ltb lock_duration (now - lock.server_time)

abbrev is_lt : Ordering → Bool
is_lt Ordering.lt = true
is_lt Ordering.eq = false
is_lt Ordering.gt = false

-- The condition under which canAcquire gives up at a lock of the server.
unfoldable pub blocks : ℕ → ServerLock → ServerLock → Bool
unfolding compare_locks is_expired
blocks now lock server_lock =
    not (server_lock.kind == lock.kind)
    && (is_lt (compare_locks server_lock lock) && not (is_expired now server_lock))

unfoldable pub can_acquire : ℕ → ServerLock → List ServerLock → Bool
can_acquire now lock [] = true
can_acquire now lock (s ∷ ss) =
    let rest = can_acquire now lock ss in if blocks now lock s then false else rest

compare_names-flip :
    (xs ys : Bytes) → compare_names xs ys ≡ Ordering.gt → compare_names ys xs ≡ Ordering.lt
unfolding compare_names
compare_names-flip [] [] h = ground arith
compare_names-flip [] (y ∷ ys) h = ground arith
compare_names-flip (x ∷ xs) [] h = refl
compare_names-flip (x ∷ xs) (y ∷ ys) h = ground (arith, compare_names-flip xs ys)

compare_names-eq : (xs ys : Bytes) → compare_names xs ys ≡ Ordering.eq → xs ≡ ys
unfolding compare_names
compare_names-eq [] [] h = refl
compare_names-eq [] (y ∷ ys) h = ground arith
compare_names-eq (x ∷ xs) [] h = ground arith
compare_names-eq (x ∷ xs) (y ∷ ys) h = ground (arith, compare_names-eq xs ys)

compare_names-total :
    (xs ys : Bytes)
    → xs ≢ ys
    → (compare_names xs ys ≡ Ordering.lt) ⊎ (compare_names ys xs ≡ Ordering.lt)
compare_names-total xs ys ne = ground (arith, compare_names-flip xs ys, compare_names-eq xs ys)

-- Of two locks with different names, one precedes the other.
pub compare_locks-total :
    (a b : ServerLock)
    → a.name ≢ b.name
    → (compare_locks a b ≡ Ordering.lt) ⊎ (compare_locks b a ≡ Ordering.lt)
unfolding compare_locks
compare_locks-total a b ne = ground (arith, compare_names-total a.name b.name)

pub can_acquire-Has :
    (now : ℕ) (lock s : ServerLock) (ss : List ServerLock)
    → can_acquire now lock ss ≡ true
    → Has s ss
    → blocks now lock s ≡ false
unfolding can_acquire
can_acquire-Has now lock s [] h m = absurd m
can_acquire-Has now lock s (t ∷ ss) h (inl e) = ground (arith)
can_acquire-Has now lock s (t ∷ ss) h (inr m) = ground (arith, can_acquire-Has now lock s ss)

abbrev pub IsBlocked : ℕ → ServerLock → ServerLock → Type 0
IsBlocked now lock s = blocks now lock s ≡ true

pub blocks-lt :
    (now : ℕ) (lock s : ServerLock)
    → s.kind ≢ lock.kind
    → is_expired now s ≡ false
    → compare_locks s lock ≡ Ordering.lt
    → blocks now lock s ≡ true
unfolding blocks
blocks-lt now lock s k x e = ground arith

-- Two locks of different types and names, neither expired, that each see the other's file: not
-- both may be acquired, whenever each looks and whatever else it sees.
pub can_acquire_exclusive :
    (now later : ℕ) (a b : ServerLock) (seen_by_a seen_by_b : List ServerLock)
    → a.name ≢ b.name
    → a.kind ≢ b.kind
    → is_expired later a ≡ false
    → is_expired now b ≡ false
    → Has b seen_by_a
    → Has a seen_by_b
    → ¬ ((can_acquire now a seen_by_a ≡ true) × (can_acquire later b seen_by_b ≡ true))
can_acquire_exclusive now later a b seen_by_a seen_by_b names kinds fresh_a fresh_b b_seen a_seen
      (ha, hb) =
    ground (
      arith,
      compare_locks-total a b names,
      can_acquire-Has now a b seen_by_a ha b_seen,
      can_acquire-Has later b a seen_by_b hb a_seen,
      blocks-lt now a b (λ e. kinds (sym e)) fresh_b,
      blocks-lt later b a kinds fresh_a,
    )
