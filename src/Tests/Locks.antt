-- ===== src/Tests/Locks.antt =====
-- Runs of the locks' decision, and of the protocol with two clients.
use Prim.Native.Nat.{Ordering}
use backupstore.Base.{
  ℕ, ◌≡◌, ◌≢◌, refl, true, false, List, [], ◌∷◌, arith, ◌*◌, ◌==◌, Has, inl, inr, ◌⊎◌,
  if◌then◌else◌, some,
}
use backupstore.Lock.Priority.{
  ServerLock, second, is_expired, can_acquire, compare_locks, compare_locks-total,
  can_acquire_exclusive, backup_lock, deletion_lock, blocks, compare_names,
}
use backupstore.Lock.Protocol.{
  Status, Clients, Server, Step, Reach, empty, file_of, file, Reads, update,
}
use backupstore.Lock.Protocol.Exclusion.{mutual_exclusion}

abbrev a : ServerLock
a = record { name = 1 ∷ []; kind = backup_lock; acquired = false; server_time = 10 * second }

abbrev b : ServerLock
b = record { name = 2 ∷ []; kind = deletion_lock; acquired = false; server_time = 10 * second }

names_differ : a.name ≢ b.name
names_differ e = ground arith

kinds_differ : a.kind ≢ b.kind
kinds_differ e = omega arith

fresh_a : is_expired (12 * second) a ≡ false
unfolding is_expired
fresh_a = refl

fresh_b : is_expired (12 * second) b ≡ false
unfolding is_expired
fresh_b = refl

compare_locks-total_example : (compare_locks a b ≡ Ordering.lt) ⊎ (compare_locks b a ≡ Ordering.lt)
compare_locks-total_example = compare_locks-total a b names_differ

can_acquire_exclusive_example : ¬ (
    (can_acquire (12 * second) a (a ∷ b ∷ []) ≡ true)
    × (can_acquire (12 * second) b (a ∷ b ∷ []) ≡ true))
can_acquire_exclusive_example =
    can_acquire_exclusive (12 * second) (12 * second) a b (a ∷ b ∷ []) (a ∷ b ∷ []) names_differ
      kinds_differ fresh_a fresh_b (inr (inl refl)) (inl refl)

acquired_by_a : can_acquire (12 * second) a (a ∷ b ∷ []) ≡ true
unfolding can_acquire blocks compare_names
acquired_by_a = refl

refused_to_b : can_acquire (12 * second) b (a ∷ b ∷ []) ≡ false
unfolding can_acquire blocks compare_names
refused_to_b = refl

-- Client `p` has the name `p`; client 0 backs up, and all others delete.
abbrev kind_of : ℕ → ℕ
kind_of p = if p == 0 then backup_lock else deletion_lock

clients : Clients
clients = record { name = λ p. p ∷ []; kind = kind_of; distinct = λ p q ne e. ground arith }

-- Client 0 writes its file, waits, checks and stores.
abbrev created : Server
created = record (empty (10 * second)) {
  status = update (λ p. Status.idle) 0 (Status.waiting (10 * second));
}

abbrev waited : Server
waited = record created { now = 12 * second }

abbrev checked : Server
checked = record waited { status = update created.status 0 (Status.granted (10 * second)) }

abbrev stored : Server
stored = record checked { status = update checked.status 0 (Status.held (12 * second)) }

abbrev seen : List ServerLock
seen = file_of clients 0 false (10 * second) ∷ []

seen-Reads : Reads clients waited seen
unfolding is_expired
seen-Reads = record { complete = complete; fresh = fresh }
  where
    complete : (q : ℕ) (l : ServerLock) → file clients q (waited.status q) ≡ some l → Has l seen
    complete q l e = ground arith

    fresh :
        (q : ℕ) (l : ServerLock)
        → file clients q (waited.status q) ≡ some l
        → is_expired waited.now l ≡ false
    fresh q l e = ground arith

free : can_acquire (12 * second) (file_of clients 0 false (10 * second)) seen ≡ true
unfolding can_acquire blocks clients
free = refl

stored-Reach : Reach clients (empty (10 * second)) stored
stored-Reach =
    Reach.next
      (Reach.next
        (Reach.next
          (Reach.next Reach.start (Step.create 0 (10 * second) refl (omega arith) (omega arith)))
          (Step.tick (2 * second)))
        (Step.check 0 (10 * second) seen refl (omega arith) seen-Reads free))
      (Step.store 0 (10 * second) (12 * second) refl)

clients_differ : clients.kind 0 ≢ clients.kind 1
unfolding clients
clients_differ e = omega arith

mutual_exclusion_example : ¬ (stored.status 1 ≡ Status.held 0)
mutual_exclusion_example =
    mutual_exclusion clients (10 * second) 0 1 (12 * second) 0 stored-Reach clients_differ refl
