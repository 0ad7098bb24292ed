-- ===== src/Lock/Protocol/Exclusion.antt =====
-- Locks of different types exclude one another under the protocol of lock.go.
use Prim.Native.Nat.{Ordering}
use backupstore.Base.{
  ℕ, ◌+◌, ◌≤◌, ◌<◌, ◌≡◌, ◌≢◌, refl, true, false, some, List, arith, ◌==◌, inl, inr, Bool-cases,
  ==_cases, sym, ap, ◌∙◌,
}
use backupstore.Lock.Priority.{
  ServerLock, second, lock_check_wait_time, can_acquire, compare_locks, compare_locks-total,
  can_acquire-Has, blocks-lt,
}
use backupstore.Lock.Protocol.{
  Status, idle, waiting, granted, held, Clients, Server, update, empty, file_of, file, Reads, Step,
  tick, create, check, store, refresh, remove, Reach, start, next,
}

module _ (clients : Clients) where
  open clients use {name, kind, distinct}

  -- What the statuses of two clients of different types may be.
  abbrev Compatible : ℕ → ℕ → Status → Status → Type 0
  Compatible p q (granted t) (waiting u) =
      compare_locks (file_of clients p false t) (file_of clients q false u) ≡ Ordering.lt
  Compatible p q (granted t) (granted u) = ⊥
  Compatible p q (granted t) (held u) = ⊥
  Compatible p q (held t) (granted u) = ⊥
  Compatible p q (held t) (held u) = ⊥
  Compatible p q _ _ = Unit {0}

  abbrev Aged : ℕ → Status → Type 0
  Aged now (granted t) = t + lock_check_wait_time ≤ now
  Aged now _ = Unit {0}

  record Inv (s : Server) : Type 0 where
    compatible : (p q : ℕ) → kind p ≢ kind q → Compatible p q (s.status p) (s.status q)
    aged : (p : ℕ) → Aged s.now (s.status p)

  -- A client's new status is compatible with every other one.
  update-Inv :
      (s : Server) (p : ℕ) (new : Status)
      → Inv s
      → Aged s.now new
      → ((q : ℕ) → kind p ≢ kind q → Compatible p q new (s.status q))
      → ((q : ℕ) → kind q ≢ kind p → Compatible q p (s.status q) new)
      → Inv (record s { status = update s.status p new })
  update-Inv s p new i a left right = record { compatible = pairs; aged = ages }
    where
      pairs :
          (x y : ℕ)
          → kind x ≢ kind y
          → Compatible x y (update s.status p new x) (update s.status p new y)
      pairs x y ne = elim (==_cases x p) [
        | inl (tx, ex) ↦ elim (==_cases y p) [
          | inl (ty, ey) ↦ absurd (ne (ap kind (ex ∙ sym ey)))
          | inr (ty, ey) ↦ rw (tx, ty, ex) (left y (λ k. ne (ap kind ex ∙ k)))
        ]
        | inr (tx, ex) ↦ elim (==_cases y p) [
          | inl (ty, ey) ↦ rw (tx, ty, ey) (right x (λ k. ne (k ∙ sym (ap kind ey))))
          | inr (ty, ey) ↦ rw (tx, ty) (i.compatible x y ne)
        ]
      ]

      ages : (x : ℕ) → Aged s.now (update s.status p new x)
      ages x = elim (Bool-cases (x == p)) [ inl t ↦ rw t a | inr t ↦ rw t (i.aged x) ]

  create_after :
      (p q t u now : ℕ)
      → u + lock_check_wait_time ≤ now
      → now < t + second
      → compare_locks (file_of clients q false u) (file_of clients p false t) ≡ Ordering.lt
  unfolding compare_locks
  create_after p q t u now h k = ground arith

  held_first :
      (p q t u : ℕ)
      → compare_locks (file_of clients q true u) (file_of clients p false t) ≡ Ordering.lt
  unfolding compare_locks
  held_first p q t u = refl

  create-Inv :
      (s : Server) (p t : ℕ)
      → s.now < t + second
      → Inv s
      → Inv (record s { status = update s.status p (waiting t) })
  create-Inv s p t k i =
      update-Inv s p (waiting t) i tt (λ q ne. tt) (λ q ne. after q (s.status q) (i.aged q))
    where
      after : (q : ℕ) (sq : Status) → Aged s.now sq → Compatible q p sq (waiting t)
      after q idle a = tt
      after q (waiting u) a = tt
      after q (granted u) a = create_after p q t u s.now a k
      after q (held u) a = tt

  module _ (s : Server) (p t : ℕ) (files : List ServerLock) (is_waiting : s.status p ≡ waiting t)
      (reads : Reads clients s files)
      (free : can_acquire s.now (file_of clients p false t) files ≡ true) (i : Inv s) where
    -- No file of another type precedes the client's own.
    not_before :
        (q : ℕ) (l : ServerLock)
        → file clients q (s.status q) ≡ some l
        → l.kind ≢ kind p
        → compare_locks l (file_of clients p false t) ≢ Ordering.lt
    not_before q l e k lt = ground (
      arith,
      can_acquire-Has s.now (file_of clients p false t) l files free (reads.complete q l e),
      blocks-lt s.now (file_of clients p false t) l k (reads.fresh q l e) lt,
    )

    check_left :
        (q : ℕ) (sq : Status)
        → s.status q ≡ sq
        → kind p ≢ kind q
        → Compatible q p sq (waiting t)
        → Compatible p q (granted t) sq
    check_left q idle e ne c = tt
    check_left q (waiting u) e ne c =
        elim (compare_locks-total (file_of clients p false t) (file_of clients q false u)
          (distinct p q ne)) [
            | inl before ↦ before
            | inr after ↦
                absurd (not_before q (file_of clients q false u) (rw e) (λ k. ne (sym k)) after)
          ]
    check_left q (granted u) e ne c =
        not_before q (file_of clients q false u) (rw e) (λ k. ne (sym k)) c
    check_left q (held u) e ne c =
        not_before q (file_of clients q true u) (rw e) (λ k. ne (sym k)) (held_first p q t u)

    check_right :
        (q : ℕ) (sq : Status)
        → s.status q ≡ sq
        → kind q ≢ kind p
        → Compatible q p sq (waiting t)
        → Compatible q p sq (granted t)
    check_right q idle e ne c = tt
    check_right q (waiting u) e ne c = tt
    check_right q (granted u) e ne c = not_before q (file_of clients q false u) (rw e) ne c
    check_right q (held u) e ne c =
        not_before q (file_of clients q true u) (rw e) ne (held_first p q t u)

    was : (q : ℕ) → kind q ≢ kind p → Compatible q p (s.status q) (waiting t)
    was q ne = rw is_waiting at (i.compatible q p ne)

    check-Inv :
        t + lock_check_wait_time ≤ s.now → Inv (record s { status = update s.status p (granted t) })
    check-Inv late =
        update-Inv s p (granted t) i late
          (λ q ne. check_left q (s.status q) refl ne (was q (λ k. ne (sym k))))
          (λ q ne. check_right q (s.status q) refl ne (was q ne))

  hold-Inv :
      (s : Server) (p u : ℕ)
      → Inv s
      → ((q : ℕ) (sq : Status) → Compatible p q (s.status p) sq → Compatible p q (held u) sq)
      → ((q : ℕ) (sq : Status) → Compatible q p sq (s.status p) → Compatible q p sq (held u))
      → Inv (record s { status = update s.status p (held u) })
  hold-Inv s p u i left right =
      update-Inv s p (held u) i tt (λ q ne. left q (s.status q) (i.compatible p q ne))
        (λ q ne. right q (s.status q) (i.compatible q p ne))

  store-left :
      (p q t u : ℕ) (sq : Status) → Compatible p q (granted t) sq → Compatible p q (held u) sq
  store-left p q t u idle c = tt
  store-left p q t u (waiting v) c = tt
  store-left p q t u (granted v) c = c
  store-left p q t u (held v) c = c

  store-right :
      (p q t u : ℕ) (sq : Status) → Compatible q p sq (granted t) → Compatible q p sq (held u)
  store-right p q t u idle c = tt
  store-right p q t u (waiting v) c = tt
  store-right p q t u (granted v) c = c
  store-right p q t u (held v) c = c

  refresh-left :
      (p q t u : ℕ) (sq : Status) → Compatible p q (held t) sq → Compatible p q (held u) sq
  refresh-left p q t u idle c = tt
  refresh-left p q t u (waiting v) c = tt
  refresh-left p q t u (granted v) c = c
  refresh-left p q t u (held v) c = c

  refresh-right :
      (p q t u : ℕ) (sq : Status) → Compatible q p sq (held t) → Compatible q p sq (held u)
  refresh-right p q t u idle c = tt
  refresh-right p q t u (waiting v) c = tt
  refresh-right p q t u (granted v) c = c
  refresh-right p q t u (held v) c = c

  Aged-later : (now n : ℕ) (st : Status) → Aged now st → Aged (now + n) st
  Aged-later now n idle a = tt
  Aged-later now n (waiting t) a = tt
  Aged-later now n (granted t) a = omega arith
  Aged-later now n (held t) a = tt

  idle-right : (p q : ℕ) (sq : Status) → Compatible q p sq idle
  idle-right p q idle = tt
  idle-right p q (waiting t) = tt
  idle-right p q (granted t) = tt
  idle-right p q (held t) = tt

  Step-Inv : {s t : Server} → Step clients s t → Inv s → Inv t
  Step-Inv {s} (tick n) i = record {
    compatible = i.compatible;
    aged = λ p. Aged-later s.now n (s.status p) (i.aged p);
  }
  Step-Inv {s} (create p t e le lt) i = create-Inv s p t lt i
  Step-Inv {s} (check p t files e late reads free) i = check-Inv s p t files e reads free i late
  Step-Inv {s} (store p t u e) i =
      hold-Inv s p u i (λ q sq c. store-left p q t u sq (rw e at c))
        (λ q sq c. store-right p q t u sq (rw e at c))
  Step-Inv {s} (refresh p t u e) i =
      hold-Inv s p u i (λ q sq c. refresh-left p q t u sq (rw e at c))
        (λ q sq c. refresh-right p q t u sq (rw e at c))
  Step-Inv {s} (remove p) i =
      update-Inv s p idle i tt (λ q ne. tt) (λ q ne. idle-right p q (s.status q))

  Reach-Inv : {s t : Server} → Inv s → Reach clients s t → Inv t
  Reach-Inv i start = i
  Reach-Inv i (next r st) = Step-Inv st (Reach-Inv i r)

  -- Two clients whose locks are of different types never hold them at once: from an empty lock
  -- directory, after any steps of any clients, one of which is each client's own, given that a
  -- client that checks reads every file on the server and none of them has expired.
  pub mutual_exclusion :
      {s : Server} (start_time p q t u : ℕ)
      → Reach clients (empty start_time) s
      → kind p ≢ kind q
      → s.status p ≡ held t
      → ¬ (s.status q ≡ held u)
  mutual_exclusion {s} start_time p q t u r ne hp hq =
      rw (hp, hq) at ((Reach-Inv start-Inv r).compatible p q ne)
    where
      start-Inv : Inv (empty start_time)
      start-Inv = record { compatible = λ x y k. tt; aged = λ x. tt }
