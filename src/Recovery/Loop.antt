-- ===== src/Recovery/Loop.antt =====
-- The loop of a restore worker (restoreBlocks of deltablock.go and backupbackingimage.go), and what it
-- leaves.
use backupstore.Base.{◌≡◌, ℕ, ◌+◌, Bool, List, [], ◌∷◌, if◌then◌else◌, codes, All, arith}
use backupstore.Base.Outcome.{
  on_result, total, Error, Result, ok, err, failure, Exec, pure, attempt, ◌>>=◌, ◌>>◌,
}
use backupstore.Blocks.Restore.{Block}
use backupstore.Driver.Runs.{
  Keeps, Keeps-bind, Keeps-if, Keeps-pure, Keeps-attempt, Keeps-on_result,
}
use backupstore.Driver.Leaves.{
  Leaves, OkLeaves, Leaves-pure, Leaves-total, Leaves-if, Leaves-bind, Leaves-attempt,
  Leaves-of_Keeps, Leaves-keeping, Leaves-weaken,
}

-- ErrorMsgRestoreCancelled
abbrev pub cancelled : Error
cancelled = failure (codes "backup restoration is cancelled")

-- Each block is apart from those that follow.
abbrev pub AllApart : (Block → Block → Type 0) → List Block → Type 0
AllApart IsApart [] = Unit
AllApart IsApart (b ∷ blocks) = All (IsApart b) blocks × AllApart IsApart blocks

-- `stopped` is asked before each block, and when the channel is closed; where it says no though the
-- restore was told to stop, the select has chosen the block. The loop returns the number of the blocks
-- that it has reported.
module _ {W : Type 0} (stopped : W → Bool × W) (restore_one : Block → Exec W (Unit {0}))
    (report : ℕ → Exec W (Unit {0})) where
  unfoldable pub restore_loop : List Block → ℕ → Exec W (Result (Unit {0}) × ℕ)
  restore_loop [] n = do
    stop ← total stopped
    if stop then pure (err cancelled, n) else pure (ok tt, n)
  restore_loop (b ∷ blocks) n = do
    stop ← total stopped
    let rest = restore_loop blocks (n + 1)
    if stop then pure (err cancelled, n) else (do
      result ← attempt (restore_one b)
      report (n + 1)
      on_result result (λ _. rest) (λ e. pure (err e, n + 1)))

  -- `Q b` is what a block leaves; the other parts, and a block apart from `b`, keep it.
  module _ (Q : Block → W → Type 0) (IsApart : Block → Block → Type 0)
      (restored : (b : Block) → Leaves (λ w. Unit {0}) (restore_one b) (λ _. Q b))
      (kept : (b c : Block) → IsApart b c → Keeps (Q b) (restore_one c))
      (reported : (b : Block) (n : ℕ) → Keeps (Q b) (report n))
      (asked : (b : Block) → Keeps (Q b) (total stopped)) where
    Keeps-restore_loop :
        (b : Block) (blocks : List Block) (n : ℕ)
        → All (IsApart b) blocks
        → Keeps (Q b) (restore_loop blocks n)
    unfolding restore_loop
    Keeps-restore_loop b [] n h =
        Keeps-bind _ _ (asked b) λ stop. Keeps-if stop _ _ (Keeps-pure _) (Keeps-pure _)
    Keeps-restore_loop b (c ∷ blocks) n h = Keeps-bind _ _ (asked b) λ stop.
        Keeps-if stop _ _ (Keeps-pure _) (
          Keeps-bind _ _ (Keeps-attempt _ (kept b c h.0)) λ r.
            Keeps-bind _ _ (reported b (n + 1)) λ _.
              Keeps-on_result r _ _ (λ _. Keeps-restore_loop b blocks (n + 1) h.1)
                (λ e. Keeps-pure _))

    abbrev pub Finished : List Block → Result (Unit {0}) × ℕ → W → Type 0
    Finished blocks r w = r.0 ≡ ok tt → All (λ b. Q b w) blocks

    abbrev Any : W → Type 0
    Any w = Unit {0}

    pub Leaves-restore_loop :
        (blocks : List Block) (n : ℕ)
        → AllApart IsApart blocks
        → Leaves Any (restore_loop blocks n) (Finished blocks)
    unfolding restore_loop on_result
    Leaves-restore_loop [] n h =
        Leaves-bind (λ _. Any) (Finished []) _ _ (Leaves-total _ _ (λ w _. tt))
          λ stop.
            Leaves-if (Finished []) stop _ _ (λ _. Leaves-pure (Finished []) _ (λ w _ _. tt))
              (λ _. Leaves-pure (Finished []) _ (λ w _ _. tt))
    Leaves-restore_loop (b ∷ blocks) n h =
        Leaves-bind (λ _. Any) (Finished (b ∷ blocks)) _ _ (Leaves-total _ _ (λ w _. tt))
          λ stop.
            Leaves-if (Finished (b ∷ blocks)) stop _ _
              (λ _. Leaves-pure (Finished (b ∷ blocks)) _ (λ w _ e. ground arith))
              (λ _.
                Leaves-bind (OkLeaves (λ _. Q b)) (Finished (b ∷ blocks)) _ _
                  (Leaves-attempt (OkLeaves (λ _. Q b)) _ (λ w x. (restored b).at w x))
                  λ r. next (Leaves-restore_loop blocks (n + 1) h.1) r)
      where
        next :
            Leaves Any (restore_loop blocks (n + 1)) (Finished blocks)
            → (r : Result (Unit {0}))
            → Leaves
                (OkLeaves (λ _. Q b) r)
                (do
                  report (n + 1)
                  on_result r (λ _. restore_loop blocks (n + 1)) (λ e. pure (err e, n + 1)))
                (Finished (b ∷ blocks))
        next rest (ok u) =
            Leaves-bind (λ _. Q b) (Finished (b ∷ blocks)) _ _
              (Leaves-of_Keeps _ (reported b (n + 1)))
              λ _.
                Leaves-weaken (λ r w. Q b w × Finished blocks r w) (Finished (b ∷ blocks)) _
                  (λ w q. (q, tt)) (λ r w q e. (q.0, q.1 e))
                  (Leaves-keeping (Finished blocks) _ (Keeps-restore_loop b blocks (n + 1) h.0)
                    rest)
        next rest (err e) =
            Leaves-bind (λ _. Any) (Finished (b ∷ blocks)) _ _
              (Leaves-of_Keeps _ (record { at = λ w h. tt }))
              λ _. Leaves-pure (Finished (b ∷ blocks)) _ (λ w _ q. ground arith)
