-- ===== src/Recovery/Data.antt =====
-- The data that a restore leaves on the device (deltablock.go).
use backupstore.Base.{ℕ, ◌≡◌, false, List, [], ◌∷◌, arith, All, false}
use backupstore.Base.Outcome.{Result, ok, Exec, total}
use backupstore.Driver.Runs.{Keeps, Keeps-attempt}
use backupstore.Driver.Leaves.{
  Leaves, Leaves-pure, Leaves-bind, Leaves-attempt, Leaves-of_Keeps, Leaves-lift, Leaves-on_result,
}
use backupstore.Blocks.Restore.{Block}
use backupstore.Config.Store.{Env}
use backupstore.Recovery.{
  Prepared, RestoreConfig, restore_block_on_device, report, run_worker, merge_errors, write_volume,
  restore_job,
}
use backupstore.Recovery.Loop.{Leaves-restore_loop}
use backupstore.Recovery.Device.{
  DeviceLaws, Spaced, AreApart, AllApart-Spaced, DataRestored, Keeps-same, Keeps-on_device,
  Leaves-on_device,
}

module _ {W : Type 0} (env : Env W) (config : RestoreConfig W) (laws : DeviceLaws env config.host)
    (p : Prepared) where
  -- The context is not done where the workers' errors are read.
  abbrev pub GoesOn : Type 0
  GoesOn = (w : W) → (config.host.context_done w).0 ≡ false

  abbrev pub AllRestored : W → Type 0
  AllRestored w = All (λ b. DataRestored env config laws p.device p.volume_name b w) p.blocks

  abbrev PostJob : Unit {0} → W → Type 0
  PostJob _ = AllRestored

  abbrev Job : Result (Unit {0}) × ℕ → W → Type 0
  Job r w = r.0 ≡ ok tt → AllRestored w

  Keeps-Job :
      {A : Type 0} (r : Result (Unit {0}) × ℕ) (m : Exec W A)
      → ((w : W) (q : ℕ) → laws.view (m w).1 p.device q ≡ laws.view w p.device q)
      → Keeps (Job r) m
  Keeps-Job r m e = record { at = λ w h f. go p.blocks w (h f) }
    where
      go :
          (blocks : List Block) (w : W)
          → All (λ b. DataRestored env config laws p.device p.volume_name b w) blocks
          → All (λ b. DataRestored env config laws p.device p.volume_name b (m w).1) blocks
      go [] w h = tt
      go (b ∷ blocks) w h = (
        (Keeps-same env config laws p.device p.volume_name b m (λ w. e w b.offset)).at w h.0,
        go blocks w h.1,
      )

  Leaves-worker : Spaced 0 p.blocks → Leaves (λ w. Unit {0}) (run_worker env config p) Job
  unfolding run_worker total
  Leaves-worker h =
      Leaves-bind (λ _ w. Unit {0}) Job _ _ (Leaves-attempt (λ _ w. Unit {0}) _ (λ w _. tt))
        λ r.
          Leaves-on_result Job r _ _
            (λ _ _.
              Leaves-bind Job Job _ _
                (Leaves-restore_loop config.host.stop
                  (restore_block_on_device env config p.volume_name p.device)
                  (report env config p.volume_name p.total_block_counts)
                  (DataRestored env config laws p.device p.volume_name) AreApart
                  (Leaves-on_device env config laws p.device p.volume_name)
                  (Keeps-on_device env config laws p.device p.volume_name)
                  (λ b n.
                    Keeps-same env config laws p.device p.volume_name b _
                      (λ w. laws.status_same _ _ _ p.device b.offset w))
                  (λ b.
                    Keeps-same env config laws p.device p.volume_name b _
                      (λ w. laws.stop_same p.device b.offset w))
                  p.blocks 0 (AllApart-Spaced 0 p.blocks h))
                λ result.
                  Leaves-bind (λ _. Job result) Job _ _
                    (Leaves-of_Keeps _
                      (Keeps-attempt _ (Keeps-Job result _ (λ w q. laws.close_same p.device q w))))
                    λ _. Leaves-pure Job result (λ w x. x))
            (λ e _. Leaves-pure Job _ (λ w _ x. ground arith))

  -- The worker's error is relayed while the context is not done.
  Leaves-merge :
      GoesOn → (r : Result (Unit {0}) × ℕ) → Leaves (Job r) (merge_errors env config r) Job
  unfolding merge_errors total
  Leaves-merge going r =
      Leaves-bind (λ done w. (done ≡ false) × Job r w) Job _ _
        (record {
          at = λ w f. (
            going w,
            (Keeps-Job r (total config.host.context_done)
                  (λ v q. laws.context_same p.device q v)).at
                w f,
          );
        })
        λ done. Leaves-pure Job _ (λ w h. rw h.0 h.1)

  Leaves-write_volume :
      GoesOn → Spaced 0 p.blocks → Leaves (λ w. Unit {0}) (write_volume env config p) Job
  unfolding write_volume
  Leaves-write_volume going h =
      Leaves-bind (λ _ w. Unit {0}) Job _ _ (Leaves-attempt (λ _ w. Unit {0}) _ (λ w _. tt))
        λ r.
          Leaves-on_result Job r _ _
            (λ _ _. Leaves-bind Job Job _ _ (Leaves-worker h) λ x. Leaves-merge going x)
            (λ e _. Leaves-pure Job _ (λ w _ x. ground arith))

  -- A restore job that returns no error has left, at the offset of every block of its list that is not
  -- a zero block, the first part of some data with the block's checksum, of at least a block: when the
  -- blocks follow each other without overlap, and the calls on the device do what they are documented
  -- to do, and the context is not done. So it is for the full and for the incremental restore, whatever the driver returned.
  pub restore_job-data :
      GoesOn
      → Spaced 0 p.blocks
      → Leaves (λ w. Unit {0}) (restore_job env config p) (λ _. AllRestored)
  unfolding restore_job total
  restore_job-data going h = Leaves-bind Job PostJob _ _ (Leaves-write_volume going h) λ result.
      Leaves-bind (λ _. Job result) PostJob _ _
        (Leaves-of_Keeps _
          (Keeps-attempt _ (Keeps-Job result _ (λ w q. laws.close_device_same p.device q w))))
        λ _.
          Leaves-bind (λ _. Job result) PostJob _ _
            (Leaves-of_Keeps _ (Keeps-Job result _ (λ w q. laws.status_same _ _ _ p.device q w)))
            λ _. Leaves-lift PostJob result.0 (λ u w e k. k e)
