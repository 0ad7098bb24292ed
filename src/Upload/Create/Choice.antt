-- ===== src/Upload/Create/Choice.antt =====
-- What a backup is compared with, and what its job gets (CreateDeltaBlockBackup of deltablock.go).
use backupstore.Base.{
  ◌≡◌, ◌≢◌, refl, Bool, true, false, not, ◌&&◌, Option, none, some, [], arith, Bytes, ◌=b◌, =b_iff,
  ◌⊎◌, inl, inr, ◌==◌, if◌then◌else◌,
}
use backupstore.Base.Outcome.{Error, ok, Exec, total}
use backupstore.Driver.Runs.{
  Runs, OkIs, OkIs_of_eq, Runs-bind, Runs-pure, Runs-if, Runs-attempt, Runs-after, Runs-raise,
  Runs-on_result, Keeps,
}
use backupstore.Config.Store.{Env, Volume, Backup, load_backup}
use backupstore.Upload.Perform.{default_block_size, Mappings}
use backupstore.Upload.Create.{
  CreateConfig, PreparedBackup, is_full_backup, choose_last_backup, compare, close_and_raise,
  prepare_backup,
}

module _ {W : Type 0} (env : Env W) (config : CreateConfig W) where
  open config use {request, delta_ops}

  abbrev Any : W → Type 0
  Any w = Unit {0}

  Runs-Any : {A : Type 0} (m : Exec W A) → Runs Any m (λ a. Unit {0})
  Runs-Any m = record { at = λ w h. (tt, OkIs_of_eq _ _ (λ _ _. tt)) }

  Keeps-Any : {A : Type 0} (m : Exec W A) → Keeps Any m
  Keeps-Any m = record { at = λ w h. tt }

  -- The base of an incremental backup: the last backup of the volume, of another snapshot that is
  -- still there or has no name, when no full backup was asked for. The states are those at which the
  -- backup was read and the snapshot asked for.
  pub record IsBase (volume : Volume) (b : Backup) : Type 0 where
    pub has_last : volume.last_backup_name ≢ []
    pub not_full : is_full_backup request.parameters ≡ false
    pub loaded : (w : W) × ((load_backup env volume.last_backup_name volume.name w).0 ≡ ok b)
    pub other_snapshot : b.snapshot_name ≢ request.snapshot.name
    pub snapshot_exists :
        (b.snapshot_name ≡ [])
        ⊎ ((w : W) × ((delta_ops.has_snapshot b.snapshot_name volume.name w).0 ≡ true))

  abbrev pub ChosenFor : Volume → Option Backup → Type 0
  ChosenFor volume none = Unit {0}
  ChosenFor volume (some b) = IsBase volume b

  Runs-choose :
      (volume : Volume) → Runs Any (choose_last_backup env config volume) (ChosenFor volume)
  unfolding choose_last_backup total
  Runs-choose volume =
      Runs-if (ChosenFor volume) _ _ _
        (λ asked.
          Runs-bind (OkIs Loaded) (ChosenFor volume) _ _
            (Runs-attempt Loaded _
              (record { at = λ w h. (tt, OkIs_of_eq Loaded _ (λ b e. (w, e))) }))
            λ r q.
              Runs-on_result Loaded (ChosenFor volume) r _ _ q
                (λ b l.
                  Runs-if (ChosenFor volume) (b.snapshot_name =b request.snapshot.name) _ _
                    (λ _. Runs-pure (ChosenFor volume) none tt)
                    (λ other.
                      Runs-if (ChosenFor volume) (b.snapshot_name =b []) _ _
                        (λ e. Runs-pure (ChosenFor volume) (some b) (
                          is_base asked b l other
                            (inl (ground (arith, =b_iff b.snapshot_name [])))))
                        (λ _.
                          Runs-bind (Found b) (ChosenFor volume) _ _
                            (record { at = λ w h. (tt, λ e. (w, e)) })
                            λ found k.
                              Runs-pure (ChosenFor volume) _ (answer asked b l other found k))))
                (λ e. Runs-pure (ChosenFor volume) none tt))
        (λ _. Runs-pure (ChosenFor volume) none tt)
    where
      Loaded : Backup → Type 0
      Loaded b = (w : W) × ((load_backup env volume.last_backup_name volume.name w).0 ≡ ok b)

      Found : Backup → Bool → Type 0
      Found b found =
          found ≡ true → (w : W) × ((delta_ops.has_snapshot b.snapshot_name volume.name w).0 ≡ true)

      is_base :
          (not (volume.last_backup_name =b []) && not (is_full_backup request.parameters)) ≡ true
          → (b : Backup) → Loaded b
          → (b.snapshot_name =b request.snapshot.name) ≡ false
          → (b.snapshot_name ≡ [])
            ⊎ ((w : W) × ((delta_ops.has_snapshot b.snapshot_name volume.name w).0 ≡ true))
          → IsBase volume b
      is_base asked b l other s = record {
        has_last = λ e. ground (arith, =b_iff volume.last_backup_name []);
        not_full = ground arith;
        loaded = l;
        other_snapshot = λ e. ground (arith, =b_iff b.snapshot_name request.snapshot.name);
        snapshot_exists = s;
      }

      answer :
          (not (volume.last_backup_name =b []) && not (is_full_backup request.parameters)) ≡ true
          → (b : Backup) → Loaded b
          → (b.snapshot_name =b request.snapshot.name) ≡ false
          → (found : Bool) → Found b found
          → ChosenFor volume (if found then some b else none)
      answer asked b l other true k = is_base asked b l other (inr (k refl))
      answer asked b l other false k = tt

  -- What the handler hands to the job: changed blocks of the supported size, and a base or none.
  pub record IsReady (p : PreparedBackup) : Type 0 where
    pub supported : p.delta.block_size ≡ default_block_size
    pub chosen : ChosenFor p.volume p.last_backup

  Runs-close_and_raise :
      {A : Type 0} (Q : A → Type 0) (v : Bytes) (e : Error)
      → Runs Any (close_and_raise env config v e) Q
  unfolding close_and_raise
  Runs-close_and_raise Q v e = Runs-after Q _ _ (Keeps-Any _) λ r.
      Runs-on_result (λ a. Unit {0}) Q r _ _ (OkIs_of_eq _ r (λ _ _. tt)) (λ _ _. Runs-raise Q _)
        (λ _. Runs-raise Q _)

  abbrev Supported : Mappings → Type 0
  Supported d = d.block_size ≡ default_block_size

  Runs-compare : (v : Bytes) (last : Option Backup) → Runs Any (compare env config v last) Supported
  unfolding compare
  Runs-compare v last = Runs-after Supported _ _ (Keeps-Any _) λ r.
      Runs-on_result (λ a. Unit {0}) Supported r _ _ (OkIs_of_eq _ r (λ _ _. tt))
        (λ d _.
          Runs-if Supported (d.block_size == default_block_size) _ _
            (λ e. Runs-pure Supported d (ground arith)) (λ _. Runs-close_and_raise Supported v _))
        (λ e. Runs-close_and_raise Supported v e)

  -- Whatever the calls return, a backup that is prepared has changed blocks of the supported size and
  -- is compared with the volume's last backup only: one that was loaded, of another snapshot that is
  -- still there or has no name, when no full backup was asked for.
  pub prepare_backup-IsReady : Runs Any (prepare_backup env config) IsReady
  unfolding prepare_backup
  prepare_backup-IsReady = Runs-after IsReady _ _ (Keeps-Any _) λ _.
      Runs-after IsReady _ _ (Keeps-Any _) λ volume. Runs-after IsReady _ _ (Keeps-Any _) λ _.
        Runs-bind (ChosenFor volume) IsReady _ _ (Runs-choose volume) λ last chosen.
          Runs-bind Supported IsReady _ _ (Runs-compare volume.name last) λ delta supported.
            Runs-pure IsReady _ (record { supported = supported; chosen = chosen })
