-- ===== src/Gc/Safety/Whole.antt =====
-- The whole of DeleteDeltaBlockBackup (deltablock.go), under its lock.
use backupstore.Base.{
  ◌≡◌, ◌∙◌, refl, sym, Option, some, List, [], ◌∷◌, Bytes, Has, inl, inr, Bool-cases, ◌≢◌,
  if◌then◌else◌, ◌&&◌,
}
use backupstore.Base.Outcome.{Result, ok, pure, Exec, err}
use backupstore.Driver.Laws.{DriverLaws}
use backupstore.Gc.Safety.{
  Staying, files, P, guarded, Runs-Names, Sound, Runs-scan, Keeps-cleanup_blocks, Keeps-block_names,
  Keeps-save_last,
}
use backupstore.Driver.Runs.{
  Leads, Leads-bind, Leads-of_Keeps, Keeps-if, Runs, OkIs, Runs-bind, Runs-pure, Runs-if,
  Runs-after, Runs-attempt, OkIs_of_eq, Runs-lift, Runs-raise, Keeps, Keeps-pure, Keeps-bind,
  Keeps-if, Keeps-of_Runs, Leads-on_result, Leads-then, Leads-attempt, Keeps-attempt, Keeps-lift,
  Keeps-raise,
}
use backupstore.Config.Paths.{get_backup_config_path, get_lock_file_path, get_block_file_path}
use backupstore.Config.Store.{Env, Backup, load_backup, load_config, remove_backup, empty_backup}
use backupstore.Config.Keeps.{Guarded, Keeps-load_volume, Keeps-get_backup_names}
use backupstore.Config.Holding.{
  HostLaws, Holding, Guarded-Holding, Keeps-remove, IsApart, Keeps-write,
}
use backupstore.Gc.Entries.{WellFormed-nil, WellFormed, init-WellFormed}
use backupstore.Gc.Delete.{
  Scan, cleanup_blocks, delete_locked, collect_garbage, delete_delta_block_backup,
}
use backupstore.Config.Separate.{backup-block, backup-backup, lock-block, lock-backup}
use backupstore.Util.Unordered.{unordered_equal}
use backupstore.Lock.Ops.{new_lock}
use backupstore.Lock.Priority.{deletion_lock}
use backupstore.Lock.Keeps.{OwnFile, Runs-lock_file, Keeps-unlock_file}

-- The backup to delete, whose configuration, if it can be read, carries its own name and volume.
pub record Doomed {W : Type 0} (env : Env W) (v : Bytes) (content : Option Bytes) : Type 0 where
  pub m : Bytes
  pub named :
      (x : Bytes) (b : Backup)
      → content ≡ some x
      → env.backups.unmarshal x ≡ ok b
      → (b.name ≡ m) × (b.volume_name ≡ v)

module _ {W : Type 0} (env : Env W) (laws : DriverLaws env.driver) (host : HostLaws env laws)
    (s : Staying env laws) (d : Bytes) (jm : Option Bytes) (doomed : Doomed env s.v jm) where
  open env use {driver, site}
  open laws use {content}
  open s use {v, n, c, p, j}
  open doomed use {m}

  abbrev Before : W → Type 0
  Before = Holding env laws host ((get_backup_config_path site m v, jm) ∷ files env laws host s d)

  abbrev After : W → Type 0
  After = P env laws host s d

  Before-guarded : Guarded env Before
  Before-guarded =
      Guarded-Holding env laws host
        ((get_backup_config_path site m v, jm) ∷ files env laws host s d)

  abbrev IsNamed : Backup → Type 0
  IsNamed b = (b.name ≡ m) × (b.volume_name ≡ v)

  Runs-load_doomed : Runs Before (load_backup env m v) IsNamed
  unfolding load_backup load_config
  Runs-load_doomed =
      Runs-bind IsNamed IsNamed _ _
        (Runs-after IsNamed _ _ (Before-guarded.file_exists _) λ found.
          Runs-if IsNamed found _ _
            (λ _.
              Runs-bind (λ content. jm ≡ some content) IsNamed _ _
                (record { at = λ w h. ((Before-guarded.read _).at w h, reads w h) })
                λ content e.
                  Runs-lift IsNamed _ (OkIs_of_eq _ _ (λ b q. doomed.named content b e q)))
            (λ _. Runs-raise IsNamed _))
        (λ b h. Runs-pure IsNamed _ h)
    where
      reads :
          (w : W)
          → Before w
          → OkIs (λ content. jm ≡ some content) (driver.read (get_backup_config_path site m v) w).0
      reads w h = OkIs_of_eq _ _ λ a e. sym h.0 ∙ laws.read_ok _ a w e

  module _ (other : m ≢ n) where
    Keeps-remove_doomed : (b : Backup) → IsNamed b → Keeps After (remove_backup env b)
    unfolding remove_backup
    Keeps-remove_doomed b h =
        rw (h.0, h.1)
          (Keeps-remove env laws host _ (files env laws host s d)
            (backup-block site v m c p s.at_path, (backup-backup site v m n other, tt)))

    -- The end of the deletion.
    Keeps-finish_deletion :
        (x : Scan) (names names_after : List Bytes)
        → Sound env laws host s d x
        → Keeps After (
            if x.delete_blocks && unordered_equal names names_after
            then cleanup_blocks env x.infos v
            else pure tt)
    Keeps-finish_deletion x names names_after q = elim (Bool-cases x.delete_blocks) [
      | inl t ↦
          Keeps-if _ _ _
            (Keeps-cleanup_blocks env laws host s d x.infos q.well_formed (q.referenced t))
            (Keeps-pure tt)
      | inr f ↦ rw f (Keeps-pure tt)
    ]

    abbrev Done : Unit {0} → Type 0
    Done _ = Unit {0}

    Runs-of_Keeps : (x : Exec W (Unit {0})) → Keeps After x → Runs After x Done
    Runs-of_Keeps x k = record { at = λ w h. (k.at w h, OkIs_of_eq Done _ (λ _ _. tt)) }

    Keeps-collect_garbage : (name : Bytes) → Keeps After (collect_garbage env name v)
    unfolding collect_garbage
    Keeps-collect_garbage name = Keeps-of_Runs Done _ (
        Runs-after Done _ _ (Keeps-load_volume env g v) λ vol.
          Runs-bind (Has n) Done _ _ (Runs-Names env laws host s d) λ names listed.
            Runs-after Done _ _ (Keeps-block_names env laws host s d) λ blocks.
              Runs-bind (WellFormed (get_block_file_path site v) c) Done _ _
                (Runs-lift _ _ (
                  OkIs_of_eq _ _ (λ infos e.
                    init-WellFormed (get_block_file_path site v) c blocks [] infos
                      (WellFormed-nil (get_block_file_path site v) c) e)))
                λ infos wf.
                  Runs-bind (Sound env laws host s d) Done _ _
                    (Runs-scan env laws host s d _ names infos empty_backup wf (inl listed))
                    λ x sound. Runs-after Done _ _ (Keeps-save_last env laws host s d _ x vol) λ _.
                      Runs-after Done _ _ (Keeps-get_backup_names env g v) λ names_after.
                        Runs-of_Keeps _ (Keeps-finish_deletion x names names_after sound))
      where
        g : Guarded env After
        g = guarded env laws host s d

    Leads-delete_locked : Leads Before After (delete_locked env m v)
    unfolding delete_locked
    Leads-delete_locked =
        Leads-bind (OkIs IsNamed) _ _ (λ w h. h.1) (Runs-attempt IsNamed _ Runs-load_doomed)
          λ r q.
            Leads-of_Keeps _ (λ w h. h.1)
              (Keeps-bind _ _ (Keeps-remove_doomed _ (named r q)) λ _. Keeps-collect_garbage _)
      where
        named :
            (r : Result Backup)
            → OkIs IsNamed r
            → IsNamed (elim r [
              | ok backup ↦ backup
              | err e ↦ record empty_backup { name = m; volume_name = v }
            ])
        named (ok b) q = q
        named (err e) q = (refl, refl)

    module _ (suffix : Bytes) where
      lock_name : Bytes
      lock_name = (new_lock v deletion_lock suffix).name

      own_before : OwnFile env Before-guarded v lock_name
      own_before = record {
        writable =
            Keeps-write env laws host _
              ((get_backup_config_path site m v, jm) ∷ files env laws host s d) apart;
        removable =
            Keeps-remove env laws host _
              ((get_backup_config_path site m v, jm) ∷ files env laws host s d) apart;
      }
        where
          apart :
              IsApart env laws host
                (get_lock_file_path site v lock_name)
                ((get_backup_config_path site m v, jm) ∷ files env laws host s d)
          apart = (
            lock-backup site v lock_name m,
            (lock-block site v lock_name c p s.at_path, (lock-backup site v lock_name n, tt)),
          )

      own_after : OwnFile env (guarded env laws host s d) v lock_name
      own_after = record {
        writable = Keeps-write env laws host _ (files env laws host s d) apart;
        removable = Keeps-remove env laws host _ (files env laws host s d) apart;
      }
        where
          apart :
              IsApart env laws host (get_lock_file_path site v lock_name) (files env laws host s d)
          apart = (lock-block site v lock_name c p s.at_path, (lock-backup site v lock_name n, tt))

      Leads-delete : Leads Before After (delete_delta_block_backup env m v suffix)
      unfolding delete_delta_block_backup lock_name new_lock
      Leads-delete =
          Leads-bind _ _ _ (λ w h. h.1)
            (Runs-lock_file env Before-guarded own_before _ (refl, refl))
            λ r own.
              Leads-on_result r.0 _ _
                (λ _. Leads-then _ _ (Leads-attempt _ Leads-delete_locked) λ deleted.
                  Keeps-bind _ _
                    (Keeps-attempt _
                      (Keeps-unlock_file env (guarded env laws host s d) own_after r.1 own))
                    λ _. Keeps-lift deleted)
                (λ e. Leads-of_Keeps _ (λ w h. h.1) (Keeps-raise e))

      -- Deleting a backup, whether it succeeds or fails at any call, leaves every block that another
      -- backup refers to, and that backup's configuration, as they were: when the store holds both
      -- before, the driver keeps its contract, the staying backup has a valid name, its directory can
      -- be listed, and the deleted configuration, where it can be read, names itself.
      pub delete_keeps_blocks :
          (w : W)
          → content w (get_backup_config_path site m v) ≡ jm
          → content w p ≡ some d
          → content w (get_backup_config_path site n v) ≡ some j
          → (content (delete_delta_block_backup env m v suffix w).1 p ≡ some d)
            × (content
                  (delete_delta_block_backup env m v suffix w).1
                  (get_backup_config_path site n v)
                ≡ some j)
      delete_keeps_blocks w hm hp hn =
          let kept = Leads-delete.at w (hm, (hp, (hn, tt))) in (kept.0, kept.1.0)
