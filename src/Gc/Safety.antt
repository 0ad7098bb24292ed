-- ===== src/Gc/Safety.antt =====
-- DeleteDeltaBlockBackup (deltablock.go) never loses a block of a backup that stays.
pub mod Whole
use mathlib.Core.Option.{some-injective}
use backupstore.Base.{
  ◌≡◌, ◌∙◌, refl, sym, Bool, true, false, Option, some, List, [], ◌∷◌, arith, Bytes, Has, inl, inr,
  ◌⊎◌, ℕ, All, ◌=b◌, ◌<◌, Bool-cases, =b_iff,
}
use backupstore.Base.Outcome.{Result, ok, pure, attempt, on_result}
use backupstore.Driver.{FilePath}
use backupstore.Driver.Laws.{DriverLaws}
use backupstore.Driver.Runs.{
  Runs, OkIs, Runs-bind, Runs-pure, Runs-on_result, Runs-if, Runs-after, Runs-attempt, OkIs_of_eq,
  Runs-lift, Runs-raise, Runs-weaken, Keeps, Keeps-pure, keeps_rules, Keeps-bind, Keeps-raise,
  Keeps-if, Keeps-attempt,
}
use backupstore.Util.Names.{validate_name}
use backupstore.Util.Names.Extract.{extract_names-Has}
use backupstore.Config.Paths.{
  get_block_file_path, get_backup_path, get_backup_config_path, get_backup_config_name,
  backup_config_prefix, cfg_suffix, get_volume_file_path,
}
use backupstore.Config.Store.{
  is_backup_in_progress, Env, Backup, load_backup, get_backup_names_for_volume, load_config, Volume,
}
use backupstore.Config.Keeps.{
  Guarded, Keeps-load_backup, Writable, Keeps-load_volume, Keeps-save_volume,
}
use backupstore.Config.Holding.{HostLaws, Holding, Guarded-Holding, Keeps-write, Keeps-remove}
use backupstore.Gc.Infos.{
  BlockInfo, IsReferenced, RefersTo, check_block_reference_count, check-IsReferenced,
  check-RefersTo, is_block_safe_to_delete,
}
use backupstore.Gc.Entries.{WellFormed, check-WellFormed, IsLocated, All-kept}
use backupstore.Gc.Delete.{
  Scan, scan_backups, finish_cleanup, list_blocks, get_block_names_for_volume, cleanup_blocks,
  get_latest_backup, save_last, cleanup_loop, list_dirs, Cleanup,
}
use backupstore.Config.Separate.{any_volume-block, any_volume-backup, block-block, block-backup}

-- A volume `v`, a backup `n` of it that stays, with the content `j` of its configuration, and a block
-- that it refers to, with its path `p`. The backups' directory can be listed while it holds the
-- configuration.
pub record Staying {W : Type 0} (env : Env W) (laws : DriverLaws env.driver) : Type 0 where
  pub v : Bytes
  pub n : Bytes
  pub c : Bytes
  pub p : FilePath
  pub j : Bytes
  pub b : Backup
  pub at_path : get_block_file_path env.site v c ≡ ok p
  pub valid : validate_name n ≡ true
  pub decodes : env.backups.unmarshal j ≡ ok b
  pub refers : RefersTo c b.blocks
  pub listable :
      (w : W)
      → laws.content w (get_backup_config_path env.site n v) ≡ some j
      → (names : List Bytes) × ((env.driver.list (get_backup_path env.site v) w).0 ≡ ok names)

module _ {W : Type 0} (env : Env W) (laws : DriverLaws env.driver) (host : HostLaws env laws)
    (s : Staying env laws) (d : Bytes) where
  open env use {driver, site}
  open laws use {content}
  open s use {v, n, c, p, j}

  -- The block and the configuration are there.
  abbrev files : List (FilePath × Option Bytes)
  files = (p, some d) ∷ (get_backup_config_path site n v, some j) ∷ []

  abbrev P : W → Type 0
  P = Holding env laws host files

  guarded : Guarded env P
  guarded = Guarded-Holding env laws host files

  -- A listing of the backups' directory has the backup's file, and gives its name.
  Runs-Names : Runs P (get_backup_names_for_volume env v) (Has n)
  unfolding get_backup_names_for_volume get_backup_config_path on_result attempt
  Runs-Names =
      Runs-bind Listed (Has n) _ _
        (record {
          at = λ w h.
              let (names, e) = s.listable w h.1.0 in
              (
                (guarded.list _).at w h,
                (names, e, laws.list_ok _ [] (get_backup_config_name n) j names w e h.1.0),
              );
        })
        λ r q.
          let (names, e, h) = q in
          rw e (
            Runs-pure (Has n) _
              (extract_names-Has backup_config_prefix n cfg_suffix names refl s.valid h))
    where
      Listed : Result (List Bytes) → Type 0
      Listed r = (names : List Bytes) × (r ≡ ok names) × Has (get_backup_config_name n) names

  -- The backup, where it can be loaded, refers to the block.
  Runs-load : Runs P (load_backup env n v) (λ b. RefersTo c b.blocks)
  unfolding load_backup load_config
  Runs-load =
      Runs-bind R R _ _
        (Runs-after R _ _ (guarded.file_exists _) λ found.
          Runs-if R found _ _
            (λ _.
              Runs-bind (λ content. content ≡ j) R _ _
                (record { at = λ w h. ((guarded.read _).at w h, reads w h) })
                λ content e. Runs-lift R _ (rw (e, s.decodes) s.refers))
            (λ _. Runs-raise R _))
        (λ b h. Runs-pure R _ h)
    where
      R : Backup → Type 0
      R b = RefersTo c b.blocks

      reads :
          (w : W)
          → P w
          → OkIs (λ content. content ≡ j) (driver.read (get_backup_config_path site n v) w).0
      reads w h = OkIs_of_eq _ _ λ a e. some-injective a j (sym (laws.read_ok _ a w e) ∙ h.1.0)

  -- The infos after the loop: well-formed, and with a reference to the block unless the loop stopped.
  record Sound (scan : Scan) : Type 0 where
    well_formed : WellFormed (get_block_file_path site v) c scan.infos
    referenced : scan.delete_blocks ≡ true → IsReferenced c scan.infos

  Runs-scan :
      (u : Bool) (names : List Bytes) (infos : List BlockInfo) (last : Backup)
      → WellFormed (get_block_file_path site v) c infos
      → Has n names ⊎ IsReferenced c infos
      → Runs P (scan_backups env u v names infos last) Sound
  unfolding scan_backups
  Runs-scan u [] infos last wf (inl h) = absurd h
  Runs-scan u [] infos last wf (inr h) =
      Runs-pure Sound _ (record { well_formed = wf; referenced = λ _. h })
  Runs-scan u (name ∷ names) infos last wf h =
      Runs-bind (OkIs Q) Sound _ _ (Runs-attempt Q _ (load h)) λ r q.
        Runs-on_result Q Sound r _ _ q
          (λ b hb.
            let wf' = check-WellFormed (get_block_file_path site v) c infos b.blocks wf in
            let rest = λ (latest : Backup).
              Runs-scan u names (check_block_reference_count infos b.blocks) latest wf'
                (counted b hb) in
            Runs-if Sound (is_backup_in_progress b) _ _ (λ _. stop infos wf)
              (λ _.
                Runs-if Sound u _ _
                  (λ _.
                    Runs-on_result (λ _. Unit) Sound (get_latest_backup env.parse_time b last) _ _
                      (OkIs_of_eq _ (get_latest_backup env.parse_time b last) (λ _ _. tt))
                      (λ latest _. rest latest) (λ e. stop _ wf'))
                  (λ _. rest last)))
          (λ e. stop infos wf)
    where
      Q : Backup → Type 0
      Q b = Has n names ⊎ (RefersTo c b.blocks ⊎ IsReferenced c infos)

      load : Has n (name ∷ names) ⊎ IsReferenced c infos → Runs P (load_backup env name v) Q
      load (inl (inl e)) = rw e (Runs-weaken _ Q _ Runs-load (λ b x. inr (inl x)))
      load (inl (inr k)) = record {
        at = λ w x. ((Keeps-load_backup env guarded name v).at w x, OkIs_of_eq Q _ (λ b _. inl k));
      }
      load (inr k) = record {
        at = λ w x.
            ((Keeps-load_backup env guarded name v).at w x, OkIs_of_eq Q _ (λ b _. inr (inr k)));
      }

      counted :
          (b : Backup)
          → Q b
          → Has n names ⊎ IsReferenced c (check_block_reference_count infos b.blocks)
      counted b (inl k) = inl k
      counted b (inr (inl k)) = inr (check-RefersTo c infos b.blocks k)
      counted b (inr (inr k)) = inr (check-IsReferenced c infos b.blocks k)

      stop :
          (is : List BlockInfo)
          → WellFormed (get_block_file_path site v) c is
          → Runs P (pure (record { infos = is; last = last; delete_blocks = false })) Sound
      stop is k =
          Runs-pure Sound _ (record { well_formed = k; referenced = λ f. absurd (ground arith) })

  -- Removing the path of another block, or of no block at all.
  Keeps-remove_block :
      (i : BlockInfo)
      → IsLocated (get_block_file_path site v) i
      → ((i.checksum =b c) ≡ false) ⊎ (0 < i.refcount)
      → is_block_safe_to_delete i ≡ true
      → Keeps P (driver.remove i.path)
  unfolding is_block_safe_to_delete
  Keeps-remove_block i (inl e) k safe = absurd (ground arith)
  Keeps-remove_block i (inr e) (inr k) safe = absurd (ground arith)
  Keeps-remove_block i (inr e) (inl k) safe = Keeps-remove env laws host i.path files (
    block-block site v i.checksum c i.path p (λ q. ground (arith, =b_iff i.checksum c)) e s.at_path,
    (block-backup site v n i.checksum i.path e, tt),
  )

  Keeps-cleanup :
      (infos : List BlockInfo) (x : Cleanup)
      → All (IsLocated (get_block_file_path site v)) infos
      → All (λ i. ((i.checksum =b c) ≡ false) ⊎ (0 < i.refcount)) infos
      → Keeps P (cleanup_loop env infos x)
  unfolding cleanup_loop
  Keeps-cleanup [] x l k = Keeps-pure x
  Keeps-cleanup (i ∷ infos) x l k = elim (Bool-cases (is_block_safe_to_delete i)) [
    | inl safe ↦ rw safe (
        Keeps-bind _ _ (Keeps-attempt _ (Keeps-remove_block i l.0 k.0 safe))
          λ r. Keeps-cleanup infos _ l.1 k.1)
    | inr unsafe ↦ rw unsafe (Keeps-cleanup infos _ l.1 k.1)
  ]

  -- A volume's configuration is none of the files.
  Writable-volume : (u : Bytes) → Writable env P (get_volume_file_path site u)
  Writable-volume u =
      Keeps-write env laws host (get_volume_file_path site u) files
        (any_volume-block site u v c p s.at_path, (any_volume-backup site u v n, tt))

  Keeps-finish : (f : List Bytes) (active : ℕ) → Keeps P (finish_cleanup env f active v)
  unfolding finish_cleanup
  Keeps-finish (x ∷ f) active = Keeps-raise _
  Keeps-finish [] active =
      Keeps-bind _ _ (Keeps-load_volume env guarded v)
        λ u. Keeps-save_volume env guarded _ (Writable-volume u.name)

  Keeps-cleanup_blocks :
      (infos : List BlockInfo)
      → WellFormed (get_block_file_path site v) c infos
      → IsReferenced c infos
      → Keeps P (cleanup_blocks env infos v)
  unfolding cleanup_blocks
  Keeps-cleanup_blocks infos wf r =
      Keeps-bind _ _ (Keeps-cleanup infos _ wf.located (All-kept c infos wf.once r))
        λ x. Keeps-finish x.failures x.active

  Keeps-list_blocks : (q : FilePath) (dirs : List Bytes) → Keeps P (list_blocks env q dirs)
  unfolding list_blocks
  Keeps-list_blocks q [] = Keeps-pure _
  Keeps-list_blocks q (x ∷ dirs) =
      Keeps-bind _ _ (guarded.list _)
        λ a. Keeps-bind _ _ (Keeps-list_blocks q dirs) λ b. Keeps-pure _

  Keeps-list_dirs : (q : FilePath) (dirs : List Bytes) → Keeps P (list_dirs env q dirs)
  unfolding list_dirs
  Keeps-list_dirs q [] = Keeps-pure _
  Keeps-list_dirs q (x ∷ dirs) = Keeps-bind _ _ (guarded.list _) λ a.
      Keeps-bind _ _ (Keeps-list_blocks _ a)
        λ b. Keeps-bind _ _ (Keeps-list_dirs q dirs) λ c. Keeps-pure _

  Keeps-block_names : Keeps P (get_block_names_for_volume env v)
  unfolding get_block_names_for_volume
  Keeps-block_names = search (keeps_rules, guarded.list, Keeps-list_dirs)

  Keeps-save_last : (u : Bool) (x : Scan) (vol : Volume) → Keeps P (save_last env u x vol)
  unfolding save_last
  Keeps-save_last u x vol =
      Keeps-if _ _ _ (Keeps-save_volume env guarded _ (Writable-volume vol.name)) (Keeps-pure _)
