-- ===== src/SingleFile/Stored.antt =====
-- What the backups of singlefile.go leave in the store, and what a restore reads of them.
use mathlib.Core.List.{append_assoc}
use backupstore.Base.{arith, ◌=b◌, ap, refl, some, ◌≡◌, ◌∙◌, ◌∷◌, [], Bytes, ℕ, ◌++◌, codes, sym}
use backupstore.Base.Outcome.{ok, Exec, pure, attempt, ◌>>◌}
use backupstore.Driver.{FilePath}
use backupstore.Driver.Laws.{DriverLaws}
use backupstore.Driver.Runs.{Keeps-attempt}
use backupstore.Driver.Leaves.{
  Leaves, OkLeaves_of_eq, Leaves-pure, Leaves-if, Leaves-bind, Leaves-raise, Leaves-on_result,
  Leaves-of_Keeps, Leaves-lift,
}
use backupstore.Config.Paths.{get_backup_config_path, Site, get_volume_path}
use backupstore.Config.Store.{
  Env, Volume, Backup, save_backup, save_config, load_backup, load_config, with_legacy_method,
}
use backupstore.Config.Keeps.{Guarded, Keeps-load_volume}
use backupstore.Config.Holding.{HostLaws, Holding, Guarded-Holding}
use backupstore.Upload.Perform.{Snapshot}
use backupstore.SingleFile.{base_name, get_single_file_backup_file_path, create_at, restore_at}

base_name-append : (p : FilePath) (n : Bytes) → base_name (p ++ n ∷ []) ≡ n
unfolding base_name
base_name-append [] n = refl
base_name-append (a ∷ []) n = refl
base_name-append (a ∷ b ∷ p) n = base_name-append (b ∷ p) n

base_name-get_single_file_backup_file_path :
    (site : Site) (b : Backup)
    → base_name (get_single_file_backup_file_path site b) ≡ b.name ++ codes ".bak"
unfolding get_single_file_backup_file_path
base_name-get_single_file_backup_file_path site b =
    ap base_name
      (sym (append_assoc (get_volume_path site b.volume_name) (codes "BackupFiles" ∷ []) _))
    ∙ base_name-append _ _

module _ {W : Type 0} (env : Env W) (laws : DriverLaws env.driver) where
  open env use {driver, site}
  open laws use {content}

  abbrev pub Any : W → Type 0
  Any w = Unit {0}

  Leaves-Any : {A : Type 0} (m : Exec W A) → Leaves Any m (λ _. Any)
  Leaves-Any m = record { at = λ w h. OkLeaves_of_eq (λ _. Any) _ _ (λ _ _. tt) }

  -- The store holds the configuration of a backup with these names, of the one file that they give.
  pub record IsStored (names : Bytes × Bytes) (w : W) : Type 0 where
    pub backup : Backup
    pub named : backup.name ≡ names.0
    pub volume_named : backup.volume_name ≡ names.1
    pub single : backup.single_file ≡ get_single_file_backup_file_path site backup
    pub saved :
        content w (get_backup_config_path site names.0 names.1) ≡ some (env.backups.marshal backup)

  Leaves-save :
      (b : Backup)
      → b.single_file ≡ get_single_file_backup_file_path site b
      → Leaves Any (save_backup env b) (λ _. IsStored (b.name, b.volume_name))
  unfolding save_backup save_config
  Leaves-save b e =
      Leaves-if (λ _. IsStored (b.name, b.volume_name)) (b.volume_name =b []) _ _
        (λ _. Leaves-raise (λ _. IsStored (b.name, b.volume_name)) _)
        (λ _. record {
          at = λ w h.
              OkLeaves_of_eq (λ _. IsStored (b.name, b.volume_name)) _ _
                (λ _ done. record {
                  backup = b;
                  named = refl;
                  volume_named = refl;
                  single = e;
                  saved = laws.write_ok _ _ w done;
                });
        })

  -- A single-file backup that is created without an error leaves its configuration in the store, with
  -- the path of its file, under the names that its URL has: when the driver keeps its contract.
  pub create_at-IsStored :
      (format_time : ℕ → Bytes) (name : Bytes) (volume : Volume) (snapshot : Snapshot)
      (file_path : Bytes)
      → Leaves Any (create_at env format_time name volume snapshot file_path) IsStored
  unfolding create_at get_single_file_backup_file_path
  create_at-IsStored format_time name volume snapshot file_path =
      Leaves-bind (λ _. Any) IsStored _ _ (Leaves-Any _)
        λ _.
          Leaves-bind (λ _. Any) IsStored _ _ (Leaves-Any _)
            λ v.
              Leaves-bind (λ _. Any) IsStored _ _ (Leaves-Any _)
                λ _.
                  Leaves-bind (λ _. Any) IsStored _ _ (Leaves-Any _)
                    λ now.
                      Leaves-bind (λ _. IsStored (name, v.name)) IsStored _ _ (Leaves-save _ refl)
                        λ _. Leaves-pure IsStored _ (λ w h. h)

  -- What a restore did last: it downloaded the file that the names give.
  module _ (join : Bytes → Bytes → Bytes) (path : Bytes) where
    pub record IsDownloaded (backup : Backup) (dst : Bytes) (w : W) : Type 0 where
      pub destination : dst ≡ join path (backup.name ++ codes ".bak")
      pub before : W
      pub done :
          (driver.download (get_single_file_backup_file_path site backup) dst before).0 ≡ ok tt
      pub after : w ≡ (driver.download (get_single_file_backup_file_path site backup) dst before).1

    module _ (host : HostLaws env laws) (backup_name volume_name : Bytes) (backup : Backup)
        (single : backup.single_file ≡ get_single_file_backup_file_path site backup)
        (decoded : env.backups.unmarshal (env.backups.marshal backup) ≡ ok backup) where
      abbrev P : W → Type 0
      P = Holding env laws host (
          (get_backup_config_path site backup_name volume_name, some (env.backups.marshal backup))
          ∷ [])

      guarded : Guarded env P
      guarded = Guarded-Holding env laws host (
          (get_backup_config_path site backup_name volume_name, some (env.backups.marshal backup))
          ∷ [])

      abbrev Loaded : Backup → W → Type 0
      Loaded b w = b ≡ with_legacy_method backup

      Leaves-load : Leaves P (load_backup env backup_name volume_name) Loaded
      unfolding load_backup load_config
      Leaves-load =
          Leaves-bind (λ b w. b ≡ backup) Loaded _ _
            (Leaves-bind (λ _. P) (λ b w. b ≡ backup) _ _
              (Leaves-of_Keeps _ (guarded.file_exists _))
              λ found.
                Leaves-if (λ b w. b ≡ backup) found _ _
                  (λ _.
                    Leaves-bind (λ c w. c ≡ env.backups.marshal backup) (λ b w. b ≡ backup) _ _
                      (record {
                        at = λ w h.
                            OkLeaves_of_eq (λ c w. c ≡ env.backups.marshal backup) _ _
                              (λ c e. (let r = laws.read_ok _ c w e in ground (arith, r, h.0)));
                      })
                      λ c.
                        Leaves-lift (λ b w. b ≡ backup) _
                          (λ b w e h. ground (arith, e, h, decoded)))
                  (λ _. Leaves-raise (λ b w. b ≡ backup) _))
            λ b. Leaves-pure Loaded _ (λ w e. ap with_legacy_method e)

      Leaves-download :
          (b : Backup)
          → Leaves
              (Loaded b)
              (do
                let dst = join path (base_name b.single_file)
                driver.download b.single_file dst
                pure dst)
              (IsDownloaded backup)
      Leaves-download b =
          Leaves-bind (λ _. IsDownloaded backup (join path (base_name b.single_file)))
            (IsDownloaded backup) _ _
            (record {
              at = λ w e.
                  OkLeaves_of_eq (λ _. IsDownloaded backup (join path (base_name b.single_file))) _
                    _ (λ u d. downloaded w (ap (λ (b : Backup). b.single_file) e ∙ single) d);
            })
            λ _. Leaves-pure (IsDownloaded backup) _ (λ w h. h)
        where
          dst : Bytes
          dst = join path (base_name b.single_file)

          downloaded :
              (w : W)
              → b.single_file ≡ get_single_file_backup_file_path site backup
              → (driver.download b.single_file dst w).0 ≡ ok tt
              → IsDownloaded backup dst (driver.download b.single_file dst w).1
          downloaded w f d = record {
            destination =
                ap (join path)
                  (ap base_name f ∙ base_name-get_single_file_backup_file_path site backup);
            before = w;
            done = ap (λ p. (driver.download p dst w).0) (sym f) ∙ d;
            after = ap (λ p. (driver.download p dst w).1) f;
          }

      -- A restore of a backup of which the store holds such a configuration, where it returns no error,
      -- has at last downloaded the backup's file, to the backup's name in the given directory: when the
      -- driver keeps its contract, and the configuration is decoded to what was encoded.
      pub restore_at-IsDownloaded :
          Leaves P (restore_at env join backup_name volume_name path) (IsDownloaded backup)
      unfolding restore_at attempt
      restore_at-IsDownloaded =
          Leaves-bind (λ _. P) (IsDownloaded backup) _ _
            (Leaves-of_Keeps _ (Keeps-attempt _ (Keeps-load_volume env guarded volume_name)))
            λ r.
              Leaves-on_result (IsDownloaded backup) r _ _
                (λ v _.
                  Leaves-bind Loaded (IsDownloaded backup) _ _ Leaves-load λ b. Leaves-download b)
                (λ e _. Leaves-raise (IsDownloaded backup) _)
