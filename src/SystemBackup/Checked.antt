-- ===== src/SystemBackup/Checked.antt =====
-- A download of a system backup is checked (systembackup/system_backup.go).
use backupstore.Base.{◌≡◌, refl, Bytes, ◌=b◌, =b-eq}
use backupstore.Base.Outcome.{Result, ok, Exec, attempt}
use backupstore.Driver.Leaves.{
  Leaves, OkLeaves_of_eq, Leaves-pure, Leaves-if, Leaves-bind, Leaves-attempt, Leaves-raise,
  Leaves-on_result,
}
use backupstore.Config.Store.{Env, Codec}
use backupstore.Access.{Access}
use backupstore.SystemBackup.{SystemConfig, download_from, download}

module _ {W : Type 0} (access : Access W) (codec : Codec SystemConfig)
    (get_file_checksum : Bytes → Exec W Bytes) (remove_local : Bytes → Exec W (Unit {0}))
    (local_file_path : Bytes) (cfg : SystemConfig) where
  -- The last call was the one that read the checksum of the local file, and it gave that of the
  -- config.
  abbrev pub IsChecked : W → Type 0
  IsChecked w =
      (before : W) × ((get_file_checksum local_file_path before).0 ≡ ok cfg.checksum)
      × (w ≡ (get_file_checksum local_file_path before).1)

  abbrev Read : Result Bytes → W → Type 0
  Read r w =
      (before : W) × ((get_file_checksum local_file_path before).0 ≡ r)
      × (w ≡ (get_file_checksum local_file_path before).1)

  abbrev Any : W → Type 0
  Any w = Unit {0}

  abbrev Post : Unit {0} → W → Type 0
  Post u = IsChecked

  Leaves-Any : {A : Type 0} (m : Exec W A) → Leaves Any m (λ _. Any)
  Leaves-Any m = record { at = λ w h. OkLeaves_of_eq (λ _. Any) _ _ (λ _ _. tt) }

  Leaves-download_from :
      (env : Env W)
      → Leaves Any
          (download_from access codec get_file_checksum remove_local env local_file_path cfg)
          Post
  unfolding download_from attempt
  Leaves-download_from env =
      Leaves-bind (λ _. Any) Post _ _ (Leaves-Any _)
        λ found.
          Leaves-if Post found _ _
            (λ _.
              Leaves-bind (λ _. Any) Post _ _ (Leaves-Any _)
                λ _. Leaves-bind Read Post _ _ (Leaves-attempt Read _ (λ w h. (w, refl, refl))) λ r.
                  Leaves-on_result Post r _ _
                    (λ sum e.
                      Leaves-if Post (sum =b cfg.checksum) _ _
                        (λ same.
                          Leaves-pure Post tt (λ w h. rw (e, =b-eq sum cfg.checksum same) at h))
                        (λ _.
                          Leaves-bind (λ _ w. Unit {0}) Post _ _ (record { at = λ w h. tt })
                            λ _. Leaves-raise Post _))
                    (λ e _. Leaves-raise Post _))
            (λ _. Leaves-raise Post _)

  -- A download that returns no error ends with a reading of the local file's checksum, which is that
  -- of the config; whatever the driver wrote, and for every target.
  pub download-IsChecked :
      Leaves Any (download access codec get_file_checksum remove_local local_file_path cfg) Post
  unfolding download
  download-IsChecked =
      Leaves-bind (λ _. Any) Post _ _ (Leaves-Any _) λ env. Leaves-download_from env
