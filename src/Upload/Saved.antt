-- ===== src/Upload/Saved.antt =====
-- A backup that performBackup (deltablock.go) completes is saved, with every block in the store.
pub mod Whole
use backupstore.Base.{
  ℕ, ◌≡◌, ◌∙◌, refl, false, Option, none, some, List, [], ◌∷◌, ◌++◌, Bytes, ◌=b◌, inl, inr,
}
use backupstore.Base.Outcome.{Result, ok, err, total, on_result, raise}
use backupstore.Driver.{FilePath, is_above}
use backupstore.Driver.Laws.{DriverLaws}
use backupstore.Driver.Leaves.{
  Leaves, Leaves-pure, Leaves-lift, Leaves-total, Leaves-if, Leaves-bind, Leaves-raise, Leaves-fact,
  OkLeaves_of_eq,
}
use backupstore.Blocks.Mapping.{BlockMapping}
use backupstore.Blocks.Sort.{sort_backup_blocks}
use backupstore.Config.Paths.{get_backup_config_path, get_block_file_path}
use backupstore.Config.Separate.{backup-block, any_volume-block, any_volume-backup}
use backupstore.Config.Store.{
  Env, Volume, Backup, save_backup, load_volume, save_volume, save_config, empty_backup,
}
use backupstore.Config.Keeps.{Guarded, Keeps-load_volume}
use backupstore.Config.Holding.{HostLaws}
use backupstore.Gc.Infos.{RefersTo}
use backupstore.Upload.Table.{Upload}
use backupstore.Upload.Store.{BackupConfig, Mapping}
use backupstore.Upload.Stored.{
  AreStored, AreStored-same, Settled, Good, ReadsOnly, next_block, Leaves-backup_mapping,
}
use backupstore.Upload.Refers.{
  RefersTo-append, RefersTo-left, RefersTo-right, RefersTo-merge, RefersTo-sort,
}
use backupstore.Upload.Perform.{
  Mappings, Request, merge_snapshot_map, completed, start_upload, backup_mappings, complete_backup,
  perform_backup,
}

-- The blocks of the last backup, if there is one.
abbrev pub blocks_of : Option Backup → List BlockMapping
blocks_of none = []
blocks_of (some b) = b.blocks

-- The completed backup has no block but those of the upload and of the last backup.
pub RefersTo-merge_snapshot_map :
    (c : Bytes) (delta_backup : Backup) (last : Option Backup) (bs uploaded : List BlockMapping)
    → (RefersTo c bs → RefersTo c uploaded)
    → RefersTo c (merge_snapshot_map (record delta_backup { blocks = bs }) last).blocks
    → RefersTo c (blocks_of last ++ uploaded)
unfolding merge_snapshot_map
RefersTo-merge_snapshot_map c delta_backup none bs uploaded k h = k h
RefersTo-merge_snapshot_map c delta_backup (some b) bs uploaded k h =
    elim (RefersTo-merge c bs b.blocks h) [
      | inl r ↦ RefersTo-right c b.blocks uploaded (k r)
      | inr r ↦ RefersTo-left c b.blocks uploaded r
    ]

pub merge_snapshot_map-name :
    (d : Backup) (last : Option Backup)
    → ((merge_snapshot_map d last).name ≡ d.name)
      × ((merge_snapshot_map d last).volume_name ≡ d.volume_name)
unfolding merge_snapshot_map
merge_snapshot_map-name d none = (refl, refl)
merge_snapshot_map-name d (some b) = (refl, refl)

module _ {W : Type 0} (env : Env W) (laws : DriverLaws env.driver) (host : HostLaws env laws)
    (config : BackupConfig W) (request : Request) (same : ReadsOnly env laws config) where
  open env use {driver, site}
  open laws use {content}
  open config use {volume_name}

  abbrev pub Stored : List BlockMapping → W → Type 0
  Stored bs = AreStored env laws config bs

  -- A write above no block leaves the blocks.
  pub Stored-write :
      (bs : List BlockMapping) (p : FilePath) (x : Bytes) (w : W)
      → ((c : Bytes) (q : FilePath)
          → get_block_file_path site volume_name c ≡ ok q
          → is_above p q ≡ false)
      → Stored bs w
      → Stored bs (driver.write p x w).1
  Stored-write bs p x w apart h c r =
      let (q, at_q, b, e) = h c r in (q, at_q, b, laws.write_other p q x w (apart c q at_q) ∙ e)

  -- The configuration of a backup of the volume is above no block.
  pub Leaves-save_any :
      (bs : List BlockMapping) (b : Backup)
      → b.volume_name ≡ volume_name
      → Leaves (Stored bs) (save_backup env b) (λ _. Stored bs)
  unfolding save_backup save_config
  Leaves-save_any bs b e =
      Leaves-if (λ _. Stored bs) (b.volume_name =b []) _ _ (λ _. Leaves-raise (λ _. Stored bs) _)
        (λ _. record {
          at = λ w h.
              OkLeaves_of_eq (λ _. Stored bs) _ _
                (λ _ _.
                  Stored-write bs _ _ w
                    (λ c q at_q. rw e (backup-block site volume_name b.name c q at_q)) h);
        })

  pub Leaves-backup_mappings :
      (kept : List BlockMapping) (block_size : ℕ) (ms : List Mapping) (u : Upload)
      → Leaves
          (Settled env laws config kept u)
          (backup_mappings env config request block_size ms u)
          (Good env laws config kept)
  unfolding backup_mappings
  Leaves-backup_mappings kept block_size [] u = Leaves-pure _ _ (λ w h. h)
  Leaves-backup_mappings kept block_size (m ∷ ms) u =
      Leaves-bind (Good env laws config kept) _ _ _
        (Leaves-backup_mapping env laws config kept block_size m u same)
        λ x.
          next_block env laws config kept (backup_mappings env config request block_size ms) x
            (λ v. Leaves-backup_mappings kept block_size ms v)

  -- The backup is saved under its name, and its blocks are in the store.
  pub record IsSaved (name : Bytes) (w : W) : Type 0 where
    pub backup : Backup
    pub named : backup.name ≡ name
    pub saved :
        content w (get_backup_config_path site name volume_name) ≡ some (env.backups.marshal backup)
    pub all_stored : Stored backup.blocks w

  IsSaved-same :
      (name : Bytes) (w w' : W)
      → ((q : FilePath) → content w' q ≡ content w q)
      → IsSaved name w
      → IsSaved name w'
  IsSaved-same name w w' k h = record {
    backup = h.backup;
    named = h.named;
    saved = k _ ∙ h.saved;
    all_stored = AreStored-same env laws config h.backup.blocks w w' k h.all_stored;
  }

  pub Guarded-IsSaved : (name : Bytes) → Guarded env (IsSaved name)
  unfolding total
  Guarded-IsSaved name = record {
    read = λ p. record { at = λ w. IsSaved-same name w _ (λ q. laws.read_same p q w) };
    list = λ p. record { at = λ w. IsSaved-same name w _ (λ q. laws.list_same p q w) };
    file_exists =
        λ p. record { at = λ w. IsSaved-same name w _ (λ q. laws.file_exists_same p q w) };
    file_time = λ p. record { at = λ w. IsSaved-same name w _ (λ q. laws.file_time_same p q w) };
    now = record { at = λ w. IsSaved-same name w _ (λ q. host.now_same q w) };
    sleep = λ n. record { at = λ w. IsSaved-same name w _ (λ q. host.sleep_same n q w) };
  }
