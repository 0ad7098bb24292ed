-- ===== src/Upload/Saved/Whole.antt =====
-- The whole of performBackup (deltablock.go) with one worker.
use backupstore.Base.{ℕ, ◌≡◌, ◌∙◌, refl, Option, List, [], ◌++◌, Bytes, ◌=b◌, inl, inr}
use backupstore.Base.Outcome.{Result, ok, err, on_result, raise}
use backupstore.Driver.Laws.{DriverLaws}
use backupstore.Driver.Leaves.{
  Leaves, Leaves-pure, Leaves-lift, Leaves-total, Leaves-if, Leaves-bind, Leaves-raise, Leaves-fact,
  OkLeaves_of_eq,
}
use backupstore.Blocks.Mapping.{BlockMapping}
use backupstore.Blocks.Sort.{sort_backup_blocks}
use backupstore.Config.Paths.{get_backup_config_path}
use backupstore.Config.Separate.{backup-block, any_volume-block, any_volume-backup}
use backupstore.Config.Store.{
  Env, Volume, Backup, save_backup, load_volume, save_volume, save_config, empty_backup,
}
use backupstore.Config.Keeps.{Keeps-load_volume}
use backupstore.Config.Holding.{HostLaws}
use backupstore.Gc.Infos.{RefersTo}
use backupstore.Upload.Table.{Upload}
use backupstore.Upload.Store.{BackupConfig}
use backupstore.Upload.Stored.{AreStored-same, Settled, Good, ReadsOnly}
use backupstore.Upload.Refers.{RefersTo-append, RefersTo-sort}
use backupstore.Upload.Perform.{
  Mappings, Request, merge_snapshot_map, completed, start_upload, backup_mappings, complete_backup,
  perform_backup,
}
use backupstore.Upload.Saved.{
  blocks_of, RefersTo-merge_snapshot_map, merge_snapshot_map-name, Stored, Stored-write, IsSaved,
  Guarded-IsSaved, Leaves-save_any, Leaves-backup_mappings,
}

module _ {W : Type 0} (env : Env W) (laws : DriverLaws env.driver) (host : HostLaws env laws)
    (config : BackupConfig W) (request : Request) (same : ReadsOnly env laws config) where
  open env use {driver, site}
  open laws use {content}
  open config use {volume_name}

  module _ (delta_backup : Backup) (here : delta_backup.volume_name ≡ volume_name) where
    abbrev Complete : Bytes × Bytes → W → Type 0
    Complete _ w = IsSaved env laws host config request same delta_backup.name w

    -- A backup of that name, with all blocks in the store, is saved.
    Leaves-save_backup :
        (bs : List BlockMapping) (b : Backup)
        → b.name ≡ delta_backup.name
        → b.volume_name ≡ volume_name
        → ((c : Bytes) → RefersTo c b.blocks → RefersTo c bs)
        → Leaves
            (Stored env laws host config request same bs)
            (save_backup env b)
            (λ _. IsSaved env laws host config request same delta_backup.name)
    unfolding save_backup save_config
    Leaves-save_backup bs b e e' sub =
        Leaves-if (λ _. IsSaved env laws host config request same delta_backup.name)
          (b.volume_name =b []) _ _
          (λ _. Leaves-raise (λ _. IsSaved env laws host config request same delta_backup.name) _)
          (λ _. record {
            at = λ w h.
                OkLeaves_of_eq (λ _. IsSaved env laws host config request same delta_backup.name) _
                  _ (λ _ done. saved w h done);
          })
      where
        saved :
            (w : W)
            → Stored env laws host config request same bs w
            → (driver.write
                (get_backup_config_path site b.name b.volume_name)
                (env.backups.marshal b)
                w).0
              ≡ ok tt
            → IsSaved env laws host config request same delta_backup.name
                (driver.write
                  (get_backup_config_path site b.name b.volume_name)
                  (env.backups.marshal b)
                  w).1
        saved w h done = record {
          backup = b;
          named = e;
          saved = rw (← e, ← e') (laws.write_ok _ _ w done);
          all_stored = λ c r.
              Stored-write env laws host config request same bs _ _ w
                (λ c q at_q. rw e' (backup-block site volume_name b.name c q at_q)) h c (sub c r);
        }

    Leaves-load_volume :
        (v : Bytes)
        → Leaves
            (IsSaved env laws host config request same delta_backup.name)
            (load_volume env v)
            (λ _. IsSaved env laws host config request same delta_backup.name)
    Leaves-load_volume v = record {
      at = λ w h.
          OkLeaves_of_eq (λ _. IsSaved env laws host config request same delta_backup.name) _ _
            (λ _ _.
              (Keeps-load_volume env
                  (Guarded-IsSaved env laws host config request same delta_backup.name) v).at
                w h);
    }

    Leaves-save_volume :
        (v : Volume)
        → Leaves
            (IsSaved env laws host config request same delta_backup.name)
            (save_volume env v)
            (λ _. IsSaved env laws host config request same delta_backup.name)
    unfolding save_volume save_config
    Leaves-save_volume v = record {
      at = λ w h.
          OkLeaves_of_eq (λ _. IsSaved env laws host config request same delta_backup.name) _ _
            (λ _ _. record {
              backup = h.backup;
              named = h.named;
              saved =
                  laws.write_other _ _ _ w
                    (any_volume-backup site v.name volume_name delta_backup.name)
                  ∙ h.saved;
              all_stored =
                  Stored-write env laws host config request same h.backup.blocks _ _ w
                    (any_volume-block site v.name volume_name) h.all_stored;
            });
    }

    Leaves-complete_backup :
        (block_size : ℕ) (last : Option Backup) (u : Upload)
        → Leaves
            (Settled env laws config (blocks_of last) u)
            (complete_backup env config request block_size delta_backup last u)
            Complete
    unfolding complete_backup
    Leaves-complete_backup block_size last u =
        Leaves-bind Sorted Complete _ _ (Leaves-lift Sorted _ (λ bs w e h. (e, h.1))) λ bs.
          Leaves-fact Complete _ λ e.
            Leaves-bind (λ _. Stored env laws host config request same (blocks_of last ++ u.blocks))
              Complete _ _
              (Leaves-total
                (λ _. Stored env laws host config request same (blocks_of last ++ u.blocks)) _
                (λ w h. AreStored-same env laws config _ w _ (λ q. host.now_same q w) h))
              λ now.
                Leaves-bind (λ _. IsSaved env laws host config request same delta_backup.name)
                  Complete _ _ (save bs now e)
                  λ _.
                    Leaves-bind (λ _. IsSaved env laws host config request same delta_backup.name)
                      Complete _ _ (Leaves-load_volume _)
                      λ v.
                        Leaves-bind
                          (λ _. IsSaved env laws host config request same delta_backup.name)
                          Complete _ _ (Leaves-save_volume _) λ _. Leaves-pure Complete _ (λ w h. h)
      where
        Sorted : List BlockMapping → W → Type 0
        Sorted bs w =
            (sort_backup_blocks u.blocks request.volume.size block_size ≡ ok bs)
            × Stored env laws host config request same (blocks_of last ++ u.blocks) w

        save :
            (bs : List BlockMapping) (now : ℕ)
            → sort_backup_blocks u.blocks request.volume.size block_size ≡ ok bs
            → Leaves
                (Stored env laws host config request same (blocks_of last ++ u.blocks))
                (save_backup env (
                  completed request
                    (request.format_time now)
                    u
                    last
                    (merge_snapshot_map (record delta_backup { blocks = bs }) last)))
                (λ _. IsSaved env laws host config request same delta_backup.name)
        save bs now e =
            let names = merge_snapshot_map-name (record delta_backup { blocks = bs }) last in
            Leaves-save_backup _ _ names.0 (names.1 ∙ here) λ c.
              RefersTo-merge_snapshot_map c delta_backup last bs u.blocks
                (RefersTo-sort c u.blocks request.volume.size block_size bs e)

    Leaves-perform :
        (delta : Mappings) (last : Option Backup)
        → Leaves
            (Stored env laws host config request same (blocks_of last))
            (perform_backup env config request delta delta_backup last)
            Complete
    unfolding perform_backup on_result
    Leaves-perform delta last =
        Leaves-bind (λ _. Stored env laws host config request same (blocks_of last)) Complete _ _
          in_progress
          λ _.
            Leaves-bind (λ _. Stored env laws host config request same (blocks_of last)) Complete _
              _
              (Leaves-lift (λ _. Stored env laws host config request same (blocks_of last)) _
                (λ n w e h. h))
              λ n.
                Leaves-bind (Good env laws config (blocks_of last)) Complete _ _ (uploaded n) finish
      where
        finish :
            (x : Result (Unit {0}) × Upload)
            → Leaves
                (Good env laws config (blocks_of last) x)
                (on_result x.0
                  (λ _. complete_backup env config request delta.block_size delta_backup last x.1)
                  (λ e. raise e))
                Complete
        finish (ok _, u) = Leaves-complete_backup delta.block_size last u
        finish (err e, u) = Leaves-raise Complete e

        in_progress :
            Leaves
              (Stored env laws host config request same (blocks_of last))
              (save_backup env (record empty_backup {
                name = delta_backup.name;
                volume_name = delta_backup.volume_name;
                compression_method = request.volume.compression_method;
              }))
              (λ _. Stored env laws host config request same (blocks_of last))
        in_progress =
            Leaves-save_any env laws host config request same (blocks_of last)
              (record empty_backup {
                name = delta_backup.name;
                volume_name = delta_backup.volume_name;
                compression_method = request.volume.compression_method;
              })
              here

        uploaded :
            (n : ℕ)
            → Leaves
                (Stored env laws host config request same (blocks_of last))
                (backup_mappings env config request delta.block_size delta.mappings
                  (start_upload n))
                (Good env laws config (blocks_of last))
        uploaded n = record {
          at = λ w h.
              (Leaves-backup_mappings env laws host config request same (blocks_of last)
                  delta.block_size delta.mappings (start_upload n)).at
                w
                (
                  refl,
                  λ c r. elim (RefersTo-append c (blocks_of last) [] r) [
                    | inl k ↦ h c k
                    | inr k ↦ absurd k
                  ],
                );
        }

    -- A backup of one worker that ends without an error is saved under its name, and every block of
    -- the saved configuration has a file in the store: given that the blocks of the last backup, if
    -- any, have files before, that the reads of the snapshot, the clock and the sleep change no file,
    -- that the driver keeps its contract, and that the backup is of the volume that is read.
    pub perform_backup-IsSaved :
        (delta : Mappings) (last : Option Backup) (w : W) (url : Bytes × Bytes)
        → Stored env laws host config request same (blocks_of last) w
        → (perform_backup env config request delta delta_backup last w).0 ≡ ok url
        → IsSaved env laws host config request same delta_backup.name
            (perform_backup env config request delta delta_backup last w).1
    perform_backup-IsSaved delta last w url h e = rw e at ((Leaves-perform delta last).at w h)
