-- ===== src/Images/Safety/Whole.antt =====
-- The whole of RemoveBackingImageBackup (backupbackingimage.go), under its lock.
use backupstore.Base.{
  ◌≡◌, ◌∙◌, refl, sym, Option, none, some, List, [], ◌∷◌, Bytes, Has, inl, ◌≢◌, if◌then◌else◌,
}
use backupstore.Base.Outcome.{Result, ok, err, pure, ◌>>=◌, Exec}
use backupstore.Driver.{FilePath}
use backupstore.Driver.Laws.{DriverLaws}
use backupstore.Driver.Runs.{
  Leads, Leads-bind, Leads-of_Keeps, Leads-on_result, Leads-then, Leads-attempt, Runs, OkIs,
  Runs-bind, Runs-pure, Runs-if, Runs-after, Runs-attempt, OkIs_of_eq, Runs-lift, Runs-raise, Keeps,
  Keeps-pure, Keeps-bind, Keeps-of_Runs, Keeps-on_result, Keeps-attempt,
}
use backupstore.Config.Paths.{get_lock_file_path}
use backupstore.Config.Store.{Env, Codec, load_config}
use backupstore.Config.Keeps.{Guarded}
use backupstore.Config.Holding.{
  HostLaws, Holding, Guarded-Holding, Keeps-remove, IsApart, Keeps-write,
}
use backupstore.Gc.Delete.{list_blocks, list_dirs}
use backupstore.Gc.Infos.{BlockInfo}
use backupstore.Gc.Entries.{WellFormed-nil, WellFormed, init-WellFormed}
use backupstore.Util.Unordered.{unordered_equal}
use backupstore.Lock.Ops.{FileLock, new_lock}
use backupstore.Lock.Priority.{deletion_lock}
use backupstore.Lock.Keeps.{OwnFile, Runs-lock_file, Keeps-unlock_file}
use backupstore.Lock.Hold.{under_lock, unlock_after}
use backupstore.Images.Store.{
  BackupBackingImage, get_backing_image_file_path, load_backing_image_config,
  remove_backup_backing_image, get_all_block_names, get_all_backup_backing_image_names,
}
use backupstore.Images.Separate.{image-image, image-block, lock-image, lock-image_block}
use backupstore.Images.Delete.{
  remove_image_locked, nameless_image, get_image_block_infos, cleanup_image_blocks, image_lock_name,
}
use backupstore.Images.Safety.{
  StayingImage, files, P, guarded, path_of, Runs-image_names, Counted, Runs-check,
  Keeps-cleanup_image_blocks,
}

-- The image to remove, whose configuration, if it can be read, carries its own name.
pub record DoomedImage (codec : Codec BackupBackingImage) (content : Option Bytes) : Type 0 where
  pub m : Bytes
  pub named :
      (x : Bytes) (b : BackupBackingImage)
      → content ≡ some x
      → codec.unmarshal x ≡ ok b
      → b.name ≡ m

module _ {W : Type 0} (env : Env W) (codec : Codec BackupBackingImage)
    (laws : DriverLaws env.driver) (host : HostLaws env laws) (s : StayingImage env codec laws)
    (d : Bytes) (jm : Option Bytes) (doomed : DoomedImage codec jm) (other : doomed.m ≢ s.n) where
  open env use {driver, site}
  open laws use {content}
  open s use {n, c, p, j}
  open doomed use {m}

  abbrev Before : W → Type 0
  Before =
      Holding env laws host
        ((get_backing_image_file_path site m, jm) ∷ files env codec laws host s d)

  abbrev After : W → Type 0
  After = P env codec laws host s d

  Before-guarded : Guarded env Before
  Before-guarded =
      Guarded-Holding env laws host
        ((get_backing_image_file_path site m, jm) ∷ files env codec laws host s d)

  After-guarded : Guarded env After
  After-guarded = guarded env codec laws host s d

  abbrev IsNamed : BackupBackingImage → Type 0
  IsNamed b = b.name ≡ m

  Runs-load_doomed : Runs Before (load_backing_image_config env codec m) IsNamed
  unfolding load_backing_image_config load_config
  Runs-load_doomed =
      Runs-bind IsNamed IsNamed _ _
        (Runs-after IsNamed _ _ (Before-guarded.file_exists _) λ found.
          Runs-if IsNamed found _ _
            (λ _.
              Runs-bind (λ content. jm ≡ some content) IsNamed _ _
                (record { at = λ w h. ((Before-guarded.read _).at w h, reads w h) })
                λ content e.
                  Runs-lift IsNamed _ (OkIs_of_eq _ _ (λ b q. doomed.named content b e q)))
            (λ _. Runs-raise IsNamed _))
        (λ b h. Runs-pure IsNamed _ h)
    where
      reads :
          (w : W)
          → Before w
          → OkIs
              (λ content. jm ≡ some content)
              (driver.read (get_backing_image_file_path site m) w).0
      reads w h = OkIs_of_eq _ _ λ a e. sym h.0 ∙ laws.read_ok _ a w e

  Keeps-remove_doomed :
      (b : BackupBackingImage) → IsNamed b → Keeps After (remove_backup_backing_image env codec b)
  unfolding remove_backup_backing_image
  Keeps-remove_doomed b h = rw h (
      Keeps-remove env laws host _ (files env codec laws host s d)
        (image-block site m c p s.at_path, (image-image site m n other, tt)))

  Keeps-list_blocks : (q : FilePath) (dirs : List Bytes) → Keeps After (list_blocks env q dirs)
  unfolding list_blocks
  Keeps-list_blocks q [] = Keeps-pure _
  Keeps-list_blocks q (x ∷ dirs) =
      Keeps-bind _ _ (After-guarded.list _)
        λ a. Keeps-bind _ _ (Keeps-list_blocks q dirs) λ b. Keeps-pure _

  Keeps-list_dirs : (q : FilePath) (dirs : List Bytes) → Keeps After (list_dirs env q dirs)
  unfolding list_dirs
  Keeps-list_dirs q [] = Keeps-pure _
  Keeps-list_dirs q (x ∷ dirs) = Keeps-bind _ _ (After-guarded.list _) λ a.
      Keeps-bind _ _ (Keeps-list_blocks _ a)
        λ b. Keeps-bind _ _ (Keeps-list_dirs q dirs) λ c. Keeps-pure _

  Keeps-block_names : Keeps After (get_all_block_names env codec)
  unfolding get_all_block_names
  Keeps-block_names = Keeps-bind _ _ (Keeps-attempt _ (After-guarded.list _)) λ r.
      Keeps-on_result r _ _ (λ dirs. Keeps-bind _ _ (Keeps-list_dirs _ dirs) λ names. Keeps-pure _)
        (λ e. Keeps-pure _)

  abbrev Path_of : Bytes → Result FilePath
  Path_of = path_of env codec laws host s d

  Runs-infos : Runs After (get_image_block_infos env codec) (WellFormed Path_of c)
  unfolding get_image_block_infos
  Runs-infos = Runs-after (WellFormed Path_of c) _ _ Keeps-block_names λ names.
      Runs-lift (WellFormed Path_of c) _ (
        OkIs_of_eq _ _
          (λ infos e. init-WellFormed Path_of c names [] infos (WellFormed-nil Path_of c) e))

  abbrev Done : Unit {0} → Type 0
  Done _ = Unit {0}

  -- What follows the removal of the configuration.
  Leads-remove_image : Leads Before After (remove_image_locked env codec m)
  unfolding remove_image_locked
  Leads-remove_image =
      Leads-bind (OkIs IsNamed) _ _ (λ w h. h.1) (Runs-attempt IsNamed _ Runs-load_doomed)
        λ r q.
          Leads-of_Keeps _ (λ w h. h.1)
            (Keeps-bind _ _ (Keeps-remove_doomed _ (named r q)) λ _. Keeps-of_Runs Done _ (
              Runs-bind (WellFormed Path_of c) Done _ _ Runs-infos λ infos wf.
                Runs-bind (Has n) Done _ _ (Runs-image_names env codec laws host s d)
                  λ names listed.
                    Runs-bind (Counted env codec laws host s d) Done _ _
                      (Runs-check env codec laws host s d names infos wf (inl listed))
                      λ counted k. clean names counted k))
    where
      named :
          (r : Result BackupBackingImage)
          → OkIs IsNamed r
          → IsNamed
              (elim r as (λ _. BackupBackingImage) [ ok image ↦ image | err e ↦ nameless_image m ])
      named (ok b) q = q
      named (err e) q = refl

      clean :
          (names : List Bytes) (counted : Option (List BlockInfo))
          → Counted env codec laws host s d counted
          → Runs After
              (elim counted as (λ _. Exec W (Unit {0})) [
                | none ↦ pure tt
                | some infos ↦ get_all_backup_backing_image_names env codec >>= λ names_after.
                    if unordered_equal names names_after
                    then cleanup_image_blocks env codec infos
                    else pure tt
              ])
              Done
      clean names none k = Runs-pure Done tt tt
      clean names (some infos) k =
          Runs-bind (Has n) Done _ _ (Runs-image_names env codec laws host s d) λ after _.
            Runs-if Done (unordered_equal names after) _ _
              (λ _. record {
                at = λ w h. (
                  (Keeps-cleanup_image_blocks env codec laws host s d infos k.0 k.1).at w h,
                  OkIs_of_eq Done _ (λ _ _. tt),
                );
              })
              (λ _. Runs-pure Done tt tt)

  module _ (suffix : Bytes) where
    lock_name : Bytes
    lock_name = (new_lock image_lock_name deletion_lock suffix).name

    own_before : OwnFile env Before-guarded image_lock_name lock_name
    own_before = record {
      writable =
          Keeps-write env laws host _
            ((get_backing_image_file_path site m, jm) ∷ files env codec laws host s d) apart;
      removable =
          Keeps-remove env laws host _
            ((get_backing_image_file_path site m, jm) ∷ files env codec laws host s d) apart;
    }
      where
        apart :
            IsApart env laws host
              (get_lock_file_path site image_lock_name lock_name)
              ((get_backing_image_file_path site m, jm) ∷ files env codec laws host s d)
        apart = (
          lock-image site image_lock_name lock_name m,
          (
            lock-image_block site image_lock_name lock_name c p s.at_path,
            (lock-image site image_lock_name lock_name n, tt),
          ),
        )

    own_after : OwnFile env After-guarded image_lock_name lock_name
    own_after = record {
      writable = Keeps-write env laws host _ (files env codec laws host s d) apart;
      removable = Keeps-remove env laws host _ (files env codec laws host s d) apart;
    }
      where
        apart :
            IsApart env laws host
              (get_lock_file_path site image_lock_name lock_name)
              (files env codec laws host s d)
        apart = (
          lock-image_block site image_lock_name lock_name c p s.at_path,
          (lock-image site image_lock_name lock_name n, tt),
        )

    abbrev locked_removal : Exec W (Result (Unit {0}) × FileLock)
    locked_removal =
        under_lock env (new_lock image_lock_name deletion_lock suffix)
          (remove_image_locked env codec m)

    Leads-locked_removal : Leads Before After locked_removal
    unfolding under_lock unlock_after lock_name new_lock
    Leads-locked_removal =
        Leads-bind _ _ _ (λ w h. h.1) (Runs-lock_file env Before-guarded own_before _ (refl, refl))
          λ r own.
            Leads-on_result r.0 _ _
              (λ _. Leads-then _ _ (Leads-attempt _ Leads-remove_image) λ removed.
                Keeps-bind _ _ (Keeps-unlock_file env After-guarded own_after r.1 own)
                  λ _. Keeps-pure _)
              (λ e. Leads-of_Keeps _ (λ w h. h.1) (Keeps-pure _))

    -- Removing a backing image, whether it succeeds or fails at any call, leaves every block that
    -- another image refers to, and that image's configuration, as they were: when the store holds
    -- both before, the driver keeps its contract, the images' directory can be listed while it holds
    -- the configuration, and the removed configuration, where it can be read, names itself.
    pub removal_keeps_blocks :
        (w : W)
        → content w (get_backing_image_file_path site m) ≡ jm
        → content w p ≡ some d
        → content w (get_backing_image_file_path site n) ≡ some j
        → (content (locked_removal w).1 p ≡ some d)
          × (content (locked_removal w).1 (get_backing_image_file_path site n) ≡ some j)
    removal_keeps_blocks w hm hp hn =
        let kept = Leads-locked_removal.at w (hm, (hp, (hn, tt))) in (kept.0, kept.1.0)
