-- ===== src/Images/Safety.antt =====
-- RemoveBackingImageBackup (backupbackingimage.go) never loses a block of an image that stays.
pub mod Whole
use mathlib.Core.Option.{some-injective}
use mathlib.Core.List.{append_assoc}
use backupstore.Base.{
  ◌≡◌, ◌∙◌, refl, sym, ap, codes, Bool, true, false, Option, none, some, List, [], ◌∷◌, ◌++◌, arith,
  Bytes, Has, inl, inr, ◌⊎◌, ℕ, All, ◌=b◌, ◌<◌, Bool-cases, =b_iff,
}
use backupstore.Base.Outcome.{failure, Result, ok, err, pure, attempt, on_result, raise}
use backupstore.Driver.{FilePath}
use backupstore.Driver.Laws.{DriverLaws}
use backupstore.Driver.Runs.{
  Runs, OkIs, Runs-bind, Runs-pure, Runs-on_result, Runs-if, Runs-after, Runs-attempt, OkIs_of_eq,
  Runs-lift, Runs-raise, Runs-weaken, Keeps, Keeps-pure, keeps_rules, Keeps-bind, Keeps-raise,
  Keeps-if, Keeps-attempt, Keeps-on_result,
}
use backupstore.Config.Store.{Env, Codec, load_config}
use backupstore.Config.Keeps.{Guarded, Keeps-load_config}
use backupstore.Config.Holding.{HostLaws, Holding, Guarded-Holding, Keeps-remove}
use backupstore.Gc.Infos.{
  BlockInfo, IsReferenced, RefersTo, check_block_reference_count, check-IsReferenced,
  check-RefersTo, is_block_safe_to_delete,
}
use backupstore.Gc.Entries.{WellFormed, check-WellFormed, IsLocated, All-kept}
use backupstore.Images.Store.{
  BackupBackingImage, backing_image_directory, get_backing_image_file_path, get_backing_image_path,
  get_backing_image_block_file_path, load_backing_image_config, get_all_backup_backing_image_names,
  is_image_in_progress,
}
use backupstore.Images.Delete.{check_and_update_infos, cleanup_image_loop, cleanup_image_blocks}
use backupstore.Images.Separate.{image_block-block, block-image}

-- An image `n` that stays, with the content `j` of its configuration, and a block that it refers to,
-- with its path `p`. The images' directory can be listed while it holds the configuration.
pub record StayingImage {W : Type 0} (env : Env W) (codec : Codec BackupBackingImage)
    (laws : DriverLaws env.driver) : Type 0 where
  pub n : Bytes
  pub c : Bytes
  pub p : FilePath
  pub j : Bytes
  pub b : BackupBackingImage
  pub at_path : get_backing_image_block_file_path env.site c ≡ ok p
  pub decodes : codec.unmarshal j ≡ ok b
  pub refers : RefersTo c b.blocks
  pub listable :
      (w : W)
      → laws.content w (get_backing_image_file_path env.site n) ≡ some j
      → (names : List Bytes) × ((env.driver.list
            (env.site.base ++ (backing_image_directory ∷ backing_image_directory ∷ []))
            w).0
          ≡ ok names)

module _ {W : Type 0} (env : Env W) (codec : Codec BackupBackingImage)
    (laws : DriverLaws env.driver) (host : HostLaws env laws) (s : StayingImage env codec laws)
    (d : Bytes) where
  open env use {driver, site}
  open laws use {content}
  open s use {n, c, p, j}

  abbrev path_of : Bytes → Result FilePath
  path_of = get_backing_image_block_file_path site

  -- The block and the configuration are there.
  abbrev files : List (FilePath × Option Bytes)
  files = (p, some d) ∷ (get_backing_image_file_path site n, some j) ∷ []

  abbrev P : W → Type 0
  P = Holding env laws host files

  guarded : Guarded env P
  guarded = Guarded-Holding env laws host files

  config_path :
      (site.base ++ (backing_image_directory ∷ backing_image_directory ∷ []))
        ++ (n ∷ codes "backing-image.cfg" ∷ [])
      ≡ get_backing_image_file_path site n
  unfolding get_backing_image_file_path get_backing_image_path
  config_path = append_assoc site.base _ _ ∙ sym (append_assoc site.base _ _)

  -- A listing of the images' directory gives the image's name.
  Runs-image_names : Runs P (get_all_backup_backing_image_names env codec) (Has n)
  unfolding get_all_backup_backing_image_names on_result attempt
  Runs-image_names =
      Runs-bind Listed (Has n) _ _
        (record {
          at = λ w h.
              let (names, e) = s.listable w h.1.0 in
              (
                (guarded.list _).at w h,
                (names, e, laws.list_ok _ _ n j names w e (ap (content w) config_path ∙ h.1.0)),
              );
        })
        λ r q. let (names, e, h) = q in rw e (Runs-pure (Has n) _ h)
    where
      Listed : Result (List Bytes) → Type 0
      Listed r = (names : List Bytes) × (r ≡ ok names) × Has n names

  -- The image, where it can be loaded, refers to the block.
  Runs-load : Runs P (load_backing_image_config env codec n) (λ b. RefersTo c b.blocks)
  unfolding load_backing_image_config load_config
  Runs-load =
      Runs-bind R R _ _
        (Runs-after R _ _ (guarded.file_exists _) λ found.
          Runs-if R found _ _
            (λ _.
              Runs-bind (λ content. content ≡ j) R _ _
                (record { at = λ w h. ((guarded.read _).at w h, reads w h) })
                λ content e. Runs-lift R _ (rw (e, s.decodes) s.refers))
            (λ _. Runs-raise R _))
        (λ b h. Runs-pure R _ h)
    where
      R : BackupBackingImage → Type 0
      R b = RefersTo c b.blocks

      reads :
          (w : W)
          → P w
          → OkIs (λ content. content ≡ j) (driver.read (get_backing_image_file_path site n) w).0
      reads w h = OkIs_of_eq _ _ λ a e. some-injective a j (sym (laws.read_ok _ a w e) ∙ h.1.0)

  Keeps-load_image : (m : Bytes) → Keeps P (load_backing_image_config env codec m)
  unfolding load_backing_image_config
  Keeps-load_image m = Keeps-bind _ _ (Keeps-load_config env guarded codec _) λ i. Keeps-pure _

  -- The infos that are counted, where blocks may be deleted.
  abbrev Counted : Option (List BlockInfo) → Type 0
  Counted none = Unit {0}
  Counted (some infos) = WellFormed path_of c infos × IsReferenced c infos

  Runs-check :
      (names : List Bytes) (infos : List BlockInfo)
      → WellFormed path_of c infos
      → Has n names ⊎ IsReferenced c infos
      → Runs P (check_and_update_infos env codec names infos) Counted
  unfolding check_and_update_infos
  Runs-check [] infos wf (inl h) = absurd h
  Runs-check [] infos wf (inr h) = Runs-pure Counted (some infos) (wf, h)
  Runs-check (name ∷ names) infos wf h =
      Runs-bind (OkIs Q) Counted _ _ (Runs-attempt Q _ (load h)) λ r q.
        Runs-on_result Q Counted r _ _ q
          (λ b hb.
            Runs-if Counted (is_image_in_progress b) _ _ (λ _. Runs-pure Counted none tt)
              (λ _.
                Runs-check names (check_block_reference_count infos b.blocks)
                  (check-WellFormed path_of c infos b.blocks wf) (counted b hb)))
          (λ e. Runs-pure Counted none tt)
    where
      Q : BackupBackingImage → Type 0
      Q b = Has n names ⊎ (RefersTo c b.blocks ⊎ IsReferenced c infos)

      kept : ((b : BackupBackingImage) → Q b) → Runs P (load_backing_image_config env codec name) Q
      kept k = record { at = λ w x. ((Keeps-load_image name).at w x, OkIs_of_eq Q _ (λ b _. k b)) }

      load :
          Has n (name ∷ names) ⊎ IsReferenced c infos
          → Runs P (load_backing_image_config env codec name) Q
      load (inl (inl e)) = rw e (Runs-weaken _ Q _ Runs-load (λ b x. inr (inl x)))
      load (inl (inr k)) = kept (λ b. inl k)
      load (inr k) = kept (λ b. inr (inr k))

      counted :
          (b : BackupBackingImage)
          → Q b
          → Has n names ⊎ IsReferenced c (check_block_reference_count infos b.blocks)
      counted b (inl k) = inl k
      counted b (inr (inl k)) = inr (check-RefersTo c infos b.blocks k)
      counted b (inr (inr k)) = inr (check-IsReferenced c infos b.blocks k)

  -- Removing the path of another block, or of no block at all.
  Keeps-remove_block :
      (i : BlockInfo)
      → IsLocated path_of i
      → ((i.checksum =b c) ≡ false) ⊎ (0 < i.refcount)
      → is_block_safe_to_delete i ≡ true
      → Keeps P (driver.remove i.path)
  unfolding is_block_safe_to_delete
  Keeps-remove_block i (inl e) k safe = absurd (ground arith)
  Keeps-remove_block i (inr e) (inr k) safe = absurd (ground arith)
  Keeps-remove_block i (inr e) (inl k) safe = Keeps-remove env laws host i.path files (
    image_block-block site i.checksum c i.path p (λ q. ground (arith, =b_iff i.checksum c)) e
        s.at_path,
    (block-image site n i.checksum i.path e, tt),
  )

  Keeps-cleanup :
      (infos : List BlockInfo) (failures : List Bytes)
      → All (IsLocated path_of) infos
      → All (λ i. ((i.checksum =b c) ≡ false) ⊎ (0 < i.refcount)) infos
      → Keeps P (cleanup_image_loop env codec infos failures)
  unfolding cleanup_image_loop
  Keeps-cleanup [] x l k = Keeps-pure x
  Keeps-cleanup (i ∷ infos) x l k = elim (Bool-cases (is_block_safe_to_delete i)) [
    | inl safe ↦ rw safe (
        Keeps-bind _ _ (Keeps-attempt _ (Keeps-remove_block i l.0 k.0 safe))
          λ r. Keeps-cleanup infos _ l.1 k.1)
    | inr unsafe ↦ rw unsafe (Keeps-cleanup infos _ l.1 k.1)
  ]

  Keeps-cleanup_image_blocks :
      (infos : List BlockInfo)
      → WellFormed path_of c infos
      → IsReferenced c infos
      → Keeps P (cleanup_image_blocks env codec infos)
  unfolding cleanup_image_blocks
  Keeps-cleanup_image_blocks infos wf r =
      Keeps-bind _ _ (Keeps-cleanup infos [] wf.located (All-kept c infos wf.once r))
        λ failures. finish failures
    where
      finish :
          (failures : List Bytes)
          → Keeps P (elim failures [
            | [] ↦ pure tt
            | f ∷ fs ↦ raise (failure (codes "failed to delete blocks"))
          ])
      finish [] = Keeps-pure tt
      finish (f ∷ fs) = Keeps-raise _
