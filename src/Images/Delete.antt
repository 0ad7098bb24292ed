-- ===== src/Images/Delete.antt =====
-- RemoveBackingImageBackup of backupbackingimage.go: an image's backup is removed, and then the
-- blocks that no other image refers to.
use backupstore.Base.{Option, none, some, List, [], ◌∷◌, ◌++◌, Bytes, if◌then◌else◌, codes}
use backupstore.Base.Outcome.{
  on_result, ok, err, failure, Exec, pure, raise, attempt, lift, ◌>>=◌, ◌>>◌,
}
use backupstore.Config.Store.{Env, Codec}
use backupstore.Gc.Infos.{
  BlockInfo, is_block_safe_to_delete, init_infos, check_block_reference_count,
}
use backupstore.Lock.Ops.{new_lock}
use backupstore.Lock.Priority.{deletion_lock}
use backupstore.Lock.Hold.{under_lock}
use backupstore.Util.Unordered.{unordered_equal}
use backupstore.Images.Store.{
  BackupBackingImage, get_backing_image_block_file_path, load_backing_image_config,
  is_image_in_progress, remove_backup_backing_image, get_all_backup_backing_image_names,
  get_all_block_names,
}
use backupstore.Images.Urls.{decode_image_url}
use backupstore.Access.{Access, env_at}

-- The image to remove where its configuration cannot be loaded.
abbrev pub nameless_image : Bytes → BackupBackingImage
nameless_image name = record {
  name = name;
  size = 0;
  block_count = 0;
  checksum = [];
  labels = [];
  compression_method = [];
  created_time = [];
  complete_time = [];
  secret = [];
  secret_namespace = [];
  processing_blocks = [];
  blocks = [];
}

module _ {W : Type 0} (env : Env W) (codec : Codec BackupBackingImage) where
  open env use {driver, site}

  -- getBlockInfos; the path of a short name is a panic.
  unfoldable pub get_image_block_infos : Exec W (List BlockInfo)
  get_image_block_infos = do
    names ← get_all_block_names env codec
    lift (init_infos (get_backing_image_block_file_path site) names [])

  -- checkAndUpdateBlockInfos: the counted infos, or none where no block may be deleted.
  unfoldable pub check_and_update_infos :
      List Bytes → List BlockInfo → Exec W (Option (List BlockInfo))
  check_and_update_infos [] infos = pure (some infos)
  check_and_update_infos (name ∷ names) infos = do
    loaded ← attempt (load_backing_image_config env codec name)
    on_result loaded
        (λ image.
          let rest =
            check_and_update_infos names (check_block_reference_count infos image.blocks) in
          if is_image_in_progress image then pure none else rest)
        (λ e. pure none)

  -- The loop of cleanupBlocks: the checksums of the blocks that could not be removed.
  unfoldable pub cleanup_image_loop : List BlockInfo → List Bytes → Exec W (List Bytes)
  cleanup_image_loop [] failures = pure failures
  cleanup_image_loop (blk ∷ infos) failures =
      if is_block_safe_to_delete blk
      then (do
        removed ← attempt (driver.remove blk.path)
        cleanup_image_loop infos
            (elim removed [ ok _ ↦ failures | err e ↦ failures ++ blk.checksum ∷ [] ]))
      else cleanup_image_loop infos failures

  unfoldable pub cleanup_image_blocks : List BlockInfo → Exec W (Unit {0})
  cleanup_image_blocks infos = do
    failures ← cleanup_image_loop infos []
    elim failures [ [] ↦ pure tt | f ∷ fs ↦ raise (failure (codes "failed to delete blocks")) ]

  -- The part that runs under the lock.
  unfoldable pub remove_image_locked : Bytes → Exec W (Unit {0})
  remove_image_locked image_name = do
    loaded ← attempt (load_backing_image_config env codec image_name)
    let image = elim loaded as (λ _. BackupBackingImage) [
      | ok image ↦ image
      | err e ↦ nameless_image image_name
    ]
    remove_backup_backing_image env codec image
    infos ← get_image_block_infos
    names ← get_all_backup_backing_image_names env codec
    counted ← check_and_update_infos names infos
    elim counted [
      | none ↦ pure tt
      | some infos ↦ (do
        names_after ← get_all_backup_backing_image_names env codec
        if unordered_equal names names_after then cleanup_image_blocks infos else pure tt)
    ]

-- The lock of all images; `suffix` is the generated part of its name.
abbrev pub image_lock_name : Bytes
image_lock_name = codes "BACKINGIMAGE"

module _ {W : Type 0} (access : Access W) (codec : Codec BackupBackingImage) where
  unfoldable pub remove_image_backup : Bytes → Bytes → Exec W (Unit {0})
  remove_image_backup backup_url suffix = do
    env ← env_at access backup_url
    target ← lift (decode_image_url access.lib backup_url)
    (removed, lock) ←
        under_lock env (new_lock image_lock_name deletion_lock suffix)
          (remove_image_locked env codec target.image_name)
    lift removed
