-- ===== src/Tests/Memory/Imaging.antt =====
-- Backing images in a store in memory: two images, one of which goes with its own block.
use backupstore.Base.{
  ℕ, ◌≡◌, ◌≢◌, refl, some, List, [], ◌∷◌, arith, Bytes, codes, inl, if◌then◌else◌, ◌=b◌, All, false,
}
use backupstore.Base.Outcome.{Result, ok, err, panic}
use backupstore.Driver.{FilePath, is_above}
use backupstore.Driver.Leaves.{Leaves}
use backupstore.Driver.Yields.{Yields}
use backupstore.Blocks.Mapping.{BlockMapping, lookup, Ascending}
use backupstore.Blocks.Sort.Slots.{last_lookup, IsAligned}
use backupstore.Config.Paths.{slice}
use backupstore.Config.Store.{Codec}
use backupstore.Lock.Ops.{FileLock, new_lock, upto, absent}
use backupstore.Lock.Priority.{deletion_lock}
use backupstore.Lock.Hold.{under_lock}
use backupstore.Upload.Perform.{start_upload}
use backupstore.Images.Store.{
  BackupBackingImage, get_backing_image_path, get_backing_image_file_path,
  get_backing_image_block_path, get_backing_image_block_file_path,
}
use backupstore.Images.Upload.{
  ImageBackup, sort_image_blocks, store_image_block, create_image_backup,
}
use backupstore.Images.Upload.Sorted.{sort_image_blocks-lookup}
use backupstore.Images.Upload.Stored.{Stored, store_image_block-HasBlock}
use backupstore.Images.Upload.Held.{HeldForJob, create_image_backup-balance}
use backupstore.Images.Delete.{image_lock_name, nameless_image, remove_image_locked}
use backupstore.Images.Safety.{StayingImage}
use backupstore.Images.Safety.Whole.{DoomedImage, removal_keeps_blocks}
use backupstore.Tests.Access.{path_lib}
use backupstore.Tests.Memory.{Store, memory_laws, stored}
use backupstore.Tests.Memory.Deletion.{env, host}

abbrev block : Bytes
block = codes "aabbcc"

abbrev staying_image : BackupBackingImage
staying_image = record (nameless_image (codes "i1")) {
  complete_time = codes "t";
  blocks = record { offset = 0; block_checksum = block } ∷ [];
}

abbrev doomed_image : BackupBackingImage
doomed_image = record (nameless_image (codes "i2")) { complete_time = codes "t" }

abbrev decode : Bytes → Result BackupBackingImage
decode j =
    if j =b 1 ∷ [] then ok staying_image else if j =b 2 ∷ [] then ok doomed_image else err panic

abbrev codec : Codec BackupBackingImage
codec = record { marshal = λ i. []; unmarshal = decode }

abbrev block_path : FilePath
block_path =
    codes "backupstore"
    ∷ codes "backing-images"
    ∷ codes "blocks"
    ∷ codes "aa"
    ∷ codes "bb"
    ∷ codes "aabbcc.blk"
    ∷ []

abbrev image_path : Bytes → FilePath
image_path n =
    codes "backupstore"
    ∷ codes "backing-images"
    ∷ codes "backing-images"
    ∷ n
    ∷ codes "backing-image.cfg"
    ∷ []

abbrev store : Store
store =
    (image_path (codes "i1"), 1 ∷ [])
    ∷ (image_path (codes "i2"), 2 ∷ [])
    ∷ (block_path, 9 ∷ [])
    ∷ []

staying : StayingImage env codec memory_laws
unfolding get_backing_image_block_file_path get_backing_image_block_path slice
staying = record {
  n = codes "i1";
  c = block;
  p = block_path;
  j = 1 ∷ [];
  b = staying_image;
  at_path = refl;
  decodes = refl;
  refers = inl refl;
  listable = λ w h. (_, refl);
}

doomed : DoomedImage codec (some (2 ∷ []))
doomed = record { m = codes "i2"; named = λ x b e k. ground arith }

names_differ : codes "i2" ≢ codes "i1"
names_differ e = ground arith

doomed_stored :
    memory_laws.content store (get_backing_image_file_path env.site (codes "i2")) ≡ some (2 ∷ [])
unfolding memory_laws stored get_backing_image_file_path get_backing_image_path is_above
doomed_stored = refl

staying_stored :
    memory_laws.content store (get_backing_image_file_path env.site (codes "i1")) ≡ some (1 ∷ [])
unfolding memory_laws stored get_backing_image_file_path get_backing_image_path is_above
staying_stored = refl

block_stored : memory_laws.content store block_path ≡ some (9 ∷ [])
unfolding memory_laws stored is_above
block_stored = refl

abbrev after_removal : Store
after_removal =
    (under_lock env (new_lock image_lock_name deletion_lock (codes "1"))
      (remove_image_locked env codec (codes "i2")) store).1

removal_keeps_blocks_example :
    (memory_laws.content after_removal block_path ≡ some (9 ∷ []))
    × (memory_laws.content after_removal (get_backing_image_file_path env.site (codes "i1"))
        ≡ some (1 ∷ []))
unfolding staying doomed
removal_keeps_blocks_example =
    removal_keeps_blocks env codec memory_laws host staying (9 ∷ []) (some (2 ∷ [])) doomed
      names_differ (codes "1") store doomed_stored block_stored staying_stored

abbrev backup : ImageBackup Store
backup = record {
  name = codes "i1";
  dest_url = codes "m";
  parameters = [];
  read_file = λ o n w. (ok (o ∷ []), w);
  compress_data = λ m d. ok d;
  get_progress = λ t p. p;
  format_time = λ n. codes "t";
}

store_image_block-HasBlock_example :
    Leaves
      (λ w. Unit {0})
      (store_image_block env codec path_lib backup staying_image block (9 ∷ []) (start_upload 1))
      (Stored env codec path_lib backup staying_image memory_laws block)
store_image_block-HasBlock_example =
    store_image_block-HasBlock env codec path_lib backup staying_image memory_laws block (9 ∷ [])
      (start_upload 1)

abbrev new : FileLock
new = record {
  name = codes "lock-1";
  kind = 1;
  acquired = false;
  volume = image_lock_name;
  count = upto 0;
  server_time = 0;
  keep_alive = absent;
}

create_image_backup-balance_example :
    Yields (create_image_backup env codec staying_image new) (HeldForJob env codec)
create_image_backup-balance_example =
    create_image_backup-balance env codec staying_image new
      (record { not_acquired = refl; uncounted = refl; not_refreshed = refl })

-- Two blocks of an image of three bytes, in blocks of two.
abbrev blocks : List BlockMapping
blocks =
    record { offset = 2; block_checksum = codes "b" }
    ∷ record { offset = 0; block_checksum = codes "a" }
    ∷ []

aligned : All (IsAligned 2) blocks
aligned = ((refl, λ e. ground arith), ((refl, λ e. ground arith), tt))

sort_image_blocks-lookup_example :
    (out : List BlockMapping) × (sort_image_blocks blocks 3 2 ≡ ok out)
    × Ascending 0 out
    × ((o : ℕ) → lookup o out ≡ last_lookup o blocks)
sort_image_blocks-lookup_example =
    sort_image_blocks-lookup blocks 3 2 (omega arith) aligned (omega arith, (omega arith, tt))
