-- ===== src/Images/Separate.antt =====
-- The files of backing images (backupbackingimage/config.go) are not above one another.
use mathlib.Core.List.{append_assoc, append_cancel_right}
use backupstore.Base.{
  ◌≡◌, ◌≢◌, refl, false, [], ◌∷◌, ◌++◌, arith, leb, Bytes, ◌=b◌, =b_iff, codes, length, take, drop,
  inl, inr, Bool-cases,
}
use backupstore.Base.Outcome.{ok}
use backupstore.Driver.{FilePath, is_above}
use backupstore.Config.Paths.{
  Site, get_volume_path, get_lock_path, get_lock_file_path, is_above-append, blk_suffix,
}
use backupstore.Images.Store.{
  backing_image_directory, get_backing_image_path, get_backing_image_file_path,
  get_backing_image_block_path, get_backing_image_block_file_path,
}

module _ (site : Site) where
  abbrev image_tail : Bytes → FilePath
  image_tail n =
      backing_image_directory ∷ backing_image_directory ∷ n ∷ codes "backing-image.cfg" ∷ []

  abbrev image_block_tail : Bytes → Bytes → Bytes → FilePath
  image_block_tail a b c = backing_image_directory ∷ codes "blocks" ∷ a ∷ b ∷ (c ++ blk_suffix) ∷ []

  image_path : (n : Bytes) → get_backing_image_file_path site n ≡ site.base ++ image_tail n
  unfolding get_backing_image_file_path get_backing_image_path
  image_path n = append_assoc site.base _ _

  image_block_path :
      (c : Bytes) (p : FilePath)
      → get_backing_image_block_file_path site c ≡ ok p
      → (a : Bytes) × (b : Bytes) × (p ≡ site.base ++ image_block_tail a b c)
  unfolding get_backing_image_block_file_path get_backing_image_block_path
  image_block_path c p h = elim (Bool-cases (leb 4 (length c))) [
    | inl long ↦ (
      drop 0 (take 2 c),
      drop 2 (take 4 c),
      ground (
        arith,
        append_assoc site.base (backing_image_directory ∷ codes "blocks" ∷ [])
            (drop 0 (take 2 c) ∷ drop 2 (take 4 c) ∷ (c ++ blk_suffix) ∷ []),
      ),
    )
    | inr short ↦ absurd (ground arith)
  ]

  pub image-image :
      (m n : Bytes)
      → m ≢ n
      → is_above (get_backing_image_file_path site m) (get_backing_image_file_path site n) ≡ false
  unfolding is_above
  image-image m n ne = rw (image_path m, image_path n, is_above-append) (ground (arith, =b_iff m n))

  pub image-block :
      (n c : Bytes) (p : FilePath)
      → get_backing_image_block_file_path site c ≡ ok p
      → is_above (get_backing_image_file_path site n) p ≡ false
  unfolding is_above
  image-block n c p h =
      let (a, b, e) = image_block_path c p h in rw (image_path n, e, is_above-append) refl

  pub block-image :
      (n c : Bytes) (p : FilePath)
      → get_backing_image_block_file_path site c ≡ ok p
      → is_above p (get_backing_image_file_path site n) ≡ false
  unfolding is_above
  block-image n c p h =
      let (a, b, e) = image_block_path c p h in rw (image_path n, e, is_above-append) refl

  pub image_block-block :
      (c d : Bytes) (p q : FilePath)
      → c ≢ d
      → get_backing_image_block_file_path site c ≡ ok p
      → get_backing_image_block_file_path site d ≡ ok q
      → is_above p q ≡ false
  unfolding is_above
  image_block-block c d p q ne hp hq =
      let (a, b, e) = image_block_path c p hp in
      let (a', b', e') = image_block_path d q hq in rw (e, e', is_above-append) (tails a b a' b')
    where
      names : ((c ++ blk_suffix) =b (d ++ blk_suffix)) ≡ false
      names = ground (
        arith,
        =b_iff (c ++ blk_suffix) (d ++ blk_suffix),
        λ (e : c ++ blk_suffix ≡ d ++ blk_suffix). append_cancel_right c d blk_suffix e,
      )

      tails :
          (a b a' b' : Bytes) → is_above (image_block_tail a b c) (image_block_tail a' b' d) ≡ false
      tails a b a' b' = ground (arith, names)

  -- A lock's file, whatever the volume.
  lock_apart :
      (v m : Bytes) (tail : FilePath)
      → is_above (get_lock_file_path site v m) (site.base ++ (backing_image_directory ∷ tail))
        ≡ false
  unfolding get_lock_file_path get_lock_path get_volume_path is_above
  lock_apart v m tail = rw (append_assoc, append_assoc, is_above-append) refl

  pub lock-image :
      (v m n : Bytes)
      → is_above (get_lock_file_path site v m) (get_backing_image_file_path site n) ≡ false
  lock-image v m n = rw (image_path n) (lock_apart v m _)

  pub lock-image_block :
      (v m c : Bytes) (p : FilePath)
      → get_backing_image_block_file_path site c ≡ ok p
      → is_above (get_lock_file_path site v m) p ≡ false
  lock-image_block v m c p h = let (a, b, e) = image_block_path c p h in rw e (lock_apart v m _)
