-- ===== src/Images/Upload/Stored.antt =====
-- A mapping of an image that is uploaded has its block in the store (backupbackingimage.go).
use backupstore.Base.{◌∙◌, ◌≡◌, Bool, true, some, arith, Bytes}
use backupstore.Base.Outcome.{Result, ok}
use backupstore.Driver.{FilePath}
use backupstore.Driver.Laws.{DriverLaws}
use backupstore.Driver.Leaves.{
  Leaves, Leaves-pure, Leaves-total, Leaves-if, Leaves-bind, Leaves-attempt, Leaves-lift,
  Leaves-on_result,
}
use backupstore.Config.Store.{Env, Codec}
use backupstore.Upload.Table.{Upload}
use backupstore.Url.{UrlLib}
use backupstore.Images.Store.{BackupBackingImage, get_backing_image_block_file_path}
use backupstore.Images.Upload.{ImageBackup, store_image_block}

module _ {W : Type 0} (env : Env W) (codec : Codec BackupBackingImage) (lib : UrlLib)
    (config : ImageBackup W) (image : BackupBackingImage) (laws : DriverLaws env.driver) where
  open env use {driver, site}
  open laws use {content}

  -- There is a file at the path of the block.
  abbrev pub HasBlock : Bytes → W → Type 0
  HasBlock checksum w =
      (p : FilePath) × (get_backing_image_block_file_path site checksum ≡ ok p)
      × (b : Bytes) × (content w p ≡ some b)

  abbrev Any : W → Type 0
  Any w = Unit {0}

  abbrev pub Stored : Bytes → Result (Unit {0}) × Upload → W → Type 0
  Stored checksum r w = r.0 ≡ ok tt → HasBlock checksum w

  -- Storing a block without an error leaves a file at the path of its checksum, which was there before
  -- or was written, whatever compression gives: when the driver keeps its contract.
  pub store_image_block-HasBlock :
      (checksum block : Bytes) (u : Upload)
      → Leaves Any (store_image_block env codec lib config image checksum block u) (Stored checksum)
  unfolding store_image_block
  store_image_block-HasBlock checksum block u =
      Leaves-bind (λ p w. get_backing_image_block_file_path site checksum ≡ ok p) Q _ _
        (Leaves-lift (λ p w. get_backing_image_block_file_path site checksum ≡ ok p) _
          (λ p w e _. e))
        λ p.
          Leaves-bind (λ found w. Found p found w) Q _ _
            (Leaves-total (λ found w. Found p found w) _ (λ w e. (e, exists p w)))
            λ found.
              Leaves-if Q found _ _
                (λ f. Leaves-pure Q _ (λ w h _. let (b, c) = h.1 f in (p, h.0, b, c)))
                (λ _.
                  Leaves-on_result Q (config.compress_data image.compression_method block) _ _
                    (λ data_block _.
                      Leaves-bind (Written p) Q _ _
                        (Leaves-attempt (Written p) _
                          (λ w h. (h.0, λ e. (data_block, laws.write_ok p data_block w e))))
                        λ r. Leaves-pure Q _ (λ w h e. let (b, c) = h.1 e in (p, h.0, b, c)))
                    (λ e _. Leaves-pure Q _ (λ w h x. ground arith)))
    where
      Q : Result (Unit {0}) × Upload → W → Type 0
      Q = Stored checksum

      IsAt : FilePath → Type 0
      IsAt p = get_backing_image_block_file_path site checksum ≡ ok p

      HasFile : FilePath → W → Type 0
      HasFile p w = (b : Bytes) × (content w p ≡ some b)

      Found : FilePath → Bool → W → Type 0
      Found p found w = IsAt p × (found ≡ true → HasFile p w)

      Written : FilePath → Result (Unit {0}) → W → Type 0
      Written p r w = IsAt p × (r ≡ ok tt → HasFile p w)

      exists :
          (p : FilePath) (w : W)
          → (driver.file_exists p w).0 ≡ true
          → HasFile p (driver.file_exists p w).1
      exists p w e = let (b, c) = laws.file_exists_ok p w e in (b, laws.file_exists_same p p w ∙ c)
