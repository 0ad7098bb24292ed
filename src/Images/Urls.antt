-- ===== src/Images/Urls.antt =====
-- backupbackingimage/config.go: the URL of an image's backup, and its inspection.
use backupstore.Base.{ℕ, List, [], ◌∷◌, ◌++◌, Bytes, if◌then◌else◌, codes}
use backupstore.Base.Outcome.{Result, ok, err, failure, Exec, pure, raise, lift, ◌>>=◌}
use backupstore.Util.Names.{validate_name}
use backupstore.Url.{UrlLib, get, add}
use backupstore.Config.Store.{Codec}
use backupstore.Images.Store.{BackupBackingImage, load_backing_image_config, is_image_in_progress}
use backupstore.Access.{Access, env_at}

-- What DecodeBackupBackingImageURL returns.
pub record ImageTarget : Type 0 where
  pub image_name : Bytes
  pub dest_url : Bytes

pub record ImageInfo : Type 0 where
  pub name : Bytes
  pub url : Bytes
  pub complete_at : Bytes
  pub size : ℕ
  pub checksum : Bytes
  pub labels : List (Bytes × Bytes)
  pub compression_method : Bytes
  pub secret : Bytes
  pub secret_namespace : Bytes

module _ (lib : UrlLib) where
  unfoldable pub encode_image_url : Bytes → Bytes → Bytes
  unfolding add
  encode_image_url image_name dest_url =
      dest_url ++ (b'?' ∷ lib.encode (add [] (codes "backingImage") image_name))

  unfoldable pub decode_image_url : Bytes → Result ImageTarget
  unfolding get
  decode_image_url backup_url = elim (lib.parse backup_url) [
    | err e ↦ err e
    | ok u ↦
        let name = get (lib.parse_query u.raw_query).0 (codes "backingImage") in
        if validate_name name
        then ok (record { image_name = name; dest_url = lib.print (record u { raw_query = [] }) })
        else err (failure (codes "invalid backing image name parsed"))
  ]

  unfoldable pub fill_image_info : BackupBackingImage → Bytes → ImageInfo
  fill_image_info image dest_url = record {
    name = image.name;
    url = encode_image_url image.name dest_url;
    complete_at = image.complete_time;
    size = image.size;
    checksum = image.checksum;
    labels = image.labels;
    compression_method = image.compression_method;
    secret = image.secret;
    secret_namespace = image.secret_namespace;
  }

module _ {W : Type 0} (access : Access W) (codec : Codec BackupBackingImage) where
  -- The driver is that of the decoded destination.
  unfoldable pub inspect_backing_image : Bytes → Exec W ImageInfo
  inspect_backing_image backup_url = do
    target ← lift (decode_image_url access.lib backup_url)
    env ← env_at access target.dest_url
    image ← load_backing_image_config env codec target.image_name
    if is_image_in_progress image
        then raise (failure (codes "backup backing image is still in progress"))
        else pure (fill_image_info access.lib image env.driver.get_url)
