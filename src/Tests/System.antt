-- ===== src/Tests/System.antt =====
-- System backups: the round trip of their URLs, and a download.
use backupstore.Base.{List, [], ◌∷◌, ◌++◌, ◌==◌, Bytes, codes, if◌then◌else◌, drop}
use backupstore.Base.Outcome.{Result, ok, err, panic, Exec}
use backupstore.Util.Names.{has_prefix}
use backupstore.Driver.Leaves.{Leaves}
use backupstore.SystemBackup.{SystemConfig, download}
use backupstore.SystemBackup.Urls.{join_slash}
use backupstore.SystemBackup.Laws.{absolute, absolute}
use backupstore.SystemBackup.Checked.{IsChecked, download-IsChecked}
use backupstore.Url.{Url, UrlLib}
use backupstore.Config.Store.{Codec}
use backupstore.Tests.Access.{access, path_lib, empty_url}
use backupstore.Tests.Memory.{Store}

-- URLs of one bucket: "b@r" and the path.
abbrev bucket : Bytes
bucket = codes "b@r"

unfoldable rooted : Bytes → Bytes
rooted [] = []
rooted (c ∷ s) = if c == b'/' then c ∷ s else b'/' ∷ c ∷ s

abbrev the_url : Bytes → Url
the_url path = record empty_url {
  scheme = codes "s3";
  user = codes "b";
  host = codes "r";
  path = path;
}

-- What follows the bucket.
unfoldable after_bucket : Bytes → Result Bytes
after_bucket s = if has_prefix s bucket then ok (drop 3 s) else err panic

abbrev bucket_lib : UrlLib
bucket_lib = record path_lib {
  parse = λ s. elim (after_bucket s) [ err e ↦ err e | ok p ↦ ok (the_url (rooted p)) ];
  print = λ u. bucket ++ u.path;
}

unfoldable join_path : Bytes → List Bytes → Bytes
join_path [] qs = join_slash qs
join_path (c ∷ []) qs = if c == b'/' then absolute qs else c ∷ absolute qs
join_path (c ∷ d ∷ p) qs = (c ∷ d ∷ p) ++ absolute qs

abbrev cfg : SystemConfig
cfg = record {
  name = codes "sys";
  longhorn_version = codes "v1.4.0";
  longhorn_git_commit = [];
  backup_target_url = codes "m";
  manager_image = [];
  engine_image = [];
  created_at = 0;
  checksum = codes "sum";
}

abbrev local_checksum : Bytes → Exec Store Bytes
local_checksum f w = (ok (codes "sum"), w)

abbrev remove_local : Bytes → Exec Store (Unit {0})
remove_local f w = (ok tt, w)

abbrev codec : Codec SystemConfig
codec = record { marshal = λ c. []; unmarshal = λ j. ok cfg }

download-IsChecked_example :
    Leaves
      (λ w. Unit {0})
      (download access codec local_checksum remove_local (codes "f") cfg)
      (λ _. IsChecked access codec local_checksum remove_local (codes "f") cfg)
download-IsChecked_example =
    download-IsChecked access codec local_checksum remove_local (codes "f") cfg
